-- ===== src/Kernel/Calls.antt =====
-- The system calls of Source/SystemCalls/Native.cpp that act on threads, processes and messages. A
-- process runs, so that the scheduler's pointers to it are not null. `none` is a fault of the kernel.
use x3c0_microkernel.Common.{
  ℕ, zero, suc, ◌+◌, ◌*◌, ◌^◌, bit_and, bit_or, Bool, true, false, not, ◌&&◌, Option, none, some,
  List, [], ◌∷◌, ltb, ◌==◌, ◌!=◌, if◌then◌else◌, update, ◌>>=◌,
}
use x3c0_microkernel.Common.Words.{u32, u64}
use x3c0_microkernel.Bitmap
use x3c0_microkernel.Security
use x3c0_microkernel.Security.{security_privilege_count}
use x3c0_microkernel.LinkedList.{Heap, load, remove_item, free_from}
use x3c0_microkernel.StackStates.{Interrupt, X86Stack}
use x3c0_microkernel.Thread.{
  Thread, new_thread, initial_state, get_status, status_interrupt_message,
}
use x3c0_microkernel.Process.{is_driver, set_receipt_method, toggle_security_privilege}
use x3c0_microkernel.Messages
use x3c0_microkernel.Messages.{Message, Sent, send_status_change}
use x3c0_microkernel.Virtual.{Virtual}
use x3c0_microkernel.SystemCalls.{is_address_valid, perform_page_management}
use x3c0_microkernel.SystemCalls.IdentityMapping.{request_identity_mapping}
use x3c0_microkernel.Kernel.{Kernel}
use x3c0_microkernel.Kernel.Switching.{yield, remove_process}
use x3c0_microkernel.Kernel.Starting.{start}
use x3c0_microkernel.Kernel.Sleeping.{sleep, wake}

-- What a call leaves: the state, the registers of the caller, the messages sent and the code.
pub record Reply : Type 0 where
  pub kernel : Kernel
  pub stack : Interrupt
  pub sent : List Sent
  pub result : ℕ

abbrev pub reply : Kernel → Interrupt → (result : ℕ) → Option Reply
reply k stack result = some (record { kernel = k; stack = stack; sent = []; result = result })

-- `UserLevelStructures::Message`.
pub record UserMessage : Type 0 where
  pub contents : ℕ
  pub length : ℕ
  pub code : ℕ
  pub source : ℕ
  pub message_chain : ℕ

-- What the calls take from their surroundings: the fuel of their loops, the value of an undefined
-- shift and of the floating-point product, two addresses of Source/Multitasking/Thread.cpp, what the
-- allocator returns to the allocations of a call in turn, the place of a local variable, what the
-- memory of new registers held, the processor's flags, and a message in the memory of the caller.
pub record Surroundings : Type 0 where
  pub fuel : ℕ
  pub undef : ℕ → ℕ
  pub scale : ℕ → ℕ → ℕ
  pub return_method : ℕ
  pub ring3_start : ℕ
  pub allocated : ℕ → ℕ
  pub local : ℕ
  pub raw : X86Stack
  pub rflags : ℕ
  pub message_at : ℕ → UserMessage

-- The loop over the threads in `SleepThread`: does each of them sleep?
unfoldable pub all_sleeping : (fuel : ℕ) → Heap → (ℕ → Thread) → (nd : ℕ) → Option Bool
all_sleeping zero nodes threads nd = none
all_sleeping (suc fuel) nodes threads nd =
    if nd == 0
    then some true
    else load nodes nd >>= λ n.
        let rest = all_sleeping fuel nodes threads n.next in
        if n.value == 0 then some true else if (threads n.value).sleeping then rest else some false

-- The loop over the pages of the data in `SendMessage`: the code of the first bad one, or 0.
unfoldable pub check_pages : (fuel : ℕ) → Virtual → (i limit : ℕ) → Option ℕ
check_pages zero v i limit = none
check_pages (suc fuel) v i limit =
    let valid = is_address_valid v i true in
    let rest = check_pages fuel v (u64 (i + 4096)) limit in
    if ltb i limit then (if valid != 0 then some valid else rest) else some 0

-- A driver that waits for the thread of an interrupt message to end can be told of interrupts again.
unfoldable pub release_driver : Kernel → (eax : ℕ) → (thread : Thread) → Kernel
release_driver k eax thread =
    let d = (k.processes thread.parent).driver in
    if bit_and (get_status thread) status_interrupt_message == status_interrupt_message
      && eax == 0
      && is_driver (k.processes thread.parent)
      && not (k.drivers d).can_receive_irq
    then record k { drivers = update k.drivers d (record (k.drivers d) { can_receive_irq = true }) }
    else k

-- What `KillThread` does once the thread is known.
unfoldable pub end_thread : (fuel : ℕ) → Kernel → (eax thread : ℕ) → Option Kernel
end_thread fuel k eax thread =
    let p = (k.threads thread).parent in
    let k = release_driver k eax (k.threads thread) in
    let own = k.process_threads p in
    remove_item fuel k.nodes own.threads thread >>= λ (h, l).
    let s = k.scheduler in
    let j = record k {
      nodes = h;
      process_threads = update k.process_threads p (record own { threads = l });
      scheduler = if eax == 0 then record s { current_thread = 0 } else s;
    } in
    if l.count == 0 then remove_process fuel j p else some j

module _ (m : Surroundings) where
  -- `new Thread(start, p)`: the thread and its registers are the first two allocations.
  abbrev pub construct_thread : Kernel → (start p : ℕ) → Kernel
  construct_thread k start p = record k {
    threads = update k.threads (m.allocated 0) (new_thread (m.allocated 1) p false);
    states = update k.states (m.allocated 1) (initial_state m.raw m.rflags start);
  }

  unfoldable pub create_thread : (eax ebx : ℕ) → Kernel → Interrupt → Option Reply
  create_thread eax ebx k stack =
      let valid = is_address_valid k.space eax true in
      let p = k.scheduler.current_process in
      if valid != 0
      then reply k stack valid
      else Bitmap.test_bit (k.processes p).security_privileges Security.create_thread >>= λ allowed.
          if not allowed
          then reply k stack 3
          else start m.undef m.return_method m.ring3_start (construct_thread k eax p)
              (m.allocated 0) ebx 1 (m.allocated 2) (m.allocated 3)
            >>= λ j. wake m.fuel m.local j (m.allocated 4) p >>= λ (j, sent).
                some (record { kernel = j; stack = stack; sent = sent; result = 0 })

  unfoldable pub kill_thread : (eax : ℕ) → Kernel → Interrupt → Option Reply
  kill_thread eax k stack =
      let valid = is_address_valid k.space eax true in
      if eax != 0 && valid != 0
      then reply k stack valid
      else let thread = if eax != 0 then eax else k.scheduler.current_thread in
        end_thread m.fuel k eax thread >>= λ j. reply j stack 0

  -- `KillProcess`. The nodes of its threads are freed with the process; what else the destructors
  -- give back is not part of the state, and what stood in the freed process is read once more.
  unfoldable pub kill_process : (eax ebx : ℕ) → Kernel → Interrupt → Option Reply
  kill_process eax ebx k stack =
      let p = if eax == 0 then k.scheduler.current_process else eax in
      let valid = is_address_valid k.space eax false in
      if valid != 0
      then reply k stack valid
      else remove_process m.fuel k p >>= λ j.
          free_from m.fuel j.nodes (j.process_threads p).threads.first >>= λ h.
          let sent =
            send_status_change m.local (j.processes p) p
              (bit_or (2 * 2 ^ 16) (bit_and ebx 0xffff)) in
          yield m.fuel m.scale (record j { nodes = h }) stack >>= λ (j, next).
          some (record { kernel = j; stack = next; sent = sent; result = 0 })

  -- `SendMessage`: the message for the process at EBX, if it takes messages.
  unfoldable pub send_message : (eax ebx : ℕ) → Kernel → Interrupt → Option Reply
  send_message eax ebx k stack =
      let valid = is_address_valid k.space eax true in
      let p = k.scheduler.current_process in
      let user = m.message_at eax in
      if valid != 0
      then reply k stack valid
      else Bitmap.test_bit (k.processes p).security_privileges Security.message_passing
        >>= λ allowed.
            if not allowed
            then reply k stack 3
            else check_pages m.fuel k.space user.contents (u64 (user.contents + user.length))
              >>= λ bad.
                  if bad != 0
                  then reply k stack bad
                  else let known = is_address_valid k.space ebx true in
                    if known != 0
                    then reply k stack known
                    else let msg : Sent = record {
                      message =
                          Messages.create user.contents user.length p ebx user.code
                            user.message_chain;
                      word = k.space.memory user.contents;
                    } in
                      some (record {
                        kernel = k;
                        stack = stack;
                        sent = if (k.processes ebx).on_receipt == 0 then [] else msg ∷ [];
                        result = 0;
                      })

  unfoldable pub yield_call : Kernel → Interrupt → Option Reply
  yield_call k stack =
      let p = k.scheduler.current_process in
      Bitmap.test_bit (k.processes p).security_privileges Security.yield_timeslice >>= λ allowed.
      if not allowed
      then reply k stack 3
      else yield m.fuel m.scale k stack >>= λ (j, next).
          some (record { kernel = j; stack = next; sent = []; result = 0 })

  unfoldable pub sleep_thread : Kernel → Interrupt → Option Reply
  sleep_thread k stack =
      let p = k.scheduler.current_process in
      let t = k.scheduler.current_thread in
      let k = record k {
        threads = update k.threads t (record (k.threads t) { sleeping = true });
      } in
      all_sleeping m.fuel k.nodes k.threads (k.process_threads p).threads.first >>= λ all.
      if not all
      then reply k stack 0
      else sleep m.fuel m.local k (m.allocated 0) p >>= λ (j, sent).
          yield m.fuel m.scale j stack >>= λ (j, next).
          some (record { kernel = j; stack = next; sent = sent; result = 0 })

  unfoldable pub wake_thread : (eax : ℕ) → Kernel → Interrupt → Option Reply
  wake_thread eax k stack =
      let valid = is_address_valid k.space eax true in
      if valid != 0
      then reply k stack valid
      else let awake = record (k.threads eax) { sleeping = false } in
        wake m.fuel m.local (record k { threads = update k.threads eax awake }) (m.allocated 0)
          awake.parent
        >>= λ (j, sent). some (record { kernel = j; stack = stack; sent = sent; result = 0 })

-- The calls on the caller's own process and memory.
unfoldable pub set_receipt_call : (eax : ℕ) → Kernel → Interrupt → Option Reply
set_receipt_call eax k stack =
    let valid = is_address_valid k.space eax true in
    let p = k.scheduler.current_process in
    if valid != 0
    then reply k stack valid
    else reply
        (record k { processes = update k.processes p (set_receipt_method (k.processes p) eax) })
        stack 0

unfoldable pub toggle_call : (eax : ℕ) → Kernel → Interrupt → Option Reply
toggle_call eax k stack =
    let p = k.scheduler.current_process in
    toggle_security_privilege (k.processes p) eax >>= λ (q, code).
    reply (record k { processes = update k.processes p q }) stack code

unfoldable pub security_privilege_status : (eax : ℕ) → Kernel → Interrupt → Option Reply
security_privilege_status eax k stack =
    let p = k.scheduler.current_process in
    if ltb 20 eax
    then reply k stack 4
    else Bitmap.test_bit (k.processes p).security_privileges eax >>= λ on.
        reply k (record stack { rbx = if on then 1 else 0 }) 0

unfoldable pub page_management_call :
    (undef : ℕ → ℕ) → (eax ebx : ℕ) → Kernel → Interrupt → Option Reply
page_management_call undef eax ebx k stack =
    perform_page_management undef k.space eax ebx stack.rbx >>= λ (v, rbx, code).
    reply (record k { space = v }) (record stack { rbx = rbx }) code

unfoldable pub identity_mapping_call :
    (undef : ℕ → ℕ) → (fuel eax ebx : ℕ) → Kernel → Interrupt → Option Reply
identity_mapping_call undef fuel eax ebx k stack =
    request_identity_mapping undef fuel k.space eax ebx >>= λ (v, code).
    reply (record k { space = v }) stack code

-- The calls that do nothing but check an address, or nothing at all.
unfoldable pub create_shared_page : (eax : ℕ) → Kernel → Interrupt → Option Reply
create_shared_page eax k stack = reply k stack (is_address_valid k.space eax true)

unfoldable pub get_current_thread : Kernel → Interrupt → Option Reply
get_current_thread k stack = reply k stack (u32 k.scheduler.current_thread)
