-- ===== src/Kernel/Creation.antt =====
-- `CreateProcess` of Source/SystemCalls/Native.cpp. The caller's list of memory blocks is given by
-- its address, the registers are 32-bit values, and fuel bounds the loops over pages.
use x3c0_microkernel.Common.{
  ℕ, zero, suc, ◌+◌, ◌*◌, true, false, not, Option, none, some, ltb, ◌!=◌, if◌then◌else◌, ◌>>=◌,
  update,
}
use x3c0_microkernel.Common.Words.{u32, u64, sub_u32}
use x3c0_microkernel.Bitmap
use x3c0_microkernel.Security
use x3c0_microkernel.LinkedList
use x3c0_microkernel.LinkedList.{new_node}
use x3c0_microkernel.Thread.{new_thread, initial_state}
use x3c0_microkernel.Process
use x3c0_microkernel.Virtual.{Virtual}
use x3c0_microkernel.Virtual.Spaces.{Spaces, clone_page_directory, copy_to_address_space}
use x3c0_microkernel.SystemCalls.{is_address_valid}
use x3c0_microkernel.Kernel.{Kernel}
use x3c0_microkernel.Kernel.Starting.{start}
use x3c0_microkernel.Kernel.Sleeping.{add_process}
use x3c0_microkernel.Kernel.Calls.{Surroundings}
use x3c0_microkernel.Kernel.Delivery.{Mail, spaces}

-- `UserLevelStructures::MemoryBlock`, 12 bytes.
pub record MemoryBlock : Type 0 where
  pub start : ℕ
  pub end : ℕ
  pub copy_to : ℕ

-- `ProcessState::Running`.
abbrev pub running : ℕ
running = 0x2

-- `UserHeapStart`.
abbrev pub user_heap_start : ℕ
user_heap_start = 0xe0000000

-- A loop over the pages from `base + i` to `base + limit`: the code of the first bad one, or 0. The
-- counter has 32 bits.
unfoldable pub check_from : (fuel : ℕ) → Virtual → (base i limit : ℕ) → Option ℕ
check_from zero v base i limit = none
check_from (suc fuel) v base i limit =
    let valid = is_address_valid v (u64 (base + i)) true in
    let rest = check_from fuel v base (u32 (i + 0x1000)) limit in
    if ltb i limit then (if valid != 0 then some valid else rest) else some 0

-- The code for one block.
unfoldable pub check_block : (fuel : ℕ) → Virtual → MemoryBlock → Option ℕ
check_block fuel v b =
    if ltb b.end b.start
    then some 4
    else if ltb user_heap_start b.end
    then some 5
    else check_from fuel v 0 b.start b.end

-- The loop over `left` blocks, the next of them at `at`: the first code that is not 0.
unfoldable pub check_blocks :
    (fuel : ℕ) → Virtual → (block_at : ℕ → MemoryBlock) → (left at : ℕ) → Option ℕ
check_blocks fuel v block_at zero at = some 0
check_blocks fuel v block_at (suc left) at = check_block fuel v (block_at at) >>= λ valid.
    if valid != 0 then some valid else check_blocks fuel v block_at left (at + 12)

module _ (m : Surroundings) (block_at : ℕ → MemoryBlock) where
  -- The loop that fills the new address space. The size of a block is taken the wrong way round,
  -- and `false` stands where the address space is asked for.
  unfoldable pub copy_blocks : Spaces → (left at : ℕ) → Option Spaces
  copy_blocks s zero at = some s
  copy_blocks s (suc left) at =
      let b = block_at at in
      copy_to_address_space m.undef s b.start (sub_u32 b.start b.end) b.copy_to 0 true true >>= λ t.
      copy_blocks t left (at + 12)

  -- `new Process(directory, 0)`: the process, the first node of its threads and that of its current
  -- one are the first three allocations. `raw` and `driver` are what the memory held.
  unfoldable pub construct_process : Kernel → (raw : ℕ → ℕ) → (driver directory : ℕ) → Option Kernel
  construct_process k raw driver directory =
      Process.create raw driver directory 0 running 0 >>= λ process.
      let (h, l) = LinkedList.create k.nodes (m.allocated 1) 0 in
      some (record k {
        nodes = new_node h (m.allocated 2) 0;
        processes = update k.processes (m.allocated 0) process;
        process_threads =
            update k.process_threads (m.allocated 0)
              (record { threads = l; current_thread = m.allocated 2 });
      })

  -- `new Thread(ecx, p)` and its registers.
  abbrev pub first_thread : Kernel → (ecx : ℕ) → Kernel
  first_thread k ecx = record k {
    threads = update k.threads (m.allocated 3) (new_thread (m.allocated 4) (m.allocated 0) false);
    states = update k.states (m.allocated 4) (initial_state m.raw m.rflags ecx);
  }

  -- What follows the tests. The thread's one argument is read through null.
  unfoldable pub load_process : Mail → (raw : ℕ → ℕ) → (driver eax ebx ecx : ℕ) → Option Mail
  load_process mail raw driver eax ebx ecx = do
    c ← clone_page_directory m.undef (spaces mail) mail.kernel.space.kernel false
    k ← construct_process mail.kernel raw driver c.1
    s ← copy_blocks c.0 ebx eax
    j ←
        start m.undef m.return_method m.ring3_start
          (first_thread (record k { space = s.space }) ecx) (m.allocated 3) 0 1 (m.allocated 5)
          (m.allocated 6)
    i ← add_process j (m.allocated 7) (m.allocated 0)
    some (record mail { kernel = i; frames = s.frames; copied = s.copied })

  -- `CreateProcess`: the state and the code returned.
  unfoldable pub create_process :
      Mail → (raw : ℕ → ℕ) → (driver eax ebx ecx : ℕ) → Option (Mail × ℕ)
  create_process mail raw driver eax ebx ecx =
      let k = mail.kernel in
      let p = k.scheduler.current_process in
      Bitmap.test_bit (k.processes p).security_privileges Security.create_process >>= λ allowed.
      if not allowed
      then some (mail, 3)
      else check_from m.fuel k.space eax 0 (ebx * 12) >>= λ valid.
          if valid != 0
          then some (mail, valid)
          else check_blocks m.fuel k.space block_at ebx eax >>= λ bad.
              if bad != 0
              then some (mail, bad)
              else load_process mail raw driver eax ebx ecx >>= λ done. some (done, 0)
