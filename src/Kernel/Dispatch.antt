-- ===== src/Kernel/Dispatch.antt =====
-- `SystemCallInterrupt::receive` of Source/SystemCalls/Native.cpp and of
-- Source/SystemCalls/POSIXInterface.cpp: the call whose number is in RDX. `calls` is the object's
-- array; a call gets the lower halves of three registers and returns 32 bits.
use x3c0_microkernel.Common.{
  ℕ, ◌^◌, ◌<◌, ◌≤◌, ◌≡◌, ◌≢◌, refl, true, false, Option, some, List, [], length, get_elem?, arith,
  leb, ◌==◌, if◌then◌else◌, ==_ne, ◌>>=◌,
}
use x3c0_microkernel.Common.Words.{u32}
use x3c0_microkernel.StackStates.{Interrupt}
use x3c0_microkernel.Messages.{Sent}
use x3c0_microkernel.Kernel.{Kernel}
use x3c0_microkernel.Kernel.Calls.{Reply}

abbrev pub Call : Type 0
Call = (eax ebx ecx : ℕ) → Kernel → Interrupt → Option Reply

-- The state, the registers that the caller goes on with, and the messages.
abbrev pub Received : Type 0
Received = Kernel × Interrupt × List Sent

-- The call of a number within the array.
abbrev pub run_call : List Call → Kernel → Interrupt → Option Reply
run_call calls k stack = get_elem? calls stack.rdx >>= λ call.
    call (u32 stack.rax) (u32 stack.rbx) (u32 stack.rcx) k stack

-- The result is stored unless the instruction pointer is another one than `rip`.
abbrev pub store_result : (rip : ℕ) → Reply → Received
store_result rip r =
    (r.kernel, (if r.stack.rip == rip then record r.stack { rax = r.result } else r.stack), r.sent)

-- `receive` for the native calls.
unfoldable pub receive : List Call → Kernel → Interrupt → Option Received
receive calls k stack =
    if leb (length calls) stack.rdx
    then some (k, record stack { rax = 0xFFFFFFFF }, [])
    else run_call calls k stack >>= λ r. some (store_result stack.rip r)

-- `receive` for the POSIX calls, which keeps the instruction pointer in 32 bits.
unfoldable pub posix_receive : List Call → Kernel → Interrupt → Option Received
posix_receive calls k stack =
    let rip = u32 stack.rip in
    if leb (length calls) stack.rdx
    then some (k, record stack { rax = 0xFFFFFFFF }, [])
    else run_call calls k stack >>= λ r. some (store_result rip r)

-- With an instruction pointer below 2^32, the POSIX calls are received as the native ones are.
pub posix_receive-receive :
    (calls : List Call) (k : Kernel) (stack : Interrupt)
    → stack.rip < 2 ^ 32
    → posix_receive calls k stack ≡ receive calls k stack
unfolding receive posix_receive
posix_receive-receive calls k stack small =
    let whole : u32 stack.rip ≡ stack.rip = omega arith in rw whole refl

-- After a call within the array that returns to the same instruction, at 2^32 or above, the native
-- interrupt stores the result in RAX. The POSIX interrupt leaves the registers as they are, so that
-- the caller does not get the result.
pub posix_receive-lost :
    (calls : List Call) (k : Kernel) (stack : Interrupt) (r : Reply)
    → stack.rdx < length calls
    → run_call calls k stack ≡ some r
    → r.stack.rip ≡ stack.rip
    → 2 ^ 32 ≤ stack.rip
    → (receive calls k stack ≡ some (r.kernel, record r.stack { rax = r.result }, r.sent))
      × (posix_receive calls k stack ≡ some (r.kernel, r.stack, r.sent))
unfolding receive posix_receive
posix_receive-lost calls k stack r within runs same large =
    let known : leb (length calls) stack.rdx ≡ false = ground arith in
    let stored : (r.stack.rip == stack.rip) ≡ true = ground arith in
    let apart : r.stack.rip ≢ u32 stack.rip = λ e. omega arith in
    (rw (known, runs, stored) refl, rw (known, runs, ==_ne r.stack.rip (u32 stack.rip) apart) refl)
