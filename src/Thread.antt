-- ===== src/Thread.antt =====
-- Include/Multitasking/Thread.h and Source/Multitasking/Thread.cpp: a thread and its status.
-- `state` is the address of its registers, which two threads can share.
use x3c0_microkernel.Common.{ℕ, bit_and, bit_or, Bool, true, false, ◌!=◌, if◌then◌else◌}
use x3c0_microkernel.Common.Words.{not_u64}
use x3c0_microkernel.StackStates.{X86Stack}

-- `namespace ThreadStatus`.
abbrev pub status_sleeping : ℕ
status_sleeping = 0x1

abbrev pub status_custom_state : ℕ
status_custom_state = 0x2

abbrev pub status_interrupt_message : ℕ
status_interrupt_message = 0x4

pub record Thread : Type 0 where
  pub sleeping : Bool
  pub custom_state : Bool
  pub interrupt_message : Bool
  pub parent : ℕ
  pub state : ℕ

-- The registers that the constructor sets, in memory that held `raw`; `rflags` is the processor's.
abbrev pub initial_state : (raw : X86Stack) → (rflags start : ℕ) → X86Stack
initial_state raw rflags start = record raw {
  entry_point = start;
  cs = bit_or 0x18 3;
  ds = bit_or 0x20 3;
  rsp = 0;
  rbp = 0;
  rip = 0;
  rflags = bit_and (bit_or rflags 0x200) (not_u64 0x3000);
}

-- `Thread::Thread`, with its registers at `state`.
abbrev pub new_thread : (state p : ℕ) → (irq_message : Bool) → Thread
new_thread state p irq_message = record {
  sleeping = true;
  custom_state = false;
  interrupt_message = irq_message;
  parent = p;
  state = state;
}

-- `Sleep` and `Wake`.
abbrev pub sleep : Thread → Thread
sleep t = record t { sleeping = true }

abbrev pub wake : Thread → Thread
wake t = record t { sleeping = false }

-- `SetState(st)`: the thread takes over the registers at `st`. They keep their stack if they have
-- one, and get the thread's otherwise.
unfoldable pub set_state : (states : ℕ → X86Stack) → Thread → (st : ℕ) → X86Stack × Thread
set_state states t st =
    let old = states t.state in
    let given = states st in
    if given.rsp != 0
    then (given, record t { state = st; custom_state = true })
    else (record given { rsp = old.rsp; rbp = old.rbp }, record t { state = st })

unfoldable pub get_status : Thread → ℕ
get_status t =
    let status = if t.sleeping then bit_or 0 status_sleeping else 0 in
    let status = if t.custom_state then bit_or status status_custom_state else status in
    if t.interrupt_message then bit_or status status_interrupt_message else status
