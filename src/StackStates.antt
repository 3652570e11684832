-- ===== src/StackStates.antt =====
-- `namespace StackStates` of Include/Common/Interrupts.h, and the registers that a switch of threads
-- moves between the two structures in `YieldTo` of Source/Multitasking/Scheduler.cpp.
use x3c0_microkernel.Common.{ℕ}

-- `StackStates::Interrupt`: the registers that an interrupt has pushed.
pub record Interrupt : Type 0 where
  pub ds : ℕ
  pub r15 : ℕ
  pub r14 : ℕ
  pub r13 : ℕ
  pub r12 : ℕ
  pub r11 : ℕ
  pub r10 : ℕ
  pub r9 : ℕ
  pub r8 : ℕ
  pub rbp : ℕ
  pub rsi : ℕ
  pub rdi : ℕ
  pub rdx : ℕ
  pub rcx : ℕ
  pub rbx : ℕ
  pub rax : ℕ
  pub interrupt_number : ℕ
  pub error_code : ℕ
  pub rip : ℕ
  pub cs : ℕ
  pub rflags : ℕ
  pub rsp : ℕ
  pub ss : ℕ

-- `StackStates::x86Stack`: what the kernel keeps of a thread.
pub record X86Stack : Type 0 where
  pub cs : ℕ
  pub ds : ℕ
  pub ss : ℕ
  pub rax : ℕ
  pub rbx : ℕ
  pub rcx : ℕ
  pub rdx : ℕ
  pub rbp : ℕ
  pub rsp : ℕ
  pub rdi : ℕ
  pub rsi : ℕ
  pub rflags : ℕ
  pub rip : ℕ
  pub r8 : ℕ
  pub r9 : ℕ
  pub r10 : ℕ
  pub r11 : ℕ
  pub r12 : ℕ
  pub r13 : ℕ
  pub r14 : ℕ
  pub r15 : ℕ
  pub entry_point : ℕ

-- `currentThread->state->R = stack->R`.
abbrev pub save : X86Stack → Interrupt → X86Stack
save state stack = record state {
  cs = stack.cs;
  ds = stack.ds;
  rax = stack.rax;
  rbx = stack.rbx;
  rcx = stack.rcx;
  rdx = stack.rdx;
  rsp = stack.rsp;
  rbp = stack.rbp;
  rdi = stack.rdi;
  rsi = stack.rsi;
  rflags = stack.rflags;
  rip = stack.rip;
}

-- `stack->R = currentThread->state->R`.
abbrev pub restore : Interrupt → X86Stack → Interrupt
restore stack state = record stack {
  cs = state.cs;
  ds = state.ds;
  rax = state.rax;
  rbx = state.rbx;
  rcx = state.rcx;
  rdx = state.rdx;
  rsp = state.rsp;
  rbp = state.rbp;
  rdi = state.rdi;
  rsi = state.rsi;
  rflags = state.rflags;
  rip = state.rip;
}
