-- ===== src/Kernel/Tests/Calls.antt =====
-- System calls and processes that sleep, in the system of Kernel/Tests.
use x3c0_microkernel.Common.{ℕ, ◌+◌, ◌^◌, ◌≡◌, ◌⊎◌, refl, false, List, [], ◌∷◌, some, none, arith}
use x3c0_microkernel.LinkedList.Chain.{IsList}
use x3c0_microkernel.StackStates.{Interrupt}
use x3c0_microkernel.Kernel.{Kernel}
use x3c0_microkernel.Kernel.Switching.{yield_to}
use x3c0_microkernel.Kernel.Starting.{push_frame}
use x3c0_microkernel.Kernel.Frames.{Frame, push_frame-Frame}
use x3c0_microkernel.Kernel.Calls.{Surroundings, Reply, get_current_thread, kill_thread}
use x3c0_microkernel.Kernel.Killing.{kill_thread-null}
use x3c0_microkernel.Kernel.Dispatch.{Call}
use x3c0_microkernel.Kernel.Tests.{heap, no_registers, frame, system}

abbrev surroundings : Surroundings
surroundings = record {
  fuel = 5;
  undef = λ k. 0;
  scale = λ range rnd. 0;
  return_method = 0x7000;
  ring3_start = 0x8000;
  allocated = λ i. 0x20000 + i;
  local = 0x9000;
  raw = no_registers;
  rflags = 0x202;
  message_at = λ a. record { contents = 0; length = 0; code = 0; source = 0; message_chain = 0 };
}

threads-IsList :
    IsList heap (system.process_threads 100).threads ((32, 300) ∷ (40, 400) ∷ (48, 500) ∷ [])
threads-IsList = record {
  previous = 0;
  chain = (
    omega arith,
    omega arith,
    refl,
    omega arith,
    (omega arith, omega arith, refl, omega arith, (omega arith, omega arith, refl, tt, tt)),
  );
  first = refl;
  last = refl;
  count = refl;
  small = omega arith;
}

kill_thread-null_example :
    (r : Reply) × (kill_thread surroundings 0 system frame ≡ some r)
    × (r.stack ≡ frame)
    × IsList r.kernel.nodes (r.kernel.process_threads 100).threads ((40, 400) ∷ (48, 500) ∷ [])
    × ((fuel q : ℕ) (other : Interrupt)
        → (q ≡ 0)
          ⊎ ((r.kernel.process_threads q).threads.count ≡ 0)
          ⊎ (yield_to fuel r.kernel q other ≡ none))
kill_thread-null_example =
    kill_thread-null surroundings system frame 32 40 400 ((48, 500) ∷ []) threads-IsList
      (omega arith)

abbrev calls : List Call
calls = (λ eax ebx ecx k stack. get_current_thread k stack) ∷ []

abbrev high : Interrupt
high = record frame { rdx = 0; rip = 2 ^ 32 + 5 }

push_frame-Frame_example :
    Frame
      (λ a. a)
      false
      0x7000
      0x10000
      0x1000
      2
      0x300
      0x400
      (push_frame 0x7000 (λ a. a) false 0x10000 0x1000 2 0x300 0x400).0
      (push_frame 0x7000 (λ a. a) false 0x10000 0x1000 2 0x300 0x400).1
push_frame-Frame_example =
    push_frame-Frame 0x7000 (λ a. a) false 0x10000 0x1000 2 0x300 0x400 (omega arith) (omega arith)
      (omega arith)
