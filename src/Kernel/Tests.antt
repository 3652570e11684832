-- ===== src/Kernel/Tests.antt =====
-- Two processes in the scheduler's list. The first has three threads, of which the second one
-- sleeps; its first thread runs.
mod Calls
mod Creation
mod Listing
use x3c0_microkernel.Common.{
  ℕ, zero, suc, ◌+◌, ◌<◌, ◌≡◌, ◌≢◌, ◌⊎◌, refl, false, [], ◌∷◌, some, none, length, arith, ◌==◌,
  if◌then◌else◌,
}
use x3c0_microkernel.LinkedList.{Heap, node}
use x3c0_microkernel.LinkedList.Chain.{Cells, IsList}
use x3c0_microkernel.LinkedList.Append.{Holds}
use x3c0_microkernel.LinkedList.Lookup.{value_at}
use x3c0_microkernel.StackStates.{Interrupt, X86Stack}
use x3c0_microkernel.Process.{Process}
use x3c0_microkernel.Scheduler.{effective_priority}
use x3c0_microkernel.Scheduler.Lottery.{ballot, Counted}
use x3c0_microkernel.Kernel.{Kernel}
use x3c0_microkernel.Kernel.Switching.{
  yield_to, skip_sleeping, enter_process, switch_thread, remove_process,
}
use x3c0_microkernel.Kernel.Switched.{IsReady, Switched, candidates, from_awake, yield_to-Switched}
use x3c0_microkernel.Kernel.Registers.{SameExtended, yield_to-SameExtended}
use x3c0_microkernel.Kernel.Removal.{remove_process-absent, remove_process-Counted}

abbrev pub process : (priority : ℕ) → Process
process priority = record {
  page_dir = 0x5000;
  priority = priority;
  security_privileges = record { words = 0 ∷ []; elements = 21 };
  state = 1;
  on_receipt = 0;
  driver = 0;
  parent = 0;
}

abbrev pub heap : Heap
heap p =
    if p == 8
    then some (node 100 16 0)
    else if p == 16
    then some (node 200 0 8)
    else if p == 32
    then some (node 300 40 0)
    else if p == 40
    then some (node 400 48 32)
    else if p == 48
    then some (node 500 0 40)
    else none

abbrev pub cells : Cells
cells = (8, 100) ∷ (16, 200) ∷ []

abbrev pub no_registers : X86Stack
no_registers = record {
  cs = 0;
  ds = 0;
  ss = 0;
  rax = 0;
  rbx = 0;
  rcx = 0;
  rdx = 0;
  rbp = 0;
  rsp = 0;
  rdi = 0;
  rsi = 0;
  rflags = 0;
  rip = 0;
  r8 = 0;
  r9 = 0;
  r10 = 0;
  r11 = 0;
  r12 = 0;
  r13 = 0;
  r14 = 0;
  r15 = 0;
  entry_point = 0;
}

abbrev pub frame : Interrupt
frame = record {
  ds = 35;
  r15 = 15;
  r14 = 14;
  r13 = 13;
  r12 = 12;
  r11 = 11;
  r10 = 10;
  r9 = 9;
  r8 = 8;
  rbp = 7;
  rsi = 6;
  rdi = 5;
  rdx = 4;
  rcx = 3;
  rbx = 2;
  rax = 1;
  interrupt_number = 32;
  error_code = 0;
  rip = 0x1000;
  cs = 27;
  rflags = 0x202;
  rsp = 0x8000;
  ss = 35;
}

abbrev pub system : Kernel
system = record {
  nodes = heap;
  processes = λ p. process (if p == 100 then 3 else 4);
  process_threads =
      λ p. record { threads = record { count = 3; first = 32; last = 48 }; current_thread = 32 };
  threads = λ t. record {
    sleeping = t == 400;
    custom_state = false;
    interrupt_message = false;
    parent = 100;
    state = t + 0x10000;
  };
  states = λ s. record no_registers { rip = s };
  drivers = λ d. record {
    name = λ i. 0;
    supports_interrupts = false;
    irq = 0;
    type = 0;
    parent = 0;
    can_receive_irq = false;
  };
  scheduler = record {
    total_priority = 3;
    random_gen = record { w = 521288629; z = 362436069 };
    processes = record { count = 2; first = 8; last = 16 };
    sleeping_processes = record { count = 0; first = 0; last = 0 };
    current_process = 200;
    current_thread = 300;
    timer = 0;
  };
  space = record {
    memory = λ a. 0;
    allocator = record { bitmap = λ i. 1; frame_count = 8; dma_zone_end = 0 };
    current = 0x1000;
    kernel = 0x1000;
  };
  cr3 = 0x1000;
}

pub cells-IsList : IsList heap system.scheduler.processes cells
cells-IsList = record {
  previous = 0;
  chain = (omega arith, omega arith, refl, omega arith, (omega arith, omega arith, refl, tt, tt));
  first = refl;
  last = refl;
  count = refl;
  small = omega arith;
}

pub system-Counted : Counted heap system.processes system.scheduler cells
system-Counted = record { total = refl; small = omega arith }

system-IsReady : IsReady system 100 [] 32 300 ((40, 400) ∷ (48, 500) ∷ [])
system-IsReady = record {
  list = record {
    previous = 0;
    chain = (
      omega arith,
      omega arith,
      refl,
      omega arith,
      (omega arith, omega arith, refl, omega arith, (omega arith, omega arith, refl, tt, tt)),
    );
    first = refl;
    last = refl;
    count = refl;
    small = omega arith;
  };
  current = refl;
  process = omega arith;
  running = omega arith;
}

yield_to-Switched_example :
    ((from_awake system.threads (candidates [] 32 300 ((40, 400) ∷ (48, 500) ∷ [])) ≡ [])
      × (yield_to 5 system 100 frame ≡ none))
    ⊎ ((nd : ℕ) × (u : ℕ) × (rest : Cells) × (from_awake system.threads
            (candidates [] 32 300 ((40, 400) ∷ (48, 500) ∷ []))
          ≡ (nd, u) ∷ rest)
        × ((system.threads u).sleeping ≡ false)
        × (j : Kernel) × (next : Interrupt) × (yield_to 5 system 100 frame ≡ some (j, next))
        × Switched system.threads system.states 100 nd u 0x1012c frame j next)
yield_to-Switched_example =
    yield_to-Switched 5 system 100 frame [] 32 300 ((40, 400) ∷ (48, 500) ∷ []) system-IsReady
      (omega arith)

remove_process-Counted_example :
    (j : Kernel) × (remove_process 5 system 100 ≡ some j)
    × Holds j.nodes j.scheduler.processes ((16, 200) ∷ [])
    × Counted j.nodes j.processes j.scheduler ((16, 200) ∷ [])
remove_process-Counted_example =
    remove_process-Counted 5 system 8 100 ((16, 200) ∷ []) cells-IsList system-Counted (omega arith)
      (omega arith)
