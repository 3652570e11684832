-- ===== src/Scheduler/Tests.antt =====
-- Two processes, one of them bound by input and output, and a third that is added. The product of
-- range and fraction is taken over the rationals.
use x3c0_microkernel.Common.{
  ℕ, ◌*◌, ◌/◌, ◌≤◌, ◌<◌, ◌≡◌, ◌≢◌, ◌⊎◌, ◌↔◌, refl, [], ◌∷◌, ◌++◌, some, none, arith, ◌==◌,
  if◌then◌else◌,
}
use native.Mathlib.Nat.{div-le_of_le-mul, mul-le-mul_right}
use x3c0_microkernel.LinkedList.{Heap, node}
use x3c0_microkernel.LinkedList.Chain.{Cells, IsList}
use x3c0_microkernel.Process.{Process}
use x3c0_microkernel.Random.{RandomGenerator, next}
use x3c0_microkernel.Scheduler.{Scheduler, effective_priority, choose, yield, add_process}
use x3c0_microkernel.Scheduler.Lottery.{ballot, drawn, Counted, Bounded, yield-drawn}
use x3c0_microkernel.Scheduler.Fairness.{choose-reached}
use x3c0_microkernel.Scheduler.Processes.{add_process-Counted}

-- The generator's first state.
abbrev seed : RandomGenerator
seed = record { w = 521288629; z = 362436069 }

abbrev scale : ℕ → ℕ → ℕ
scale range rnd = range * rnd / 0xffffffff

abbrev process : (priority state : ℕ) → Process
process priority state = record {
  page_dir = 0x5000;
  priority = priority;
  security_privileges = record { words = 0 ∷ []; elements = 21 };
  state = state;
  on_receipt = 0;
  driver = 0;
  parent = 0;
}

abbrev table : ℕ → Process
table p = if p == 100 then process 3 2 else process 4 1

abbrev heap : Heap
heap p = if p == 8 then some (node 100 16 0) else if p == 16 then some (node 200 0 8) else none

abbrev cells : Cells
cells = (8, 100) ∷ (16, 200) ∷ []

abbrev two : Scheduler
two = record {
  total_priority = 5;
  random_gen = seed;
  processes = record { count = 2; first = 8; last = 16 };
  sleeping_processes = record { count = 0; first = 0; last = 0 };
  current_process = 100;
  current_thread = 0;
  timer = 0;
}

two_ballot : ballot table cells ≡ 100 ∷ 100 ∷ 100 ∷ 200 ∷ 200 ∷ []
two_ballot = refl

two-IsList : IsList heap two.processes cells
two-IsList = record {
  previous = 0;
  chain = (omega arith, omega arith, refl, omega arith, (omega arith, omega arith, refl, tt, tt));
  first = refl;
  last = refl;
  count = refl;
  small = omega arith;
}

two-Counted : Counted heap table two cells
two-Counted = record { total = refl; small = omega arith }

scale-Bounded : Bounded scale
scale-Bounded range rnd h =
    let le : rnd ≤ 0xffffffff = omega arith in
    div-le_of_le-mul 0xffffffff (grind (arith, mul-le-mul_right range le))

yield-drawn_example :
    (i : ℕ) × (i ≡ (next scale seed 0 5).1)
    × (i ≤ 5)
    × (yield 4 scale heap table two
        ≡ some (record two { random_gen = (next scale seed 0 5).0 }, drawn (ballot table cells) i))
    × ((drawn (ballot table cells) i ≡ 0) ↔ (i ≡ 5))
yield-drawn_example =
    yield-drawn 4 scale heap table two cells scale-Bounded two-IsList two-Counted (omega arith)

add_process-Counted_example :
    (g : Heap) × (t : Scheduler) × (add_process heap table two 24 300 ≡ some (g, t))
    × IsList g t.processes (cells ++ (24, 300) ∷ [])
    × Counted g table t (cells ++ (24, 300) ∷ [])
add_process-Counted_example =
    add_process-Counted heap table two 24 300 cells two-IsList two-Counted (omega arith)
      (omega arith) refl (omega arith) (omega arith)

choose-reached_example :
    ((effective_priority (table 200) ≢ 0)
      × (i : ℕ) × (i < 5)
      × (choose 4 heap table 8 i 0 ≡ some 200))
    ⊎ ((effective_priority (table 200) ≡ 0) × ((i : ℕ) → choose 4 heap table 8 i 0 ≢ some 200))
choose-reached_example =
    choose-reached 4 heap table two cells 1 two-IsList two-Counted (omega arith) (omega arith)
