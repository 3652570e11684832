-- ===== src/Mutex/Tests.antt =====
-- One processor that locks the mutex, and two that end up behind `Lock` together.
use x3c0_microkernel.Common.{◌≡◌, refl, arith, ◌==◌, if◌then◌else◌}
use x3c0_microkernel.Mutex.{
  outside, waiting, taking, inside, System, Alone, Run, move, test_free, take, stay, then_step,
}
use x3c0_microkernel.Mutex.Runs.{Held, Alone-Held, Run_overlap}

abbrev free : System
free = record { atomic = 1; point = λ p. outside }

abbrev locked : System
locked = record (move (move free 2 taking) 2 inside) { atomic = 0 }

locks : Alone 2 free locked
locks = then_step (then_step stay (test_free refl (omega arith))) (take refl)

Alone-Held_example : Held 2 locked
Alone-Held_example = Alone-Held refl (omega arith) locks

abbrev contended : System
contended = record {
  atomic = 0;
  point = λ p. if p == 1 then inside else if p == 2 then waiting else outside;
}

Run_overlap_example : (t : System) × Run contended t × (t.point 1 ≡ inside) × (t.point 2 ≡ inside)
Run_overlap_example = Run_overlap contended 1 2 (omega arith) refl refl
