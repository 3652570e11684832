-- ===== src/Scheduler/Processes.antt =====
-- `AddProcess` of Source/Multitasking/Scheduler.cpp: the list and the total stay in step.
use x3c0_microkernel.Common.{
  ℕ, suc, ◌+◌, ◌^◌, ◌<◌, ◌≡◌, ◌≢◌, refl, none, some, [], ◌∷◌, ◌++◌, length, arith, ==_ne,
}
use x3c0_microkernel.Common.Words.{u32}
use x3c0_microkernel.LinkedList.{Heap}
use x3c0_microkernel.LinkedList.Chain.{Cells, IsList}
use x3c0_microkernel.LinkedList.Append.{Holds, add-IsList}
use x3c0_microkernel.Process.{Process}
use x3c0_microkernel.Scheduler.{Scheduler, effective_priority, add_process}
use x3c0_microkernel.Scheduler.Lottery.{ballot, length-tickets, Counted}

length-ballot_snoc :
    (ps : ℕ → Process) (xs : Cells) (f p : ℕ)
    → length (ballot ps (xs ++ (f, p) ∷ [])) ≡ length (ballot ps xs) + effective_priority (ps p)
length-ballot_snoc ps [] f p = omega (arith, length-tickets (effective_priority (ps p)) p [])
length-ballot_snoc ps ((a, v) ∷ xs) f p = omega (
  arith,
  length-ballot_snoc ps xs f p,
  length-tickets (effective_priority (ps v)) v (ballot ps xs),
  length-tickets (effective_priority (ps v)) v (ballot ps (xs ++ (f, p) ∷ [])),
)

-- On a well-formed list of fewer than 2^32 - 1 processes, `AddProcess` of a process, with a fresh
-- node, appends it and keeps the total equal to the sum of the effective priorities, as long as
-- the sum is a 32-bit number.
pub add_process-Counted :
    (h : Heap) (ps : ℕ → Process) (s : Scheduler) (f p : ℕ) (xs : Cells)
    → Holds h s.processes xs
    → Counted h ps s xs
    → f ≢ 0
    → p ≢ 0
    → h f ≡ none
    → suc (length xs) < 2 ^ 32
    → length (ballot ps xs) + effective_priority (ps p) < 2 ^ 32
    → (g : Heap) × (t : Scheduler) × (add_process h ps s f p ≡ some (g, t))
      × IsList g t.processes (xs ++ (f, p) ∷ [])
      × Counted g ps t (xs ++ (f, p) ∷ [])
unfolding add_process
add_process-Counted h ps s f p xs holds counted nf np unused small sum =
    let (g, l, e, is, _) = add-IsList h s.processes f p xs holds nf np unused small in
    (
      g,
      record s {
        processes = l;
        total_priority = u32 (s.total_priority + effective_priority (ps p));
      },
      rw (==_ne p 0 np, e) refl,
      is,
      record {
        total = omega (arith, length-ballot_snoc ps xs f p, counted.total, sum);
        small = omega (arith, length-ballot_snoc ps xs f p, sum);
      },
    )
