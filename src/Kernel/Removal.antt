-- ===== src/Kernel/Removal.antt =====
-- `RemoveProcess` of Source/Multitasking/Scheduler.cpp: what becomes of the list and the total.
use x3c0_microkernel.Common.{ℕ, suc, ◌+◌, ◌<◌, ◌≤◌, ◌≡◌, ◌≢◌, refl, some, ◌∷◌, length, arith, ==_ne}
use x3c0_microkernel.Common.Words.{sub_u32}
use x3c0_microkernel.LinkedList.{LinkedList, remove_item}
use x3c0_microkernel.LinkedList.Chain.{Cells, IsList}
use x3c0_microkernel.LinkedList.Lookup.{value_at, find-first}
use x3c0_microkernel.LinkedList.Append.{Holds}
use x3c0_microkernel.LinkedList.Removal.{remove_first, remove_item_missing}
use x3c0_microkernel.Scheduler.{effective_priority}
use x3c0_microkernel.Scheduler.Lottery.{ballot, Counted, length-tickets}
use x3c0_microkernel.Kernel.{Kernel}
use x3c0_microkernel.Kernel.Switching.{remove_process}

-- Removing a process that does not run and is not in the list takes the first process off instead;
-- the total loses the priority of the one that was named, so it no longer is the sum.
pub remove_process-absent :
    (fuel : ℕ) (k : Kernel) (p a v : ℕ) (xs : Cells)
    → IsList k.nodes k.scheduler.processes ((a, v) ∷ xs)
    → Counted k.nodes k.processes k.scheduler ((a, v) ∷ xs)
    → ((i : ℕ) → i < suc (length xs) → value_at ((a, v) ∷ xs) i ≢ p)
    → k.scheduler.current_process ≢ p
    → suc (length xs) < fuel
    → effective_priority (k.processes p) ≤ k.scheduler.total_priority
    → (j : Kernel) × (remove_process fuel k p ≡ some j)
      × Holds j.nodes j.scheduler.processes xs
      × (j.scheduler.total_priority + effective_priority (k.processes p)
          ≡ length (ballot k.processes xs) + effective_priority (k.processes v))
unfolding remove_process
remove_process-absent fuel k p a v xs is counted absent idle f le =
    let (m, removed, holds) =
      remove_item_missing fuel p k.nodes k.scheduler.processes a v xs is absent f in
    (
      record k {
        nodes = k.nodes;
        scheduler = record k.scheduler {
          processes = m;
          total_priority = sub_u32 k.scheduler.total_priority (effective_priority (k.processes p));
        };
      },
      rw (removed, ==_ne k.scheduler.current_process p idle) refl,
      holds,
      omega (
        arith,
        counted.total,
        counted.small,
        length-tickets (effective_priority (k.processes v)) v (ballot k.processes xs),
      ),
    )

-- The state without a process, whose list is now `m`.
abbrev pub without : Kernel → LinkedList → (p : ℕ) → Kernel
without k m p = record k {
  scheduler = record k.scheduler {
    processes = m;
    total_priority = sub_u32 k.scheduler.total_priority (effective_priority (k.processes p));
  };
}

-- What removing the first process, which does not run, comes to.
pub remove_process-first :
    (fuel : ℕ) (k : Kernel) (a p : ℕ) (xs : Cells)
    → IsList k.nodes k.scheduler.processes ((a, p) ∷ xs)
    → Counted k.nodes k.processes k.scheduler ((a, p) ∷ xs)
    → k.scheduler.current_process ≢ p
    → suc (length xs) < fuel
    → (m : LinkedList) × (remove_process fuel k p ≡ some (without k m p))
      × Holds k.nodes m xs
      × Counted k.nodes k.processes (without k m p).scheduler xs
unfolding remove_process remove_item
remove_process-first fuel k a p xs is counted idle f =
    let (m, removed, holds) = remove_first fuel k.nodes k.scheduler.processes a p xs is in
    let own = length-tickets (effective_priority (k.processes p)) p (ballot k.processes xs) in
    (
      m,
      rw (find-first fuel is f, removed, ==_ne k.scheduler.current_process p idle) refl,
      holds,
      record {
        total = omega (arith, counted.total, counted.small, own);
        small = omega (arith, counted.small, own);
      },
    )

-- Removing the first process of the list, when it does not run, leaves the others and a total that
-- is the sum of their effective priorities.
pub remove_process-Counted :
    (fuel : ℕ) (k : Kernel) (a p : ℕ) (xs : Cells)
    → IsList k.nodes k.scheduler.processes ((a, p) ∷ xs)
    → Counted k.nodes k.processes k.scheduler ((a, p) ∷ xs)
    → k.scheduler.current_process ≢ p
    → suc (length xs) < fuel
    → (j : Kernel) × (remove_process fuel k p ≡ some j)
      × Holds j.nodes j.scheduler.processes xs
      × Counted j.nodes j.processes j.scheduler xs
remove_process-Counted fuel k a p xs is counted idle f =
    let (m, e, holds, rest) = remove_process-first fuel k a p xs is counted idle f in
    (without k m p, e, holds, rest)
