-- ===== src/Kernel/Sleepers.antt =====
-- `Sleep` and `Wake` of Source/Multitasking/Scheduler.cpp one after the other, and where the two
-- lists let them down.
use x3c0_microkernel.Common.{
  ℕ, zero, suc, ◌<◌, ◌≡◌, ◌≢◌, inl, inr, refl, ◌∙◌, none, some, [], ◌∷◌, ◌++◌, length,
  length-append, arith, ==_ne, ==_self, ◌!=◌, ltb, true, Bool-cases, sym, Option,
}
use x3c0_microkernel.LinkedList.{Heap, LinkedList, remove_item}
use x3c0_microkernel.LinkedList.Chain.{Cells, IsList, Chain}
use x3c0_microkernel.LinkedList.Lookup.{
  value_at, find-first, load-first, FindResult, find-FindResult,
}
use x3c0_microkernel.LinkedList.Removal.{remove_head, remove_last}
use x3c0_microkernel.Kernel.{Kernel}
use x3c0_microkernel.Kernel.Switching.{remove_process}
use x3c0_microkernel.Kernel.Sleeping.{wake}
use x3c0_microkernel.Process.{Process}
use x3c0_microkernel.Scheduler
use x3c0_microkernel.Scheduler.{Scheduler}

-- The value behind the others is at the last index.
value_at-last : (xs : Cells) (b p : ℕ) → value_at (xs ++ (b, p) ∷ []) (length xs) ≡ p
value_at-last [] b p = refl
value_at-last (x ∷ xs) b p = value_at-last xs b p

-- The values in front of it stay.
value_at-before : (xs ys : Cells) (i : ℕ) → i < length xs → value_at (xs ++ ys) i ≡ value_at xs i
value_at-before [] ys i h = absurd (omega arith)
value_at-before (x ∷ xs) ys zero h = refl
value_at-before (x ∷ xs) ys (suc i) h = value_at-before xs ys i (omega arith)

-- A search for the last value, which stands nowhere else, gives the last index.
FindResult-last :
    (p a v b r : ℕ) (xs : Cells)
    → ((i : ℕ) → i < suc (length xs) → value_at ((a, v) ∷ xs) i ≢ p)
    → FindResult p 0 r ((a, v) ∷ xs ++ (b, p) ∷ [])
    → r ≡ suc (length xs)
FindResult-last p a v b r xs others (inl (j, small, e, at, before)) =
    elim (Bool-cases (ltb j (suc (length xs)))) [
      | inl within ↦
          let early : j < suc (length xs) = ground arith in
          absurd (others j early (sym (value_at-before ((a, v) ∷ xs) ((b, p) ∷ []) j early) ∙ at))
      | inr last ↦ ground (arith, length-append xs ((b, p) ∷ []))
    ]
FindResult-last p a v b r xs others (inr (e, nowhere)) = absurd (
    nowhere (suc (length xs)) (omega (arith, length-append xs ((b, p) ∷ [])))
      (value_at-last xs b p))

-- Waking the process that went to sleep last, when another one sleeps too and the process stands in
-- the list once, faults: `Remove` writes through the null pointer behind the last node.
pub wake-last :
    (fuel local fresh : ℕ) (k : Kernel) (a v b p : ℕ) (xs : Cells)
    → IsList k.nodes k.scheduler.sleeping_processes ((a, v) ∷ xs ++ (b, p) ∷ [])
    → ((i : ℕ) → i < suc (length xs) → value_at ((a, v) ∷ xs) i ≢ p)
    → suc (suc (length xs)) < fuel
    → wake fuel local k fresh p ≡ none
unfolding wake remove_item
wake-last fuel local fresh k a v b p xs is others f =
    let l = k.scheduler.sleeping_processes in
    let size = length-append xs ((b, p) ∷ []) in
    let room : suc (length (xs ++ (b, p) ∷ [])) < fuel = omega (arith, size) in
    let (r, found, place) = find-FindResult fuel p is room in
    let at = FindResult-last p a v b r xs others place in
    let behind : (v != p) ≡ true = ground (arith, others 0 (omega arith)) in
    let faults =
      remove_last fuel (length xs) k.nodes l ((a, v) ∷ xs ++ (b, p) ∷ []) is (omega (arith, size))
        room in
    rw (load-first is, behind, found, at, ==_ne (suc (length xs)) 0 (λ z. omega (arith, z)), faults)
      refl

-- Removing the process that runs, when no other one is in the list, faults: the list has no first
-- node to take over.
pub remove_process-only :
    (fuel : ℕ) (k : Kernel) (a p : ℕ)
    → IsList k.nodes k.scheduler.processes ((a, p) ∷ [])
    → k.scheduler.current_process ≡ p
    → 1 < fuel
    → remove_process fuel k p ≡ none
unfolding remove_process remove_item
remove_process-only fuel k a p is runs f =
    rw
      (
        find-first fuel is f,
        remove_head fuel k.nodes k.scheduler.processes a p [] is,
        runs,
        ==_self p,
      )
      refl

abbrev sleepers : LinkedList → Option (Heap × Scheduler) → LinkedList
sleepers l none = l
sleepers l (some (g, t)) = t.sleeping_processes
