-- ===== src/Scheduler/Fairness.antt =====
-- Which processes the lottery of `Yield` in Source/Multitasking/Scheduler.cpp can choose at all.
use x3c0_microkernel.Common.{
  ℕ, zero, suc, ◌+◌, ◌-◌, ◌<◌, ◌≡◌, ◌≢◌, ◌⊎◌, inl, inr, refl, sym, ap, ◌∙◌, some, [], ◌∷◌, length,
  arith, ltb, ◌==◌, Bool-cases, true, false,
}
use x3c0_microkernel.LinkedList.{Heap}
use x3c0_microkernel.LinkedList.Chain.{Cells, Chain, IsList}
use x3c0_microkernel.LinkedList.Lookup.{value_at}
use x3c0_microkernel.Process.{Process}
use x3c0_microkernel.Scheduler.{Scheduler, effective_priority, choose}
use x3c0_microkernel.Scheduler.Lottery.{
  ballot, drawn, length-tickets, drawn-tickets, choose-drawn, Counted,
}

-- A process with tickets is on one of them.
drawn-value_at :
    (ps : ℕ → Process) (xs : Cells) (k : ℕ)
    → k < length xs
    → effective_priority (ps (value_at xs k)) ≢ 0
    → (i : ℕ) × (i < length (ballot ps xs)) × (drawn (ballot ps xs) i ≡ value_at xs k)
drawn-value_at ps [] k lt some_tickets = absurd (omega arith)
drawn-value_at ps ((a, v) ∷ xs) zero lt some_tickets =
    let n : ℕ = effective_priority (ps v) in
    let first : ltb 0 n ≡ true = ground (arith, some_tickets) in
    (
      0,
      omega (arith, length-tickets n v (ballot ps xs), some_tickets),
      drawn-tickets n v 0 (ballot ps xs) ∙ rw first refl,
    )
drawn-value_at ps ((a, v) ∷ xs) (suc k) lt some_tickets =
    let n : ℕ = effective_priority (ps v) in
    let (i, small, e) = drawn-value_at ps xs k (omega arith) some_tickets in
    let behind : ltb (n + i) n ≡ false = ground arith in
    let rest : n + i - n ≡ i = omega arith in
    (
      n + i,
      omega (arith, length-tickets n v (ballot ps xs), small),
      drawn-tickets n v (n + i) (ballot ps xs) ∙ rw (behind, rest) e,
    )

-- A process that is on a ticket has tickets.
drawn-tickets_of :
    (ps : ℕ → Process) (xs : Cells) (i p : ℕ)
    → p ≢ 0
    → drawn (ballot ps xs) i ≡ p
    → effective_priority (ps p) ≢ 0
drawn-tickets_of ps [] i p np e z = absurd (np (sym e))
drawn-tickets_of ps ((a, v) ∷ xs) i p np e z =
    let n : ℕ = effective_priority (ps v) in
    let d = sym (drawn-tickets n v i (ballot ps xs)) ∙ e in
    elim (Bool-cases (ltb i n)) [
      | inl own ↦
          let here : v ≡ p = rw own at d in
          let empty : n ≡ 0 = ap (λ q. effective_priority (ps q)) here ∙ z in ground (arith, empty)
      | inr later ↦ drawn-tickets_of ps xs (i - n) p np (rw later at d) z
    ]

value_at-here :
    (h : Heap) (q : ℕ) (xs : Cells) (k : ℕ) → Chain h q xs → k < length xs → value_at xs k ≢ 0
value_at-here h q [] k c lt = absurd (omega arith)
value_at-here h q ((a, v) ∷ xs) zero c lt = c.1
value_at-here h q ((a, v) ∷ xs) (suc k) c lt = value_at-here h a xs k c.4 (omega arith)

-- The loop of `Yield` on a well-formed list with a correct total: a process of the list whose
-- effective priority is not 0 is chosen for some number below the total. One whose effective
-- priority is 0, such as a process of priority 1 that is bound by input and output, is chosen for no
-- number.
pub choose-reached :
    (fuel : ℕ) (h : Heap) (ps : ℕ → Process) (s : Scheduler) (xs : Cells) (k : ℕ)
    → IsList h s.processes xs
    → Counted h ps s xs
    → k < length xs
    → length xs < fuel
    → ((effective_priority (ps (value_at xs k)) ≢ 0)
        × (i : ℕ) × (i < s.total_priority)
        × (choose fuel h ps s.processes.first i 0 ≡ some (value_at xs k)))
      ⊎ ((effective_priority (ps (value_at xs k)) ≡ 0)
          × ((i : ℕ) → choose fuel h ps s.processes.first i 0 ≢ some (value_at xs k)))
choose-reached fuel h ps s xs k is counted lt room =
    elim (Bool-cases (effective_priority (ps (value_at xs k)) == 0)) [
      | inl none_left ↦
          let empty : effective_priority (ps (value_at xs k)) ≡ 0 = ground arith in
          inr (
            empty,
            λ i e.
                drawn-tickets_of ps xs (i - 0) (value_at xs k)
                  (value_at-here h is.previous xs k is.chain lt) (unwrapped (sym (chosen i) ∙ e))
                  empty,
          )
      | inr some_left ↦
          let full : effective_priority (ps (value_at xs k)) ≢ 0 = ground arith in
          let (i, small, e) = drawn-value_at ps xs k lt full in
          inl (
            full,
            i,
            omega (arith, counted.total, small),
            chosen i ∙ ap (λ j. some (drawn (ballot ps xs) j)) (omega arith) ∙ ap some e,
          )
    ]
  where
    unwrapped : {x y : ℕ} → some x ≡ some y → x ≡ y
    unwrapped e = cc

    chosen : (i : ℕ) → choose fuel h ps s.processes.first i 0 ≡ some (drawn (ballot ps xs) (i - 0))
    chosen i =
        ap (λ a. choose fuel h ps a i 0) is.first
        ∙ choose-drawn fuel h ps is.previous xs i 0 is.chain room (omega arith)
            (omega (arith, counted.small))
