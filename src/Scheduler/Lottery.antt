-- ===== src/Scheduler/Lottery.antt =====
-- `Yield` of Source/Multitasking/Scheduler.cpp draws from a list in which every process stands as
-- often as its effective priority says.
use x3c0_microkernel.Common.{
  ℕ, zero, suc, ◌+◌, ◌-◌, ◌^◌, ◌<◌, ◌≤◌, ◌≡◌, ◌≢◌, inl, inr, refl, ◌∙◌, true, false, some, List, [],
  ◌∷◌, length, arith, ltb, leb, ◌&&◌, if◌then◌else◌, ◌>>=◌, Bool-cases, ==_ne, ◌↔◌, ap,
}
use x3c0_microkernel.Common.Words.{u32, sub_u32}
use x3c0_microkernel.LinkedList.{Heap}
use x3c0_microkernel.LinkedList.Chain.{Cells, start, Chain, IsList}
use x3c0_microkernel.LinkedList.Lookup.{load-node}
use x3c0_microkernel.Process.{Process}
use x3c0_microkernel.Random.{next, mwc_random}
use x3c0_microkernel.Scheduler.{Scheduler, effective_priority, choose, yield}

-- `n` tickets for one process in front of the others'.
abbrev pub tickets : (n p : ℕ) → List ℕ → List ℕ
tickets zero p rest = rest
tickets (suc n) p rest = p ∷ tickets n p rest

-- All tickets, process by process.
abbrev pub ballot : (ℕ → Process) → Cells → List ℕ
ballot ps [] = []
ballot ps ((_, p) ∷ xs) = tickets (effective_priority (ps p)) p (ballot ps xs)

-- The process on a ticket, 0 past the last one.
abbrev pub drawn : List ℕ → ℕ → ℕ
drawn [] i = 0
drawn (p ∷ rest) zero = p
drawn (p ∷ rest) (suc i) = drawn rest i

pub length-tickets : (n p : ℕ) (rest : List ℕ) → length (tickets n p rest) ≡ n + length rest
length-tickets zero p rest = omega arith
length-tickets (suc n) p rest = omega (arith, length-tickets n p rest)

-- A ticket of the first process, or one of the others.
pub drawn-tickets :
    (n p i : ℕ) (rest : List ℕ)
    → drawn (tickets n p rest) i ≡ (if ltb i n then p else drawn rest (i - n))
drawn-tickets zero p i rest = ground arith
drawn-tickets (suc n) p zero rest = ground arith
drawn-tickets (suc n) p (suc i) rest = ground (arith, drawn-tickets n p i rest)

-- Every ticket of a chain carries a process.
drawn_past : (ts : List ℕ) (i : ℕ) → length ts ≤ i → drawn ts i ≡ 0
drawn_past [] i h = refl
drawn_past (t ∷ ts) zero h = absurd (omega arith)
drawn_past (t ∷ ts) (suc i) h = drawn_past ts i (omega arith)

drawn_within :
    (h : Heap) (ps : ℕ → Process) (p : ℕ) (xs : Cells) (i : ℕ)
    → Chain h p xs
    → i < length (ballot ps xs)
    → drawn (ballot ps xs) i ≢ 0
drawn_within h ps p [] i c l = absurd (omega arith)
drawn_within h ps p ((a, v) ∷ xs) i c l =
    let n = effective_priority (ps v) in
    rw (drawn-tickets n v i (ballot ps xs)) (elim (Bool-cases (ltb i n)) [
      | inl own ↦ rw own c.1
      | inr later ↦
          rw later
            (drawn_within h ps a xs (i - n) c.4 (ground (arith, length-tickets n v (ballot ps xs))))
    ])

-- The loop finds the process on the ticket.
pub choose-drawn :
    (fuel : ℕ) (h : Heap) (ps : ℕ → Process) (p : ℕ) (xs : Cells) (rnd accumulator : ℕ)
    → Chain h p xs
    → length xs < fuel
    → accumulator ≤ rnd
    → accumulator + length (ballot ps xs) < 2 ^ 32
    → choose fuel h ps (start xs) rnd accumulator ≡ some (drawn (ballot ps xs) (rnd - accumulator))
unfolding choose
choose-drawn zero h ps p xs rnd acc c f l small = absurd (omega arith)
choose-drawn (suc fuel) h ps p [] rnd acc c f l small = refl
choose-drawn (suc fuel) h ps p ((a, v) ∷ xs) rnd acc c f l small =
    let n : ℕ = effective_priority (ps v) in
    let sum : length (ballot ps ((a, v) ∷ xs)) ≡ n + length (ballot ps xs) =
      length-tickets n v (ballot ps xs) in
    let after : u32 (acc + n) ≡ acc + n = omega (arith, sum, small) in
    rw
      (
        load-node h c.0 c.2,
        ==_ne a 0 c.0,
        ==_ne v 0 c.1,
        after,
        drawn-tickets n v (rnd - acc) (ballot ps xs),
      )
      (elim (Bool-cases (ltb (rnd - acc) n)) [
        | inl own ↦
            let here : (leb acc rnd && ltb rnd (acc + n)) ≡ true = ground arith in
            rw (own, here) refl
        | inr later ↦
            let passed : (leb acc rnd && ltb rnd (acc + n)) ≡ false = ground arith in
            let rest : rnd - acc - n ≡ rnd - (acc + n) = omega arith in
            rw (later, passed, rest)
              (choose-drawn fuel h ps a xs rnd (acc + n) c.4 (omega arith) (ground arith)
                (omega (arith, sum, small)))
      ])

-- The sum of the effective priorities is the total, which is a 32-bit word.
pub record Counted (h : Heap) (ps : ℕ → Process) (s : Scheduler) (xs : Cells) : Type 0 where
  pub total : s.total_priority ≡ length (ballot ps xs)
  pub small : length (ballot ps xs) < 2 ^ 32

-- The floating-point product of a range and a fraction of at most 1 is at most the range.
abbrev pub Bounded : (ℕ → ℕ → ℕ) → Type 0
Bounded scale = (range rnd : ℕ) → rnd < 2 ^ 32 → scale range rnd ≤ range

-- `Yield` on a well-formed list of processes with a correct total, where the floating-point
-- product is at most the range, draws a number up to the total and chooses the process on that
-- ticket of the ballot, in which each process has as many tickets as its effective priority. It
-- chooses no process exactly when the number is the total itself.
pub yield-drawn :
    (fuel : ℕ) (scale : ℕ → ℕ → ℕ) (h : Heap) (ps : ℕ → Process) (s : Scheduler) (xs : Cells)
    → Bounded scale
    → IsList h s.processes xs
    → Counted h ps s xs
    → length xs < fuel
    → (i : ℕ) × (i ≡ (next scale s.random_gen 0 s.total_priority).1)
      × (i ≤ s.total_priority)
      × (yield fuel scale h ps s
          ≡ some (
            record s { random_gen = (next scale s.random_gen 0 s.total_priority).0 },
            drawn (ballot ps xs) i,
          ))
      × ((drawn (ballot ps xs) i ≡ 0) ↔ (i ≡ s.total_priority))
unfolding yield next mwc_random
yield-drawn fuel scale h ps s xs bounded is counted f =
    let i : ℕ = (next scale s.random_gen 0 s.total_priority).1 in
    let le : i ≤ s.total_priority =
      omega
        (arith, bounded (sub_u32 s.total_priority 0) (mwc_random s.random_gen).1 (omega arith)) in
    (
      i,
      refl,
      le,
      ap
          (λ o. o >>= λ p.
            some (record s { random_gen = (next scale s.random_gen 0 s.total_priority).0 }, p))
          (chosen i),
      (
        λ none_drawn. elim (Bool-cases (ltb i s.total_priority)) [
          | inl less ↦ absurd (
              drawn_within h ps is.previous xs i is.chain (ground (arith, counted.total))
                none_drawn)
          | inr ge ↦ ground arith
        ],
        λ e. drawn_past (ballot ps xs) i (omega (arith, counted.total)),
      ),
    )
  where
    unskipped : (i : ℕ) → i - 0 ≡ i
    unskipped i = omega arith

    chosen : (i : ℕ) → choose fuel h ps s.processes.first i 0 ≡ some (drawn (ballot ps xs) i)
    chosen i =
        ap (λ a. choose fuel h ps a i 0) is.first
        ∙ choose-drawn fuel h ps is.previous xs i 0 is.chain f (omega arith)
            (omega (arith, counted.small))
        ∙ ap (λ k. some (drawn (ballot ps xs) k)) (unskipped i)
