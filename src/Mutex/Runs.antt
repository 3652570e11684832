-- ===== src/Mutex/Runs.antt =====
-- Source/IPC/Mutex.cpp: a processor alone takes and gives back the mutex; two of them can hold it.
use x3c0_microkernel.Common.{
  ℕ, ◌≡◌, ◌≢◌, ◌⊎◌, inl, inr, refl, sym, ◌∙◌, arith, update_self, update_ne,
}
use x3c0_microkernel.Mutex.{
  outside, waiting, taking, inside, System, Step, Alone, Run, move, test_free, test_held, spin,
  stop_waiting, take, unlock, stay, then_step, start, after,
}

-- A processor that is alone with the mutex: the word is 0 exactly while the processor is behind
-- `Lock`, and the processor never waits.
abbrev pub Held : ℕ → System → Type 0
Held p s =
    ((s.point p ≡ outside) × (s.atomic ≢ 0))
    ⊎ ((s.point p ≡ taking) × (s.atomic ≢ 0))
    ⊎ ((s.point p ≡ inside) × (s.atomic ≡ 0))

Step-Held : {p : ℕ} {s t : System} → Step p s t → Held p s → Held p t
Step-Held {p} (test_free {s} e n) h = inr (inl (update_self s.point p taking, n))
Step-Held (test_held e z) (inl (o, n)) = absurd (n z)
Step-Held (test_held e z) (inr (inl (o, n))) = absurd (n z)
Step-Held (test_held e z) (inr (inr (o, y))) = absurd (cc (e, o))
Step-Held {p} (spin e z) h = h
Step-Held (stop_waiting e n) (inl (o, m)) = absurd (cc (e, o))
Step-Held (stop_waiting e n) (inr (inl (o, m))) = absurd (cc (e, o))
Step-Held (stop_waiting e n) (inr (inr (o, z))) = absurd (n z)
Step-Held {p} (take {s} e) h = inr (inr (update_self s.point p inside, refl))
Step-Held {p} (unlock {s} e) h = inl (update_self s.point p outside, omega arith)

-- A processor that runs alone from an unlocked mutex holds it exactly while the word is 0, and is
-- never kept waiting, however often it locks and unlocks.
pub Alone-Held :
    {p : ℕ} {s t : System} → s.point p ≡ outside → s.atomic ≢ 0 → Alone p s t → Held p t
Alone-Held e n stay = inl (e, n)
Alone-Held e n (then_step run last) = Step-Held last (Alone-Held e n run)

-- From every state in which one processor holds the mutex and another waits for it, there is a run
-- after which both hold it.
pub Run_overlap :
    (s : System) (h p : ℕ)
    → h ≢ p
    → s.point h ≡ inside
    → s.point p ≡ waiting
    → (t : System) × Run s t × (t.point h ≡ inside) × (t.point p ≡ inside)
Run_overlap s h p n holder waits = (
  locked,
  after
      (after (after (after start h (unlock holder)) p (stop_waiting at_p (omega arith))) h
        (test_free at_h (omega arith)))
      h (take (update_self joined.point h taking)),
  update_self (move joined h taking).point h inside,
  update_ne (move joined h taking).point h p inside n
      ∙ update_ne joined.point h p taking n
      ∙ update_self unlocked.point p inside,
)
  where
    unlocked : System
    unlocked = record (move s h outside) { atomic = 1 }

    joined : System
    joined = move unlocked p inside

    locked : System
    locked = record (move (move joined h taking) h inside) { atomic = 0 }

    at_p : unlocked.point p ≡ waiting
    at_p = update_ne s.point h p outside n ∙ waits

    at_h : joined.point h ≡ outside
    at_h = update_ne unlocked.point p h inside (λ e. n (sym e)) ∙ update_self s.point h outside
