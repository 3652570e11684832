-- ===== src/Files/Waiting.antt =====
-- `vfsHandler` of C library stubs/MessageHandlers.c: the responses at which it waits without end.
use x3c0_microkernel.Common.{
  ℕ, zero, suc, ◌+◌, ◌<◌, ◌≤◌, ◌≡◌, ◌⊎◌, inl, inr, refl, ap, sym, subst, ◌∙◌, arith, true, Option,
  none, some, List, [], ◌∷◌, get_elem?, ◌==◌, update, Bool-cases, ◌>>=◌,
}
use x3c0_microkernel.MessageThreads.{recycle_mtid}
use x3c0_microkernel.Files.{Files, answer, answer_pending, answer_files, vfs_handler}
use x3c0_microkernel.Files.Answers.{Answered, Answered-refl, Answered-trans, update-Answered}

-- The operation waits for the ID, and has no thread.
abbrev pub Stuck : Files → (id op : ℕ) → Type 0
Stuck f id op = ((f.operations op).waiting_for_id ≡ id) × ((f.operations op).wake_thread ≡ 0)

module _ (realloc : (ℕ → ℕ) → ℕ → Option (ℕ → ℕ)) (id contents : ℕ) where
  -- The handler waits without end, or `g` is what responses to the ID leave.
  abbrev Ends : Files → Option Files → Type 0
  Ends f r = (r ≡ none) ⊎ ((g : Files) × (r ≡ some g) × Answered f id contents g)

  Ends->>= :
      (f : Files) (r : Option Files) (rest : Files → Option Files)
      → Ends f r
      → ((g : Files) → Ends g (rest g))
      → Ends f (r >>= rest)
  Ends->>= f r rest (inl stuck) h = inl (rw stuck refl)
  Ends->>= f r rest (inr (g, e, a)) h = elim (h g) [
    | inl stuck ↦ inl (rw (e, stuck) refl)
    | inr (k, ek, b) ↦ inr (k, rw (e, ek) refl, Answered-trans a b)
  ]

  answer-Ends : (f : Files) (op : ℕ) → Ends f (answer realloc f op id contents)
  unfolding answer
  answer-Ends f op = elim (Bool-cases ((f.operations op).waiting_for_id == id)) [
    | inr other ↦ inr (f, rw other refl, Answered-refl)
    | inl matched ↦ elim (Bool-cases ((f.operations op).wake_thread == 0)) [
      | inl no_thread ↦ inl (rw (matched, no_thread) refl)
      | inr thread ↦
          let g = record f {
            operations =
                update f.operations op
                  (record (f.operations op) { operation_wake_data = contents });
            woken = (f.operations op).wake_thread ∷ f.woken;
            pool = recycle_mtid realloc f.pool id;
          } in
          inr (
            g,
            rw (matched, thread) refl,
            update-Answered f g op id contents (ground arith) refl refl,
          )
    ]
  ]

  answer_pending-Ends :
      (left : ℕ) (f : Files) (at j : ℕ) → Ends f (answer_pending realloc left f at j id contents)
  unfolding answer_pending
  answer_pending-Ends zero f at j = inr (f, refl, Answered-refl)
  answer_pending-Ends (suc left) f at j =
      Ends->>= f (answer realloc f ((f.handle_at at).pending_operations j) id contents)
        (λ g. answer_pending realloc left g at (j + 1) id contents)
        (answer-Ends f ((f.handle_at at).pending_operations j))
        (λ g. answer_pending-Ends left g at (j + 1))

  -- The operation is stuck after responses to others.
  Stuck-Answered :
      (f g : Files) (at i : ℕ)
      → Answered f id contents g
      → Stuck f id ((f.handle_at at).pending_operations i)
      → Stuck g id ((g.handle_at at).pending_operations i)
  Stuck-Answered f g at i a (w, t) =
      subst (Stuck g id) (ap (λ h. (h at).pending_operations i) (sym a.files)) (
        a.waiting ((f.handle_at at).pending_operations i) ∙ w,
        a.threads ((f.handle_at at).pending_operations i) ∙ t,
      )

  answer_pending-Stuck :
      (left : ℕ) (f : Files) (at j i : ℕ)
      → j ≤ i
      → i < j + left
      → Stuck f id ((f.handle_at at).pending_operations i)
      → answer_pending realloc left f at j id contents ≡ none
  unfolding answer_pending answer
  answer_pending-Stuck zero f at j i l u s = absurd (omega arith)
  answer_pending-Stuck (suc left) f at j i l u (w, t) = elim (Bool-cases (j == i)) [
    | inl here ↦
        let e : j ≡ i = ground arith in
        let op = ap (f.handle_at at).pending_operations e in
        let first : Stuck f id ((f.handle_at at).pending_operations j) =
          subst (Stuck f id) (sym op) (w, t) in
        rw (==_of first.0, ==_of first.1) refl
    | inr other ↦ elim (answer-Ends f ((f.handle_at at).pending_operations j)) [
      | inl stuck ↦ rw stuck refl
      | inr (g, e, a) ↦ rw e (
          answer_pending-Stuck left g at (j + 1) i (ground arith) (omega arith)
            (Stuck-Answered f g at i a (w, t)))
    ]
  ]
    where
      ==_of : {a b : ℕ} → a ≡ b → (a == b) ≡ true
      ==_of e = ground (arith, e)

  answer_files-Stuck :
      (ats : List ℕ) (f : Files) (n at i : ℕ)
      → get_elem? ats n ≡ some at
      → i < (f.handle_at at).operation_count
      → Stuck f id ((f.handle_at at).pending_operations i)
      → answer_files realloc ats f id contents ≡ none
  unfolding answer_files
  answer_files-Stuck [] f n at i e l s = absurd (cc)
  answer_files-Stuck (b ∷ ats) f zero at i e l s =
      let first : at ≡ b = cc in
      let here : i < (f.handle_at b).operation_count =
        subst (λ c. i < (f.handle_at c).operation_count) first l in
      rw
        (answer_pending-Stuck (f.handle_at b).operation_count f b 0 i (omega arith)
          (omega (arith, here))
          (subst (λ c. Stuck f id ((f.handle_at c).pending_operations i)) first s))
        refl
  answer_files-Stuck (b ∷ ats) f (suc n) at i e l s =
      elim (answer_pending-Ends (f.handle_at b).operation_count f b 0) [
        | inl stuck ↦ rw stuck refl
        | inr (g, eg, a) ↦
            let count : (g.handle_at at).operation_count ≡ (f.handle_at at).operation_count =
              ap (λ h. (h at).operation_count) a.files in
            rw eg (
              answer_files-Stuck ats g n at i e (omega (arith, count))
                (Stuck-Answered f g at i a s))
      ]

  -- The handler waits without end, where a file has an operation that waits for the ID of the
  -- response and has no thread.
  pub vfs_handler-Stuck :
      (f : Files) (n at i : ℕ)
      → get_elem? f.handles n ≡ some at
      → i < (f.handle_at at).operation_count
      → Stuck f id ((f.handle_at at).pending_operations i)
      → vfs_handler realloc f id contents ≡ none
  unfolding vfs_handler
  vfs_handler-Stuck f n at i e l s = answer_files-Stuck f.handles f n at i e l s
