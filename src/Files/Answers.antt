-- ===== src/Files/Answers.antt =====
-- `vfsHandler` of C library stubs/MessageHandlers.c: which operations a response reaches.
use x3c0_microkernel.Common.{
  ℕ, zero, suc, ◌+◌, ◌<◌, ◌≤◌, ◌≡◌, ◌≢◌, inl, inr, refl, sym, ap, subst, ◌∙◌, arith, Option, some,
  List, [], ◌∷◌, get_elem?, ◌==◌, update, Bool-cases, ==_ne, update_self, update_ne,
}
use x3c0_microkernel.MessageThreads.{recycle_mtid}
use x3c0_microkernel.Files.{FileOperation, Files, answer, answer_pending, answer_files, vfs_handler}

-- Each operation that waits for the ID has a thread.
abbrev pub Known : Files → (id : ℕ) → Type 0
Known f id = (a : ℕ) → (f.operations a).waiting_for_id ≡ id → (f.operations a).wake_thread ≢ 0

-- The operation at `a` has got the response.
abbrev pub Got : Files → (a contents : ℕ) → Type 0
Got g a contents = (g.operations a).operation_wake_data ≡ contents

-- `g` is `f` after responses to `id`.
pub record Answered (f : Files) (id contents : ℕ) (g : Files) : Type 0 where
  pub files : g.handle_at ≡ f.handle_at
  pub waiting : (a : ℕ) → (g.operations a).waiting_for_id ≡ (f.operations a).waiting_for_id
  pub threads : (a : ℕ) → (g.operations a).wake_thread ≡ (f.operations a).wake_thread
  pub others : (a : ℕ) → (f.operations a).waiting_for_id ≢ id → g.operations a ≡ f.operations a
  pub kept : (a : ℕ) → Got f a contents → Got g a contents

pub Answered-trans :
    {f g h : Files} {id contents : ℕ}
    → Answered f id contents g
    → Answered g id contents h
    → Answered f id contents h
Answered-trans p q = record {
  files = q.files ∙ p.files;
  waiting = λ a. q.waiting a ∙ p.waiting a;
  threads = λ a. q.threads a ∙ p.threads a;
  others = λ a n. q.others a (λ e. n (sym (p.waiting a) ∙ e)) ∙ p.others a n;
  kept = λ a e. q.kept a (p.kept a e);
}

Known-Answered :
    {f g : Files} {id contents : ℕ} → Answered f id contents g → Known f id → Known g id
Known-Answered p k a e z = k a (sym (p.waiting a) ∙ e) (sym (p.threads a) ∙ z)

pub Answered-refl : {f : Files} {id contents : ℕ} → Answered f id contents f
Answered-refl = record {
  files = refl;
  waiting = λ a. refl;
  threads = λ a. refl;
  others = λ a n. refl;
  kept = λ a e. e;
}

-- What an operation keeps when it is written, every operation keeps.
update-field :
    (o : ℕ → FileOperation) (op : ℕ) (p : FileOperation) (field : FileOperation → ℕ)
    → field p ≡ field (o op)
    → (a : ℕ) → field (update o op p a) ≡ field (o a)
update-field o op p field same a = elim (Bool-cases (op == a)) [
  | inl here ↦
      let e : op ≡ a = ground arith in
      ap field (ap (update o op p) (sym e) ∙ update_self o op p) ∙ same ∙ ap (λ b. field (o b)) e
  | inr other ↦ ap field (update_ne o op a p (λ e. ground arith))
]

-- The response at one operation.
pub update-Answered :
    (f g : Files) (op id contents : ℕ)
    → (f.operations op).waiting_for_id ≡ id
    → g.handle_at ≡ f.handle_at
    → g.operations
      ≡ update f.operations op (record (f.operations op) { operation_wake_data = contents })
    → Answered f id contents g
update-Answered f g op id contents matched same e =
    let p = record (f.operations op) { operation_wake_data = contents } in
    record {
      files = same;
      waiting = λ a.
          ap (λ o. (o a).waiting_for_id) e
          ∙ update-field f.operations op p (λ o. o.waiting_for_id) refl a;
      threads = λ a.
          ap (λ o. (o a).wake_thread) e
          ∙ update-field f.operations op p (λ o. o.wake_thread) refl a;
      others = λ a n.
          ap (λ o. o a) e
          ∙ update_ne f.operations op a p
              (λ here. n (ap (λ b. (f.operations b).waiting_for_id) (sym here) ∙ matched));
      kept = λ a got. ap (λ o. (o a).operation_wake_data) e ∙ elim (Bool-cases (op == a)) [
        | inl here ↦
            let at : op ≡ a = ground arith in
            ap (λ o. o.operation_wake_data)
              (ap (update f.operations op p) (sym at) ∙ update_self f.operations op p)
        | inr other ↦
            ap (λ o. o.operation_wake_data) (update_ne f.operations op a p (λ z. ground arith))
            ∙ got
      ];
    }

module _ (realloc : (ℕ → ℕ) → ℕ → Option (ℕ → ℕ)) (id contents : ℕ) where
  -- What is known after a response: the state, and that `done` operations have got it.
  abbrev Responded : Files → Option Files → (done : Files → Type 0) → Type 0
  Responded f r done = (g : Files) × (r ≡ some g) × Answered f id contents g × done g

  answer-Answered :
      (f : Files) (op : ℕ)
      → Known f id
      → Responded f
          (answer realloc f op id contents)
          (λ g. (f.operations op).waiting_for_id ≡ id → Got g op contents)
  unfolding answer
  answer-Answered f op known = elim (Bool-cases ((f.operations op).waiting_for_id == id)) [
    | inr other ↦ (f, rw other refl, Answered-refl, λ e. absurd (ground arith))
    | inl matched ↦
        let e : (f.operations op).waiting_for_id ≡ id = ground arith in
        let p = record (f.operations op) { operation_wake_data = contents } in
        let g = record f {
          operations = update f.operations op p;
          woken = (f.operations op).wake_thread ∷ f.woken;
          pool = recycle_mtid realloc f.pool id;
        } in
        (
          g,
          rw (matched, ==_ne (f.operations op).wake_thread 0 (known op e)) refl,
          update-Answered f g op id contents e refl refl,
          λ z. ap (λ o. o.operation_wake_data) (update_self f.operations op p),
        )
  ]

  -- The operations of the file at `at` from `j` to `end` that wait for the ID have got the response.
  abbrev Reached : Files → (at j end : ℕ) → Files → Type 0
  Reached f at j end g =
      (i : ℕ)
      → j ≤ i
      → i < end
      → (f.operations ((f.handle_at at).pending_operations i)).waiting_for_id ≡ id
      → Got g ((f.handle_at at).pending_operations i) contents

  -- What `g` reached, `f` did, where they have the same files and IDs.
  Reached-before :
      (f g r : Files) (at j end : ℕ)
      → Answered f id contents g
      → Reached g at j end r
      → Reached f at j end r
  Reached-before f g r at j end p reached i l u w =
      let same : (g.handle_at at).pending_operations i ≡ (f.handle_at at).pending_operations i =
        ap (λ h. (h at).pending_operations i) p.files in
      subst (λ a. Got r a contents) same
        (reached i l u (ap (λ a. (g.operations a).waiting_for_id) same ∙ p.waiting _ ∙ w))

  answer_pending-Answered :
      (left : ℕ) (f : Files) (at j : ℕ)
      → Known f id
      → Responded f (answer_pending realloc left f at j id contents) (Reached f at j (j + left))
  unfolding answer_pending
  answer_pending-Answered zero f at j known =
      (f, refl, Answered-refl, λ i l u. absurd (omega arith))
  answer_pending-Answered (suc left) f at j known =
      let op = (f.handle_at at).pending_operations j in
      let (g, e, once, first) = answer-Answered f op known in
      let (r, er, rest, later) =
        answer_pending-Answered left g at (j + 1) (Known-Answered once known) in
      (
        r,
        rw e er,
        Answered-trans once rest,
        λ i l u w. elim (Bool-cases (j == i)) [
          | inl here ↦
              let at_j : j ≡ i = ground arith in
              subst (λ a. Got r a contents) (ap (f.handle_at at).pending_operations at_j)
                (rest.kept op (
                  first (
                    ap (λ k. (f.operations ((f.handle_at at).pending_operations k)).waiting_for_id)
                      at_j
                    ∙ w)))
          | inr other ↦
              Reached-before f g r at (j + 1) (j + 1 + left) once later i (ground arith)
                (omega arith) w
        ],
      )

  -- In each file of the list.
  abbrev pub ReachedAll : List ℕ → Files → Files → Type 0
  ReachedAll ats f g =
      (n at : ℕ)
      → get_elem? ats n ≡ some at
      → (i : ℕ) → i < (f.handle_at at).operation_count
      → (f.operations ((f.handle_at at).pending_operations i)).waiting_for_id ≡ id
      → Got g ((f.handle_at at).pending_operations i) contents

  ReachedAll-cons :
      (f g r : Files) (at : ℕ) (ats : List ℕ)
      → Answered f id contents g
      → Answered g id contents r
      → Reached f at 0 (f.handle_at at).operation_count g
      → ReachedAll ats g r
      → ReachedAll (at ∷ ats) f r
  ReachedAll-cons f g r at ats once rest here later zero b e i l w =
      let first : at ≡ b = cc in
      subst
        (λ c.
          i < (f.handle_at c).operation_count
          → (f.operations ((f.handle_at c).pending_operations i)).waiting_for_id ≡ id
          → Got r ((f.handle_at c).pending_operations i) contents)
        first (λ u v. rest.kept _ (here i (omega arith) u v)) l w
  ReachedAll-cons f g r at ats once rest here later (suc n) b e i l w =
      let count : (f.handle_at b).operation_count ≡ (g.handle_at b).operation_count =
        ap (λ h. (h b).operation_count) (sym once.files) in
      Reached-before f g r b 0 (g.handle_at b).operation_count once (λ k u v. later n b e k v) i
        (omega arith) (omega (arith, count)) w

  answer_files-Answered :
      (ats : List ℕ) (f : Files)
      → Known f id
      → Responded f (answer_files realloc ats f id contents) (ReachedAll ats f)
  unfolding answer_files
  answer_files-Answered [] f known = (f, refl, Answered-refl, λ n at e. absurd (cc))
  answer_files-Answered (at ∷ ats) f known =
      let count = (f.handle_at at).operation_count in
      let (g, e, once, here) = answer_pending-Answered count f at 0 known in
      let (r, er, rest, later) = answer_files-Answered ats g (Known-Answered once known) in
      (
        r,
        rw e er,
        Answered-trans once rest,
        ReachedAll-cons f g r at ats once rest (λ i l u. here i l (omega arith)) later,
      )

  -- A response, where each operation that waits for its ID has a thread: `vfsHandler` ends, and the
  -- pending operations of all files that wait for the ID have got it, and no operation that waits
  -- for another one is changed.
  pub vfs_handler-Answered :
      (f : Files)
      → Known f id
      → (g : Files) × (vfs_handler realloc f id contents ≡ some g)
        × Answered f id contents g
        × ReachedAll f.handles f g
  unfolding vfs_handler
  vfs_handler-Answered f known = answer_files-Answered f.handles f known
