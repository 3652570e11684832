-- ===== src/Files/Requests.antt =====
-- C library stubs/SystemCalls.c and C library stubs/MessageHandlers.c: whether the response to a
-- request reaches the operation that waits for it.
use x3c0_microkernel.Common.{
  ℕ, zero, suc, ◌+◌, ◌%◌, ◌^◌, ◌<◌, ◌≤◌, ◌≡◌, ◌≢◌, ◌⊎◌, inl, inr, refl, sym, ap, subst, ◌∙◌, arith,
  Option, none, some, List, [], ◌∷◌, get_elem?, ◌==◌, update, Bool-cases, ==_ne, update_self,
  update_ne,
}
use x3c0_microkernel.Common.Words.{u32}
use x3c0_microkernel.MessageThreads.{get_next_mtid}
use x3c0_microkernel.Files.{
  FileOperation, Request, Files, Outside, send_message, begin_request, noted, awoken, answer,
  answer_pending, answer_files, vfs_handler,
}
use x3c0_microkernel.Files.Answers.{Known, Got, vfs_handler-Answered}
use x3c0_microkernel.Files.Waiting.{Stuck, vfs_handler-Stuck}

-- No operation waits for the ID.
abbrev pub Unmatched : Files → (id : ℕ) → Type 0
Unmatched f id = (a : ℕ) → (f.operations a).waiting_for_id ≢ id

module _ (realloc : (ℕ → ℕ) → ℕ → Option (ℕ → ℕ)) (id contents : ℕ) where
  answer-Unmatched :
      (f : Files) (op : ℕ) → Unmatched f id → answer realloc f op id contents ≡ some f
  unfolding answer
  answer-Unmatched f op none_waits =
      rw (==_ne (f.operations op).waiting_for_id id (none_waits op)) refl

  answer_pending-Unmatched :
      (left : ℕ) (f : Files) (at j : ℕ)
      → Unmatched f id
      → answer_pending realloc left f at j id contents ≡ some f
  unfolding answer_pending
  answer_pending-Unmatched zero f at j none_waits = refl
  answer_pending-Unmatched (suc left) f at j none_waits =
      rw (answer-Unmatched f ((f.handle_at at).pending_operations j) none_waits)
        (answer_pending-Unmatched left f at (j + 1) none_waits)

  answer_files-Unmatched :
      (ats : List ℕ) (f : Files) → Unmatched f id → answer_files realloc ats f id contents ≡ some f
  unfolding answer_files
  answer_files-Unmatched [] f none_waits = refl
  answer_files-Unmatched (at ∷ ats) f none_waits =
      rw (answer_pending-Unmatched (f.handle_at at).operation_count f at 0 none_waits)
        (answer_files-Unmatched ats f none_waits)

  pub vfs_handler-Unmatched :
      (f : Files) → Unmatched f id → vfs_handler realloc f id contents ≡ some f
  unfolding vfs_handler
  vfs_handler-Unmatched f none_waits = answer_files-Unmatched f.handles f none_waits

-- What stands at an address after a write.
update-cases :
    (operations : ℕ → FileOperation) (op : ℕ) (p : FileOperation) (a : ℕ)
    → ((op ≡ a) × (update operations op p a ≡ p)) ⊎ (update operations op p a ≡ operations a)
update-cases operations op p a = elim (Bool-cases (op == a)) [
  | inl here ↦
      let e : op ≡ a = ground arith in
      inl (e, ap (update operations op p) (sym e) ∙ update_self operations op p)
  | inr other ↦ inr (update_ne operations op a p (λ e. ground arith))
]

module _ (o : Outside) where
  -- The ID that the next request gets.
  abbrev pub next_id : Files → ℕ
  next_id f = (get_next_mtid o.realloc f.pool).1

  -- The request is known to the file at `at` and to the operation, and it was sent with the ID.
  pub record Begun (f : Files) (at id : ℕ) (g : Files) : Type 0 where
    pub handles : g.handles ≡ f.handles
    pub handle : g.handle_at at ≡ record (f.handle_at at) {
      pending_operations =
          update (f.handle_at at).pending_operations (f.handle_at at).operation_count o.op_at;
      operation_count = u32 ((f.handle_at at).operation_count + 1);
    }
    pub operations :
        g.operations ≡ update f.operations o.op_at (record o.raw_op { waiting_for_id = id % 2 ^ 8 })
    pub sent : (r : Request) × (g.sent ≡ r ∷ f.sent) × (r.message_thread ≡ id)

  begin_request-Begun :
      (f : Files) (fh at contents size code flags : ℕ)
      → get_elem? f.handles fh ≡ some at
      → (g : Files) × (begin_request o f fh contents size code flags ≡ some g)
        × Begun f at (next_id f) g
  unfolding begin_request send_message
  begin_request-Begun f fh at contents size code flags e = (
    send_message (noted o f at) o.vfs contents size code (next_id f) flags,
    rw e refl,
    record {
      handles = refl;
      handle = update_self f.handle_at at _;
      operations = refl;
      sent = (_, refl, refl);
    },
  )

  -- Only the new operation can wait for an ID that does not fit in 8 bits.
  Begun-Unmatched :
      (f g : Files) (at id : ℕ)
      → Begun f at id g
      → 256 ≤ id
      → ((a : ℕ) → (f.operations a).waiting_for_id < 256)
      → Unmatched g id
  Begun-Unmatched f g at id b large byte a z =
      let new = record o.raw_op { waiting_for_id = id % 2 ^ 8 } in
      let w = ap (λ ops. (ops a).waiting_for_id) b.operations in
      elim (update-cases f.operations o.op_at new a) [
        | inl (here, e) ↦ omega (arith, z, w, ap (λ p. p.waiting_for_id) e)
        | inr e ↦ omega (arith, z, w, ap (λ p. p.waiting_for_id) e, byte a)
      ]

  -- Each operation that waits has a thread, where the new one's memory held one.
  Begun-Known :
      (f g : Files) (at id : ℕ)
      → Begun f at id g
      → o.raw_op.wake_thread ≢ 0
      → Known f id
      → Known g id
  Begun-Known f g at id b held known a w z =
      let new = record o.raw_op { waiting_for_id = id % 2 ^ 8 } in
      let at_a = ap (λ ops. ops a) b.operations in
      elim (update-cases f.operations o.op_at new a) [
        | inl (here, n) ↦ held (sym (ap (λ p. p.wake_thread) (at_a ∙ n)) ∙ z)
        | inr n ↦
            known a (sym (ap (λ p. p.waiting_for_id) (at_a ∙ n)) ∙ w)
              (sym (ap (λ p. p.wake_thread) (at_a ∙ n)) ∙ z)
      ]

  -- The new operation waits for the ID.
  Begun-waiting :
      (f g : Files) (at id : ℕ)
      → Begun f at id g
      → id < 256
      → (g.operations o.op_at).waiting_for_id ≡ id
  Begun-waiting f g at id b small =
      ap (λ ops. (ops o.op_at).waiting_for_id) b.operations
      ∙ ap (λ p. p.waiting_for_id)
          (update_self f.operations o.op_at (record o.raw_op { waiting_for_id = id % 2 ^ 8 }))
      ∙ omega arith

  -- The new operation is the last one of the file.
  Begun-place :
      (f g : Files) (at id : ℕ)
      → Begun f at id g
      → (f.handle_at at).operation_count + 1 < 2 ^ 32
      → ((f.handle_at at).operation_count < (g.handle_at at).operation_count)
        × ((g.handle_at at).pending_operations (f.handle_at at).operation_count ≡ o.op_at)
  Begun-place f g at id b few =
      let i = (f.handle_at at).operation_count in
      let count : (g.handle_at at).operation_count ≡ u32 (i + 1) =
        ap (λ x. x.operation_count) b.handle in
      (
        omega (arith, count),
        ap (λ x. x.pending_operations i) b.handle
            ∙ update_self (f.handle_at at).pending_operations i o.op_at,
      )

  -- A request about an open file whose ID does not fit in 8 bits: it is sent with that ID, and the
  -- handler of the response changes nothing and wakes nobody.
  pub begin_request-unanswered :
      (f : Files) (fh at contents size code flags answered : ℕ)
      → get_elem? f.handles fh ≡ some at
      → 256 ≤ next_id f
      → ((a : ℕ) → (f.operations a).waiting_for_id < 256)
      → (g : Files) × (begin_request o f fh contents size code flags ≡ some g)
        × ((r : Request) × (g.sent ≡ r ∷ f.sent) × (r.message_thread ≡ next_id f))
        × (vfs_handler o.realloc g (next_id f) answered ≡ some g)
  begin_request-unanswered f fh at contents size code flags answered open_file large byte =
      let (g, e, b) = begin_request-Begun f fh at contents size code flags open_file in
      (
        g,
        e,
        b.sent,
        vfs_handler-Unmatched o.realloc (next_id f) answered g
            (Begun-Unmatched f g at (next_id f) b large byte),
      )

  -- A request about an open file that has less than 2^32 - 1 operations, whose ID fits in 8 bits,
  -- where the memory of the new operation happened to hold a thread that is not 0 and every other
  -- operation that waits for the same ID has such a thread as well. A response that comes while the
  -- thread sleeps for the first time reaches the operation. If it comes later, when the code 0 of
  -- the first sleep was noted as the thread, its handler never ends.
  pub begin_request-answered :
      (f : Files) (fh at contents size code flags answered : ℕ)
      → get_elem? f.handles fh ≡ some at
      → next_id f < 256
      → (f.handle_at at).operation_count + 1 < 2 ^ 32
      → o.raw_op.wake_thread ≢ 0
      → Known f (next_id f)
      → (g : Files) × (begin_request o f fh contents size code flags ≡ some g)
        × ((r : Request) × (g.sent ≡ r ∷ f.sent) × (r.message_thread ≡ next_id f))
        × ((h : Files) × (vfs_handler o.realloc g (next_id f) answered ≡ some h)
            × Got h o.op_at answered)
        × (vfs_handler o.realloc (awoken o g) (next_id f) answered ≡ none)
  begin_request-answered f fh at contents size code flags answered open_file small few held known =
      let (g, e, b) = begin_request-Begun f fh at contents size code flags open_file in
      let i = (f.handle_at at).operation_count in
      let (inside, place) = Begun-place f g at (next_id f) b few in
      let there : get_elem? g.handles fh ≡ some at =
        ap (λ l. get_elem? l fh) b.handles ∙ open_file in
      let waiting = Begun-waiting f g at (next_id f) b small in
      let (h, eh, a, reached) =
        vfs_handler-Answered o.realloc (next_id f) answered g
          (Begun-Known f g at (next_id f) b held known) in
      let zero =
        update_self g.operations o.op_at (record (g.operations o.op_at) { wake_thread = 0 }) in
      (
        g,
        e,
        b.sent,
        (
          h,
          eh,
          subst (λ op. Got h op answered) place
              (reached fh at there i inside
                (ap (λ op. (g.operations op).waiting_for_id) place ∙ waiting)),
        ),
        vfs_handler-Stuck o.realloc (next_id f) answered (awoken o g) fh at i there inside (
            subst (Stuck (awoken o g) (next_id f)) (sym place)
              (ap (λ p. p.waiting_for_id) zero ∙ waiting, ap (λ p. p.wake_thread) zero)),
      )
