-- ===== src/MessageThreads/Behind.antt =====
-- `getNextMTID` of C library stubs/SystemCalls.c after `recycleMTID` of MessageHandlers.c: which free
-- ID comes next.
use x3c0_microkernel.Common.{
  ℕ, ◌+◌, ◌*◌, ◌^◌, ◌<◌, ◌≤◌, ◌≡◌, ◌≢◌, refl, sym, ap, ◌∙◌, true, false, Option, some, leb, ◌!=◌,
  if◌then◌else◌, ==_ne, update_self, arith,
}
use x3c0_microkernel.Common.Words.{u32, sub_u32}
use x3c0_microkernel.MessageThreads.{Pool, get_next_mtid, recycle_mtid}

-- What is documented of `realloc`: the words that fit into the new block are those of the old one.
abbrev pub KeepsContents : ((ℕ → ℕ) → (bytes : ℕ) → Option (ℕ → ℕ)) → Type 0
KeepsContents realloc =
    (ids tids : ℕ → ℕ) (bytes : ℕ)
    → realloc ids bytes ≡ some tids
    → (i : ℕ) → 4 * (i + 1) ≤ bytes
    → tids i ≡ ids i

-- A `realloc` that succeeds, with `x` behind each new block.
unfoldable resized : (x : ℕ) → (ℕ → ℕ) → (bytes : ℕ) → Option (ℕ → ℕ)
resized x ids bytes = some (λ i. if leb (4 * (i + 1)) bytes then ids i else x)

resized-KeepsContents : (x : ℕ) → KeepsContents (resized x)
unfolding resized
resized-KeepsContents x ids tids bytes e i fits =
    let whole : leb (4 * (i + 1)) bytes ≡ true = ground (arith, fits) in
    ap (λ f. f i) (some-same (sym e)) ∙ rw whole refl
  where
    some-same : {f g : ℕ → ℕ} → some f ≡ some g → f ≡ g
    some-same e = cc

-- An ID that is not the last one goes back to the pool, which holds less than 2^30 - 1 others. For
-- every word `x`, one that is an ID in use included, there is a `realloc` with the documented
-- behaviour for which the ID is the last free one, and the next ID that is handed out is `x`.
pub recycle_mtid-lost :
    (p : Pool) (id x : ℕ)
    → id ≢ sub_u32 p.max_thread 1
    → p.free_count + 1 < 2 ^ 30
    → (realloc : (ℕ → ℕ) → (bytes : ℕ) → Option (ℕ → ℕ)) × KeepsContents realloc
      × (let q = recycle_mtid realloc p id in
          (q.free_count ≡ p.free_count + 1)
          × (q.free_ids p.free_count ≡ id)
          × ((get_next_mtid realloc q).1 ≡ x))
unfolding recycle_mtid get_next_mtid resized
recycle_mtid-lost p id x inner few =
    let other = ==_ne id (sub_u32 p.max_thread 1) inner in
    let one_more : u32 (p.free_count + 1) ≡ p.free_count + 1 = omega arith in
    let last : sub_u32 (p.free_count + 1) 1 ≡ p.free_count = omega arith in
    let some_free : (p.free_count + 1 != 0) ≡ true = ground arith in
    let outside : leb (4 * (p.free_count + 1)) (u32 (p.free_count * 4)) ≡ false = ground arith in
    let top =
      update_self
        (λ i. if leb (4 * (i + 1)) (u32 (4 * (p.free_count + 1))) then p.free_ids i else x)
        p.free_count id in
    (
      resized x,
      resized-KeepsContents x,
      (
        rw (other, one_more) refl,
        rw (other, one_more) top,
        rw (other, one_more, last, some_free, outside) refl,
      ),
    )
