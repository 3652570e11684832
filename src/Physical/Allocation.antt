-- ===== src/Physical/Allocation.antt =====
-- `AllocatePage` of Source/MemoryAllocation/PhysicalAllocator.cpp: which page is handed out, and
-- what the bitmap holds afterwards. `setBit` counts in 32-bit words over a bitmap of 64-bit words.
use x3c0_microkernel.Common.{
  ℕ, ◌*◌, ◌/◌, ◌%◌, ◌^◌, ◌≤◌, ◌<◌, ◌≡◌, ◌≢◌, ◌⊎◌, inl, inr, refl, sym, ap, ◌∙◌, ==_self, Bool, true,
  false, arith, ◌==◌, if◌then◌else◌, Bool-cases, bit_or,
}
use x3c0_microkernel.Common.Flags.{flag, flag-set}
use x3c0_microkernel.Physical.{
  PageAllocator, set_bit, test_bit, zone_start, zone_end, first_free_bit, allocate_page, page_size,
  int_one_shl,
}
use x3c0_microkernel.Physical.Search.{FirstFree, Found, first_free_bit-Found, Found-unique}

-- The zone lies in the words that a 32-bit page number reaches.
pub record InReach (s : PageAllocator) (dma : Bool) : Type 0 where
  pub reach : zone_end s dma ≤ 2 ^ 26
  pub ordered : zone_start s dma ≤ zone_end s dma

pub set_bit-other_word :
    (s : PageAllocator) (r w : ℕ) → w ≢ r / 32 → (set_bit s r).bitmap w ≡ s.bitmap w
unfolding set_bit
set_bit-other_word s r w h = ground arith

pub set_bit-word :
    (s : PageAllocator) (r : ℕ) → r < 31 → (set_bit s r).bitmap 0 ≡ bit_or (s.bitmap 0) (2 ^ r)
unfolding set_bit
set_bit-word s r h =
    let word : r / 32 ≡ 0 = omega arith in
    let digit : r % 32 ≡ r = omega arith in rw (word, digit) (ground arith)

module _ (undef : ℕ → ℕ) (s : PageAllocator) where
  -- Marking page `r` of 32 or more leaves the bits up to `r` as they were.
  same_below : (r b : ℕ) → 32 ≤ r → b ≤ r → (set_bit s r).bitmap (b / 64) ≡ s.bitmap (b / 64)
  same_below r b h k = set_bit-other_word s r (b / 64) (λ e. omega arith)

  same_test : (r b : ℕ) → 32 ≤ r → b ≤ r → test_bit undef (set_bit s r) b ≡ test_bit undef s b
  unfolding test_bit
  same_test r b h k = rw (same_below r b h k)

  still_first :
      {lo hi r : ℕ} → 32 ≤ r → FirstFree undef s lo hi r → FirstFree undef (set_bit s r) lo hi r
  still_first {lo} {hi} {r} h f = record {
    from = f.from;
    below = f.below;
    free = same_test r r h (omega arith) ∙ f.free;
    open_word = λ e. f.open_word (sym (same_below r r h (omega arith)) ∙ e);
    before = λ b l u o.
        same_test r b h (omega arith)
        ∙ f.before b l u (λ e. o (same_below r b h (omega arith) ∙ e));
  }

  first_of_Found : {lo hi r : ℕ} → r ≢ 0 → Found undef s lo hi r → FirstFree undef s lo hi r
  first_of_Found n (inl (z, _)) = absurd (n z)
  first_of_Found n (inr f) = f

-- In a zone that is in reach and in order, a page number of 32 or more that `AllocatePage` hands
-- out is not marked as used in the word that is tested, so the next call hands out the same page
-- again.
pub allocate_page-same_page :
    (undef : ℕ → ℕ) (s : PageAllocator) (dma : Bool)
    → InReach s dma
    → 32 ≤ first_free_bit undef s dma
    → let (t, pg) = allocate_page undef s dma in
      (test_bit undef t (first_free_bit undef s dma) ≡ false) × ((allocate_page undef t dma).1 ≡ pg)
unfolding allocate_page set_bit
allocate_page-same_page undef s dma z h =
    let r : ℕ = first_free_bit undef s dma in
    let f =
      first_of_Found undef s {r = r} (λ e. omega arith)
        (first_free_bit-Found undef s dma z.reach z.ordered) in
    let g = still_first undef s h f in
    let again : Found undef (set_bit s r) (zone_start s dma * 64) (zone_end s dma * 64)
        (first_free_bit undef (set_bit s r) dma) =
      first_free_bit-Found undef (set_bit s r) dma z.reach z.ordered in
    (
      g.free,
      ap (λ (p : ℕ). p * page_size)
          (sym (Found-unique undef (set_bit s r) (λ e. omega arith) g again)),
    )

-- Where the shift is defined and not negative, the test reads one bit.
pub test_bit-flag :
    (undef : ℕ → ℕ) (s : PageAllocator) (b : ℕ)
    → b % 64 < 31
    → test_bit undef s b ≡ flag (s.bitmap (b / 64)) (b % 64)
unfolding test_bit
test_bit-flag undef s b h = let e : int_one_shl undef (b % 64) ≡ 2 ^ (b % 64) = ground arith in rw e

set_bit-flag :
    (s : PageAllocator) (r b : ℕ)
    → r < 31
    → flag ((set_bit s r).bitmap (b / 64)) (b % 64)
      ≡ (if r == b then true else flag (s.bitmap (b / 64)) (b % 64))
set_bit-flag s r b h = elim (Bool-cases (b / 64 == 0)) [
  | inl e ↦
      let first : b / 64 ≡ 0 = ground arith in
      let low : b % 64 ≡ b = omega arith in
      rw (first, low, set_bit-word s r h) (flag-set (s.bitmap 0) r b)
  | inr d ↦
      let other : b / 64 ≢ r / 32 = ground arith in
      rw (set_bit-other_word s r (b / 64) other) (ground arith)
]

-- `setBit` and `testBit` agree on the pages below 31.
pub test_bit-set_bit :
    (undef : ℕ → ℕ) (s : PageAllocator) (r b : ℕ)
    → r < 31
    → b % 64 < 31
    → test_bit undef (set_bit s r) b ≡ (if r == b then true else test_bit undef s b)
test_bit-set_bit undef s r b h k =
    rw (test_bit-flag undef (set_bit s r) b k, test_bit-flag undef s b k) (set_bit-flag s r b h)

-- In a zone that is in reach and in order, a page number below 31 that `AllocatePage` hands out is
-- marked, no other bit that a defined shift tests changes, and the next call hands out another
-- page or none.
pub allocate_page-marks :
    (undef : ℕ → ℕ) (s : PageAllocator) (dma : Bool)
    → InReach s dma
    → first_free_bit undef s dma < 31
    → let (t, pg) = allocate_page undef s dma in
      ((b : ℕ)
        → b % 64 < 31
        → test_bit undef t b ≡ (if pg == b * page_size then true else test_bit undef s b))
      × (((allocate_page undef t dma).1 ≢ pg) ⊎ (pg ≡ 0))
unfolding allocate_page set_bit
allocate_page-marks undef s dma z h =
    let r : ℕ = first_free_bit undef s dma in
    let marked : test_bit undef (set_bit s r) r ≡ true =
      rw (test_bit-set_bit undef s r r h (omega arith), ==_self r) refl in
    (
      λ b k. rw (test_bit-set_bit undef s r b h k) (ground arith),
      elim (first_free_bit-Found undef (set_bit s r) dma z.reach z.ordered) [
        | inl (none_left, _) ↦ other_page none_left
        | inr f ↦ inl (λ e. cc (marked, f.free, page_inj _ _ e))
      ],
    )
  where
    page_inj : (a b : ℕ) → a * page_size ≡ b * page_size → a ≡ b
    page_inj a b e = omega arith

    other_page :
        first_free_bit undef (set_bit s (first_free_bit undef s dma)) dma ≡ 0
        → (first_free_bit undef (set_bit s (first_free_bit undef s dma)) dma * page_size
            ≢ first_free_bit undef s dma * page_size)
          ⊎ (first_free_bit undef s dma * page_size ≡ 0)
    other_page e = elim (Bool-cases (first_free_bit undef s dma == 0)) [
      | inl z ↦ inr (ground arith)
      | inr n ↦ inl (λ q. ground (arith, page_inj _ _ q))
    ]
