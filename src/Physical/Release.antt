-- ===== src/Physical/Release.antt =====
-- `FreePage` of Source/MemoryAllocation/PhysicalAllocator.cpp, and `AllocatePage` followed by it.
use x3c0_microkernel.Common.{
  ℕ, ◌-◌, ◌*◌, ◌/◌, ◌%◌, ◌^◌, ◌<◌, ◌≡◌, ◌≢◌, inl, inr, refl, sym, ◌∙◌, Bool, true, false, arith,
  ◌==◌, ◌!=◌, if◌then◌else◌, Bool-cases, bit_and,
}
use x3c0_microkernel.Common.Flags.{flag, flag-clear, clear-set}
use x3c0_microkernel.Physical.{
  PageAllocator, set_bit, test_bit, clear_bit, int_one_shl, first_free_bit, allocate_page,
  free_page, page_size,
}
use x3c0_microkernel.Physical.Allocation.{test_bit-flag, set_bit-word, set_bit-other_word}

module _ (undef : ℕ → ℕ) (s : PageAllocator) where
  clear_bit-other_word : (p w : ℕ) → w ≢ p / 64 → (clear_bit undef s p).bitmap w ≡ s.bitmap w
  unfolding clear_bit
  clear_bit-other_word p w h = ground arith

  clear_bit-word :
      (p : ℕ)
      → p % 64 < 31
      → (clear_bit undef s p).bitmap (p / 64)
        ≡ bit_and (s.bitmap (p / 64)) (2 ^ 64 - 1 - 2 ^ (p % 64))
  unfolding clear_bit
  clear_bit-word p h =
      let e : int_one_shl undef (p % 64) ≡ 2 ^ (p % 64) = ground arith in rw e (ground arith)

  clear_bit-flag :
      (p b : ℕ)
      → p % 64 < 31
      → b % 64 < 31
      → flag ((clear_bit undef s p).bitmap (b / 64)) (b % 64)
        ≡ (if p == b then false else flag (s.bitmap (b / 64)) (b % 64))
  clear_bit-flag p b h k = elim (Bool-cases (b / 64 == p / 64)) [
    | inl e ↦
        let same : b / 64 ≡ p / 64 = ground arith in
        rw (same, clear_bit-word p h)
          (flag-clear 64 (s.bitmap (p / 64)) (p % 64) (b % 64) (omega arith) (omega arith)
            ∙ ground arith)
    | inr d ↦
        let other : b / 64 ≢ p / 64 = ground arith in
        rw (clear_bit-other_word p (b / 64) other) (ground arith)
  ]

clear_bit-low :
    (undef : ℕ → ℕ) (s : PageAllocator) (r : ℕ)
    → r < 31
    → (clear_bit undef s r).bitmap 0 ≡ bit_and (s.bitmap 0) (2 ^ 64 - 1 - 2 ^ r)
clear_bit-low undef s r h =
    let word : r / 64 ≡ 0 = omega arith in
    let digit : r % 64 ≡ r = omega arith in
    rw (word, digit) at (clear_bit-word undef s r (omega arith))

test_bit-low :
    (undef : ℕ → ℕ) (s : PageAllocator) (r : ℕ) → r < 31 → test_bit undef s r ≡ flag (s.bitmap 0) r
test_bit-low undef s r h =
    let word : r / 64 ≡ 0 = omega arith in
    let digit : r % 64 ≡ r = omega arith in
    rw (word, digit) at (test_bit-flag undef s r (omega arith))

-- `FreePage` refuses an address that is not a page's and changes nothing. Of a page it clears the
-- bit, and no other page tests differently, where the shift of both is defined.
pub free_page-releases :
    (undef : ℕ → ℕ) (s : PageAllocator) (pg : ℕ)
    → (pg % page_size ≢ 0 → free_page undef s pg ≡ (s, false))
      × (pg % page_size ≡ 0
          → pg / page_size % 64 < 31
          → ((free_page undef s pg).1 ≡ true)
            × ((b : ℕ)
                → b % 64 < 31
                → test_bit undef (free_page undef s pg).0 b
                  ≡ (if pg == b * page_size then false else test_bit undef s b)))
unfolding free_page
free_page-releases undef s pg = (
  λ h. ground arith,
  λ h k.
      let p : ℕ = pg / page_size in
      let e : (pg % page_size != 0) ≡ false = ground arith in
      rw e (
        refl,
        λ b l.
            rw
              (
                test_bit-flag undef (clear_bit undef s p) b l,
                test_bit-flag undef s b l,
                clear_bit-flag undef s p b k l,
              )
              (ground arith),
      ),
)

-- In a bitmap of 64-bit words, freeing what `AllocatePage` has just returned gives every word
-- back, for a page number below 31 that was free.
pub free_page-allocate_page :
    (undef : ℕ → ℕ) (s : PageAllocator) (dma : Bool)
    → ((w : ℕ) → s.bitmap w < 2 ^ 64)
    → first_free_bit undef s dma < 31
    → test_bit undef s (first_free_bit undef s dma) ≡ false
    → let (t, pg) = allocate_page undef s dma in
      ((free_page undef t pg).1 ≡ true) × ((w : ℕ) → (free_page undef t pg).0.bitmap w ≡ s.bitmap w)
unfolding allocate_page free_page
free_page-allocate_page undef s dma fits h free =
    let r : ℕ = first_free_bit undef s dma in
    let aligned : (r * page_size % page_size != 0) ≡ false = ground arith in
    let number : r * page_size / page_size ≡ r = omega arith in
    rw (aligned, number) (refl, λ w. restored r h free w)
  where
    restored :
        (r : ℕ)
        → r < 31
        → test_bit undef s r ≡ false
        → (w : ℕ) → (clear_bit undef (set_bit s r) r).bitmap w ≡ s.bitmap w
    restored r h free w = elim (Bool-cases (w == 0)) [
      | inl e ↦
          let first : w ≡ 0 = ground arith in
          rw (first, clear_bit-low undef (set_bit s r) r h, set_bit-word s r h)
            (clear-set 64 (s.bitmap 0) r (omega arith) (fits 0)
              (sym (test_bit-low undef s r h) ∙ free))
      | inr d ↦
          clear_bit-other_word undef (set_bit s r) r w (ground arith)
          ∙ set_bit-other_word s r w (ground arith)
    ]
