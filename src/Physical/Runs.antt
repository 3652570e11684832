-- ===== src/Physical/Runs.antt =====
-- `AllocatePages` and `firstFreeBits` of Source/MemoryAllocation/PhysicalAllocator.cpp, and marking
-- pages past the bitmap.
use x3c0_microkernel.Common.{
  ℕ, zero, suc, ◌+◌, ◌-◌, ◌*◌, ◌/◌, ◌%◌, ◌^◌, ◌≤◌, ◌<◌, ◌≡◌, inl, inr, refl, ap, Bool, false, arith,
  ◌==◌, if◌then◌else◌, Bool-cases, bit_or, ==_self,
}
use x3c0_microkernel.Common.Words.{u32}
use x3c0_microkernel.Physical.{
  PageAllocator, one_shl, set_bit, test_bit, scan_bits, scan_frames, first_free_bit, allocate_page,
  count_clear, scan_runs, scan_run_frames, first_free_bits, allocate_pages, page_size,
}

module _ (undef : ℕ → ℕ) (s : PageAllocator) (n : ℕ) (one : n ≤ 1) where
  -- A run of one page or none is free where its first page is.
  count_clear-run :
      (j : ℕ)
      → j < 2 ^ 32 - 1
      → test_bit undef s j ≡ false
      → count_clear undef s (u32 (j + n) - j) j ≡ n
  unfolding count_clear
  count_clear-run j h free = elim (Bool-cases (n == 0)) [
    | inl e ↦ let none_left : u32 (j + n) - j ≡ 0 = ground arith in rw none_left (ground arith)
    | inr d ↦ let single : u32 (j + n) - j ≡ 1 = ground arith in rw single (rw free (ground arith))
  ]

  scan_runs-scan_bits :
      (i left bit : ℕ)
      → i < 2 ^ 26 - 1
      → left + bit ≡ 64
      → scan_runs undef s n i left bit ≡ scan_bits undef s i left bit
  unfolding scan_runs scan_bits
  scan_runs-scan_bits i zero bit h e = refl
  scan_runs-scan_bits i (suc left) bit h e =
      elim (Bool-cases (test_bit undef s (u32 (i * 64 + bit)))) [
        | inl used ↦ rw used (scan_runs-scan_bits i left (bit + 1) h (omega arith))
        | inr free ↦
            rw (free, count_clear-run (u32 (i * 64 + bit)) (omega arith) free, ==_self n) refl
      ]

  scan_run_frames-scan_frames :
      (left i : ℕ)
      → i + left < 2 ^ 26
      → scan_run_frames undef s n left i ≡ scan_frames undef s left i
  unfolding scan_run_frames scan_frames
  scan_run_frames-scan_frames zero i h = refl
  scan_run_frames-scan_frames (suc left) i h = ground (
    arith,
    scan_run_frames-scan_frames left (i + 1) (omega arith),
    scan_runs-scan_bits i 64 0 (omega arith) refl,
  )

-- In a memory of fewer than 2^26 words, with the zones in order, `AllocatePages` takes neither its
-- count nor its zone into account when it searches: for every count and either zone it starts at
-- the page that `AllocatePage` without the flag would return.
pub allocate_pages-first :
    (undef : ℕ → ℕ) (s : PageAllocator) (n : ℕ) (dma : Bool)
    → s.frame_count < 2 ^ 26
    → s.dma_zone_end ≤ s.frame_count
    → (allocate_pages undef s n dma).1 ≡ (allocate_page undef s false).1
unfolding allocate_pages allocate_page first_free_bits first_free_bit
allocate_pages-first undef s n dma h k =
    ap (λ (b : ℕ). b * page_size)
      (scan_run_frames-scan_frames undef s (if dma then 1 else 0) (ground arith)
        (s.frame_count - s.dma_zone_end) s.dma_zone_end (omega arith))

-- Marking a page whose number is at least 32 times the number of words leaves every word of the
-- bitmap as it was, and writes a word past its end.
pub set_bit_outside :
    (s : PageAllocator) (b : ℕ)
    → 32 * s.frame_count ≤ b
    → ((w : ℕ) → w < s.frame_count → (set_bit s b).bitmap w ≡ s.bitmap w)
      × (w : ℕ) × (s.frame_count ≤ w)
      × ((set_bit s b).bitmap w ≡ bit_or (s.bitmap w) (one_shl (b % 32)))
unfolding set_bit
set_bit_outside s b h = (λ w k. ground arith, b / 32, omega arith, ground arith)
