-- ===== src/Physical.antt =====
-- Include/MemoryAllocation/Physical.h and Source/MemoryAllocation/PhysicalAllocator.cpp: the page
-- allocator over its bitmap. `bitmap` is the memory from the static pointer on, in 64-bit words.
-- `undef k` is what the compiled `1 << k` gives on an `int` for `k` of 32 and more, which C++
-- leaves undefined; `testBit` and `clearBit` reach such counts.
pub mod Search
pub mod Allocation
pub mod Release
pub mod Runs
pub mod MemoryMap
pub mod Initialisation
mod Tests
use x3c0_microkernel.Common.{
  ℕ, zero, suc, ◌+◌, ◌-◌, ◌*◌, ◌/◌, ◌%◌, ◌^◌, bit_and, bit_or, Bool, true, false, Option, none,
  some, ◌==◌, ◌!=◌, ltb, if◌then◌else◌, update,
}
use x3c0_microkernel.Common.Words.{u32, u64, not_u64}

pub record PageAllocator : Type 0 where
  pub bitmap : ℕ → ℕ
  pub frame_count : ℕ
  pub dma_zone_end : ℕ

-- `1 << k` for `k` below 32, an `int`, widened to 64 bits: `1 << 31` is negative.
abbrev pub one_shl : ℕ → ℕ
one_shl k = if ltb k 31 then 2 ^ k else 2 ^ 64 - 2 ^ 31

unfoldable pub set_bit : PageAllocator → ℕ → PageAllocator
set_bit s b = record s {
  bitmap = update s.bitmap (b / 32) (bit_or (s.bitmap (b / 32)) (one_shl (b % 32)));
}

-- `for (i = b; i < b + n; i++) setBit(i)`.
unfoldable pub set_bits : PageAllocator → (n b : ℕ) → PageAllocator
set_bits s zero b = s
set_bits s (suc n) b = set_bits (set_bit s b) n (b + 1)

abbrev pub page_size : ℕ
page_size = 0x1000

-- The words that an allocation searches, from `zone_start` up to `zone_end`.
abbrev pub zone_start : PageAllocator → Bool → ℕ
zone_start s dma = if dma then 0 else s.dma_zone_end

abbrev pub zone_end : PageAllocator → Bool → ℕ
zone_end s dma = if dma then s.dma_zone_end else s.frame_count

module _ (undef : ℕ → ℕ) where
  abbrev pub int_one_shl : ℕ → ℕ
  int_one_shl k = if ltb k 32 then one_shl k else u64 (undef k)

  unfoldable pub test_bit : PageAllocator → ℕ → Bool
  test_bit s b = bit_and (s.bitmap (b / 64)) (int_one_shl (b % 64)) != 0

  unfoldable pub clear_bit : PageAllocator → ℕ → PageAllocator
  clear_bit s b = record s {
    bitmap =
        update s.bitmap (b / 64) (bit_and (s.bitmap (b / 64)) (not_u64 (int_one_shl (b % 64))));
  }

  -- The inner loop of `firstFreeBit`: `left` bits of word `i` from `bit` on.
  unfoldable pub scan_bits : PageAllocator → ℕ → (left bit : ℕ) → Option ℕ
  scan_bits s i zero bit = none
  scan_bits s i (suc left) bit =
      let rest = scan_bits s i left (bit + 1) in
      if test_bit s (u32 (i * 64 + bit)) then rest else some (u32 (i * 64 + bit))

  -- The outer loop: `left` words from word `i` on. A word of 32 ones is skipped.
  unfoldable pub scan_frames : PageAllocator → (left i : ℕ) → ℕ
  scan_frames s zero i = 0
  scan_frames s (suc left) i =
      let rest = scan_frames s left (i + 1) in
      if s.bitmap i == 0xffffffff
      then rest
      else elim (scan_bits s i 64 0) [ none ↦ rest | some b ↦ b ]

  unfoldable pub first_free_bit : PageAllocator → Bool → ℕ
  first_free_bit s dma = scan_frames s (zone_end s dma - zone_start s dma) (zone_start s dma)

  -- `AllocatePage`: page 0 means that no page is left.
  unfoldable pub allocate_page : PageAllocator → Bool → PageAllocator × ℕ
  allocate_page s dma = let b = first_free_bit s dma in (set_bit s b, b * page_size)

  -- `FreePage`.
  unfoldable pub free_page : PageAllocator → ℕ → PageAllocator × Bool
  free_page s pg = if pg % page_size != 0 then (s, false) else (clear_bit s (pg / page_size), true)

  -- The loop of `firstFreeBits` that counts the clear bits of a run.
  unfoldable pub count_clear : PageAllocator → (left j : ℕ) → ℕ
  count_clear s zero j = 0
  count_clear s (suc left) j =
      let rest = count_clear s left (j + 1) in if test_bit s j then rest else suc rest

  unfoldable pub scan_runs : PageAllocator → (n i left bit : ℕ) → Option ℕ
  scan_runs s n i zero bit = none
  scan_runs s n i (suc left) bit =
      let rest = scan_runs s n i left (bit + 1) in
      let start = u32 (i * 64 + bit) in
      if test_bit s start
      then rest
      else if count_clear s (u32 (start + n) - start) start == n
      then some start
      else rest

  unfoldable pub scan_run_frames : PageAllocator → (n left i : ℕ) → ℕ
  scan_run_frames s n zero i = 0
  scan_run_frames s n (suc left) i =
      let rest = scan_run_frames s n left (i + 1) in
      if s.bitmap i == 0xffffffff
      then rest
      else elim (scan_runs s n i 64 0) [ none ↦ rest | some b ↦ b ]

  unfoldable pub first_free_bits : PageAllocator → ℕ → Bool → ℕ
  first_free_bits s n dma =
      scan_run_frames s n (zone_end s dma - zone_start s dma) (zone_start s dma)

  -- `AllocatePages` calls `firstFreeBits(dma)`: the flag is taken for the count.
  unfoldable pub allocate_pages : PageAllocator → ℕ → Bool → PageAllocator × ℕ
  allocate_pages s n dma =
      let b = first_free_bits s (if dma then 1 else 0) false in (set_bits s n b, b * page_size)
