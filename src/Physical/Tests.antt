-- ===== src/Physical/Tests.antt =====
-- The page allocator at small memories, with the shift that an x86 processor makes.
use x3c0_microkernel.Common.{
  ℕ, ◌+◌, ◌-◌, ◌*◌, ◌/◌, ◌%◌, ◌^◌, ◌≤◌, ◌≡◌, refl, true, false, List, [], ◌∷◌, arith, ◌==◌,
  if◌then◌else◌,
}
use x3c0_microkernel.Physical.{
  PageAllocator, one_shl, test_bit, scan_bits, scan_frames, first_free_bit, allocate_page,
  free_page, page_size,
}
use x3c0_microkernel.Physical.Search.{Found, first_free_bit-Found}
use x3c0_microkernel.Physical.Allocation.{InReach, allocate_page-same_page}
use x3c0_microkernel.Physical.MemoryMap.{MemoryMapElement, optimum_from, optimum_memory_location}
use x3c0_microkernel.Physical.Initialisation.{
  complete_initialisation, memory_size_of, complete_initialisation-InReach,
}

-- The processor takes the count of a 32-bit shift modulo 32.
abbrev x86 : ℕ → ℕ
x86 k = one_shl (k % 32)

-- Two words; the first pages of word 0 are used.
abbrev low_used : PageAllocator
low_used = record { bitmap = λ w. if w == 0 then 7 else 0; frame_count = 2; dma_zone_end = 0 }

-- Word 0 is full, word 1 is free.
abbrev first_full : PageAllocator
first_full = record {
  bitmap = λ w. if w == 0 then 2 ^ 64 - 1 else 0;
  frame_count = 2;
  dma_zone_end = 0;
}

low_used_next : first_free_bit x86 low_used false ≡ 3
unfolding first_free_bit scan_frames scan_bits test_bit
low_used_next = refl

first_full_next : first_free_bit x86 first_full false ≡ 64
unfolding first_free_bit scan_frames scan_bits test_bit
first_full_next = refl

low_used_free : test_bit x86 low_used (first_free_bit x86 low_used false) ≡ false
unfolding first_free_bit scan_frames scan_bits test_bit
low_used_free = refl

low_used_frees : (free_page x86 (allocate_page x86 low_used false).0 0x3000).1 ≡ true
unfolding free_page
low_used_frees = refl

low_used-InReach : InReach low_used false
low_used-InReach = record { reach = omega arith; ordered = omega arith }

first_full-InReach : InReach first_full false
first_full-InReach = record { reach = omega arith; ordered = omega arith }

allocate_page-same_page_example :
    let (t, pg) = allocate_page x86 first_full false in
    (test_bit x86 t (first_free_bit x86 first_full false) ≡ false)
    × ((allocate_page x86 t false).1 ≡ pg)
allocate_page-same_page_example =
    allocate_page-same_page x86 first_full false first_full-InReach (omega (arith, first_full_next))

first_free_bit-Found_example : Found x86 low_used 0 128 (first_free_bit x86 low_used false)
first_free_bit-Found_example = first_free_bit-Found x86 low_used false (omega arith) (omega arith)

-- 1 MiB of reserved memory between two usable blocks.
abbrev block : (base length kind : ℕ) → MemoryMapElement
block base length kind = record {
  size = 20;
  base_address_low = base;
  base_address_high = 0;
  length_low = length;
  length_high = 0;
  kind = kind;
}

abbrev three_blocks : List MemoryMapElement
three_blocks =
    block 0x100000 0x700000 1 ∷ block 0x800000 0x100000 2 ∷ block 0x900000 0x200000 1 ∷ []

three_blocks_best : optimum_memory_location 0x10000 three_blocks ≡ 0x900000
unfolding optimum_memory_location optimum_from
three_blocks_best = refl

-- 32 MiB of memory.
complete_initialisation-InReach_example :
    let s = complete_initialisation (λ w. w) 0x8000 three_blocks in
    (s.frame_count ≡ memory_size_of 0x8000 / page_size / 64)
    × InReach s true
    × InReach s false
    × (test_bit x86 s 0 ≡ true)
    × ((w : ℕ) → 2 * s.frame_count + 2 ≤ w → s.bitmap w ≡ w)
complete_initialisation-InReach_example =
    complete_initialisation-InReach x86 (λ w. w) 0x8000 three_blocks
