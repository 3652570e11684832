-- ===== src/Physical/Initialisation.antt =====
-- `CompleteInitialisation` of Source/MemoryAllocation/PhysicalAllocator.cpp: the bitmap is cleared
-- for the memory that the boot loader reports, and the unusable blocks of its map are reserved.
use x3c0_microkernel.Common.{
  ℕ, zero, suc, ◌+◌, ◌-◌, ◌*◌, ◌/◌, ◌%◌, ◌^◌, ◌≤◌, ◌<◌, ◌≡◌, inl, inr, refl, ◌∙◌, true, false, ◌||◌,
  List, [], ◌∷◌, arith, ltb, leb, ◌==◌, if◌then◌else◌, Bool-cases, bit_and,
}
use x3c0_microkernel.Common.Words.{u32, page_mask, bit_and-page_mask}
use x3c0_microkernel.Physical.{PageAllocator, set_bit, set_bits, test_bit, page_size}
use x3c0_microkernel.Physical.Allocation.{InReach, test_bit-set_bit}
use x3c0_microkernel.Physical.MemoryMap.{MemoryMapElement}

-- `DMAMemoryConstraint / PageSize / 64`.
abbrev pub dma_frames : ℕ
dma_frames = 0x1000000 / page_size / 64

-- One element of the map: its pages are reserved if it is of kind 2 or 5 and ends below
-- `memory_size`. The sum of base and length is one of 32 bits.
unfoldable pub reserve : ℕ → PageAllocator → MemoryMapElement → PageAllocator
reserve memory_size s e =
    let start = bit_and e.base_address_low page_mask / page_size in
    let stop = u32 (e.base_address_low + e.length_low) in
    let last = bit_and stop page_mask / page_size in
    if leb memory_size e.base_address_low
    then s
    else if leb memory_size stop
    then s
    else if e.kind == 2 || e.kind == 5
    then set_bits s (last - start) start
    else s

unfoldable pub reserve_all : ℕ → PageAllocator → List MemoryMapElement → PageAllocator
reserve_all memory_size s [] = s
reserve_all memory_size s (e ∷ es) = reserve_all memory_size (reserve memory_size s e) es

abbrev pub memory_size_of : ℕ → ℕ
memory_size_of memory_high = bit_and (u32 (memory_high * 1024)) page_mask

-- The allocator with its bitmap cleared and its zones set, before the map is read.
unfoldable pub cleared : (ℕ → ℕ) → ℕ → PageAllocator
cleared raw memory_high =
    let frames = memory_size_of memory_high / page_size / 64 in
    record {
      bitmap = λ w. if ltb w frames then 0 else raw w;
      frame_count = frames;
      dma_zone_end = if leb frames dma_frames then 0 else dma_frames;
    }

unfoldable pub complete_initialisation : (ℕ → ℕ) → ℕ → List MemoryMapElement → PageAllocator
complete_initialisation raw memory_high map =
    set_bit (reserve_all (memory_size_of memory_high) (cleared raw memory_high) map) 0

-- What marking pages leaves alone: the zones, and the words past the last page.
record Within (limit : ℕ) (s t : PageAllocator) : Type 0 where
  frames : t.frame_count ≡ s.frame_count
  dma : t.dma_zone_end ≡ s.dma_zone_end
  above : (w : ℕ) → limit ≤ 32 * w → t.bitmap w ≡ s.bitmap w

Within-refl : (limit : ℕ) (s : PageAllocator) → Within limit s s
Within-refl limit s = record { frames = refl; dma = refl; above = λ w h. refl }

Within-trans :
    {limit : ℕ} {s t u : PageAllocator} → Within limit s t → Within limit t u → Within limit s u
Within-trans a b = record {
  frames = b.frames ∙ a.frames;
  dma = b.dma ∙ a.dma;
  above = λ w h. b.above w h ∙ a.above w h;
}

set_bit-Within : (limit : ℕ) (s : PageAllocator) (b : ℕ) → b < limit → Within limit s (set_bit s b)
unfolding set_bit
set_bit-Within limit s b h = record { frames = refl; dma = refl; above = λ w k. ground arith }

set_bits-Within :
    (limit : ℕ) (s : PageAllocator) (n b : ℕ) → b + n ≤ limit → Within limit s (set_bits s n b)
unfolding set_bits
set_bits-Within limit s zero b h = Within-refl limit s
set_bits-Within limit s (suc n) b h =
    Within-trans (set_bit-Within limit s b (omega arith))
      (set_bits-Within limit (set_bit s b) n (b + 1) (omega arith))

reserve-Within :
    (memory_size : ℕ) (s : PageAllocator) (e : MemoryMapElement)
    → memory_size < 2 ^ 32
    → Within (memory_size / page_size + 1) s (reserve memory_size s e)
unfolding reserve
reserve-Within memory_size s e h = elim (Bool-cases (leb memory_size e.base_address_low)) [
  | inl above ↦ rw above (Within-refl _ s)
  | inr low ↦ rw low (elim (Bool-cases (leb memory_size stop)) [
    | inl above ↦ rw above (Within-refl _ s)
    | inr inside ↦ rw inside (elim (Bool-cases (e.kind == 2 || e.kind == 5)) [
      | inl bad ↦ rw bad (set_bits-Within _ s _ _ (ends low inside))
      | inr good ↦ rw good (Within-refl _ s)
    ])
  ])
]
  where
    stop : ℕ
    stop = u32 (e.base_address_low + e.length_low)

    page_of : (a : ℕ) → bit_and a page_mask / page_size ≡ a / 4096 % 2 ^ 20
    page_of a = omega (arith, bit_and-page_mask a)

    ends :
        leb memory_size e.base_address_low ≡ false
        → leb memory_size stop ≡ false
        → bit_and e.base_address_low page_mask / page_size
            + (bit_and stop page_mask / page_size
                - bit_and e.base_address_low page_mask / page_size)
          ≤ memory_size / page_size + 1
    ends low inside =
        let a : e.base_address_low < memory_size = ground arith in
        let b : stop < memory_size = ground arith in
        omega (arith, page_of e.base_address_low, page_of stop, a, b)

reserve_all-Within :
    (memory_size : ℕ) (s : PageAllocator) (es : List MemoryMapElement)
    → memory_size < 2 ^ 32
    → Within (memory_size / page_size + 1) s (reserve_all memory_size s es)
unfolding reserve_all
reserve_all-Within memory_size s [] h = Within-refl _ s
reserve_all-Within memory_size s (e ∷ es) h =
    Within-trans (reserve-Within memory_size s e h)
      (reserve_all-Within memory_size (reserve memory_size s e) es h)

cleared_frames :
    (raw : ℕ → ℕ) (memory_high : ℕ)
    → (cleared raw memory_high).frame_count ≡ memory_size_of memory_high / page_size / 64
unfolding cleared
cleared_frames raw memory_high = refl

cleared_above :
    (raw : ℕ → ℕ) (memory_high w : ℕ)
    → memory_size_of memory_high / page_size / 64 ≤ w
    → (cleared raw memory_high).bitmap w ≡ raw w
unfolding cleared
cleared_above raw memory_high w h = ground arith

cleared_dma :
    (raw : ℕ → ℕ) (memory_high : ℕ)
    → (cleared raw memory_high).dma_zone_end ≤ (cleared raw memory_high).frame_count
unfolding cleared
cleared_dma raw memory_high = ground arith

memory_size_of-lt : (memory_high : ℕ) → memory_size_of memory_high < 2 ^ 32
memory_size_of-lt memory_high = omega (arith, bit_and-page_mask (u32 (memory_high * 1024)))

complete_initialisation-Within :
    (raw : ℕ → ℕ) (memory_high : ℕ) (map : List MemoryMapElement)
    → Within
        (memory_size_of memory_high / page_size + 1)
        (cleared raw memory_high)
        (complete_initialisation raw memory_high map)
unfolding complete_initialisation
complete_initialisation-Within raw memory_high map =
    Within-trans
      (reserve_all-Within _ (cleared raw memory_high) map (memory_size_of-lt memory_high))
      (set_bit-Within _ _ 0 (omega arith))

zero_used :
    (undef raw : ℕ → ℕ) (memory_high : ℕ) (map : List MemoryMapElement)
    → test_bit undef (complete_initialisation raw memory_high map) 0 ≡ true
unfolding complete_initialisation
zero_used undef raw memory_high map = test_bit-set_bit undef _ 0 0 (omega arith) (omega arith)

-- Whatever memory the boot loader reports, and whatever its map holds, the allocator that results
-- has a word for each 64 pages of the memory, both of its zones are in reach and in order, page 0
-- tests as used, and from twice the size of the bitmap and two words more on nothing is written.
pub complete_initialisation-InReach :
    (undef raw : ℕ → ℕ) (memory_high : ℕ) (map : List MemoryMapElement)
    → let s = complete_initialisation raw memory_high map in
      (s.frame_count ≡ memory_size_of memory_high / page_size / 64)
      × InReach s true
      × InReach s false
      × (test_bit undef s 0 ≡ true)
      × ((w : ℕ) → 2 * s.frame_count + 2 ≤ w → s.bitmap w ≡ raw w)
complete_initialisation-InReach undef raw memory_high map = (
  frames,
  record { reach = omega (arith, small, frames, dma); ordered = omega (arith, dma) },
  record { reach = omega (arith, small, frames); ordered = omega (arith, dma) },
  zero_used undef raw memory_high map,
  λ w h.
      (complete_initialisation-Within raw memory_high map).above w (omega (arith, frames))
      ∙ cleared_above raw memory_high w (omega (arith, frames)),
)
  where
    frames :
        (complete_initialisation raw memory_high map).frame_count
        ≡ memory_size_of memory_high / page_size / 64
    frames =
        (complete_initialisation-Within raw memory_high map).frames ∙ cleared_frames raw memory_high

    small : memory_size_of memory_high < 2 ^ 32
    small = memory_size_of-lt memory_high

    dma :
        (complete_initialisation raw memory_high map).dma_zone_end
        ≤ (complete_initialisation raw memory_high map).frame_count
    dma = omega (
      arith,
      cleared_dma raw memory_high,
      (complete_initialisation-Within raw memory_high map).dma,
      (complete_initialisation-Within raw memory_high map).frames,
    )
