-- ===== src/Physical/MemoryMap.antt =====
-- Include/Boot/Multiboot.h and `optimumMemoryLocation` of
-- Source/MemoryAllocation/PhysicalAllocator.cpp: the boot loader's memory map, as the list of its
-- elements, and the search for the smallest usable block that is large enough.
use mathlib.Core.List.{Memᴰ}
use x3c0_microkernel.Common.{
  ℕ, ◌-◌, ◌*◌, ◌^◌, ◌≤◌, ◌<◌, ◌≡◌, ◌⊎◌, inl, inr, refl, Bool, ◌&&◌, List, [], ◌∷◌, arith, ltb, ◌==◌,
  if◌then◌else◌, Bool-cases, bit_or,
}

-- `struct MemoryMapElement`; the fields are 32-bit values.
pub record MemoryMapElement : Type 0 where
  pub size : ℕ
  pub base_address_low : ℕ
  pub base_address_high : ℕ
  pub length_low : ℕ
  pub length_high : ℕ
  pub kind : ℕ

-- The two halves of a 64-bit value: `((uint64)high << 32) | low`.
abbrev pub join : ℕ → ℕ → ℕ
join high low = bit_or (high * 2 ^ 32) low

abbrev pub base : MemoryMapElement → ℕ
base e = join e.base_address_high e.base_address_low

abbrev pub extent : MemoryMapElement → ℕ
extent e = join e.length_high e.length_low

abbrev fits : ℕ → MemoryMapElement → ℕ → Bool
fits count e best = ltb count (extent e) && (ltb (extent e) best && e.kind == 1)

-- The loop, over the best address and the size of its block so far.
unfoldable pub optimum_from : ℕ → (best min_valid_size : ℕ) → List MemoryMapElement → ℕ
optimum_from count best size [] = best
optimum_from count best size (e ∷ es) =
    let better = fits count e size in
    optimum_from count (if better then base e else best) (if better then extent e else size) es

unfoldable pub optimum_memory_location : ℕ → List MemoryMapElement → ℕ
optimum_memory_location count map = optimum_from count 0 (2 ^ 64 - 1) map

-- What makes a block eligible.
abbrev pub Usable : ℕ → MemoryMapElement → Type 0
Usable count e = (count < extent e) × (e.kind ≡ 1)

-- No eligible block of the map is smaller than `size`.
abbrev pub NoSmaller : (count size : ℕ) → List MemoryMapElement → Type 0
NoSmaller count size [] = Unit {0}
NoSmaller count size (e ∷ es) = (Usable count e → size ≤ extent e) × NoSmaller count size es

-- The result of the search: the base of a smallest eligible block below `size`, or `best`.
abbrev pub Chosen : (count best size : ℕ) → List MemoryMapElement → ℕ → Type 0
Chosen count best size es r =
    ((r ≡ best) × NoSmaller count size es)
    ⊎ ((e : MemoryMapElement) × Memᴰ e es
        × Usable count e
        × (extent e < size)
        × (r ≡ base e)
        × NoSmaller count (extent e) es)

NoSmaller-mono :
    (count small large : ℕ) (es : List MemoryMapElement)
    → small ≤ large
    → NoSmaller count large es
    → NoSmaller count small es
NoSmaller-mono count small large [] h n = tt
NoSmaller-mono count small large (e ∷ es) h n =
    (λ u. omega (arith, n.0 u), NoSmaller-mono count small large es h n.1)

-- One more element in front, which was taken or passed over.
Chosen-taken :
    (count best size : ℕ) (e : MemoryMapElement) (es : List MemoryMapElement) (r : ℕ)
    → Usable count e
    → extent e < size
    → Chosen count (base e) (extent e) es r
    → Chosen count best size (e ∷ es) r
Chosen-taken count best size e es r u h (inl (q, n)) =
    inr (e, Memᴰ.head refl, u, h, q, ((λ _. omega arith), n))
Chosen-taken count best size e es r u h (inr (d, m, v, k, q, n)) =
    inr (d, Memᴰ.tail m, v, omega arith, q, ((λ _. omega arith), n))

Chosen-passed :
    (count best size : ℕ) (e : MemoryMapElement) (es : List MemoryMapElement) (r : ℕ)
    → (Usable count e → size ≤ extent e)
    → Chosen count best size es r
    → Chosen count best size (e ∷ es) r
Chosen-passed count best size e es r p (inl (q, n)) = inl (q, (p, n))
Chosen-passed count best size e es r p (inr (d, m, v, k, q, n)) =
    inr (d, Memᴰ.tail m, v, k, q, ((λ u. omega (arith, p u)), n))

optimum_from-Chosen :
    (count best size : ℕ) (es : List MemoryMapElement)
    → Chosen count best size es (optimum_from count best size es)
unfolding optimum_from
optimum_from-Chosen count best size [] = inl (refl, tt)
optimum_from-Chosen count best size (e ∷ es) = elim (Bool-cases (fits count e size)) [
  | inl better ↦ rw better (
      Chosen-taken count best size e es _ (ground arith, ground arith) (ground arith)
        (optimum_from-Chosen count (base e) (extent e) es))
  | inr worse ↦ rw worse (
      Chosen-passed count best size e es _ (λ u. ground arith)
        (optimum_from-Chosen count best size es))
]

-- The location returned is the base of a block of usable memory larger than the request, and no
-- other such block is smaller; or it is 0, and every block that is large enough fills 2^64 - 1 bytes.
pub optimum_memory_location-Chosen :
    (count : ℕ) (map : List MemoryMapElement)
    → Chosen count 0 (2 ^ 64 - 1) map (optimum_memory_location count map)
unfolding optimum_memory_location
optimum_memory_location-Chosen count map = optimum_from-Chosen count 0 (2 ^ 64 - 1) map
