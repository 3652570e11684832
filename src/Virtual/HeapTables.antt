-- ===== src/Virtual/HeapTables.antt =====
-- `Initialise` of Source/Multitasking/Paging.cpp: tables for the kernel's heap. It takes the page
-- directory for an array of 32-bit entries, where the other methods have 64-bit ones; a word of
-- `memory` holds two of them, the lower one first.
use x3c0_microkernel.Common.{
  ℕ, zero, suc, ◌+◌, ◌-◌, ◌*◌, ◌/◌, ◌%◌, ◌^◌, ◌<◌, ◌≤◌, ◌≡◌, ◌≢◌, refl, ◌∙◌, arith, bit_and, bit_or,
  false, Option, none, some, ◌==◌, if◌then◌else◌, ◌>>=◌, update,
}
use x3c0_microkernel.Common.Words.{u32}
use x3c0_microkernel.PageFlags
use x3c0_microkernel.Physical.{allocate_page}
use x3c0_microkernel.Virtual.{Virtual, page_directories}

-- `properKernel[i]`, read and written.
unfoldable pub read_half : (ℕ → ℕ) → (i : ℕ) → ℕ
read_half m i =
    let word = m (0xfffff000 + 8 * (i / 2)) in if i % 2 == 0 then word % 2 ^ 32 else word / 2 ^ 32

unfoldable pub write_half : (ℕ → ℕ) → (i value : ℕ) → ℕ → ℕ
write_half m i value =
    let at = 0xfffff000 + 8 * (i / 2) in
    if i % 2 == 0
    then update m at (m at / 2 ^ 32 * 2 ^ 32 + value)
    else update m at (value * 2 ^ 32 + m at % 2 ^ 32)

module _ (undef : ℕ → ℕ) where
  -- One round of the loop; an entry that is present already halts the processor.
  unfoldable pub enter_heap_table : Virtual → (i : ℕ) → Option Virtual
  enter_heap_table v i =
      let (a, page) = allocate_page undef v.allocator false in
      if bit_and (read_half v.memory i) PageFlags.present == 0
      then some (record v {
        memory =
            write_half v.memory i
              (bit_or (bit_or (u32 page) PageFlags.present) PageFlags.read_write % 2 ^ 32);
        allocator = a;
      })
      else none

  unfoldable pub enter_heap_tables : (left : ℕ) → Virtual → (i : ℕ) → Option Virtual
  enter_heap_tables zero v i = some v
  enter_heap_tables (suc left) v i = enter_heap_table v i >>= λ w. enter_heap_tables left w (i + 1)

  -- `Initialise`, from `KernelHeapStart >> 22` to `KernelHeapEnd >> 22`.
  unfoldable pub initialise : Virtual → (cr3 : ℕ) → Option Virtual
  initialise v cr3 =
      enter_heap_tables (895 - 832 + 1) (record v { kernel = cr3; current = cr3 }) 832

write_half-elsewhere :
    (m : ℕ → ℕ) (i value a : ℕ) → a ≢ 0xfffff000 + 8 * (i / 2) → write_half m i value a ≡ m a
unfolding write_half
write_half-elsewhere m i value a n = ground arith

-- A later half is not changed.
write_half-read :
    (m : ℕ → ℕ) (i value j : ℕ)
    → i < j
    → value < 2 ^ 32
    → read_half (write_half m i value) j ≡ read_half m j
unfolding write_half read_half
write_half-read m i value j h l = ground arith

-- `r` has the 64-bit entries from `d` on as `v` has them.
abbrev SameFrom : (v r : Virtual) (d : ℕ) → Type 0
SameFrom v r d = (k : ℕ) → d ≤ k → r.memory (page_directories k) ≡ v.memory (page_directories k)

-- None of the 32-bit entries from `i` to `end` is present.
abbrev Absent : Virtual → (i end : ℕ) → Type 0
Absent v i end = (j : ℕ) → i ≤ j → j < end → bit_and (read_half v.memory j) 1 ≡ 0

module _ (undef : ℕ → ℕ) where
  enter_heap_table-SameFrom :
      (v : Virtual) (i end : ℕ)
      → i < end
      → Absent v i end
      → (w : Virtual) × (enter_heap_table undef v i ≡ some w)
        × Absent w (i + 1) end
        × SameFrom v w (i / 2 + 1)
  unfolding enter_heap_table
  enter_heap_table-SameFrom v i end h absent =
      let (a, page) = allocate_page undef v.allocator false in
      let value = bit_or (bit_or (u32 page) PageFlags.present) PageFlags.read_write % 2 ^ 32 in
      (
        record v { memory = write_half v.memory i value; allocator = a },
        rw (absent i (omega arith) h) refl,
        λ j l u.
            rw (write_half-read v.memory i value j (omega arith) (omega arith))
              (absent j (omega arith) u),
        λ k l. write_half-elsewhere v.memory i value (page_directories k) (λ e. omega arith),
      )

  enter_heap_tables-SameFrom :
      (left : ℕ) (v : Virtual) (i : ℕ)
      → Absent v i (i + left)
      → (r : Virtual) × (enter_heap_tables undef left v i ≡ some r)
        × SameFrom v r ((i + left + 1) / 2)
  unfolding enter_heap_tables
  enter_heap_tables-SameFrom zero v i absent = (v, refl, λ k l. refl)
  enter_heap_tables-SameFrom (suc left) v i absent =
      let (w, ew, rest, same) = enter_heap_table-SameFrom v i (i + suc left) (omega arith) absent in
      let (r, er, later) =
        enter_heap_tables-SameFrom left w (i + 1) (λ j l u. rest j l (omega arith)) in
      (r, rw ew er, λ k l. later k (omega arith) ∙ same k (omega arith))

  -- `Initialise`, with none of the 32-bit entries 832 to 895 present, ends without a halt and leaves
  -- every 64-bit entry from 448 on as it was, those of the kernel's heap, 832 to 895, among them.
  pub initialise-SameFrom :
      (v : Virtual) (cr3 : ℕ)
      → ((i : ℕ) → 832 ≤ i → i < 896 → bit_and (read_half v.memory i) 1 ≡ 0)
      → (r : Virtual) × (initialise undef v cr3 ≡ some r)
        × ((k : ℕ) → 448 ≤ k → r.memory (page_directories k) ≡ v.memory (page_directories k))
  unfolding initialise
  initialise-SameFrom v cr3 absent =
      let (r, e, same) =
        enter_heap_tables-SameFrom 64 (record v { kernel = cr3; current = cr3 }) 832 absent in
      (r, e, same)
