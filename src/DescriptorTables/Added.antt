-- ===== src/DescriptorTables/Added.antt =====
-- `AddTSS` of Source/Boot/DescriptorTables.cpp.
use x3c0_microkernel.Common.{
  ℕ, ◌+◌, ◌-◌, ◌*◌, ◌%◌, ◌^◌, ◌<◌, ◌≡◌, ◌≢◌, inl, refl, ap, ◌∙◌, arith, true, some, ◌==◌, ltb,
  ◌>>=◌, ==_ne,
}
use x3c0_microkernel.Memory.{clear, clear-at, copy-at}
use x3c0_microkernel.DescriptorTables.Segments.{
  Tables, describe, repoint, tss_index, highest_index, copy_table, move_table, grow_table,
  ensure_entry, install_tss, add_tss,
}
use x3c0_microkernel.DescriptorTables.Described.{
  Apart, entry_base, word_at, describe-task_register, describe-outside, describe-entry,
  describe-stack,
}

pub highest_index-last :
    (limit h : ℕ) → limit + 1 ≡ 8 * (h + 1) → h < 8191 → highest_index limit ≡ h
unfolding highest_index
highest_index-last limit h e l = omega arith

-- `t` has become `r`, which has one more entry than the `h + 1` of `t`: the segment at `tss`.
pub record Grown (t r : Tables) (h tss esp0 : ℕ) : Type 0 where
  pub limit : r.limit + 1 ≡ 8 * (h + 2)
  pub base : r.base ≡ r.gdt
  pub kept : (a : ℕ) → a < 8 * (h + 1) → r.memory (r.gdt + a) ≡ t.memory (t.gdt + a)
  pub entry : entry_base r.memory (r.gdt + 8 * (h + 1)) ≡ tss % 2 ^ 32
  pub task_register : r.task_register ≡ 8 * (h + 1) + 3
  pub stack : word_at r.memory (tss + 4) ≡ esp0

-- `g` has the entries of `t` at its own table, with room for one more.
describe-Grown :
    (t g : Tables) (h tss esp0 : ℕ)
    → h < 8191
    → esp0 < 2 ^ 64
    → Apart g.gdt (8 * (h + 2)) tss 104
    → ((a : ℕ) → a < 8 * (h + 1) → g.memory (g.gdt + a) ≡ t.memory (t.gdt + a))
    → Grown t (describe (repoint g (h + 1)) tss (h + 1) esp0) h tss esp0
unfolding describe
describe-Grown t g h tss esp0 l le apart kept =
    let w = repoint g (h + 1) in
    record {
      limit = omega arith;
      base = refl;
      kept = λ a la.
          describe-outside w tss (h + 1) esp0 (g.gdt + a) (inl (omega arith)) (ground arith)
          ∙ kept a la;
      entry = describe-entry w tss (h + 1) esp0 (ground arith);
      task_register = describe-task_register w tss (h + 1) esp0 (omega arith);
      stack = describe-stack w tss (h + 1) esp0 le;
    }

module _ (allocate : (ℕ → ℕ) → ℕ → (ℕ → ℕ) × ℕ)
    (reallocate : (ℕ → ℕ) → (block size : ℕ) → (ℕ → ℕ) × ℕ) where
  -- The segment is allocated and cleared.
  abbrev pub cleared : Tables → Tables
  cleared t = let (m, tss) = allocate t.memory 104 in record t { memory = clear m tss 104 }

  abbrev pub segment : Tables → ℕ
  segment t = (allocate t.memory 104).1

  add_tss-grow :
      (t : Tables) (h esp0 : ℕ)
      → t.limit + 1 ≡ 8 * (h + 1)
      → h < 8191
      → add_tss allocate reallocate t esp0 ≡ (
          grow_table allocate reallocate (cleared t) h (h + 1) >>= λ g.
          some (describe g (segment t) (h + 1) esp0))
  unfolding add_tss install_tss ensure_entry tss_index
  add_tss-grow t h esp0 e l =
      let ltb_true : ltb h (h + 1) ≡ true = ground arith in
      let index : (h + 1) % 2 ^ 16 ≡ h + 1 = omega arith in
      rw (highest_index-last t.limit h e l, index, ltb_true)

  -- The heap keeps what the table of `t` holds, and gives no byte of it away.
  pub record KeepsTable (t : Tables) (h : ℕ) : Type 0 where
    pub kept :
        (m : ℕ → ℕ) (size a : ℕ) → a < 8 * (h + 1) → (allocate m size).0 (t.gdt + a) ≡ m (t.gdt + a)
    pub apart : (m : ℕ → ℕ) (size : ℕ) → Apart t.gdt (8 * (h + 1)) (allocate m size).1 size

  cleared-kept :
      (t : Tables) (h a : ℕ)
      → KeepsTable t h
      → a < 8 * (h + 1)
      → (cleared t).memory (t.gdt + a) ≡ t.memory (t.gdt + a)
  cleared-kept t h a k l =
      clear-at (allocate t.memory 104).0 (segment t) 104 (t.gdt + a)
      ∙ ground (arith, k.apart t.memory 104, k.kept t.memory 104 a l)

  copy_table-kept :
      (t : Tables) (h a : ℕ)
      → KeepsTable t h
      → a < 8 * (h + 1)
      → (copy_table allocate reallocate (cleared t) h (h + 1)).memory
          ((copy_table allocate reallocate (cleared t) h (h + 1)).gdt + a)
        ≡ t.memory (t.gdt + a)
  unfolding copy_table
  copy_table-kept t h a k l =
      let size = (h + 1 + 1) * 8 in
      let m = (cleared t).memory in
      let new_gdt = (allocate m size).1 in
      let moved : t.gdt + (new_gdt + a - new_gdt) ≡ t.gdt + a = omega arith in
      copy-at (allocate m size).0 new_gdt t.gdt ((h + 1) * 8) (new_gdt + a)
        (ground (arith, k.apart m size))
      ∙ ground arith
      ∙ ap (allocate m size).0 moved
      ∙ k.kept m size a l
      ∙ cleared-kept t h a k l

  -- `AddTSS`, while the table is still the one from the start, where the heap keeps what it holds
  -- and gives blocks apart from it, and the new table is apart from the new segment: the limit
  -- counts one more entry, the earlier entries are the same bytes, the new one leads to the low 32
  -- bits of the segment's address, the processor gets its selector, and the segment holds the
  -- stack.
  pub add_tss-Grown :
      (t : Tables) (h esp0 : ℕ)
      → t.gdt ≡ t.initial_gdt_value
      → t.limit + 1 ≡ 8 * (h + 1)
      → h < 8191
      → esp0 < 2 ^ 64
      → KeepsTable t h
      → Apart
          (copy_table allocate reallocate (cleared t) h (h + 1)).gdt
          (8 * (h + 2))
          (segment t)
          104
      → (r : Tables) × (add_tss allocate reallocate t esp0 ≡ some r) × Grown t r h (segment t) esp0
  unfolding grow_table
  add_tss-Grown t h esp0 e el l le k apart =
      let g = copy_table allocate reallocate (cleared t) h (h + 1) in
      let first : (t.gdt == t.initial_gdt_value) ≡ true = ground arith in
      (
        describe (repoint g (h + 1)) (segment t) (h + 1) esp0,
        add_tss-grow t h esp0 el l ∙ rw first refl,
        describe-Grown t g h (segment t) esp0 l le apart (λ a la. copy_table-kept t h a k la),
      )

  -- `AddTSS` after that, where the heap does not fail and the limit counts at most 8191 entries:
  -- the block asked of the heap ends where the new entry begins, which the limit counts and which
  -- is written all the same, unless it lies in the new segment.
  pub add_tss-over :
      (t : Tables) (h esp0 : ℕ)
      → t.gdt ≢ t.initial_gdt_value
      → t.limit + 1 ≡ 8 * (h + 1)
      → h < 8191
      → (reallocate (cleared t).memory t.gdt (8 * (h + 1))).1 ≢ 0
      → Apart
          ((reallocate (cleared t).memory t.gdt (8 * (h + 1))).1 + 8 * (h + 1))
          8
          (segment t)
          104
      → (r : Tables) × (add_tss allocate reallocate t esp0 ≡ some r)
        × (r.limit + 1 ≡ r.block + 8)
        × (entry_base r.memory (r.gdt + r.block) ≡ segment t % 2 ^ 32)
  unfolding grow_table move_table describe
  add_tss-over t h esp0 ne el l some_block apart =
      let (m, at) = reallocate (cleared t).memory t.gdt (8 * (h + 1)) in
      let g = record (cleared t) { memory = m; gdt = at; block = 8 * (h + 1) } in
      (
        describe (repoint g (h + 1)) (segment t) (h + 1) esp0,
        add_tss-grow t h esp0 el l
            ∙ rw (==_ne t.gdt t.initial_gdt_value ne, ==_ne at 0 some_block) refl,
        omega arith,
        describe-entry (repoint g (h + 1)) (segment t) (h + 1) esp0 apart,
      )
