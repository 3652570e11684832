-- ===== src/DescriptorTables/Segments.antt =====
-- Include/Boot/DescriptorTables.h and Source/Boot/DescriptorTables.cpp: the global table and the
-- task state segments, in a memory of bytes. The kernel's heap is a parameter: `allocate` and
-- `reallocate` give the memory that the call leaves and the address that it returns.
-- `none` is a processor that halts.
use x3c0_microkernel.Common.{
  ℕ, ◌+◌, ◌*◌, ◌/◌, ◌%◌, ◌^◌, bit_and, bit_or, Bool, true, false, Option, none, some, List, [], ◌∷◌,
  ◌==◌, ltb, if◌then◌else◌, ◌>>=◌, update,
}
use x3c0_microkernel.Common.Words.{u16, u32, u64, sub_u64}
use x3c0_microkernel.Memory.{clear, copy}

-- `block` is the size that was asked of the heap for the table at `gdt`, and `task_register` what
-- `SetTSS` has loaded. The size of `struct GDTEntry` is 8 bytes, and of `struct TaskStateSegment`
-- 104: `RSP0` stands at byte 4 and `IOPermissionBitmapOffset` at byte 102.
pub record Tables : Type 0 where
  pub memory : ℕ → ℕ
  pub initial_gdt_value : ℕ
  pub gdt : ℕ
  pub limit : ℕ
  pub base : ℕ
  pub block : ℕ
  pub task_register : ℕ

-- Bytes from an address on.
unfoldable pub store : (ℕ → ℕ) → ℕ → List ℕ → ℕ → ℕ
store m a [] = m
store m a (b ∷ bs) = store (update m a b) (a + 1) bs

-- `installGDT`: the processor's register holds the limit and the address.
unfoldable pub install_gdt : Tables → (limit base : ℕ) → Tables
install_gdt t limit base = record t {
  limit = limit;
  base = base;
  gdt = base;
  initial_gdt_value = base;
}

-- `struct GDTEntry`, as the assignments of `installTSS` fill it.
abbrev pub descriptor : (base limit : ℕ) → List ℕ
descriptor base limit =
    bit_and limit 0xffff % 256
    ∷ bit_and limit 0xffff / 256
    ∷ bit_and base 0xffff % 256
    ∷ bit_and base 0xffff / 256
    ∷ bit_and (base / 2 ^ 16) 0xff
    ∷ 0xe9
    ∷ bit_and (limit / 2 ^ 16) 0xf
    ∷ bit_and (base / 2 ^ 24) 0xff
    ∷ []

-- A 64-bit word, its low byte first.
abbrev pub word : ℕ → List ℕ
word n =
    n % 256
    ∷ n / 2 ^ 8 % 256
    ∷ n / 2 ^ 16 % 256
    ∷ n / 2 ^ 24 % 256
    ∷ n / 2 ^ 32 % 256
    ∷ n / 2 ^ 40 % 256
    ∷ n / 2 ^ 48 % 256
    ∷ n / 2 ^ 56 % 256
    ∷ []

-- The end of `installTSS`: the descriptor, the segment, and `SetTSS`.
unfoldable pub describe : Tables → (tss index esp0 : ℕ) → Tables
describe t tss index esp0 =
    let described = store t.memory (t.gdt + 8 * index) (descriptor tss (u64 (tss + 104))) in
    record t {
      memory = store (store described (tss + 4) (word esp0)) (tss + 102) (104 ∷ 0 ∷ []);
      task_register = bit_or (u32 (index * 8)) 3;
    }

-- `gdtPointer` after the table has grown.
abbrev pub repoint : Tables → ℕ → Tables
repoint t index = record t { base = t.gdt; limit = u16 (sub_u64 ((index + 1) * 8) 1) }

-- The index that `installTSS` takes, given the highest index of the table.
unfoldable pub tss_index : (new_cpu : Bool) (cpu_id highest : ℕ) → ℕ
tss_index new_cpu cpu_id highest = if new_cpu then u16 (highest + 1) else u16 (cpu_id + 5)

unfoldable pub highest_index : ℕ → ℕ
highest_index limit = sub_u64 ((limit + 1) / 8) 1

module _ (allocate : (ℕ → ℕ) → ℕ → (ℕ → ℕ) × ℕ)
    (reallocate : (ℕ → ℕ) → (block size : ℕ) → (ℕ → ℕ) × ℕ) where
  -- The table that was there at the start is copied.
  unfoldable pub copy_table : Tables → (highest index : ℕ) → Tables
  copy_table t highest index =
      let (m, new_gdt) = allocate t.memory ((index + 1) * 8) in
      record t {
        memory = copy m new_gdt t.gdt ((highest + 1) * 8);
        gdt = new_gdt;
        block = (index + 1) * 8;
      }

  -- A table of the heap is reallocated.
  unfoldable pub move_table : Tables → (index : ℕ) → Option Tables
  move_table t index =
      let (m, new_gdt) = reallocate t.memory t.gdt (8 * index) in
      if new_gdt == 0
      then none
      else some (record t { memory = m; gdt = new_gdt; block = 8 * index })

  unfoldable pub grow_table : Tables → (highest index : ℕ) → Option Tables
  grow_table t highest index =
      (if t.gdt == t.initial_gdt_value
        then some (copy_table t highest index)
        else move_table t index)
      >>= λ w. some (repoint w index)

  -- The table has an entry `index`.
  unfoldable pub ensure_entry : Tables → (highest index : ℕ) → Option Tables
  ensure_entry t highest index =
      if ltb highest index
      then grow_table t highest index
      else if ltb index highest
      then none
      else some t

  -- `installTSS(cpuID, esp0, installTSS)`.
  unfoldable pub install_tss : Tables → (cpu_id esp0 : ℕ) (new_cpu : Bool) → Option Tables
  install_tss t cpu_id esp0 new_cpu =
      let (m, tss) = allocate t.memory 104 in
      let w = record t { memory = clear m tss 104 } in
      let highest = highest_index t.limit in
      let index = tss_index new_cpu cpu_id highest in
      ensure_entry w highest index >>= λ g. some (describe g tss index esp0)

  -- `InstallTSS(esp0, cpuID)`.
  unfoldable pub install_tss_for : Tables → (esp0 cpu_id : ℕ) → Option Tables
  install_tss_for t esp0 cpu_id = install_tss t cpu_id esp0 false

  -- `AddTSS(esp0)`.
  unfoldable pub add_tss : Tables → (esp0 : ℕ) → Option Tables
  add_tss t esp0 = install_tss t 0 esp0 true
