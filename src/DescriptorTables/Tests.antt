-- ===== src/DescriptorTables/Tests.antt =====
-- A small heap, and a global table of five entries.
use x3c0_microkernel.Common.{ℕ, ◌+◌, ◌≡◌, refl, inl, inr, arith, some, update}
use x3c0_microkernel.Memory.{clear, clear_from}
use x3c0_microkernel.DescriptorTables.Segments.{Tables, copy_table, add_tss}
use x3c0_microkernel.DescriptorTables.Described.{entry_base}
use x3c0_microkernel.DescriptorTables.Added.{KeepsTable, Grown, add_tss-Grown, add_tss-over}

-- A heap above 0x10000 whose used size stands at address 0, and a table of five entries at 0x1000.
abbrev allocate : (ℕ → ℕ) → ℕ → (ℕ → ℕ) × ℕ
allocate m size = (update m 0 (m 0 + size), 0x10000 + m 0)

abbrev reallocate : (ℕ → ℕ) → (block size : ℕ) → (ℕ → ℕ) × ℕ
reallocate m block size = allocate m size

abbrev tables : Tables
tables = record {
  memory = λ a. 0;
  initial_gdt_value = 0x1000;
  gdt = 0x1000;
  limit = 39;
  base = 0x1000;
  block = 0;
  task_register = 0;
}

tables-KeepsTable : KeepsTable allocate reallocate tables 4
tables-KeepsTable = record {
  kept = λ m size a l. ground arith;
  apart = λ m size. inl (omega arith);
}

add_tss-Grown_example :
    (r : Tables) × (add_tss allocate reallocate tables 0x9000 ≡ some r)
    × Grown tables r 4 0x10000 0x9000
unfolding copy_table clear clear_from
add_tss-Grown_example =
    add_tss-Grown allocate reallocate tables 4 0x9000 refl refl (omega arith) (omega arith)
      tables-KeepsTable (inr (omega arith))

abbrev moved_tables : Tables
moved_tables = record tables { gdt = 0x2000; base = 0x2000; block = 40 }

add_tss-over_example :
    (r : Tables) × (add_tss allocate reallocate moved_tables 0x9000 ≡ some r)
    × (r.limit + 1 ≡ r.block + 8)
    × (entry_base r.memory (r.gdt + r.block) ≡ 0x10000)
unfolding clear clear_from
add_tss-over_example =
    add_tss-over allocate reallocate moved_tables 4 0x9000 (λ e. omega arith) refl (omega arith)
      (λ e. omega arith) (inr (omega arith))
