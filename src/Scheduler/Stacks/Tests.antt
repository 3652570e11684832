-- ===== src/Scheduler/Stacks/Tests.antt =====
-- The first processor, with a table of six entries, before its stack is set up.
use x3c0_microkernel.Common.{ℕ, ◌+◌, ◌≡◌, refl, some, arith, ◌==◌, if◌then◌else◌}
use x3c0_microkernel.Virtual.{page_directories, retrieve_mapping}
use x3c0_microkernel.DescriptorTables.Described.{word_at}
use x3c0_microkernel.Scheduler.Stacks.{Core, IsLast, setup_stack, setup_stack-below}

abbrev allocate : (ℕ → ℕ) → ℕ → (ℕ → ℕ) × ℕ
allocate m size = (m, 0x10000)

abbrev reallocate : (ℕ → ℕ) → (block size : ℕ) → (ℕ → ℕ) × ℕ
reallocate m block size = (m, 0x20000)

abbrev core : Core
core = record {
  space = record {
    memory = λ a. if a == page_directories 961 then 0x5007 else 0;
    allocator = record { bitmap = λ w. 1; frame_count = 8; dma_zone_end = 0 };
    current = 0x1000;
    kernel = 0x1000;
  };
  tables = record {
    memory = λ a. 0;
    initial_gdt_value = 0x1000;
    gdt = 0x1000;
    limit = 47;
    base = 0x1000;
    block = 0;
    task_register = 43;
  };
}

core-IsLast : IsLast core 0
core-IsLast = record { small = omega arith; limit = refl; selector = refl }

setup_stack-below_example :
    (d : Core) × (setup_stack (λ k. 0) allocate reallocate core ≡ some d)
    × ((retrieve_mapping d.space 0xf0400000).1 ≡ 3)
    × (word_at d.tables.memory (0x10000 + 4) ≡ 0xf03ffff8)
    × (retrieve_mapping d.space 0xf03ffff8 ≡ retrieve_mapping core.space 0xf03ffff8)
unfolding retrieve_mapping
setup_stack-below_example =
    setup_stack-below (λ k. 0) allocate reallocate core 0 core-IsLast (λ e. omega arith) refl
