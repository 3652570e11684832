-- ===== src/Scheduler/Stacks.antt =====
-- `SetupStack` of Source/Multitasking/Scheduler.cpp: the kernel's stack of a
-- processor, over the address space and the processor's task state segment.
mod Tests
use x3c0_microkernel.Common.{
  ℕ, ◌+◌, ◌*◌, ◌/◌, ◌%◌, ◌^◌, ◌<◌, ◌≤◌, ◌≡◌, ◌≢◌, ◌⊎◌, inl, inr, refl, ap, ◌∙◌, arith, bit_and,
  Bool, true, false, Option, none, some, ◌==◌, ◌!=◌, if◌then◌else◌, ◌>>=◌, ltb, ◌-◌,
}
use x3c0_microkernel.Common.Words.{u32, u64, sub_u32, sub_u64, not_u32}
use x3c0_microkernel.PageFlags
use x3c0_microkernel.Physical.{allocate_page}
use x3c0_microkernel.Virtual.{Virtual, page_directories, retrieve_mapping, map_memory}
use x3c0_microkernel.Virtual.Entries.{Plain}
use x3c0_microkernel.Virtual.Mapping.{Mapped, map_memory-Mapped, retrieve_mapping-same}
use x3c0_microkernel.DescriptorTables.Segments.{
  Tables, install_tss_for, install_tss, ensure_entry, tss_index, highest_index, describe,
}
use x3c0_microkernel.DescriptorTables.Described.{word_at, describe-stack}
use x3c0_microkernel.DescriptorTables.Added.{highest_index-last, cleared, segment}
use x3c0_microkernel.Scheduler.Processors.{cpu_identifier}

-- What a processor works on.
pub record Core : Type 0 where
  pub space : Virtual
  pub tables : Tables

-- `stackLocation`; `PageSize * id` has 32 bits, and so has the sum.
unfoldable pub stack_location : (id : ℕ) → ℕ
stack_location id = u32 (0xf0400000 + u32 (0x1000 * id))

module _ (undef : ℕ → ℕ) (allocate : (ℕ → ℕ) → ℕ → (ℕ → ℕ) × ℕ)
    (reallocate : (ℕ → ℕ) → (block size : ℕ) → (ℕ → ℕ) × ℕ) where
  -- `setKernelStack(esp)`.
  unfoldable pub set_kernel_stack : Core → (esp : ℕ) → Option Core
  set_kernel_stack c esp =
      install_tss_for allocate reallocate c.tables (u32 esp)
        (cpu_identifier c.tables.task_register % 2 ^ 16)
      >>= λ t. some (record c { tables = t })

  -- A page is mapped for the stack.
  unfoldable pub map_stack : Virtual → (stack : ℕ) → Option Virtual
  map_stack v stack =
      let (a, page) = allocate_page undef v.allocator false in
      map_memory undef (record v { allocator = a }) page stack PageFlags.read_write

  unfoldable pub setup_stack : Core → Option Core
  setup_stack c =
      let stack = stack_location (cpu_identifier c.tables.task_register) in
      if bit_and (retrieve_mapping c.space stack).1 PageFlags.present != 0
      then some c
      else map_stack c.space stack >>= λ v.
          set_kernel_stack (record c { space = v }) (sub_u64 stack 8)

-- The selector that `AddTSS` loads leads back to the processor.
cpu_identifier-selector : (id : ℕ) → id < 4096 → cpu_identifier (8 * (5 + id) + 3) ≡ id
unfolding cpu_identifier
cpu_identifier-selector id h = ground arith

stack_location_lem : (id : ℕ) → id < 4096 → stack_location id ≡ 0xf0400000 + 4096 * id
unfolding stack_location
stack_location_lem id h = omega arith

-- A processor whose segment is the last one of the table.
pub record IsLast (c : Core) (id : ℕ) : Type 0 where
  pub small : id < 4096
  pub limit : c.tables.limit + 1 ≡ 8 * (6 + id)
  pub selector : c.tables.task_register ≡ 8 * (5 + id) + 3

module _ (undef : ℕ → ℕ) (allocate : (ℕ → ℕ) → ℕ → (ℕ → ℕ) × ℕ)
    (reallocate : (ℕ → ℕ) → (block size : ℕ) → (ℕ → ℕ) × ℕ) where
  -- The last entry of the table gets the new segment.
  install_tss_for-last :
      (t : Tables) (id esp : ℕ)
      → id < 4096
      → t.limit + 1 ≡ 8 * (6 + id)
      → install_tss_for allocate reallocate t esp id
        ≡ some
            (describe (cleared allocate reallocate t) (segment allocate reallocate t) (5 + id) esp)
  unfolding install_tss_for install_tss ensure_entry tss_index
  install_tss_for-last t id esp small limit =
      let index : (id + 5) % 2 ^ 16 ≡ 5 + id = omega arith in
      let same : ltb (5 + id) (5 + id) ≡ false = ground arith in
      rw (highest_index-last t.limit (5 + id) (omega arith) (omega arith), index, same) refl

  set_kernel_stack-held :
      (c : Core) (id esp : ℕ)
      → IsLast c id
      → esp < 2 ^ 32
      → (d : Core) × (set_kernel_stack undef allocate reallocate c esp ≡ some d)
        × (d.space ≡ c.space)
        × (word_at d.tables.memory (segment allocate reallocate c.tables + 4) ≡ esp)
  unfolding set_kernel_stack
  set_kernel_stack-held c id esp last small =
      let t =
        describe (cleared allocate reallocate c.tables) (segment allocate reallocate c.tables)
          (5 + id) esp in
      let known : cpu_identifier c.tables.task_register % 2 ^ 16 ≡ id =
        ap (λ r. cpu_identifier r % 2 ^ 16) last.selector
        ∙ ap (λ n. n % 2 ^ 16) (cpu_identifier-selector id last.small)
        ∙ omega (arith, last.small) in
      let whole : u32 esp ≡ esp = omega arith in
      (
        record c { tables = t },
        rw (known, whole, install_tss_for-last c.tables id esp last.small last.limit) refl,
        refl,
        describe-stack (cleared allocate reallocate c.tables) (segment allocate reallocate c.tables)
            (5 + id) esp (omega arith),
      )

  -- `SetupStack` on a processor whose segment is the last one of the table, where the table of its
  -- stack's page is there and that page is not mapped: the page is mapped for the kernel, but the
  -- segment gets an address 8 bytes below it, which looks up as before.
  pub setup_stack-below :
      (c : Core) (id : ℕ)
      → IsLast c id
      → c.space.memory (page_directories ((0xf0400000 + 4096 * id) / 2 ^ 22)) ≢ 0
      → bit_and (retrieve_mapping c.space (0xf0400000 + 4096 * id)).1 1 ≡ 0
      → (d : Core) × (setup_stack undef allocate reallocate c ≡ some d)
        × ((retrieve_mapping d.space (0xf0400000 + 4096 * id)).1 ≡ 3)
        × (word_at d.tables.memory (segment allocate reallocate c.tables + 4)
            ≡ 0xf0400000 + 4096 * id - 8)
        × (retrieve_mapping d.space (0xf0400000 + 4096 * id - 8)
            ≡ retrieve_mapping c.space (0xf0400000 + 4096 * id - 8))
  unfolding setup_stack map_stack
  setup_stack-below c id last table absent =
      let stack = 0xf0400000 + 4096 * id in
      let (a, page) = allocate_page undef c.space.allocator false in
      let plain : Plain stack = record {
        small = omega (arith, last.small);
        apart = inr (omega arith);
      } in
      let below : Plain (stack - 8) = record {
        small = omega (arith, last.small);
        apart = inr (omega arith);
      } in
      elim (map_memory-Mapped undef (record c.space { allocator = a }) page stack 2 plain) [
        | inl (stuck, missing, p) ↦ absurd (table missing)
        | inr (v, e, _, m) ↦
            let (d, ed, space, held) =
              set_kernel_stack-held (record c { space = v }) id (sub_u64 stack 8)
                (record { small = last.small; limit = last.limit; selector = last.selector })
                (omega (arith, last.small)) in
            let place : stack_location (cpu_identifier c.tables.task_register) ≡ stack =
              ap (λ r. stack_location (cpu_identifier r)) last.selector
              ∙ ap stack_location (cpu_identifier-selector id last.small)
              ∙ stack_location_lem id last.small in
            (
              d,
              rw (place, absent, e) ed,
              ap (λ w. (retrieve_mapping w stack).1) space ∙ ap (λ r. r.1) m.target,
              held ∙ omega (arith, last.small),
              ap (λ w. retrieve_mapping w (stack - 8)) space
                  ∙ m.elsewhere (stack - 8) below (λ z. omega (arith, last.small)) (inl table)
                  ∙ retrieve_mapping-same (record c.space { allocator = a }) c.space (stack - 8)
                      below.small refl refl,
            )
      ]
