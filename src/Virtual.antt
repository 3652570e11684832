-- ===== src/Virtual.antt =====
-- Include/Multitasking/Paging.h and Source/Multitasking/Paging.cpp: mapping, unmapping and looking
-- up pages through the recursive windows. `memory` holds the 64-bit words at byte addresses, as the
-- windows show them: `pageDirectories` at 0xFFFFF000 and `pageTables` at 0xFFC00000. What the
-- processor's translation makes of the tables is not modelled, nor is the TLB.
-- `none` is a processor that halts.
pub mod Entries
pub mod Mapping
pub mod Erasing
pub mod HeapTables
pub mod Spaces
pub mod Windows
pub mod Cloning
pub mod Copying
pub mod Beyond
mod Tests
use x3c0_microkernel.Common.{
  ℕ, zero, suc, ◌+◌, ◌-◌, ◌*◌, ◌/◌, ◌%◌, ◌^◌, bit_and, bit_or, Bool, true, false, Option, none,
  some, ◌==◌, ◌!=◌, ◌||◌, if◌then◌else◌, update,
}
use x3c0_microkernel.Common.Words.{u32, u64, page_mask}
use x3c0_microkernel.PageFlags
use x3c0_microkernel.Physical.{PageAllocator, allocate_page, free_page}

pub record Virtual : Type 0 where
  pub memory : ℕ → ℕ
  pub allocator : PageAllocator
  pub current : ℕ
  pub kernel : ℕ

-- `&pageDirectories[i]` and `&pageTables[i]`: arrays of 8-byte words.
abbrev pub page_directories : ℕ → ℕ
page_directories i = 0xfffff000 + 8 * i

abbrev pub page_tables : ℕ → ℕ
page_tables i = 0xffc00000 + 8 * i

unfoldable pub switch_page_directory : Virtual → ℕ → Virtual
switch_page_directory v dir = record v { current = dir }

-- `RetrieveMapping(mem, &flags)`: the physical address and the flags.
unfoldable pub retrieve_mapping : Virtual → ℕ → ℕ × ℕ
retrieve_mapping v mem =
    let directory_index = u32 (mem / 2 ^ 22) in
    let table_index = u32 (mem / 2 ^ 12) in
    let offset = bit_and mem 0xfff in
    let entry = v.memory (page_tables table_index) in
    if v.memory (page_directories directory_index) == 0 || entry == 0
    then (0, 0)
    else (bit_or (bit_and entry page_mask) offset, bit_and entry 0xfff)

-- The loop of `EraseMapping`: is an entry left in the table `d` from entry `i` on?
unfoldable pub any_left : Virtual → (d left i : ℕ) → Bool
any_left v d zero i = false
any_left v d (suc left) i =
    let rest = any_left v d left (i + 1) in
    if v.memory (page_tables (bit_or (d * 2 ^ 10) i)) != 0 then true else rest

module _ (undef : ℕ → ℕ) where
  -- A page for the table `d`, entered in the directory.
  abbrev pub enter_table : Virtual → ℕ → Virtual
  enter_table v d =
      let (a, pg) = allocate_page undef v.allocator false in
      record v {
        memory = update v.memory (page_directories d) (
            bit_or (bit_or (bit_or pg PageFlags.present) PageFlags.read_write)
              PageFlags.user_accessible);
        allocator = a;
      }

  -- The directory entry for `d`, allocated if it is zero.
  unfoldable pub ensure_table : Virtual → ℕ → Option Virtual
  ensure_table v d =
      if v.memory (page_directories d) == 0
      then (if (allocate_page undef v.allocator false).1 == 0 then none else some (enter_table v d))
      else some v

  abbrev pub write_entry : ℕ → ℕ → Option Virtual → Option Virtual
  write_entry a e none = none
  write_entry a e (some v) = some (record v { memory = update v.memory a e })

  -- `MapMemory(src, dest, flags)`.
  unfoldable pub map_memory : Virtual → (src dest flags : ℕ) → Option Virtual
  map_memory v src dest flags =
      let page = bit_and src page_mask in
      let target = bit_and dest page_mask in
      let low = bit_and flags 0xfff in
      write_entry (page_tables (target / 2 ^ 12)) (bit_or (bit_or page low) PageFlags.present)
        (ensure_table v (target / 2 ^ 22))

  -- `MapMemory(src, flags)`: the identity mapping.
  unfoldable pub identity_map : Virtual → (src flags : ℕ) → Option Virtual
  identity_map v src flags = map_memory v src src flags

  -- `EraseMapping(mem)`.
  unfoldable pub erase_mapping : Virtual → ℕ → Virtual
  erase_mapping v mem =
      let target = bit_and mem page_mask in
      let d = target / 2 ^ 22 in
      let w = record v { memory = update v.memory (page_tables (target / 2 ^ 12)) 0 } in
      if any_left w d 1024 0 then w else record w {
        memory = update w.memory (page_directories d) 0;
        allocator =
            (free_page undef w.allocator (bit_and (w.memory (page_directories d)) page_mask)).0;
      }
