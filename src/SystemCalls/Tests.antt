-- ===== src/SystemCalls/Tests.antt =====
-- A directory with one table and one page that the user may access.
use x3c0_microkernel.Common.{ℕ, ◌%◌, ◌^◌, ◌≡◌, refl, false, some, ◌==◌, if◌then◌else◌, update}
use x3c0_microkernel.Physical.{PageAllocator}
use x3c0_microkernel.Virtual.{
  Virtual, page_directories, page_tables, map_memory, ensure_table, retrieve_mapping,
}
use x3c0_microkernel.SystemCalls.{is_address_valid}

abbrev x86 : ℕ → ℕ
x86 k = 2 ^ (k % 32)

abbrev pages : PageAllocator
pages = record { bitmap = λ w. 1; frame_count = 8; dma_zone_end = 0 }

abbrev space : Virtual
space = record {
  memory =
      λ a. if a == page_directories 1 then 0x5007 else if a == page_tables 0x401 then 0x9007 else 0;
  allocator = pages;
  current = 0x1000;
  kernel = 0x1000;
}

-- The state after a page was mapped at the free place.
abbrev filled : Virtual
filled = record space { memory = update space.memory (page_tables 0x402) 0xa003 }

maps : map_memory x86 space 0xa000 0x402000 2 ≡ some filled
unfolding map_memory ensure_table
maps = refl

absent : is_address_valid space 0x402000 false ≡ 1
unfolding is_address_valid retrieve_mapping
absent = refl
