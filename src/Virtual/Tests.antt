-- ===== src/Virtual/Tests.antt =====
-- A directory with one table, and a page mapped into it and taken out again.
use x3c0_microkernel.Common.{
  ℕ, ◌+◌, ◌/◌, ◌^◌, ◌<◌, ◌≡◌, ◌≢◌, ◌⊎◌, inl, refl, false, some, none, [], arith, ◌==◌,
  if◌then◌else◌,
}
use x3c0_microkernel.Physical.{PageAllocator, allocate_page}
use x3c0_microkernel.Virtual.{
  Virtual, page_directories, page_tables, map_memory, erase_mapping, retrieve_mapping,
}
use x3c0_microkernel.Virtual.Entries.{Plain}
use x3c0_microkernel.Virtual.Mapping.{Mapped, map_memory-Mapped}
use x3c0_microkernel.Virtual.Erasing.{Erased, erase_mapping-Erased}
use x3c0_microkernel.Virtual.Spaces.{Spaces, translate, table_window}

abbrev pages : PageAllocator
pages = record { bitmap = λ w. 1; frame_count = 8; dma_zone_end = 0 }

-- Table 1 is there, and the page at 0x401000 is mapped.
abbrev one_table : Virtual
one_table = record {
  memory =
      λ a. if a == page_directories 1 then 0x5007 else if a == page_tables 0x401 then 0x9003 else 0;
  allocator = pages;
  current = 0x1000;
  kernel = 0x1000;
}

at_table : Plain 0x402123
at_table = record { small = omega arith; apart = inl (omega arith) }

mapped_page : Plain 0x401000
mapped_page = record { small = omega arith; apart = inl (omega arith) }

looks_up : retrieve_mapping one_table 0x401234 ≡ (0x9234, 3)
unfolding retrieve_mapping
looks_up = refl

map_memory-Mapped_example :
    ((map_memory (λ k. 0) one_table 0xabc123 0x402123 6 ≡ none)
      × (one_table.memory (page_directories (0x402123 / 2 ^ 22)) ≡ 0)
      × ((allocate_page (λ k. 0) one_table.allocator false).1 ≡ 0))
    ⊎ ((t : Virtual) × (map_memory (λ k. 0) one_table 0xabc123 0x402123 6 ≡ some t)
        × ((one_table.memory (page_directories (0x402123 / 2 ^ 22)) ≢ 0)
            ⊎ ((allocate_page (λ k. 0) one_table.allocator false).1 ≢ 0))
        × Mapped one_table 0xabc123 0x402123 6 t)
map_memory-Mapped_example = map_memory-Mapped (λ k. 0) one_table 0xabc123 0x402123 6 at_table

erase_mapping-Erased_example : Erased one_table 0x401000 (erase_mapping (λ k. 0) one_table 0x401000)
erase_mapping-Erased_example = erase_mapping-Erased (λ k. 0) one_table 0x401000 mapped_page

-- The table of the windows is there and none of them is open. The directory in frame 0x20 has a
-- table in frame 0x30, and that has a page in frame 0x40 for the addresses from 0x8000 on.
abbrev spaces : Spaces
spaces = record {
  space = record one_table { memory = λ a. if a == page_directories 1022 then 0x5007 else 0 };
  frames = λ a. if a == 0x20000 then 0x30007 else if a == 0x30040 then 0x40007 else 0;
  copied = [];
}

windows_closed : (a : ℕ) → a < 4096 → translate spaces (table_window + a) ≡ none
unfolding translate retrieve_mapping
windows_closed a h = ground arith
