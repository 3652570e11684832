-- ===== src/Elf.antt =====
-- Include/ELF/ELFHeaders.h, Source/ELF/ELFHeaders.cpp and Source/ELF/ELFLoader.cpp: the test of an
-- ELF file, the table of its sections, and the pages that a section gets. What is copied into the
-- pages is left out.
pub mod Sections
use x3c0_microkernel.Common.{
  ℕ, zero, suc, ◌+◌, ◌*◌, bit_and, bit_or, Bool, true, false, not, ◌&&◌, ◌||◌, Option, none, some,
  ltb, leb, ◌==◌, ◌!=◌, if◌then◌else◌, ◌>>=◌,
}
use x3c0_microkernel.Common.Words.{u32, u64, page_mask}
use x3c0_microkernel.PageFlags
use x3c0_microkernel.Physical.{allocate_page}
use x3c0_microkernel.Virtual.{Virtual, retrieve_mapping, map_memory}

-- `ELFHeader`; `checksum` has 16 bytes.
pub record ElfHeader : Type 0 where
  pub checksum : ℕ → ℕ
  pub type : ℕ
  pub machine : ℕ
  pub version : ℕ
  pub entry_point : ℕ
  pub program_header_offset : ℕ
  pub section_header_offset : ℕ
  pub flags : ℕ
  pub elf_header_size : ℕ
  pub program_header_size : ℕ
  pub program_header_count : ℕ
  pub section_header_size : ℕ
  pub section_header_count : ℕ
  pub section_header_string_table_index : ℕ

pub record SectionHeader : Type 0 where
  pub name : ℕ
  pub type : ℕ
  pub flags : ℕ
  pub address : ℕ
  pub offset : ℕ
  pub size : ℕ
  pub link : ℕ
  pub info : ℕ
  pub alignment : ℕ
  pub entry_size : ℕ

-- `ELFObject`, with the header that stands at its base.
pub record ElfObject : Type 0 where
  pub header : ElfHeader
  pub valid : Bool
  pub base : ℕ
  pub elf_end : ℕ
  pub type : ℕ
  pub process : ℕ

-- The tests of the constructor, in their order.
abbrev pub checked : ElfHeader → Bool
checked h =
    let valid = true in
    let valid =
      if h.checksum 0 != 0x7f
        || h.checksum 1 != 0x45
        || h.checksum 2 != 0x4c
        || h.checksum 3 != 0x46
      then false
      else valid in
    let valid = if h.type == 0 || leb 3 h.type then false else valid in
    let valid = if h.checksum 4 != 1 then false else valid in
    if h.checksum 5 != 1 then false else valid

-- `ELFLoader(bse, sz)`; the process is not set.
unfoldable pub create : (header : ElfHeader) → (raw bse sz : ℕ) → ElfObject
create header raw bse sz = record {
  header = header;
  valid = checked header;
  base = bse;
  elf_end = u64 (bse + sz);
  type = header.type;
  process = raw;
}

-- `IsValid`, `GetBase` and `GetEnd`; the last two return 32 bits.
abbrev pub is_valid : ElfObject → Bool
is_valid o = o.valid

abbrev pub get_base : ElfObject → ℕ
get_base o = u32 o.base

abbrev pub get_end : ElfObject → ℕ
get_end o = u32 o.elf_end

-- `GetSectionHeader`: an address or 0.
unfoldable pub get_section_header : ElfObject → (idx : ℕ) → ℕ
get_section_header o idx =
    if ltb o.header.section_header_count idx
    then 0
    else u64 (o.base + o.header.section_header_offset + u32 (idx * o.header.section_header_size))

-- `address` and `endAddress` of the loop in `Start`.
abbrev pub first_page : SectionHeader → ℕ
first_page sh = bit_and sh.address page_mask

abbrev pub end_address : SectionHeader → ℕ
end_address sh =
    let limit = u32 (sh.address + sh.size) in
    if bit_and limit 0xfff == 0 then limit else u32 (bit_and limit page_mask + 4096)

-- The flags of the pages: program code is writable whatever its flags say, data if bit 0 is set.
abbrev pub page_flags : SectionHeader → ℕ
page_flags sh =
    let flags = bit_or PageFlags.present PageFlags.user_accessible in
    if sh.type == 1
    then bit_or flags PageFlags.read_write
    else if bit_and sh.flags 1 == 1
    then bit_or flags PageFlags.read_write
    else flags

module _ (undef : ℕ → ℕ) where
  -- The loop over the pages up to `limit`, which stops where a page is there already or none is left.
  unfoldable pub map_pages : (fuel : ℕ) → Virtual → (flags j limit : ℕ) → Option Virtual
  map_pages zero v flags j limit = none
  map_pages (suc fuel) v flags j limit =
      if leb j limit
      then (let (a, pg) = allocate_page undef v.allocator false in
          let w = record v { allocator = a } in
          let mapped =
            map_memory undef w pg j flags >>= λ u. map_pages fuel u flags (j + 4096) limit in
          if pg == 0 || bit_and (retrieve_mapping w j).1 PageFlags.present != 0
          then some w
          else mapped)
      else some v

  -- What `Start` does for one section before it copies or clears.
  unfoldable pub load_section : (fuel : ℕ) → Virtual → SectionHeader → Option Virtual
  load_section fuel v sh =
      if sh.size == 0 || sh.address == 0
      then some v
      else if sh.type == 1 || sh.type == 8
      then map_pages fuel v (page_flags sh) (first_page sh) (end_address sh)
      else some v
