-- ===== src/Elf/Sections.antt =====
-- Source/ELF/ELFLoader.cpp: which files pass, which headers are found, and which pages are mapped.
use native.Mathlib.Nat.{mul-le-mul_right}
use x3c0_microkernel.Common.{
  ℕ, suc, ◌+◌, ◌*◌, ◌/◌, ◌%◌, ◌^◌, ◌<◌, ◌≤◌, ◌≡◌, ◌↔◌, ◌⊎◌, inl, inr, refl, ap, ◌∙◌, true, ltb,
  ◌==◌, bit_and, Bool-cases, arith,
}
use x3c0_microkernel.Common.Words.{u32, page_mask, bit_and-page_mask, bit_and-offset}
use x3c0_microkernel.Elf.{
  ElfHeader, SectionHeader, ElfObject, create, is_valid, get_section_header, first_page,
  end_address,
}

-- A file is valid exactly when it starts with 0x7F and `ELF`, is a relocatable or executable file,
-- and is for 32 bits and little-endian.
pub create-valid :
    (h : ElfHeader) (raw bse sz : ℕ)
    → (is_valid (create h raw bse sz) ≡ true) ↔ (
        (h.checksum 0 ≡ 0x7f)
        × (h.checksum 1 ≡ 0x45)
        × (h.checksum 2 ≡ 0x4c)
        × (h.checksum 3 ≡ 0x46)
        × (0 < h.type)
        × (h.type < 3)
        × (h.checksum 4 ≡ 1)
        × (h.checksum 5 ≡ 1))
unfolding create
create-valid h raw bse sz = ground arith

-- Where the table of sections stands inside of the file and the file inside of the address space, a
-- header is found for each section and for one number more: the headers of the sections lie inside
-- of the file, and the one that follows them begins where the table ends.
pub get_section_header-bounds :
    (o : ElfObject) (idx : ℕ)
    → o.header.section_header_offset
        + o.header.section_header_count * o.header.section_header_size
        + o.base
      ≤ o.elf_end
    → o.elf_end < 2 ^ 64
    → o.header.section_header_count * o.header.section_header_size < 2 ^ 32
    → 0 < o.base
    → ((idx < o.header.section_header_count)
        × (o.base ≤ get_section_header o idx)
        × (get_section_header o idx + o.header.section_header_size ≤ o.elf_end))
      ⊎ ((idx ≡ o.header.section_header_count)
          × (get_section_header o idx
              ≡ o.base
                + o.header.section_header_offset
                + o.header.section_header_count * o.header.section_header_size))
      ⊎ ((o.header.section_header_count < idx) × (get_section_header o idx ≡ 0))
unfolding get_section_header
get_section_header-bounds o idx inside small table low =
    elim (Bool-cases (ltb o.header.section_header_count idx)) [
      | inl over ↦ inr (inr (ground (arith, over), rw over refl))
      | inr found ↦ elim (Bool-cases (idx == o.header.section_header_count)) [
        | inl y ↦
            let e : idx ≡ o.header.section_header_count = ground (arith, y) in
            let at : idx * o.header.section_header_size
                ≡ o.header.section_header_count * o.header.section_header_size =
              ap (λ k. k * o.header.section_header_size) e in
            inr (inl (e, rw found (omega (arith, at, inside, small, table))))
        | inr y ↦
            let below : suc idx ≤ o.header.section_header_count = ground (arith, y, found) in
            let le = mul-le-mul_right o.header.section_header_size below in
            let next : suc idx * o.header.section_header_size
                ≡ o.header.section_header_size + idx * o.header.section_header_size =
              omega arith in
            inl (
              below,
              rw found (omega (arith, le, next, inside, small, table)),
              rw found (omega (arith, le, next, inside, small, table)),
            )
      ]
    ]

-- The pages of a section that ends below 4 GiB minus a page: each of its bytes stands on a page that
-- begins at `address` or later and before `endAddress`. The loop runs up to `endAddress` itself,
-- which is the beginning of a page that has none of them.
pub end_address-pages :
    (sh : SectionHeader)
    → sh.address + sh.size + 4096 < 2 ^ 32
    → ((a : ℕ)
        → sh.address ≤ a
        → a < sh.address + sh.size
        → (first_page sh ≤ a / 4096 * 4096) × (a / 4096 * 4096 < end_address sh))
      × (end_address sh % 4096 ≡ 0)
      × (sh.address + sh.size ≤ end_address sh)
end_address-pages sh small =
    let first : first_page sh ≡ sh.address / 4096 * 4096 =
      bit_and-page_mask sh.address ∙ omega (arith, small) in
    let limit : u32 (sh.address + sh.size) ≡ sh.address + sh.size = omega (arith, small) in
    let low : bit_and (sh.address + sh.size) 0xfff ≡ (sh.address + sh.size) % 4096 =
      bit_and-offset (sh.address + sh.size) in
    let high : bit_and (sh.address + sh.size) page_mask ≡ (sh.address + sh.size) / 4096 * 4096 =
      bit_and-page_mask (sh.address + sh.size) ∙ omega (arith, small) in
    elim (Bool-cases ((sh.address + sh.size) % 4096 == 0)) [
      | inl y ↦
          let e : (sh.address + sh.size) % 4096 ≡ 0 = ground (arith, y) in
          rw (limit, low, y)
            ((λ a at under. (omega (arith, first, at), omega (arith, e, under))), e, omega arith)
      | inr y ↦
          rw (limit, low, y, high)
            (
              (λ a at under. (omega (arith, first, at), omega (arith, small, under))),
              omega (arith, small),
              omega (arith, small),
            )
    ]
