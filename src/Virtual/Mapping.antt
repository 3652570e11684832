-- ===== src/Virtual/Mapping.antt =====
-- `MapMemory` and `RetrieveMapping` of Source/Multitasking/Paging.cpp.
use x3c0_microkernel.Common.{
  ℕ, ◌+◌, ◌*◌, ◌/◌, ◌%◌, ◌^◌, ◌<◌, ◌≡◌, ◌≢◌, ◌⊎◌, inl, inr, refl, ap, ◌∙◌, false, ◌||◌, none, some,
  arith, bit_and, bit_or, ◌==◌, if◌then◌else◌, Bool-cases, update, update_self, update_ne,
}
use x3c0_microkernel.Common.Digits.{bit, bit-bit_or}
use x3c0_microkernel.Common.Words.{u32, page_mask, bit_and-page_mask, bit_and-offset, bit_or-page}
use x3c0_microkernel.Physical.{allocate_page}
use x3c0_microkernel.Virtual.{
  Virtual, page_directories, page_tables, retrieve_mapping, enter_table, ensure_table, map_memory,
}
use x3c0_microkernel.Virtual.Entries.{
  Plain, entry_sum, entry_flags-lt, bit_or_one, target_table, target_directory,
  tables-ne-directories,
}

-- What `RetrieveMapping` reads, below 4 GiB.
unfoldable pub looked_up : (directory entry mem : ℕ) → ℕ × ℕ
looked_up directory entry mem =
    if directory == 0 || entry == 0
    then (0, 0)
    else (bit_or (bit_and entry page_mask) (bit_and mem 0xfff), bit_and entry 0xfff)

pub retrieve_mapping-looked_up :
    (v : Virtual) (mem : ℕ)
    → mem < 2 ^ 32
    → retrieve_mapping v mem
      ≡ looked_up
          (v.memory (page_directories (mem / 2 ^ 22)))
          (v.memory (page_tables (mem / 2 ^ 12)))
          mem
unfolding retrieve_mapping looked_up
retrieve_mapping-looked_up v mem h =
    let d : u32 (mem / 2 ^ 22) ≡ mem / 2 ^ 22 = omega arith in
    let t : u32 (mem / 2 ^ 12) ≡ mem / 2 ^ 12 = omega arith in rw (d, t) refl

-- The same two words give the same answer.
pub retrieve_mapping-same :
    (t v : Virtual) (mem : ℕ)
    → mem < 2 ^ 32
    → t.memory (page_directories (mem / 2 ^ 22)) ≡ v.memory (page_directories (mem / 2 ^ 22))
    → t.memory (page_tables (mem / 2 ^ 12)) ≡ v.memory (page_tables (mem / 2 ^ 12))
    → retrieve_mapping t mem ≡ retrieve_mapping v mem
retrieve_mapping-same t v mem h d e =
    rw (retrieve_mapping-looked_up t mem h, retrieve_mapping-looked_up v mem h, d, e)

-- The entry of a page that is mapped gives the page and the flags back.
looked_up-entry :
    (directory q f mem : ℕ)
    → directory ≢ 0
    → q < 2 ^ 20
    → f < 4096
    → f ≢ 0
    → looked_up directory (q * 4096 + f) mem ≡ (q * 4096 + mem % 4096, f)
unfolding looked_up
looked_up-entry directory q f mem hd hq hf nf =
    let e : bit_and (q * 4096 + f) page_mask ≡ q * 4096 =
      omega (arith, bit_and-page_mask (q * 4096 + f)) in
    let o : bit_and (q * 4096 + f) 0xfff ≡ f = omega (arith, bit_and-offset (q * 4096 + f)) in
    let live : (directory == 0 || q * 4096 + f == 0) ≡ false = ground arith in
    rw (live, e, o, bit_and-offset mem)
      (ap (λ p. (p, f)) (bit_or-page q (mem % 4096) (omega arith)))

-- The directory entry `d` is there; another may only have been filled in.
record Ensured (v : Virtual) (d : ℕ) (w : Virtual) : Type 0 where
  ready : w.memory (page_directories d) ≢ 0
  others : (a : ℕ) → a ≢ page_directories d → w.memory a ≡ v.memory a
  kept : v.memory (page_directories d) ≢ 0 → (a : ℕ) → w.memory a ≡ v.memory a

present_ne_zero : (pg : ℕ) → bit_or (bit_or (bit_or pg 1) 2) 4 ≢ 0
present_ne_zero pg e = omega (
  arith,
  ap (λ t. bit t 0) e,
  bit-bit_or (bit_or (bit_or pg 1) 2) 4 0,
  bit-bit_or (bit_or pg 1) 2 0,
  bit-bit_or pg 1 0,
)

module _ (undef : ℕ → ℕ) (v : Virtual) where
  ensure_table-Ensured :
      (d : ℕ)
      → ((ensure_table undef v d ≡ none)
          × (v.memory (page_directories d) ≡ 0)
          × ((allocate_page undef v.allocator false).1 ≡ 0))
        ⊎ ((w : Virtual) × (ensure_table undef v d ≡ some w)
            × ((v.memory (page_directories d) ≢ 0)
                ⊎ ((allocate_page undef v.allocator false).1 ≢ 0))
            × Ensured v d w)
  unfolding ensure_table
  ensure_table-Ensured d = elim (Bool-cases (v.memory (page_directories d) == 0)) [
    | inl zero_entry ↦ elim (Bool-cases ((allocate_page undef v.allocator false).1 == 0)) [
      | inl no_page ↦ inl (rw (zero_entry, no_page) refl, ground arith, ground arith)
      | inr page ↦ inr (
        enter_table undef v d,
        rw (zero_entry, page) refl,
        inr (λ e. ground arith),
        record {
          ready = λ e. ground (arith, present_ne_zero (allocate_page undef v.allocator false).1);
          others = λ a n. ground arith;
          kept = λ n a. absurd (n (ground arith));
        },
      )
    ]
    | inr entry ↦ inr (
      v,
      rw entry refl,
      inl (λ e. ground arith),
      record { ready = λ e. ground arith; others = λ a n. refl; kept = λ n a. refl },
    )
  ]

-- `t` is `v` with `dest` mapped: looking `dest` up gives the page of `src` with the offset of
-- `dest`, and the flags with Present, and a page whose table was there looks up as before.
pub record Mapped (v : Virtual) (src dest flags : ℕ) (t : Virtual) : Type 0 where
  pub target :
      retrieve_mapping t dest ≡ (src / 4096 % 2 ^ 20 * 4096 + dest % 4096, bit_or (flags % 4096) 1)
  pub elsewhere :
      (mem : ℕ)
      → Plain mem
      → mem / 2 ^ 12 ≢ dest / 2 ^ 12
      → (v.memory (page_directories (dest / 2 ^ 22)) ≢ 0) ⊎ (mem / 2 ^ 22 ≢ dest / 2 ^ 22)
      → retrieve_mapping t mem ≡ retrieve_mapping v mem

-- For a 32-bit destination outside of the place where the two windows overlap, `MapMemory` halts
-- exactly where the table is missing and no page is left for it. Otherwise the table is there or a
-- page is left, and the destination looks up as the page and the flags asked for, and no other such page changes, but for those of a table
-- that was missing.
pub map_memory-Mapped :
    (undef : ℕ → ℕ) (v : Virtual) (src dest flags : ℕ)
    → Plain dest
    → ((map_memory undef v src dest flags ≡ none)
        × (v.memory (page_directories (dest / 2 ^ 22)) ≡ 0)
        × ((allocate_page undef v.allocator false).1 ≡ 0))
      ⊎ ((t : Virtual) × (map_memory undef v src dest flags ≡ some t)
          × ((v.memory (page_directories (dest / 2 ^ 22)) ≢ 0)
              ⊎ ((allocate_page undef v.allocator false).1 ≢ 0))
          × Mapped v src dest flags t)
unfolding map_memory
map_memory-Mapped undef v src dest flags p =
    rw (target_table dest p.small, target_directory dest p.small, entry_sum src flags)
      (elim (ensure_table-Ensured undef v (dest / 2 ^ 22)) [
        | inl (stuck, missing, no_page) ↦ inl (rw stuck refl, missing, no_page)
        | inr (w, e, room, ensured) ↦ inr (written w, rw e refl, room, mapped w ensured)
      ])
  where
    entry : ℕ
    entry = src / 4096 % 2 ^ 20 * 4096 + bit_or (flags % 4096) 1

    written : Virtual → Virtual
    written w = record w { memory = update w.memory (page_tables (dest / 2 ^ 12)) entry }

    directory :
        (w : Virtual)
        → Ensured v (dest / 2 ^ 22) w
        → (mem : ℕ)
        → (v.memory (page_directories (dest / 2 ^ 22)) ≢ 0) ⊎ (mem / 2 ^ 22 ≢ dest / 2 ^ 22)
        → w.memory (page_directories (mem / 2 ^ 22)) ≡ v.memory (page_directories (mem / 2 ^ 22))
    directory w ensured mem (inl there) = ensured.kept there _
    directory w ensured mem (inr apart) = ensured.others _ (λ e. apart (omega arith))

    mapped : (w : Virtual) → Ensured v (dest / 2 ^ 22) w → Mapped v src dest flags (written w)
    mapped w ensured = record {
      target =
          rw
            (
              retrieve_mapping-looked_up (written w) dest p.small,
              update_ne w.memory (page_tables (dest / 2 ^ 12)) (page_directories (dest / 2 ^ 22))
                  entry (tables-ne-directories dest dest p p.small),
              update_self w.memory (page_tables (dest / 2 ^ 12)) entry,
            )
            (looked_up-entry _ (src / 4096 % 2 ^ 20) (bit_or (flags % 4096) 1) dest ensured.ready
              (omega arith) (entry_flags-lt flags) (bit_or_one flags));
      elsewhere = λ mem q n table.
          retrieve_mapping-same (written w) v mem q.small
            (update_ne w.memory (page_tables (dest / 2 ^ 12)) (page_directories (mem / 2 ^ 22))
                entry (tables-ne-directories dest mem p q.small)
              ∙ directory w ensured mem table)
            (update_ne w.memory (page_tables (dest / 2 ^ 12)) (page_tables (mem / 2 ^ 12)) entry
                (λ e. n (omega arith))
              ∙ ensured.others (page_tables (mem / 2 ^ 12))
                  (tables-ne-directories mem dest q p.small));
    }
