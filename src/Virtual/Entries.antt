-- ===== src/Virtual/Entries.antt =====
-- Page table entries of Source/Multitasking/Paging.cpp: an address and flags put together by `|`
-- and taken apart by the masks, and where the two windows overlap.
use x3c0_microkernel.Common.{
  ℕ, ◌+◌, ◌*◌, ◌/◌, ◌%◌, ◌^◌, ◌≤◌, ◌<◌, ◌≡◌, ◌≢◌, ◌⊎◌, max, ap, ◌∙◌, arith, bit_and, bit_or,
}
use x3c0_microkernel.Common.Digits.{bit, bit-bit_or, eq_of_bits, bit_or-lt}
use x3c0_microkernel.Common.Words.{page_mask, bit_and-page_mask, bit_and-offset, bit_or-page}
use x3c0_microkernel.Virtual.{page_directories, page_tables}

max_assoc : (a b c : ℕ) → max (max a b) c ≡ max a (max b c)
max_assoc a b c = omega arith

bit_or_assoc :
    (w a b c : ℕ)
    → a < 2 ^ w
    → b < 2 ^ w
    → c < 2 ^ w
    → bit_or (bit_or a b) c ≡ bit_or a (bit_or b c)
bit_or_assoc w a b c ha hb hc =
    eq_of_bits w (bit_or (bit_or a b) c) (bit_or a (bit_or b c))
      (bit_or-lt w (bit_or a b) c (bit_or-lt w a b ha hb) hc)
      (bit_or-lt w a (bit_or b c) ha (bit_or-lt w b c hb hc))
      λ j _. ground (
        arith,
        bit-bit_or (bit_or a b) c j,
        bit-bit_or a b j,
        bit-bit_or a (bit_or b c) j,
        bit-bit_or b c j,
        max_assoc (bit a j) (bit b j) (bit c j),
      )

-- The entry that `MapMemory` writes, as a sum.
pub entry_sum :
    (src flags : ℕ)
    → bit_or (bit_or (bit_and src page_mask) (bit_and flags 0xfff)) 1
      ≡ src / 4096 % 2 ^ 20 * 4096 + bit_or (flags % 4096) 1
entry_sum src flags =
    rw (bit_and-page_mask src, bit_and-offset flags)
      (bit_or_assoc 32 (src / 4096 % 2 ^ 20 * 4096) (flags % 4096) 1 (omega arith) (omega arith)
          (omega arith)
        ∙ bit_or-page (src / 4096 % 2 ^ 20) (bit_or (flags % 4096) 1) (low flags))
  where
    low : (f : ℕ) → bit_or (f % 4096) 1 < 4096
    low f = bit_or-lt 12 (f % 4096) 1 (omega arith) (omega arith)

pub entry_flags-lt : (f : ℕ) → bit_or (f % 4096) 1 < 4096
entry_flags-lt f = bit_or-lt 12 (f % 4096) 1 (omega arith) (omega arith)

-- Setting the lowest bit leaves a number that is not zero.
pub bit_or_one : (f : ℕ) → bit_or (f % 4096) 1 ≢ 0
bit_or_one f e = omega (arith, ap (λ t. bit t 0) e, bit-bit_or (f % 4096) 1 0)

-- `mem` lies in the 32-bit address space and outside of the 4 MiB around the place where the two
-- windows, which are laid out for 4-byte entries, run into one another.
pub record Plain (mem : ℕ) : Type 0 where
  pub small : mem < 2 ^ 32
  pub apart : (mem < 0x7fc00000) ⊎ (0x80400000 ≤ mem)

-- The indices that `MapMemory` and `EraseMapping` compute, from the address itself.
pub target_table : (mem : ℕ) → mem < 2 ^ 32 → bit_and mem page_mask / 2 ^ 12 ≡ mem / 2 ^ 12
target_table mem h = omega (arith, bit_and-page_mask mem)

pub target_directory : (mem : ℕ) → mem < 2 ^ 32 → bit_and mem page_mask / 2 ^ 22 ≡ mem / 2 ^ 22
target_directory mem h = omega (arith, bit_and-page_mask mem)

-- The table entry of one plain address is no directory entry of another.
pub tables-ne-directories :
    (mem other : ℕ)
    → Plain mem
    → other < 2 ^ 32
    → page_tables (mem / 2 ^ 12) ≢ page_directories (other / 2 ^ 22)
tables-ne-directories mem other p h e = omega (arith, p.apart)
