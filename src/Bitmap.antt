-- ===== src/Bitmap.antt =====
-- Include/Bitmap.h and Source/Bitmap.cpp: an array of 32-bit words read bit by bit.
-- `none` is an access outside of the array. `1 << 31` is an `int` that the `unsigned` word takes as
-- `2 ^ 31`, so the mask of bit `b` is `2 ^ (b % 32)` for every `b`.
pub mod Laws
pub mod Series
mod Tests
use mathlib.Core.Option
use x3c0_microkernel.Common.{
  ℕ, zero, suc, ◌+◌, ◌/◌, ◌%◌, ◌^◌, bit_and, bit_or, Bool, Option, List, [], ◌∷◌, get_elem?, set,
  ◌==◌, if◌then◌else◌,
}
use x3c0_microkernel.Common.Flags.{flag}
use x3c0_microkernel.Common.Words.{not_u32}

pub record Bitmap : Type 0 where
  pub words : List ℕ
  pub elements : ℕ

-- The words that `new unsigned int[n]` returns: they hold what the memory held before.
abbrev pub uncleared : (ℕ → ℕ) → ℕ → ℕ → List ℕ
uncleared raw i zero = []
uncleared raw i (suc n) = raw i % 2 ^ 32 ∷ uncleared raw (i + 1) n

abbrev pub word_count : ℕ → ℕ
word_count count = if count % 32 == 0 then count / 32 else count / 32 + 1

-- `Bitmap::Bitmap(count)`, over memory with the contents `raw`.
unfoldable pub create : (ℕ → ℕ) → ℕ → Bitmap
create raw count = record { words = uncleared raw 0 (word_count count); elements = count }

unfoldable pub test_bit : Bitmap → ℕ → Option Bool
test_bit m b = Option.map (λ w. flag w (b % 32)) (get_elem? m.words (b / 32))

unfoldable pub set_bit : Bitmap → ℕ → Option Bitmap
set_bit m b =
    Option.map (λ w. record m { words = set m.words (b / 32) (bit_or w (2 ^ (b % 32))) })
      (get_elem? m.words (b / 32))

unfoldable pub clear_bit : Bitmap → ℕ → Option Bitmap
clear_bit m b =
    Option.map (λ w. record m { words = set m.words (b / 32) (bit_and w (not_u32 (2 ^ (b % 32)))) })
      (get_elem? m.words (b / 32))

unfoldable pub get_count : Bitmap → ℕ
get_count m = m.elements
