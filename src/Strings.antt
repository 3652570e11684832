-- ===== src/Strings.antt =====
-- Include/Common/Strings.h and Source/Common/Strings.cpp: strings as bytes in memory that end with a
-- zero. `char` has 8 bits; `length`s and indices are 32-bit values. Fuel bounds the loops.
pub mod Measured
mod Tests
use x3c0_microkernel.Common.{
  ℕ, zero, suc, ◌+◌, ◌-◌, ◌/◌, Option, none, some, ltb, leb, ◌==◌, ◌&&◌, if◌then◌else◌, update,
  ◌>>=◌,
}
use x3c0_microkernel.Common.Words.{u32, sub_u32}

-- An `int` that is -1, 0 or 1.
pub data Order : Type 0 where
  less : Order
  same : Order
  greater : Order

-- `(*str1 < *str2) ? -1 : 1`.
abbrev pub differing : (ℕ → ℕ) → (str1 str2 : ℕ) → Order
differing memory str1 str2 = if ltb (memory str1) (memory str2) then less else greater

-- `Compare(str1, str2)`.
unfoldable pub compare : (fuel : ℕ) → (ℕ → ℕ) → (str1 str2 : ℕ) → Option Order
compare zero memory str1 str2 = none
compare (suc fuel) memory str1 str2 =
    let rest = compare fuel memory (str1 + 1) (str2 + 1) in
    if memory str1 == memory str2
    then (if memory str1 == 0 then some same else rest)
    else some (differing memory str1 str2)

-- `Compare(str1, str2, length)`, where `left` of the length remain.
unfoldable pub compare_within : (ℕ → ℕ) → (str1 str2 left : ℕ) → Order
compare_within memory str1 str2 zero = differing memory str1 str2
compare_within memory str1 str2 (suc left) =
    let rest = compare_within memory (str1 + 1) (str2 + 1) left in
    if memory str1 == memory str2
    then (if memory str1 == 0 then same else rest)
    else differing memory str1 str2

-- The loop of `Length`.
unfoldable pub length_from : (fuel : ℕ) → (ℕ → ℕ) → (str length : ℕ) → Option ℕ
length_from zero memory str length = none
length_from (suc fuel) memory str length =
    let rest = length_from fuel memory str (u32 (length + 1)) in
    if memory (str + length) == 0 then some length else rest

unfoldable pub length : (fuel : ℕ) → (ℕ → ℕ) → (str : ℕ) → Option ℕ
length fuel memory str = length_from fuel memory str 0

-- The loop of `Copy`, with `left` bytes to go from byte `i` on.
unfoldable pub copy_from : (ℕ → ℕ) → (dest src left i : ℕ) → ℕ → ℕ
copy_from memory dest src zero i = update memory (dest + i) 0
copy_from memory dest src (suc left) i =
    copy_from (update memory (dest + i) (memory (src + i))) dest src left (i + 1)

-- `Copy(dest, src, length)`: the memory afterwards; `dest` is returned.
unfoldable pub copy_within : (ℕ → ℕ) → (dest src length : ℕ) → (ℕ → ℕ) × ℕ
copy_within memory dest src length = (copy_from memory dest src length 0, dest)

-- `Copy(dest, src)`.
unfoldable pub copy : (fuel : ℕ) → (ℕ → ℕ) → (dest src : ℕ) → Option ((ℕ → ℕ) × ℕ)
copy fuel memory dest src = length fuel memory src >>= λ n. some (copy_within memory dest src n)

-- One round of the loop of `Reverse`: bytes `n - i` and `i - 1` change places.
abbrev pub swap : (ℕ → ℕ) → (str n i : ℕ) → ℕ → ℕ
swap memory str n i =
    let c = memory (str + (n - i)) in
    update (update memory (str + (n - i)) (memory (str + (i - 1)))) (str + (i - 1)) c

-- The loop of `Reverse`, with `left` rounds to go; the last one is for byte `n / 2 + 1`.
unfoldable pub swap_from : (ℕ → ℕ) → (str n left : ℕ) → ℕ → ℕ
swap_from memory str n zero = memory
swap_from memory str n (suc left) = swap_from (swap memory str n (n / 2 + 1 + left)) str n left

-- `Reverse`: the memory afterwards; `string` is returned.
unfoldable pub reverse : (fuel : ℕ) → (ℕ → ℕ) → (string : ℕ) → Option ((ℕ → ℕ) × ℕ)
reverse fuel memory string =
    length fuel memory string >>= λ n. some (swap_from memory string n (n - n / 2), string)
