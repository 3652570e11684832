-- ===== src/Common/Flags.antt =====
-- One bit of a word as the C++ code tests it, and what setting and clearing a bit does to the tests.
use x3c0_microkernel.Common.{
  ℕ, ◌-◌, ◌^◌, ◌<◌, bit_and, bit_or, ◌≡◌, Bool, true, false, inl, inr, arith, ◌==◌, ◌!=◌,
  if◌then◌else◌, Bool-cases,
}
use x3c0_microkernel.Common.Digits.{
  bit-le_one, bit-bit_and, bit-bit_or, two_pow-lt, bit-two_pow_eq, bit-two_pow_ne, bit-not,
  eq_of_bits, bit_and-le, bit_or-lt, bit,
}
use x3c0_microkernel.Common.Words.{test_two_pow}

-- `(w & (1 << j)) != 0`.
abbrev pub flag : ℕ → ℕ → Bool
flag w j = bit_and w (2 ^ j) != 0

pub flag-or : (a b j : ℕ) → flag (bit_or a b) j ≡ (if flag a j then true else flag b j)
flag-or a b j =
    rw (test_two_pow (bit_or a b) j, test_two_pow a j, test_two_pow b j)
      (ground (arith, bit-bit_or a b j, bit-le_one a j, bit-le_one b j))

pub flag-two_pow : (k j : ℕ) → flag (2 ^ k) j ≡ (k == j)
flag-two_pow k j = rw (test_two_pow (2 ^ k) j) (elim (Bool-cases (k == j)) [
  | inl e ↦ ground (arith, bit-two_pow_eq k j)
  | inr n ↦ ground (arith, bit-two_pow_ne k j)
])

pub flag-set : (w k j : ℕ) → flag (bit_or w (2 ^ k)) j ≡ (if k == j then true else flag w j)
flag-set w k j = rw (flag-or w (2 ^ k) j, flag-two_pow k j) (ground arith)

pub flag-clear :
    (n w k j : ℕ)
    → k < n
    → j < n
    → flag (bit_and w (2 ^ n - 1 - 2 ^ k)) j ≡ (if k == j then false else flag w j)
flag-clear n w k j hk hj =
    rw (test_two_pow (bit_and w (2 ^ n - 1 - 2 ^ k)) j, test_two_pow w j)
      (elim (Bool-cases (k == j)) [
        | inl e ↦ ground (
          arith,
          bit-bit_and w (2 ^ n - 1 - 2 ^ k) j,
          bit-not n (2 ^ k) j (two_pow-lt hk) hj,
          bit-le_one w j,
          bit-two_pow_eq k j,
        )
        | inr d ↦ ground (
          arith,
          bit-bit_and w (2 ^ n - 1 - 2 ^ k) j,
          bit-not n (2 ^ k) j (two_pow-lt hk) hj,
          bit-le_one w j,
          bit-two_pow_ne k j,
        )
      ])

-- Setting a clear bit and clearing it again gives the word back.
pub clear-set :
    (n w k : ℕ)
    → k < n
    → w < 2 ^ n
    → flag w k ≡ false
    → bit_and (bit_or w (2 ^ k)) (2 ^ n - 1 - 2 ^ k) ≡ w
clear-set n w k hk hw off =
    eq_of_bits n (bit_and v (2 ^ n - 1 - 2 ^ k)) w
      (omega (arith, bit_and-le n v (2 ^ n - 1 - 2 ^ k) small, small)) hw digit
  where
    v : ℕ
    v = bit_or w (2 ^ k)

    small : v < 2 ^ n
    small = bit_or-lt n w (2 ^ k) hw (two_pow-lt hk)

    zero_digit : bit w k ≡ 0
    zero_digit = ground (arith, test_two_pow w k, bit-le_one w k)

    digit : (j : ℕ) → j < n → bit (bit_and v (2 ^ n - 1 - 2 ^ k)) j ≡ bit w j
    digit j hj = elim (Bool-cases (k == j)) [
      | inl e ↦ ground (
        arith,
        bit-bit_and v (2 ^ n - 1 - 2 ^ k) j,
        bit-not n (2 ^ k) j (two_pow-lt hk) hj,
        bit-two_pow_eq k j,
        zero_digit,
      )
      | inr d ↦ ground (
        arith,
        bit-bit_and v (2 ^ n - 1 - 2 ^ k) j,
        bit-bit_or w (2 ^ k) j,
        bit-not n (2 ^ k) j (two_pow-lt hk) hj,
        bit-two_pow_ne k j,
        bit-le_one w j,
      )
    ]
