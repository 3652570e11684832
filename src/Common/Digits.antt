-- ===== src/Common/Digits.antt =====
-- The binary digits of a number, and what `&`, `|` and `~` of the C++ code do to them.
-- `bit a j` is digit `j` of `a`, the independent description of the bit operations.
use Prim.Native.Nat.{
  ℕ, zero, suc, ◌+◌, ◌-◌, ◌*◌, ◌/◌, ◌%◌, ◌^◌, ◌≤◌, ◌<◌, min, max, bit_and, bit_or, digits, bitwise,
  bit_and-bitwise, bit_or-bitwise,
}
use mathlib.Core.Path.{◌≡◌, refl, sym, ap, ◌∙◌}
use mathlib.Core.Logic.{◌≢◌, inl, inr}
use x3c0_microkernel.Common.Tests.{◌==◌, Bool-cases}
use native.Mathlib.Omega.{arith}
use native.Mathlib.Nat.{pow-suc, one-le-pow, pow-le-pow_right}

abbrev pub bit : ℕ → ℕ → ℕ
bit a zero = a % 2
bit a (suc j) = bit (a / 2) j

pub bit-le_one : (a j : ℕ) → bit a j ≤ 1
bit-le_one a zero = omega arith
bit-le_one a (suc j) = bit-le_one (a / 2) j

-- The fuel of the native definition does not matter once it covers the first number.
module _ (rest : ℕ → ℕ) (digit : ℕ → ℕ → ℕ) where
  digits-zero : (fuel b : ℕ) → digits rest digit fuel 0 b ≡ rest b
  digits-zero zero b = refl
  digits-zero (suc fuel) b = refl

  enough : (a b m n : ℕ) → a ≤ n → a ≤ m → digits rest digit m a b ≡ digits rest digit n a b
  enough zero b m n below above = digits-zero m b ∙ sym (digits-zero n b)
  enough (suc a) b (suc m) (suc n) below above =
      let halved = enough (suc a / 2) (b / 2) m n (omega arith) (omega arith) in rw halved refl
  enough (suc a) b zero n below above = absurd (omega arith)
  enough (suc a) b (suc m) zero below above = absurd (omega arith)

  lowest :
      (a b : ℕ)
      → 1 ≤ a
      → bitwise rest digit a b ≡ bitwise rest digit (a / 2) (b / 2) * 2 + digit (a % 2) (b % 2)
  lowest zero b h = absurd (omega arith)
  lowest (suc a) b h =
      omega (arith, enough (suc a / 2) (b / 2) a (suc a / 2) (omega arith) (omega arith))

pub bit_or_step : (x y : ℕ) → bit_or x y ≡ bit_or (x / 2) (y / 2) * 2 + max (x % 2) (y % 2)
bit_or_step x y = elim (Bool-cases (x == 0)) [
  | inl e ↦ let z : x ≡ 0 = ground arith in rw z (simp bit_or-bitwise (omega arith))
  | inr e ↦ simp bit_or-bitwise (lowest (λ rest. rest) max x y (ground arith))
]

pub bit_and_step : (x y : ℕ) → bit_and x y ≡ bit_and (x / 2) (y / 2) * 2 + min (x % 2) (y % 2)
bit_and_step x y = elim (Bool-cases (x == 0)) [
  | inl e ↦ let z : x ≡ 0 = ground arith in rw z (simp bit_and-bitwise (omega arith))
  | inr e ↦ simp bit_and-bitwise (lowest (λ rest. 0) min x y (ground arith))
]

half_and : (a b : ℕ) → bit_and a b / 2 ≡ bit_and (a / 2) (b / 2)
half_and a b = omega (arith, bit_and_step a b)

half_or : (a b : ℕ) → bit_or a b / 2 ≡ bit_or (a / 2) (b / 2)
half_or a b = omega (arith, bit_or_step a b)

-- `&` takes the smaller digit, `|` the larger.
pub bit-bit_and : (a b j : ℕ) → bit (bit_and a b) j ≡ min (bit a j) (bit b j)
bit-bit_and a b zero = omega (arith, bit_and_step a b)
bit-bit_and a b (suc j) = rw (half_and a b) (bit-bit_and (a / 2) (b / 2) j)

pub bit-bit_or : (a b j : ℕ) → bit (bit_or a b) j ≡ max (bit a j) (bit b j)
bit-bit_or a b zero = omega (arith, bit_or_step a b)
bit-bit_or a b (suc j) = rw (half_or a b) (bit-bit_or (a / 2) (b / 2) j)

pub bit-zero : (j : ℕ) → bit 0 j ≡ 0
bit-zero zero = refl
bit-zero (suc j) = bit-zero j

half-two_pow : (k : ℕ) → 2 ^ suc k / 2 ≡ 2 ^ k
half-two_pow k = omega (arith, pow-suc 2 k)

-- A power of two has the one digit.
pub bit-two_pow_self : (k : ℕ) → bit (2 ^ k) k ≡ 1
bit-two_pow_self zero = refl
bit-two_pow_self (suc k) = rw (half-two_pow k) (bit-two_pow_self k)

pub bit-two_pow_ne : (k j : ℕ) → k ≢ j → bit (2 ^ k) j ≡ 0
bit-two_pow_ne zero zero h = absurd (h refl)
bit-two_pow_ne zero (suc j) h = bit-zero j
bit-two_pow_ne (suc k) zero h = omega (arith, pow-suc 2 k)
bit-two_pow_ne (suc k) (suc j) h = rw (half-two_pow k) (bit-two_pow_ne k j (λ e. h (ap suc e)))

pub bit-two_pow_eq : (k j : ℕ) → k ≡ j → bit (2 ^ k) j ≡ 1
bit-two_pow_eq k j e = rw e (bit-two_pow_self j)

pub two_pow-lt : {k n : ℕ} → k < n → 2 ^ k < 2 ^ n
two_pow-lt {k} {n} h = omega (
  arith,
  pow-suc 2 k,
  one-le-pow k 2,
  pow-le-pow_right {n = 2} (omega arith) {i = suc k} {j = n} h,
)

-- `~a` in a word of `w` bits is `2 ^ w - 1 - a`.
half-not : (w a : ℕ) → a < 2 ^ suc w → (2 ^ suc w - 1 - a) / 2 ≡ 2 ^ w - 1 - a / 2
half-not w a h = omega (arith, pow-suc 2 w)

pub bit-not : (w a j : ℕ) → a < 2 ^ w → j < w → bit (2 ^ w - 1 - a) j ≡ 1 - bit a j
bit-not zero a j h k = absurd (omega arith)
bit-not (suc w) a zero h k = omega (arith, pow-suc 2 w)
bit-not (suc w) a (suc j) h k =
    rw (half-not w a h) (bit-not w (a / 2) j (omega (arith, pow-suc 2 w)) (omega arith))

-- Digits past the width of a word are zero.
pub bit_past : (w a j : ℕ) → a < 2 ^ w → w ≤ j → bit a j ≡ 0
bit_past zero a j h k = let e : a ≡ 0 = omega arith in rw e (bit-zero j)
bit_past (suc w) a zero h k = absurd (omega arith)
bit_past (suc w) a (suc j) h k = bit_past w (a / 2) j (omega (arith, pow-suc 2 w)) (omega arith)

-- Words with the same digits are equal.
pub eq_of_bits : (w a b : ℕ) → a < 2 ^ w → b < 2 ^ w → ((j : ℕ) → j < w → bit a j ≡ bit b j) → a ≡ b
eq_of_bits zero a b h k e = omega arith
eq_of_bits (suc w) a b h k e = omega (
  arith,
  e 0 (omega arith),
  eq_of_bits w (a / 2) (b / 2) (omega (arith, pow-suc 2 w)) (omega (arith, pow-suc 2 w))
      (λ j l. e (suc j) (omega arith)),
)

pub bit_and-le : (w a b : ℕ) → a < 2 ^ w → bit_and a b ≤ a
bit_and-le zero a b h = let e : a ≡ 0 = omega arith in rw e (omega (arith, bit_and-bitwise 0 b))
bit_and-le (suc w) a b h =
    omega (arith, bit_and_step a b, bit_and-le w (a / 2) (b / 2) (omega (arith, pow-suc 2 w)))

pub bit_or-lt : (w a b : ℕ) → a < 2 ^ w → b < 2 ^ w → bit_or a b < 2 ^ w
bit_or-lt zero a b h k =
    let e : a ≡ 0 = omega arith in let d : b ≡ 0 = omega arith in rw (e, d) (omega arith)
bit_or-lt (suc w) a b h k = omega (
  arith,
  pow-suc 2 w,
  bit_or_step a b,
  bit_or-lt w (a / 2) (b / 2) (omega (arith, pow-suc 2 w)) (omega (arith, pow-suc 2 w)),
)
