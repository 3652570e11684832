-- ===== src/Common/Words.antt =====
-- CommonSourceCode/Typedefs.h: `uint32` and `uint64` are numbers below `2 ^ 32` and `2 ^ 64`, and
-- arithmetic on them wraps. `&` and `|` with the masks of the kernel are given as arithmetic.
use mathlib.Core.Path.{ap}
use native.Mathlib.Nat.{
  mod-eq_of_lt, pow-suc, one-le-pow, div-div-eq-div-mul, mod-eq-sub-mul-div, mul-div-le,
}
use x3c0_microkernel.Common.{
  ℕ, zero, suc, ◌+◌, ◌-◌, ◌*◌, ◌/◌, ◌%◌, ◌^◌, ◌≤◌, ◌<◌, bit_and, bit_or, ◌≡◌, refl, sym, ◌∙◌, arith,
  ◌==◌, ◌!=◌,
}
use x3c0_microkernel.Common.Digits.{bit, bit-le_one, bit_and_step, bit_or_step}

abbrev pub u16 : ℕ → ℕ
u16 n = n % 2 ^ 16

abbrev pub u32 : ℕ → ℕ
u32 n = n % 2 ^ 32

abbrev pub u64 : ℕ → ℕ
u64 n = n % 2 ^ 64

-- `a - b` on 32 bits.
abbrev pub sub_u32 : ℕ → ℕ → ℕ
sub_u32 a b = (a % 2 ^ 32 + 2 ^ 32 - b % 2 ^ 32) % 2 ^ 32

abbrev pub sub_u64 : ℕ → ℕ → ℕ
sub_u64 a b = (a % 2 ^ 64 + 2 ^ 64 - b % 2 ^ 64) % 2 ^ 64

-- `~a` on 32 and 64 bits.
abbrev pub not_u32 : ℕ → ℕ
not_u32 a = 2 ^ 32 - 1 - a

abbrev pub not_u64 : ℕ → ℕ
not_u64 a = 2 ^ 64 - 1 - a

-- A second number without digits.
zero_right : (limit a : ℕ) → a ≤ limit → (bit_and a 0 ≡ 0) × (bit_or a 0 ≡ a)
zero_right limit zero h = (refl, refl)
zero_right zero (suc a) h = absurd (omega arith)
zero_right (suc limit) (suc a) h =
    let (both, either) = zero_right limit (suc a / 2) (omega arith) in
    (omega (arith, both, bit_and_step (suc a) 0), omega (arith, either, bit_or_step (suc a) 0))

pub bit_and-zero : (a : ℕ) → bit_and a 0 ≡ 0
bit_and-zero a = (zero_right a a (omega arith)).0

bit_or-zero : (a : ℕ) → bit_or a 0 ≡ a
bit_or-zero a = (zero_right a a (omega arith)).1

double : (m k : ℕ) → m * 2 ^ suc k ≡ m * 2 ^ k * 2
double m k = omega (arith, ap (λ (t : ℕ). m * t) (pow-suc 2 k))

halves : (k a : ℕ) → a / 2 ^ suc k ≡ a / 2 / 2 ^ k
halves k a = ap (λ t. a / t) (omega (arith, pow-suc 2 k)) ∙ sym (div-div-eq-div-mul a 2 (2 ^ k))

low_part : (k a : ℕ) → a % 2 ^ suc k ≡ a / 2 % 2 ^ k * 2 + a % 2
low_part k a = ground (
  arith,
  mod-eq-sub-mul-div a (2 ^ suc k),
  mod-eq-sub-mul-div (a / 2) (2 ^ k),
  mul-div-le (a / 2) (2 ^ k),
  halves k a,
  ap (λ (t : ℕ). t * (a / 2 / 2 ^ k)) (pow-suc 2 k),
)

-- The test of one bit.
pub bit_and-two_pow : (a k : ℕ) → bit_and a (2 ^ k) ≡ bit a k * 2 ^ k
bit_and-two_pow a zero = omega (arith, bit_and_step a 1, bit_and-zero (a / 2))
bit_and-two_pow a (suc k) = omega (
  arith,
  bit_and_step a (2 ^ suc k),
  double (bit (a / 2) k) k,
  pow-suc 2 k,
  half,
  bit_and-two_pow (a / 2) k,
)
  where
    half : bit_and (a / 2) (2 ^ suc k / 2) ≡ bit_and (a / 2) (2 ^ k)
    half = ap (λ t. bit_and (a / 2) t) (omega (arith, pow-suc 2 k))

pub test_two_pow : (a k : ℕ) → (bit_and a (2 ^ k) != 0) ≡ (bit a k == 1)
test_two_pow a k =
    ground (arith, bit_and-two_pow a k, bit-le_one a k, one-le-pow k 2, nonzero (bit a k) (2 ^ k))
  where
    nonzero : (x y : ℕ) → 1 ≤ y → (x * y ≡ 0 → x ≡ 0) × (x ≡ 0 → x * y ≡ 0)
    nonzero zero y h = (λ e. refl, λ e. omega arith)
    nonzero (suc x) y h = (λ e. absurd (grind arith), λ e. absurd (omega arith))

-- A mask whose low `k` bits are clear.
pub bit_and_high : (k a m : ℕ) → bit_and a (m * 2 ^ k) ≡ bit_and (a / 2 ^ k) m * 2 ^ k
bit_and_high zero a m = ground arith
bit_and_high (suc k) a m = ground (
  arith,
  bit_and_step a (m * 2 ^ suc k),
  double m k,
  halves k a,
  double (bit_and (a / 2 / 2 ^ k) m) k,
  bit_and_high k (a / 2) m,
)

-- A mask of `k` ones.
pub bit_and_low : (k a : ℕ) → bit_and a (2 ^ k - 1) ≡ a % 2 ^ k
bit_and_low zero a = omega (arith, bit_and-zero a)
bit_and_low (suc k) a = ground (
  arith,
  bit_and_step a (2 ^ suc k - 1),
  pow-suc 2 k,
  one-le-pow k 2,
  low_part k a,
  bit_and_low k (a / 2),
)

-- `|` of two numbers that share no digit is their sum.
pub bit_or_fields : (k q r : ℕ) → r < 2 ^ k → bit_or (q * 2 ^ k) r ≡ q * 2 ^ k + r
bit_or_fields zero q r h = ground (arith, bit_or-zero q)
bit_or_fields (suc k) q r h = ground (
  arith,
  bit_or_step (q * 2 ^ suc k) r,
  double q k,
  bit_or_fields k q (r / 2) (omega (arith, pow-suc 2 k)),
)

-- `a | b` with digits `k` and above of `a` clear: the bits of `b` below `k` as well as its others.
pub bit_and-eq_of_low : (k a : ℕ) → a < 2 ^ k → bit_and a (2 ^ k - 1) ≡ a
bit_and-eq_of_low k a h = bit_and_low k a ∙ mod-eq_of_lt h

-- `PageMask`, an `unsigned int`, clears the offset and, on 64 bits, the upper half.
abbrev pub page_mask : ℕ
page_mask = 0xfffff000

pub bit_and-page_mask : (a : ℕ) → bit_and a page_mask ≡ a / 4096 % 2 ^ 20 * 4096
bit_and-page_mask a =
    bit_and_high 12 a (2 ^ 20 - 1) ∙ ap (λ (t : ℕ). t * 4096) (bit_and_low 20 (a / 4096))

pub bit_and-offset : (a : ℕ) → bit_and a 0xfff ≡ a % 4096
bit_and-offset a = bit_and_low 12 a

-- A page address and flags or an offset below the page size.
pub bit_or-page : (q r : ℕ) → r < 4096 → bit_or (q * 4096) r ≡ q * 4096 + r
bit_or-page q r h = bit_or_fields 12 q r h
