-- ===== src/Random.antt =====
-- Include/Common/RandomGenerator.h and Source/Common/RandomGenerator.cpp: George Marsaglia's
-- multiply-with-carry generator. `scale range rnd` is the `double` product of the range and
-- `rnd / 0xFFFFFFFF`, cut to an `unsigned int`; the processor's floating point is a parameter.
use x3c0_microkernel.Common.{ℕ, ◌+◌, ◌*◌, ◌/◌, ◌%◌, ◌^◌, ◌<◌, ◌≡◌, bit_and, arith}
use x3c0_microkernel.Common.Words.{u32, sub_u32, bit_and_low}

pub record RandomGenerator : Type 0 where
  pub w : ℕ
  pub z : ℕ

-- `mwcRandom`: the next state and the number.
unfoldable pub mwc_random : RandomGenerator → RandomGenerator × ℕ
mwc_random g =
    let z = u32 (36969 * bit_and g.z 0xffff + g.z / 2 ^ 16) in
    let w = u32 (18000 * bit_and g.w 0xffff + g.w / 2 ^ 16) in
    (record { w = w; z = z }, u32 (z * 2 ^ 16 + bit_and w 0xffff))

unfoldable pub next : (ℕ → ℕ → ℕ) → RandomGenerator → (min max : ℕ) → RandomGenerator × ℕ
next scale g min max = let (h, rnd) = mwc_random g in (h, u32 (scale (sub_u32 max min) rnd + min))

-- Both words of the state are in use: neither is 0, at which it would stay.
pub record IsAlive (g : RandomGenerator) : Type 0 where
  pub w_positive : 0 < g.w
  pub w_small : g.w < 2 ^ 32
  pub z_positive : 0 < g.z
  pub z_small : g.z < 2 ^ 32

-- From a state of two 32-bit words that are not 0, the generator reaches another one without
-- overflow, so that each word follows its multiply-with-carry recurrence, and returns the lower
-- halves of the two.
pub mwc_random-IsAlive :
    (g : RandomGenerator)
    → IsAlive g
    → let (h, rnd) = mwc_random g in
      IsAlive h
      × (h.z ≡ 36969 * (g.z % 2 ^ 16) + g.z / 2 ^ 16)
      × (h.w ≡ 18000 * (g.w % 2 ^ 16) + g.w / 2 ^ 16)
      × (rnd ≡ h.z % 2 ^ 16 * 2 ^ 16 + h.w % 2 ^ 16)
unfolding mwc_random
mwc_random-IsAlive g a =
    let zs : 36969 * bit_and g.z 0xffff + g.z / 2 ^ 16 ≡ 36969 * (g.z % 2 ^ 16) + g.z / 2 ^ 16 =
      omega (arith, bit_and_low 16 g.z) in
    let ws : 18000 * bit_and g.w 0xffff + g.w / 2 ^ 16 ≡ 18000 * (g.w % 2 ^ 16) + g.w / 2 ^ 16 =
      omega (arith, bit_and_low 16 g.w) in
    (
      record {
        w_positive = omega (arith, ws, a.w_positive, a.w_small);
        w_small = omega arith;
        z_positive = omega (arith, zs, a.z_positive, a.z_small);
        z_small = omega arith;
      },
      omega (arith, zs, a.z_small),
      omega (arith, ws, a.w_small),
      omega (arith, zs, ws, bit_and_low 16 (u32 (18000 * bit_and g.w 0xffff + g.w / 2 ^ 16))),
    )
