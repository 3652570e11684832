-- ===== src/Bitmap/Laws.antt =====
-- Source/Bitmap.cpp: one bit is written, within the array, and the others keep their values.
use x3c0_microkernel.Common.{
  ℕ, zero, suc, ◌+◌, ◌*◌, ◌/◌, ◌%◌, ◌^◌, ◌≤◌, ◌<◌, bit_and, bit_or, ◌≡◌, ◌≢◌, refl, Bool, true,
  false, some, List, [], ◌∷◌, length, get_elem?, set, inl, inr, arith, ◌==◌, if◌then◌else◌,
  Bool-cases, length-set, get_elem?_lt, get_elem?-lt, get_elem?-set_self, get_elem?-set_ne,
}
use x3c0_microkernel.Common.Digits.{bit_and-le, bit_or-lt, two_pow-lt}
use x3c0_microkernel.Common.Flags.{flag, flag-set, flag-clear}
use x3c0_microkernel.Common.Words.{not_u32}
use x3c0_microkernel.Bitmap.{Bitmap, uncleared, word_count, create, test_bit, set_bit, clear_bit}

-- The words are 32-bit values.
abbrev pub Fits : List ℕ → Type 0
Fits [] = Unit {0}
Fits (w ∷ ws) = (w < 2 ^ 32) × Fits ws

-- Every bit below the count lies in the array.
pub record IsValid (m : Bitmap) : Type 0 where
  pub room : m.elements ≤ 32 * length m.words
  pub fits : Fits m.words

Fits-get_elem? : (ws : List ℕ) (i : ℕ) {w : ℕ} → Fits ws → get_elem? ws i ≡ some w → w < 2 ^ 32
Fits-get_elem? [] i f e = absurd (cc)
Fits-get_elem? (x ∷ ws) zero f e = ground (arith, f.0)
Fits-get_elem? (x ∷ ws) (suc i) f e = Fits-get_elem? ws i f.1 e

Fits-set : (ws : List ℕ) (i v : ℕ) → v < 2 ^ 32 → Fits ws → Fits (set ws i v)
Fits-set [] i v h f = tt
Fits-set (x ∷ ws) zero v h f = (h, f.1)
Fits-set (x ∷ ws) (suc i) v h f = (f.0, Fits-set ws i v h f.1)

Fits-uncleared : (raw : ℕ → ℕ) (i n : ℕ) → Fits (uncleared raw i n)
Fits-uncleared raw i zero = tt
Fits-uncleared raw i (suc n) = (omega arith, Fits-uncleared raw (i + 1) n)

length-uncleared : (raw : ℕ → ℕ) (i n : ℕ) → length (uncleared raw i n) ≡ n
length-uncleared raw i zero = refl
length-uncleared raw i (suc n) = omega (arith, length-uncleared raw (i + 1) n)

-- The constructor allocates enough words for every count, with no word to spare.
pub create-IsValid :
    (raw : ℕ → ℕ) (count : ℕ)
    → IsValid (create raw count) × (32 * length (create raw count).words < count + 32)
unfolding create
create-IsValid raw count = (
  record {
    room = ground (arith, length-uncleared raw 0 (word_count count));
    fits = Fits-uncleared raw 0 (word_count count);
  },
  ground (arith, length-uncleared raw 0 (word_count count)),
)

-- What writing word `b / 32` does to the test of bit `j`.
test_word :
    (ws : List ℕ) (b j v n : ℕ) (s : Bool) {w : ℕ}
    → get_elem? ws (b / 32) ≡ some w
    → ((i : ℕ) → i < 32 → flag v i ≡ (if b % 32 == i then s else flag w i))
    → test_bit (record { words = set ws (b / 32) v; elements = n }) j
      ≡ (if b == j then some s else test_bit (record { words = ws; elements = n }) j)
unfolding test_bit
test_word ws b j v n s {w} e new = elim (Bool-cases (b / 32 == j / 32)) [
  | inl same ↦
      let q : j / 32 ≡ b / 32 = ground arith in
      rw (q, get_elem?-set_self ws (b / 32) v (get_elem?-lt ws (b / 32) e), e)
        (ground (arith, new (j % 32) (omega arith)))
  | inr other ↦
      let q : b / 32 ≢ j / 32 = ground arith in
      rw (get_elem?-set_ne ws (b / 32) (j / 32) v q) (ground arith)
]

-- `t` is `m` with bit `b` set to `s` and every other bit, and the count, as they were.
pub record Writes (m : Bitmap) (b : ℕ) (s : Bool) (t : Bitmap) : Type 0 where
  pub valid : IsValid t
  pub count : t.elements ≡ m.elements
  pub reads : (j : ℕ) → test_bit t j ≡ (if b == j then some s else test_bit m j)

word_at :
    (m : Bitmap) (b : ℕ)
    → IsValid m
    → b < m.elements
    → (w : ℕ) × (get_elem? m.words (b / 32) ≡ some w) × (w < 2 ^ 32)
word_at m b v h =
    let (w, e) = get_elem?_lt m.words (b / 32) (omega (arith, v.room)) in
    (w, e, Fits-get_elem? m.words (b / 32) v.fits e)

written :
    (m : Bitmap) (b u : ℕ) (s : Bool) {w : ℕ}
    → IsValid m
    → get_elem? m.words (b / 32) ≡ some w
    → u < 2 ^ 32
    → ((i : ℕ) → i < 32 → flag u i ≡ (if b % 32 == i then s else flag w i))
    → Writes m b s (record m { words = set m.words (b / 32) u })
written m b u s v e small new = record {
  valid = record {
    room = omega (arith, v.room, length-set m.words (b / 32) u);
    fits = Fits-set m.words (b / 32) u small v.fits;
  };
  count = refl;
  reads = λ j. test_word m.words b j u m.elements s e new;
}

-- On a valid bitmap, `SetBit` on a bit below the count succeeds, sets that bit and no other, and
-- keeps the bitmap valid.
pub set_bit-Writes :
    (m : Bitmap) (b : ℕ)
    → IsValid m
    → b < m.elements
    → (t : Bitmap) × (set_bit m b ≡ some t) × Writes m b true t
unfolding set_bit
set_bit-Writes m b v h =
    let (w, e, small) = word_at m b v h in
    (
      record m { words = set m.words (b / 32) (bit_or w (2 ^ (b % 32))) },
      rw e,
      written m b (bit_or w (2 ^ (b % 32))) true v e
          (bit_or-lt 32 w (2 ^ (b % 32)) small (two_pow-lt {k = b % 32} {n = 32} (omega arith)))
          (λ i _. flag-set w (b % 32) i),
    )

-- On a valid bitmap, `ClearBit` on a bit below the count succeeds, clears that bit and no other,
-- and keeps the bitmap valid.
pub clear_bit-Writes :
    (m : Bitmap) (b : ℕ)
    → IsValid m
    → b < m.elements
    → (t : Bitmap) × (clear_bit m b ≡ some t) × Writes m b false t
unfolding clear_bit
clear_bit-Writes m b v h =
    let (w, e, small) = word_at m b v h in
    let u = bit_and w (not_u32 (2 ^ (b % 32))) in
    (
      record m { words = set m.words (b / 32) u },
      rw e,
      written m b u false v e (omega (arith, bit_and-le 32 w (not_u32 (2 ^ (b % 32))) small))
          (λ i hi. flag-clear 32 w (b % 32) i (omega arith) hi),
    )

-- `TestBit` answers on every bit below the count.
pub test_bit_total :
    (m : Bitmap) (b : ℕ) → IsValid m → b < m.elements → (s : Bool) × (test_bit m b ≡ some s)
unfolding test_bit
test_bit_total m b v h = let (w, e, _) = word_at m b v h in (flag w (b % 32), rw e)
