-- ===== src/Bitmap/Series.antt =====
-- Source/Bitmap.cpp: a bitmap under a series of `SetBit` and `ClearBit`, seen as a set of numbers.
use x3c0_microkernel.Common.{
  ℕ, zero, suc, ◌+◌, ◌/◌, ◌%◌, ◌^◌, ◌<◌, ◌≡◌, refl, ap, ◌∙◌, Bool, true, false, Option, some, inl,
  inr, List, [], ◌∷◌, get_elem?, ◌==◌, update, ◌>>=◌, Bool-cases, arith,
}
use x3c0_microkernel.Common.Flags.{flag}
use x3c0_microkernel.Bitmap.{Bitmap, uncleared, word_count, create, test_bit, set_bit, clear_bit}
use x3c0_microkernel.Bitmap.Laws.{IsValid, create-IsValid, Writes, set_bit-Writes, clear_bit-Writes}

-- `SetBit(b)` for `(b, true)` and `ClearBit(b)` for `(b, false)`.
abbrev pub write : Bitmap → (b : ℕ) → Bool → Option Bitmap
write m b true = set_bit m b
write m b false = clear_bit m b

unfoldable pub write_all : Bitmap → List (ℕ × Bool) → Option Bitmap
write_all m [] = some m
write_all m ((b, s) ∷ bits) = write m b s >>= λ t. write_all t bits

-- The set that the bitmap stands for, as its characteristic function.
abbrev pub written_set : (ℕ → Bool) → List (ℕ × Bool) → ℕ → Bool
written_set f [] = f
written_set f ((b, s) ∷ bits) = written_set (update f b s) bits

abbrev pub AllWithin : ℕ → List (ℕ × Bool) → Type 0
AllWithin n [] = Unit {0}
AllWithin n ((b, s) ∷ bits) = (b < n) × AllWithin n bits

-- `TestBit` below the count answers as the set does.
pub record Represents (m : Bitmap) (n : ℕ) (f : ℕ → Bool) : Type 0 where
  pub valid : IsValid m
  pub count : m.elements ≡ n
  pub reads : (j : ℕ) → j < n → test_bit m j ≡ some (f j)

write-Writes :
    (m : Bitmap) (b : ℕ) (s : Bool)
    → IsValid m
    → b < m.elements
    → (t : Bitmap) × (write m b s ≡ some t) × Writes m b s t
write-Writes m b true v h = set_bit-Writes m b v h
write-Writes m b false v h = clear_bit-Writes m b v h

write_all-Represents :
    (m : Bitmap) (n : ℕ) (f : ℕ → Bool) (bits : List (ℕ × Bool))
    → Represents m n f
    → AllWithin n bits
    → (t : Bitmap) × (write_all m bits ≡ some t) × Represents t n (written_set f bits)
unfolding write_all
write_all-Represents m n f [] r w = (m, refl, r)
write_all-Represents m n f ((b, s) ∷ bits) r w =
    let (t, e, u) = write-Writes m b s r.valid (omega (arith, r.count, w.0)) in
    let (last, d, q) = write_all-Represents t n (update f b s) bits (next t u) w.1 in
    (last, rw e d, q)
  where
    next : (t : Bitmap) → Writes m b s t → Represents t n (update f b s)
    next t u = record {
      valid = u.valid;
      count = u.count ∙ r.count;
      reads = λ j h. u.reads j ∙ elim (Bool-cases (b == j)) [
        | inl here ↦ rw here refl
        | inr other ↦ rw other (r.reads j h)
      ];
    }

get_elem?-uncleared :
    (raw : ℕ → ℕ) (k n i : ℕ)
    → i < n
    → get_elem? (uncleared raw k n) i ≡ some (raw (k + i) % 2 ^ 32)
get_elem?-uncleared raw k zero i h = absurd (omega arith)
get_elem?-uncleared raw k (suc n) zero h = ap (λ j. some (raw j % 2 ^ 32)) (omega arith)
get_elem?-uncleared raw k (suc n) (suc i) h =
    get_elem?-uncleared raw (k + 1) n i (omega arith)
    ∙ ap (λ j. some (raw j % 2 ^ 32)) (omega arith)

-- What the memory held before it was the bitmap's.
abbrev pub found_set : (ℕ → ℕ) → ℕ → Bool
found_set raw j = flag (raw (j / 32) % 2 ^ 32) (j % 32)

-- A new bitmap of `count` bits stands for a set of the numbers below `count`, at first for what its
-- memory held: after any series of `SetBit` and `ClearBit` with such numbers no access was outside
-- of the array, and `TestBit` tells for each such number whether it is in the set.
pub write_all-create :
    (raw : ℕ → ℕ) (count : ℕ) (bits : List (ℕ × Bool))
    → AllWithin count bits
    → (t : Bitmap) × (write_all (create raw count) bits ≡ some t)
      × Represents t count (written_set (found_set raw) bits)
unfolding create test_bit
write_all-create raw count bits within =
    write_all-Represents (create raw count) count (found_set raw) bits
      (record {
        valid = (create-IsValid raw count).0;
        count = refl;
        reads = λ j h.
            rw (get_elem?-uncleared raw 0 (word_count count) (j / 32) (ground (arith, h)))
              (ap (λ k. some (flag (raw k % 2 ^ 32) (j % 32))) (omega arith));
      })
      within
