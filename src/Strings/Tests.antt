-- ===== src/Strings/Tests.antt =====
-- The strings "ab" at 16 and "abc" at 32, and 12 bytes behind them.
use x3c0_microkernel.Common.{
  ℕ, zero, suc, ◌+◌, ◌<◌, ◌≤◌, ◌≡◌, ◌≢◌, ◌↔◌, ◌⊎◌, inr, refl, some, arith, ◌==◌, if◌then◌else◌,
}
use x3c0_microkernel.Strings.{Order, same, compare, copy}
use x3c0_microkernel.Strings.Measured.{Ends, copy-Ends, compare-same}

abbrev texts : ℕ → ℕ
texts a =
    if a == 16
    then 97
    else if a == 17
    then 98
    else if a == 32
    then 97
    else if a == 33
    then 98
    else if a == 34
    then 99
    else 0

two_bytes : (i : ℕ) → i < 2 → texts (16 + i) ≢ 0
two_bytes zero h = omega arith
two_bytes (suc zero) h = omega arith
two_bytes (suc (suc i)) h = absurd (omega arith)

texts-Ends : Ends texts 16 2
texts-Ends = record { zero_at = refl; bytes = two_bytes }

same_start : (i : ℕ) → i < 2 → texts (16 + i) ≡ texts (32 + i)
same_start zero h = refl
same_start (suc zero) h = refl
same_start (suc (suc i)) h = absurd (omega arith)

copy-Ends_example :
    (new : ℕ → ℕ) × (copy 3 texts 64 16 ≡ some (new, 64))
    × Ends new 64 2
    × ((i : ℕ) → i < 2 → new (64 + i) ≡ texts (16 + i))
    × ((a : ℕ) → (a < 64) ⊎ (66 < a) → new a ≡ texts a)
copy-Ends_example =
    copy-Ends 3 texts 64 16 2 texts-Ends (omega arith) (omega arith) (inr (omega arith))

compare-same_example :
    (r : Order) × (compare 3 texts 16 32 ≡ some r)
    × ((r ≡ same) ↔ ((i : ℕ) → i ≤ 2 → texts (32 + i) ≡ texts (16 + i)))
compare-same_example = compare-same 2 3 texts 16 32 texts-Ends (omega arith)
