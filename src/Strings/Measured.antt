-- ===== src/Strings/Measured.antt =====
-- Source/Common/Strings.cpp: length, comparison and copying of strings that end.
use x3c0_microkernel.Common.{
  ℕ, zero, suc, ◌+◌, ◌^◌, ◌<◌, ◌≤◌, ◌≡◌, ◌≢◌, ◌↔◌, ◌⊎◌, inl, inr, refl, sym, ap, subst, ◌∙◌, true,
  false, some, Bool-cases, ==_ne, ==_self, ==_iff, ltb, ◌==◌, if◌then◌else◌, update, update_self,
  update_ne, arith,
}
use x3c0_microkernel.Common.Words.{u32}
use x3c0_microkernel.Strings.{
  Order, less, same, greater, differing, compare, compare_within, length_from, length, copy_from,
  copy_within, copy,
}

-- A string of `n` bytes, none of them zero, that a zero follows.
pub record Ends (memory : ℕ → ℕ) (str n : ℕ) : Type 0 where
  pub zero_at : memory (str + n) ≡ 0
  pub bytes : (i : ℕ) → i < n → memory (str + i) ≢ 0

length_from-Ends :
    (left : ℕ) (fuel : ℕ) (memory : ℕ → ℕ) (str n i : ℕ)
    → Ends memory str n
    → i + left ≡ n
    → n < 2 ^ 32
    → left < fuel
    → length_from fuel memory str i ≡ some n
unfolding length_from
length_from-Ends left zero memory str n i ends at small f = absurd (omega arith)
length_from-Ends zero (suc fuel) memory str n i ends at small f =
    let e : i ≡ n = omega (arith, at) in
    let z : memory (str + i) ≡ 0 = ap (λ k. memory (str + k)) e ∙ ends.zero_at in rw z (ap some e)
length_from-Ends (suc left) (suc fuel) memory str n i ends at small f =
    let go : u32 (i + 1) ≡ i + 1 = omega (arith, at, small) in
    let more : (memory (str + i) == 0) ≡ false =
      ==_ne (memory (str + i)) 0 (ends.bytes i (omega (arith, at))) in
    rw (more, go)
      (length_from-Ends left fuel memory str n (i + 1) ends (omega (arith, at)) small
        (omega (arith, f)))

pub length-Ends :
    (fuel : ℕ) (memory : ℕ → ℕ) (str n : ℕ)
    → Ends memory str n
    → n < 2 ^ 32
    → n < fuel
    → length fuel memory str ≡ some n
unfolding length
length-Ends fuel memory str n ends small f =
    length_from-Ends n fuel memory str n 0 ends (omega arith) small f

-- What the loop of `Copy` does from byte `i` on.
record Copied (old : ℕ → ℕ) (dest src n i : ℕ) (new : ℕ → ℕ) : Type 0 where
  bytes : (k : ℕ) → i ≤ k → k < n → new (dest + k) ≡ old (src + k)
  zero_at : new (dest + n) ≡ 0
  rest : (a : ℕ) → (a < dest + i) ⊎ (dest + n < a) → new a ≡ old a

copy_from-Copied :
    (left : ℕ) (memory : ℕ → ℕ) (dest src n i : ℕ)
    → i + left ≡ n
    → (dest + n < src) ⊎ (src + n < dest)
    → Copied memory dest src n i (copy_from memory dest src left i)
unfolding copy_from
copy_from-Copied zero memory dest src n i at apart =
    let e : dest + n ≡ dest + i = omega (arith, at) in
    record {
      bytes = λ k le h. absurd (omega (arith, at, le, h));
      zero_at = rw e (update_self memory (dest + i) 0);
      rest = λ a h. update_ne memory (dest + i) a 0 (omega (arith, at, h));
    }
copy_from-Copied (suc left) memory dest src n i at apart =
    let m = update memory (dest + i) (memory (src + i)) in
    let c = copy_from-Copied left m dest src n (i + 1) (omega (arith, at)) apart in
    record {
      bytes = λ k le h. elim (Bool-cases (k == i)) [
        | inl y ↦
            let e : i ≡ k = ground (arith, y) in
            subst (λ j. copy_from m dest src left (i + 1) (dest + j) ≡ memory (src + j)) e
              (c.rest (dest + i) (inl (omega arith))
                ∙ update_self memory (dest + i) (memory (src + i)))
        | inr y ↦
            let ne : k ≢ i = ground (arith, y) in
            c.bytes k (omega (arith, le, ne)) h
            ∙ update_ne memory (dest + i) (src + k) (memory (src + i)) (omega (arith, apart, at, h))
      ];
      zero_at = c.zero_at;
      rest = λ a h.
          c.rest a (omega (arith, h))
          ∙ update_ne memory (dest + i) a (memory (src + i)) (omega (arith, h, at));
    }

-- `Copy(dest, src)` of a string of `n` bytes, shorter than 4 GiB, to memory of `n + 1` bytes that it
-- does not overlap with returns `dest`. The string there is the same, and other memory is left alone.
pub copy-Ends :
    (fuel : ℕ) (memory : ℕ → ℕ) (dest src n : ℕ)
    → Ends memory src n
    → n < 2 ^ 32
    → n < fuel
    → (dest + n < src) ⊎ (src + n < dest)
    → (new : ℕ → ℕ) × (copy fuel memory dest src ≡ some (new, dest))
      × Ends new dest n
      × ((i : ℕ) → i < n → new (dest + i) ≡ memory (src + i))
      × ((a : ℕ) → (a < dest) ⊎ (dest + n < a) → new a ≡ memory a)
unfolding copy copy_within
copy-Ends fuel memory dest src n ends small f apart =
    let c = copy_from-Copied n memory dest src n 0 (omega arith) apart in
    (
      copy_from memory dest src n 0,
      rw (length-Ends fuel memory src n ends small f) refl,
      record {
        zero_at = c.zero_at;
        bytes = λ i h e. ends.bytes i h (sym (c.bytes i (omega arith) h) ∙ e);
      },
      (λ i h. c.bytes i (omega arith) h),
      (λ a h. c.rest a (omega (arith, h))),
    )

next_byte : (memory : ℕ → ℕ) (str i : ℕ) → memory (str + 1 + i) ≡ memory (str + suc i)
next_byte memory str i = ap memory (omega arith)

first_byte : (memory : ℕ → ℕ) (str : ℕ) → memory (str + 0) ≡ memory str
first_byte memory str = ap memory (omega arith)

-- `Compare` with a length of at most that of two strings that agree so far does not return 0: the
-- byte behind the length decides, and when that is the same too the first string counts as greater.
pub compare_within-beyond :
    (length : ℕ) (memory : ℕ → ℕ) (str1 str2 : ℕ)
    → ((i : ℕ) → i < length → memory (str1 + i) ≡ memory (str2 + i))
    → ((i : ℕ) → i < length → memory (str1 + i) ≢ 0)
    → compare_within memory str1 str2 length
      ≡ (if ltb (memory (str1 + length)) (memory (str2 + length)) then less else greater)
unfolding compare_within
compare_within-beyond zero memory str1 str2 agree bytes =
    rw (first_byte memory str1, first_byte memory str2) refl
compare_within-beyond (suc n) memory str1 str2 agree bytes =
    let alike : memory str1 ≡ memory str2 =
      sym (first_byte memory str1) ∙ agree 0 (omega arith) ∙ first_byte memory str2 in
    let more : memory str2 ≢ 0 = λ z. bytes 0 (omega arith) (first_byte memory str1 ∙ alike ∙ z) in
    rw
      (
        alike,
        ==_self (memory str2),
        ==_ne (memory str2) 0 more,
        ← next_byte memory str1 n,
        ← next_byte memory str2 n,
      )
      (compare_within-beyond n memory (str1 + 1) (str2 + 1)
        (λ i h.
          next_byte memory str1 i
          ∙ agree (suc i) (omega (arith, h))
          ∙ sym (next_byte memory str2 i))
        (λ i h z. bytes (suc i) (omega (arith, h)) (sym (next_byte memory str1 i) ∙ z)))

differing-ne-same : (memory : ℕ → ℕ) (str1 str2 : ℕ) → differing memory str1 str2 ≢ same
differing-ne-same memory str1 str2 = ground arith

-- Two strings agree up to their ends.
abbrev Agrees : (memory : ℕ → ℕ) (str1 str2 n : ℕ) → Type 0
Agrees memory str1 str2 n = (i : ℕ) → i ≤ n → memory (str2 + i) ≡ memory (str1 + i)

differs :
    (memory : ℕ → ℕ) (str1 str2 n : ℕ)
    → (memory str1 == memory str2) ≡ false
    → (differing memory str1 str2 ≡ same) ↔ Agrees memory str1 str2 n
differs memory str1 str2 n other = (
  (λ e. absurd (differing-ne-same memory str1 str2 e)),
  (λ agrees.
      let alike : memory str2 ≡ memory str1 =
        sym (first_byte memory str2) ∙ agrees 0 (omega arith) ∙ first_byte memory str1 in
      absurd (ground (arith, other, alike))),
)

-- `Compare` of two strings returns 0 exactly when they are the same.
pub compare-same :
    (n : ℕ) (fuel : ℕ) (memory : ℕ → ℕ) (str1 str2 : ℕ)
    → Ends memory str1 n
    → n < fuel
    → (r : Order) × (compare fuel memory str1 str2 ≡ some r)
      × ((r ≡ same) ↔ ((i : ℕ) → i ≤ n → memory (str2 + i) ≡ memory (str1 + i)))
unfolding compare
compare-same n zero memory str1 str2 ends f = absurd (omega arith)
compare-same zero (suc fuel) memory str1 str2 ends f =
    let end : memory str1 ≡ 0 = sym (first_byte memory str1) ∙ ends.zero_at in
    elim (Bool-cases (memory str1 == memory str2)) [
      | inl alike ↦ (same, rw (alike, end) refl, ((λ _ i h. ended i h alike), (λ _. refl)))
      | inr other ↦ (differing memory str1 str2, rw other refl, differs memory str1 str2 zero other)
    ]
  where
    ended :
        (i : ℕ)
        → i ≤ 0
        → (memory str1 == memory str2) ≡ true
        → memory (str2 + i) ≡ memory (str1 + i)
    ended zero h alike =
        let e : memory str1 ≡ memory str2 = (==_iff _ _).0 alike in
        first_byte memory str2 ∙ sym e ∙ sym (first_byte memory str1)
    ended (suc i) h alike = absurd (omega (arith, h))
compare-same (suc n) (suc fuel) memory str1 str2 ends f =
    let more : memory str1 ≢ 0 = λ z. ends.bytes 0 (omega arith) (first_byte memory str1 ∙ z) in
    elim (Bool-cases (memory str1 == memory str2)) [
      | inl alike ↦
          let (r, e, iff) =
            compare-same n fuel memory (str1 + 1) (str2 + 1) rest (omega (arith, f)) in
          (
            r,
            rw (alike, ==_ne (memory str1) 0 more) e,
            (
              (λ q. longer ((==_iff _ _).0 alike) (iff.0 q)),
              (λ agrees. iff.1 (λ i h.
                  next_byte memory str2 i
                  ∙ agrees (suc i) (omega (arith, h))
                  ∙ sym (next_byte memory str1 i))),
            ),
          )
      | inr other ↦
          (differing memory str1 str2, rw other refl, differs memory str1 str2 (suc n) other)
    ]
  where
    rest : Ends memory (str1 + 1) n
    rest = record {
      zero_at = next_byte memory str1 n ∙ ends.zero_at;
      bytes = λ i h z. ends.bytes (suc i) (omega (arith, h)) (sym (next_byte memory str1 i) ∙ z);
    }

    longer :
        memory str1 ≡ memory str2
        → Agrees memory (str1 + 1) (str2 + 1) n
        → Agrees memory str1 str2 (suc n)
    longer e agrees zero h = first_byte memory str2 ∙ sym e ∙ sym (first_byte memory str1)
    longer e agrees (suc i) h =
        sym (next_byte memory str2 i) ∙ agrees i (omega (arith, h)) ∙ next_byte memory str1 i
