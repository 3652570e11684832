-- ===== src/SystemCalls/IdentityMapping/Unmapped.antt =====
-- `RequestIdentityMapping` of Source/SystemCalls/Native.cpp: what it does to the address space.
use x3c0_microkernel.Common.{
  ℕ, zero, suc, ◌+◌, ◌*◌, ◌^◌, ◌<◌, ◌≤◌, ◌≡◌, ◌⊎◌, inl, inr, refl, ◌∙◌, true, false, none, some,
  bit_and, ltb, ◌!=◌, if◌then◌else◌, Bool-cases, arith,
}
use x3c0_microkernel.Common.Words.{u32}
use x3c0_microkernel.PageFlags
use x3c0_microkernel.Virtual.{Virtual, retrieve_mapping}
use x3c0_microkernel.SystemCalls.IdentityMapping.{look, map_from, request_identity_mapping}

look-next :
    (fuel : ℕ) (v : Virtual) (i eax ebx : ℕ)
    → ltb i (u32 (eax + ebx)) ≡ true
    → (bit_and (retrieve_mapping v i).1 PageFlags.present != 0) ≡ false
    → look (suc fuel) v i eax ebx ≡ look fuel v i (u32 (eax + 4096)) ebx
unfolding look
look-next fuel v i eax ebx on absent = rw (on, absent) refl

look-done :
    (fuel : ℕ) (v : Virtual) (i eax ebx : ℕ)
    → ltb i (u32 (eax + ebx)) ≡ false
    → look (suc fuel) v i eax ebx ≡ some (some eax)
unfolding look
look-done fuel v i eax ebx off = rw off refl

look-present :
    (fuel : ℕ) (v : Virtual) (eax ebx : ℕ)
    → ltb eax (u32 (eax + ebx)) ≡ true
    → (bit_and (retrieve_mapping v eax).1 PageFlags.present != 0) ≡ true
    → look (suc fuel) v eax eax ebx ≡ some none
unfolding look
look-present fuel v eax ebx on there = rw (on, there) refl

map_from-done :
    (undef : ℕ → ℕ) (fuel : ℕ) (v : Virtual) (i eax ebx : ℕ)
    → ltb i (u32 (eax + ebx)) ≡ false
    → map_from undef (suc fuel) v i eax ebx ≡ some v
unfolding map_from
map_from-done undef fuel v i eax ebx off = rw off refl

-- On a page that is not present the first loop goes on until the end of the range has wrapped.
look-wrapped :
    (fuel : ℕ) (v : Virtual) (i eax ebx : ℕ)
    → (bit_and (retrieve_mapping v i).1 PageFlags.present != 0) ≡ false
    → 4096 ≤ i
    → eax < 2 ^ 32
    → (i < u32 (eax + ebx)) ⊎ (u32 (eax + ebx) < 4096)
    → (2 ^ 32 ≤ u32 (eax + ebx) + 4096 * fuel) ⊎ (u32 (eax + ebx) < 4096)
    → (last : ℕ) × (look (suc fuel) v i eax ebx ≡ some (some last))
      × (last < 2 ^ 32)
      × (u32 (last + ebx) < 4096)
look-wrapped zero v i eax ebx absent low small far enough =
    let off : ltb i (u32 (eax + ebx)) ≡ false = ground (arith, enough, low) in
    (eax, look-done zero v i eax ebx off, small, omega (arith, enough))
look-wrapped (suc fuel) v i eax ebx absent low small far enough =
    let step : u32 (u32 (eax + 4096) + ebx) ≡ u32 (u32 (eax + ebx) + 4096) = omega arith in
    elim (Bool-cases (ltb i (u32 (eax + ebx)))) [
      | inl on ↦
          let over : i < u32 (eax + ebx) = ground (arith, on) in
          let (last, e, bound, wrapped) =
            look-wrapped fuel v i (u32 (eax + 4096)) ebx absent low (omega arith)
              (omega (arith, step, over)) (omega (arith, step, over, enough, low)) in
          (last, look-next (suc fuel) v i eax ebx on absent ∙ e, bound, wrapped)
      | inr off ↦
          let under : u32 (eax + ebx) ≤ i = ground (arith, off) in
          (eax, look-done (suc fuel) v i eax ebx off, small, omega (arith, far, under))
    ]

-- Nothing is ever mapped: for a range of at least one page that starts at the second page or later
-- and ends below 4 GiB, the call returns 1 when the first page is present and 0 when it is not,
-- after at most 2 ^ 20 rounds, and the address space is as before.
pub request_identity_mapping-same :
    (undef : ℕ → ℕ) (fuel : ℕ) (v : Virtual) (eax ebx : ℕ)
    → 4096 ≤ eax
    → 4096 ≤ ebx
    → eax + ebx < 2 ^ 32
    → 2 ^ 20 < fuel
    → request_identity_mapping undef fuel v eax ebx
      ≡ some (v, if bit_and (retrieve_mapping v eax).1 PageFlags.present != 0 then 1 else 0)
unfolding request_identity_mapping
request_identity_mapping-same undef zero v eax ebx low wide small f = absurd (omega arith)
request_identity_mapping-same undef (suc fuel) v eax ebx low wide small f =
    elim (Bool-cases (bit_and (retrieve_mapping v eax).1 PageFlags.present != 0)) [
      | inl there ↦
          let on : ltb eax (u32 (eax + ebx)) ≡ true = ground (arith, wide, small) in
          rw (look-present fuel v eax ebx on there, there) refl
      | inr absent ↦
          let (last, e, bound, wrapped) =
            look-wrapped fuel v eax eax ebx absent low (omega (arith, small))
              (inl (omega (arith, small, wide))) (inl (omega (arith, small, f))) in
          let off : ltb last (u32 (last + ebx)) ≡ false =
            ground (arith, not_below last bound wrapped) in
          rw (e, absent, map_from-done undef fuel v last last ebx off) refl
    ]
  where
    not_below : (last : ℕ) → last < 2 ^ 32 → u32 (last + ebx) < 4096 → u32 (last + ebx) ≤ last
    not_below last bound wrapped = omega (arith, bound, wrapped, wide, small)
