-- ===== src/SystemCalls/Validity.antt =====
-- `isAddressValid` of Source/SystemCalls/Native.cpp against the mappings of
-- Source/Multitasking/Paging.cpp.
use x3c0_microkernel.Common.{
  ℕ, ◌/◌, ◌%◌, ◌^◌, ◌≡◌, ◌≢◌, refl, sym, subst, ap, ◌∙◌, Bool, true, false, not, ◌&&◌, some, arith,
  bit_or, ◌==◌, if◌then◌else◌, inl, inr,
}
use x3c0_microkernel.Common.Flags.{flag, flag-set}
use x3c0_microkernel.Common.Words.{test_two_pow}
use x3c0_microkernel.Virtual.{Virtual, retrieve_mapping, map_memory, erase_mapping}
use x3c0_microkernel.Virtual.Entries.{Plain}
use x3c0_microkernel.Virtual.Mapping.{Mapped, map_memory-Mapped}
use x3c0_microkernel.Virtual.Erasing.{Erased, erase_mapping-Erased}
use x3c0_microkernel.SystemCalls.{is_address_valid}

-- The code for given flags.
abbrev code_of : (flags : ℕ) → Bool → ℕ
code_of flags user = if flag flags 0 then (if user && not (flag flags 2) then 2 else 0) else 1

is_address_valid-code :
    (v : Virtual) (a : ℕ) (user : Bool)
    → is_address_valid v a user ≡ code_of (retrieve_mapping v a).1 user
unfolding is_address_valid
is_address_valid-code v a user = ground arith

-- The flags of an entry that `MapMemory` wrote.
entry_present : (f : ℕ) → flag (bit_or (f % 4096) 1) 0 ≡ true
entry_present f = flag-set (f % 4096) 0 0

entry_user : (f : ℕ) → flag (bit_or (f % 4096) 1) 2 ≡ (f / 4 % 2 == 1)
entry_user f = flag-set (f % 4096) 0 2 ∙ test_two_pow (f % 4096) 2 ∙ ground arith

Mapped-of_some :
    (undef : ℕ → ℕ) (v t : Virtual) (src dest flags : ℕ)
    → Plain dest
    → map_memory undef v src dest flags ≡ some t
    → Mapped v src dest flags t
Mapped-of_some undef v t src dest flags p e = elim (map_memory-Mapped undef v src dest flags p) [
  | inl (halts, _, _) ↦ absurd (cc (halts, e))
  | inr (u, d, _, m) ↦ let q : u ≡ t = cc (d, e) in subst (Mapped v src dest flags) q m
]

-- A 32-bit address outside of the place where the two windows overlap that `MapMemory` has mapped
-- is valid for the kernel, and valid for a process exactly if the flags passed say that it is the
-- user's.
pub is_address_valid-map_memory :
    (undef : ℕ → ℕ) (v t : Virtual) (src dest flags : ℕ)
    → Plain dest
    → map_memory undef v src dest flags ≡ some t
    → (is_address_valid t dest false ≡ 0)
      × (is_address_valid t dest true ≡ (if flags / 4 % 2 == 1 then 0 else 2))
is_address_valid-map_memory undef v t src dest flags p e =
    let m = Mapped-of_some undef v t src dest flags p e in
    rw
      (
        is_address_valid-code t dest false,
        is_address_valid-code t dest true,
        m.target,
        entry_present flags,
        entry_user flags,
      )
      (refl, ground arith)

-- After `EraseMapping` of a 32-bit address outside of the place where the two windows overlap, the
-- address is not valid, for the kernel or a process, and every other such page is as valid as
-- before.
pub is_address_valid-erase_mapping :
    (undef : ℕ → ℕ) (v : Virtual) (mem : ℕ)
    → Plain mem
    → let t = erase_mapping undef v mem in
      ((user : Bool) → is_address_valid t mem user ≡ 1)
      × ((other : ℕ) (user : Bool)
          → Plain other
          → other / 2 ^ 12 ≢ mem / 2 ^ 12
          → is_address_valid t other user ≡ is_address_valid v other user)
is_address_valid-erase_mapping undef v mem p =
    let t = erase_mapping undef v mem in
    let e : Erased v mem t = erase_mapping-Erased undef v mem p in
    (
      λ user. is_address_valid-code t mem user ∙ ap (λ r. code_of r.1 user) e.gone,
      λ other user q n.
          is_address_valid-code t other user
          ∙ ap (λ r. code_of r.1 user) (e.elsewhere other q n)
          ∙ sym (is_address_valid-code v other user),
    )
