-- ===== src/SystemCalls/PageManagement.antt =====
-- `PerformPageManagement` of Source/SystemCalls/Native.cpp.
use x3c0_microkernel.Common.{
  ℕ, ◌<◌, ◌≡◌, ◌≢◌, ◌⊎◌, inl, inr, refl, true, false, none, some, arith, bit_and, leb, ==_ne, ◌==◌,
  if◌then◌else◌, Bool-cases, Option-cases,
}
use x3c0_microkernel.PageFlags
use x3c0_microkernel.Physical.{allocate_page}
use x3c0_microkernel.Virtual.{Virtual, retrieve_mapping, map_memory}
use x3c0_microkernel.Virtual.Entries.{Plain}
use x3c0_microkernel.SystemCalls.{is_address_valid, free_mapping, map_page, perform_page_management}
use x3c0_microkernel.SystemCalls.Validity.{is_address_valid-map_memory}

-- A page can never be given back: whatever the address, the call with EBX = 2 changes nothing and
-- returns an error, 3 where no page is present and 1 where one is.
pub perform_page_management_free :
    (undef : ℕ → ℕ) (v : Virtual) (eax rbx : ℕ)
    → perform_page_management undef v eax 2 rbx
      ≡ some (v, rbx, if is_address_valid v eax false == 1 then 3 else 1)
unfolding perform_page_management free_mapping is_address_valid
perform_page_management_free undef v eax rbx =
    elim (Bool-cases (bit_and (retrieve_mapping v eax).1 PageFlags.present == 0)) [
      | inl absent ↦ rw absent refl
      | inr there ↦ rw there refl
    ]

-- Where no page is present, at a 32-bit address outside of the place where the two windows
-- overlap, the call with an EBX below 0xD000000 other than 1 and 2 halts or succeeds, and then a
-- process may use the address; the address itself is not looked at, so it may be the kernel's.
pub perform_page_management_map :
    (undef : ℕ → ℕ) (v : Virtual) (eax ebx rbx : ℕ)
    → Plain eax
    → is_address_valid v eax false ≡ 1
    → ebx < 0xd000000
    → ebx ≢ 1
    → ebx ≢ 2
    → (perform_page_management undef v eax ebx rbx ≡ none)
      ⊎ ((w : Virtual) × (perform_page_management undef v eax ebx rbx ≡ some (w, rbx, 0))
          × (is_address_valid w eax true ≡ 0))
unfolding perform_page_management map_page
perform_page_management_map undef v eax ebx rbx p absent small one two =
    let (a, pg) = allocate_page undef v.allocator false in
    let w = record v { allocator = a } in
    let in_range : leb 0xd000000 ebx ≡ false = ground arith in
    rw (absent, in_range, ==_ne ebx 1 one, ==_ne ebx 2 two)
      (elim (Option-cases (map_memory undef w pg eax 7)) [
        | inl halts ↦ inl (rw halts refl)
        | inr (t, e) ↦ inr (t, rw e refl, (is_address_valid-map_memory undef w t pg eax 7 p e).1)
      ])
