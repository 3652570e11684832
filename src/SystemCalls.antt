-- ===== src/SystemCalls.antt =====
-- Include/SystemCalls/Native.h and Source/SystemCalls/Native.cpp: the check of an address that a
-- process passes, and the call by which it manages its pages. EAX and EBX are 32-bit values.
pub mod Validity
pub mod PageManagement
pub mod IdentityMapping
mod Tests
use x3c0_microkernel.Common.{
  ℕ, bit_and, bit_or, Bool, true, false, ◌&&◌, Option, none, some, leb, ◌==◌, ◌!=◌, if◌then◌else◌,
  ◌>>=◌,
}
use x3c0_microkernel.PageFlags
use x3c0_microkernel.Physical.{allocate_page, free_page}
use x3c0_microkernel.Virtual.{Virtual, retrieve_mapping, map_memory, erase_mapping}

-- `isAddressValid`: 0, or 1 where no page is present, or 2 where it is not the user's.
unfoldable pub is_address_valid : Virtual → ℕ → (check_user_mode : Bool) → ℕ
is_address_valid v address check_user_mode =
    let flags = (retrieve_mapping v address).1 in
    if bit_and flags PageFlags.present == 0
    then 1
    else if check_user_mode && bit_and flags PageFlags.user_accessible == 0
    then 2
    else 0

module _ (undef : ℕ → ℕ) where
  -- EBX = 1: a page of the zone for DMA, whose address is left in RBX.
  unfoldable pub allocate_physical : Virtual → (rbx : ℕ) → Virtual × ℕ × ℕ
  allocate_physical v rbx =
      let (a, p) = allocate_page undef v.allocator true in
      let w = record v { allocator = a } in if p == 0 then (w, rbx, 3) else (w, p, 0)

  -- EBX = 2: the page at EAX is freed and taken out of the address space.
  unfoldable pub free_mapping : Virtual → (eax rbx : ℕ) → Virtual × ℕ × ℕ
  free_mapping v eax rbx =
      let (p, flags) = retrieve_mapping v eax in
      let w = record v { allocator = (free_page undef v.allocator p).0 } in
      if bit_and flags PageFlags.present == 0
      then (v, rbx, 3)
      else (erase_mapping undef w eax, rbx, 0)

  -- Any other EBX: a page is allocated and mapped at EAX for the user.
  unfoldable pub map_page : Virtual → (eax rbx : ℕ) → Option (Virtual × ℕ × ℕ)
  map_page v eax rbx =
      let (a, p) = allocate_page undef v.allocator false in
      map_memory undef (record v { allocator = a }) p eax
        (bit_or (bit_or PageFlags.present PageFlags.read_write) PageFlags.user_accessible)
      >>= λ w. some (w, rbx, 0)

  -- `PerformPageManagement`: the memory, RBX and the code returned.
  unfoldable pub perform_page_management : Virtual → (eax ebx rbx : ℕ) → Option (Virtual × ℕ × ℕ)
  perform_page_management v eax ebx rbx =
      if is_address_valid v eax false != 1
      then some (v, rbx, 1)
      else if leb 0xd000000 ebx
      then some (v, rbx, 2)
      else if ebx == 1
      then some (allocate_physical v rbx)
      else if ebx == 2
      then some (free_mapping v eax rbx)
      else map_page v eax rbx
