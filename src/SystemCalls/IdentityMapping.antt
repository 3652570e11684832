-- ===== src/SystemCalls/IdentityMapping.antt =====
-- `RequestIdentityMapping` of Source/SystemCalls/Native.cpp. EAX and EBX are 32-bit values, and it is
-- EAX that both loops move, not the address `i` that they test.
pub mod Unmapped
mod Tests
use x3c0_microkernel.Common.{
  ℕ, zero, suc, ◌+◌, bit_and, Bool, Option, none, some, ltb, ◌!=◌, if◌then◌else◌, ◌>>=◌,
}
use x3c0_microkernel.Common.Words.{u32}
use x3c0_microkernel.PageFlags
use x3c0_microkernel.Virtual.{Virtual, retrieve_mapping, identity_map}

-- The first loop: EAX at its end, or `some none` when the page at `i` is present.
unfoldable pub look : (fuel : ℕ) → Virtual → (i eax ebx : ℕ) → Option (Option ℕ)
look zero v i eax ebx = none
look (suc fuel) v i eax ebx =
    let rest = look fuel v i (u32 (eax + 4096)) ebx in
    if ltb i (u32 (eax + ebx))
    then (if bit_and (retrieve_mapping v i).1 PageFlags.present != 0 then some none else rest)
    else some (some eax)

module _ (undef : ℕ → ℕ) where
  -- The second loop.
  unfoldable pub map_from : (fuel : ℕ) → Virtual → (i eax ebx : ℕ) → Option Virtual
  map_from zero v i eax ebx = none
  map_from (suc fuel) v i eax ebx =
      if ltb i (u32 (eax + ebx))
      then (identity_map undef v eax PageFlags.user_accessible >>= λ w.
          map_from fuel w i (u32 (eax + 4096)) ebx)
      else some v

  -- What follows the first loop.
  abbrev pub map_behind : (fuel : ℕ) → Virtual → Option ℕ → (ebx : ℕ) → Option (Virtual × ℕ)
  map_behind fuel v none ebx = some (v, 1)
  map_behind fuel v (some eax) ebx = map_from fuel v eax eax ebx >>= λ w. some (w, 0)

  unfoldable pub request_identity_mapping :
      (fuel : ℕ) → Virtual → (eax ebx : ℕ) → Option (Virtual × ℕ)
  request_identity_mapping fuel v eax ebx =
      look fuel v eax eax ebx >>= λ found. map_behind fuel v found ebx
