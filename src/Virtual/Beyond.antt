-- ===== src/Virtual/Beyond.antt =====
-- `CopyToAddressSpace` of Source/Multitasking/Paging.cpp, for destinations from 2 GiB on.
use x3c0_microkernel.Common.{
  ℕ, suc, ◌+◌, ◌-◌, ◌*◌, ◌/◌, ◌^◌, ◌<◌, ◌≤◌, ◌≡◌, refl, ap, ◌∙◌, arith, Bool, true, bit_and, none,
  leb,
}
use x3c0_microkernel.Common.Words.{u32, u64, page_mask, bit_and-page_mask}
use x3c0_microkernel.Virtual.Spaces.{
  Spaces, translate, load, ensure_present, copy_round, copy_rounds, round_count,
  copy_to_address_space, directory_window, table_window,
}
use x3c0_microkernel.Virtual.Windows.{HasWindows, open_window-Opened}

rounds_left :
    (source length : ℕ) → source + length < 2 ^ 32 → (n : ℕ) × (round_count source length ≡ suc n)
unfolding round_count
rounds_left source length h =
    let first = bit_and source page_mask in
    let last = bit_and (u64 (source + length)) page_mask in
    let ordered : leb first last ≡ true =
      ground (arith, bit_and-page_mask source, bit_and-page_mask (u64 (source + length))) in
    ((last - first) / 0x1000, rw ordered (omega arith))

copy_round-faults :
    (undef : ℕ → ℕ) (s : Spaces) (source length destination : ℕ) (must_exist user_mode : Bool)
    → destination < 2 ^ 32
    → translate s (directory_window + 8 * (destination / 2 ^ 22)) ≡ none
    → copy_round undef s source length destination must_exist user_mode 0 ≡ none
unfolding copy_round ensure_present load
copy_round-faults undef s source length destination must_exist user_mode h e =
    let d : u32 (u64 (0 + destination) / 2 ^ 22) ≡ destination / 2 ^ 22 = omega arith in
    rw (d, e) refl

-- From 2 GiB on, `CopyToAddressSpace` faults, where the table of the windows is there and no page is
-- mapped behind the window for the directory: its entry for the destination lies there.
pub copy_to_address_space-faults :
    (undef : ℕ → ℕ) (s : Spaces) (source length destination address_space : ℕ)
    (must_exist user_mode : Bool)
    → HasWindows s
    → ((a : ℕ) → a < 4096 → translate s (table_window + a) ≡ none)
    → source + length < 2 ^ 32
    → 2 ^ 31 ≤ destination
    → destination < 2 ^ 32
    → copy_to_address_space undef s source length destination address_space must_exist user_mode
      ≡ none
unfolding copy_to_address_space copy_rounds
copy_to_address_space-faults undef s source length destination address_space must_exist user_mode
      ready unmapped hs low high =
    let (w, ew, ow) =
      open_window-Opened undef s address_space directory_window (record { table = refl }) ready
        refl in
    let offset = 8 * (destination / 2 ^ 22) - 4096 in
    let same : directory_window + 8 * (destination / 2 ^ 22) ≡ table_window + offset =
      omega arith in
    let kept : translate w (directory_window + 8 * (destination / 2 ^ 22)) ≡ none =
      ap (translate w) same
      ∙ ow.others (table_window + offset) (record { table = omega arith }) (λ e. omega arith)
      ∙ unmapped offset (omega arith) in
    let (n, rounds) = rounds_left source length hs in
    rw
      (
        ew,
        rounds,
        copy_round-faults undef w source length destination must_exist user_mode high kept,
      )
      refl
