-- ===== src/Virtual/Copying.antt =====
-- `CopyToAddressSpace` of Source/Multitasking/Paging.cpp, for what lies in one page.
use x3c0_microkernel.Common.{ℕ, ◌+◌, ◌*◌, ◌/◌, ◌%◌, ◌^◌, ◌≡◌, bit_and, ◌∷◌}
use x3c0_microkernel.Common.Words.{page_mask}
use x3c0_microkernel.Virtual.Spaces.{Spaces, Transfer, page_window}
use x3c0_microkernel.Virtual.Windows.{SameBeyond}

-- The physical address of entry `i` of the table in the frame that `entry` names.
abbrev pub slot : (entry i : ℕ) → ℕ
slot entry i = entry / 4096 % 2 ^ 20 * 4096 + 8 * i

-- The bytes at `source` are to go to the window of the page that `page` names.
abbrev pub sent : (page offset source bytes : ℕ) → ℕ × Transfer
sent page offset source bytes = (
  bit_and page page_mask,
  record { destination = page_window + offset; source = source; bytes = bytes },
)

-- `r` is `s` after one transfer.
pub record Sent (s : Spaces) (page offset source bytes : ℕ) (r : Spaces) : Type 0 where
  pub frames : r.frames ≡ s.frames
  pub copied : r.copied ≡ sent page offset source bytes ∷ s.copied
  pub beyond : SameBeyond s r
