-- ===== src/Virtual/Cloning.antt =====
-- `ClonePageDirectory` of Source/Multitasking/Paging.cpp.
use x3c0_microkernel.Common.{
  ℕ, zero, suc, ◌+◌, ◌*◌, ◌<◌, ◌≤◌, ◌≡◌, inl, inr, refl, ◌∙◌, arith, false, Option, none, some,
  ◌>>=◌, ◌==◌, Bool-cases,
}
use x3c0_microkernel.Virtual.Spaces.{
  Spaces, translate, load, store, link_table, link_heap, clone_entry, clone_entries,
  clone_page_directory, clone_window, directory_window, table_window, allocate,
}
use x3c0_microkernel.Virtual.Windows.{HasWindows, InWindows, translate-allocate, open_window-Opened}

bind_none {ℓ} : {A B : Type ℓ} (m : Option A) → ◌>>=◌ {B = B} m (λ a. none) ≡ none
bind_none none = refl
bind_none (some a) = refl

module _ (undef : ℕ → ℕ) (s : Spaces) (directory : ℕ) where
  -- Entry 832, of the kernel's heap, would be written 6656 bytes behind the start of the window.
  link_table-faults : translate s 0xffbfea00 ≡ none → link_table s 832 ≡ none
  unfolding link_table store
  link_table-faults e = rw e (bind_none (load s (clone_window + 8 * 832)))

  clone_entry-low : (i : ℕ) → i < 832 → clone_entry undef s false directory i ≡ some s
  unfolding clone_entry link_heap
  clone_entry-low i h = ground arith

  clone_entry-faults :
      translate s 0xffbfea00 ≡ none → clone_entry undef s false directory 832 ≡ none
  unfolding clone_entry link_heap
  clone_entry-faults e = link_table-faults e

  clone_entries-faults :
      (left i : ℕ)
      → i ≤ 832
      → 832 < i + left
      → translate s 0xffbfea00 ≡ none
      → clone_entries undef left s false directory i ≡ none
  unfolding clone_entries
  clone_entries-faults zero i h l e = absurd (omega arith)
  clone_entries-faults (suc left) i h l e = elim (Bool-cases (i == 832)) [
    | inl here ↦ let at : i ≡ 832 = ground arith in rw (at, clone_entry-faults e) refl
    | inr before ↦
        rw (clone_entry-low i (ground arith))
          (clone_entries-faults left (i + 1) (ground arith) (omega arith) e)
  ]

-- Whatever the kernel's directory holds, `ClonePageDirectory` of a directory without fork
-- semantics faults or halts, where the table of the windows is there and no page is mapped behind
-- the window for the new directory: its entries of 8 bytes do not fit in that page.
pub clone_page_directory-faults :
    (undef : ℕ → ℕ) (s : Spaces) (dir : ℕ)
    → HasWindows s
    → ((a : ℕ) → a < 4096 → translate s (table_window + a) ≡ none)
    → clone_page_directory undef s dir false ≡ none
unfolding clone_page_directory
clone_page_directory-faults undef s dir ready unmapped =
    let (a, directory) = allocate undef s in
    let here : InWindows 0xffbfea00 = record { table = refl } in
    let (w, ew, ow) =
      open_window-Opened undef a directory directory_window (record { table = refl }) ready refl in
    let (x, ex, ox) =
      open_window-Opened undef w dir clone_window (record { table = refl }) ow.ready refl in
    let kept : translate x 0xffbfea00 ≡ none =
      ox.others 0xffbfea00 here (λ e. omega arith)
      ∙ ow.others 0xffbfea00 here (λ e. omega arith)
      ∙ translate-allocate undef s 0xffbfea00
      ∙ unmapped 0xa00 (omega arith) in
    rw (ew, ex, clone_entries-faults undef x directory 1023 0 (omega arith) (omega arith) kept) refl
