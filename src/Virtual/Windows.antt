-- ===== src/Virtual/Windows.antt =====
-- The windows of Source/Multitasking/Paging.cpp: an open one leads to its frame, and opening it
-- leaves the others where they lead.
use x3c0_microkernel.Common.{
  ℕ, ◌+◌, ◌*◌, ◌/◌, ◌%◌, ◌^◌, ◌<◌, ◌≡◌, ◌≢◌, inl, inr, refl, sym, ap, ◌∙◌, subst, arith, bit_and,
  some,
}
use x3c0_microkernel.Common.Words.{page_mask, bit_and-page_mask}
use x3c0_microkernel.Virtual.{Virtual, page_directories, page_tables, retrieve_mapping, map_memory}
use x3c0_microkernel.Virtual.Entries.{Plain}
use x3c0_microkernel.Virtual.Mapping.{
  Mapped, map_memory-Mapped, looked_up, retrieve_mapping-looked_up,
}
use x3c0_microkernel.Virtual.Spaces.{Spaces, translate, allocate, open_window}

-- The table of the windows is there: entry 1022 of the directory.
abbrev pub HasWindows : Spaces → Type 0
HasWindows s = s.space.memory (page_directories 1022) ≢ 0

-- The addresses that entry 1022 covers.
pub record InWindows (a : ℕ) : Type 0 where
  pub table : a / 2 ^ 22 ≡ 1022

pub InWindows-Plain : (a : ℕ) → InWindows a → Plain a
InWindows-Plain a w = record {
  small = omega (arith, w.table);
  apart = inr (omega (arith, w.table));
}

map_memory-page :
    (undef : ℕ → ℕ) (v : Virtual) (src dest flags a : ℕ)
    → dest % 4096 ≡ 0
    → a < 4096
    → map_memory undef v src (dest + a) flags ≡ map_memory undef v src dest flags
unfolding map_memory
map_memory-page undef v src dest flags a e l =
    let same : bit_and (dest + a) page_mask ≡ bit_and dest page_mask =
      omega (arith, bit_and-page_mask (dest + a), bit_and-page_mask dest) in
    rw same refl

-- A page that looks up with flags has a table.
table_of :
    (v : Virtual) (a p flags : ℕ)
    → a < 2 ^ 32
    → flags ≢ 0
    → retrieve_mapping v a ≡ (p, flags)
    → v.memory (page_directories (a / 2 ^ 22)) ≢ 0
unfolding looked_up
table_of v a p flags h n e zero_entry = n (
    sym (ap (λ r. r.1) e)
    ∙ ap (λ r. r.1) (retrieve_mapping-looked_up v a h)
    ∙ ap (λ d. (looked_up d (v.memory (page_tables (a / 2 ^ 12))) a).1) zero_entry)

-- The addresses outside of the table of the windows look up alike.
abbrev pub SameBeyond : Spaces → Spaces → Type 0
SameBeyond s t =
    (a : ℕ) → Plain a → a / 2 ^ 22 ≢ 1022 → retrieve_mapping t.space a ≡ retrieve_mapping s.space a

-- `t` is `s` with the window open to the frame.
pub record Opened (s : Spaces) (frame window : ℕ) (t : Spaces) : Type 0 where
  pub frames : t.frames ≡ s.frames
  pub copied : t.copied ≡ s.copied
  pub ready : HasWindows t
  pub leads :
      (a : ℕ) → a < 4096 → translate t (window + a) ≡ some (frame / 4096 % 2 ^ 20 * 4096 + a)
  pub beyond : SameBeyond s t
  pub others : (a : ℕ) → InWindows a → a / 2 ^ 12 ≢ window / 2 ^ 12 → translate t a ≡ translate s a

-- The same lookup reaches the same address.
translate-same :
    (s t : Spaces) (a : ℕ)
    → retrieve_mapping t.space a ≡ retrieve_mapping s.space a
    → translate t a ≡ translate s a
unfolding translate
translate-same s t a e = rw e refl

translate-mapped :
    (s : Spaces) (a p : ℕ) → retrieve_mapping s.space a ≡ (p, 3) → translate s a ≡ some p
unfolding translate
translate-mapped s a p e = rw e refl

-- A page that is allocated moves no window.
pub translate-allocate :
    (undef : ℕ → ℕ) (s : Spaces) (a : ℕ) → translate (allocate undef s).0 a ≡ translate s a
unfolding translate retrieve_mapping
translate-allocate undef s a = refl

module _ (undef : ℕ → ℕ) (s : Spaces) (frame window : ℕ) (w : InWindows window)
    (ready : HasWindows s) where
  not_missing : (a : ℕ) → a / 2 ^ 22 ≡ 1022 → s.space.memory (page_directories (a / 2 ^ 22)) ≢ 0
  not_missing a e z = ready (ap (λ i. s.space.memory (page_directories i)) (sym e) ∙ z)

  window-Mapped :
      (t : Virtual) (a : ℕ)
      → window % 4096 ≡ 0
      → a < 4096
      → map_memory undef s.space frame window 2 ≡ some t
      → Mapped s.space frame (window + a) 2 t
  window-Mapped t a whole l e =
      let table : (window + a) / 2 ^ 22 ≡ 1022 = omega (arith, w.table) in
      let page = map_memory-page undef s.space frame window 2 a whole l in
      elim (map_memory-Mapped undef s.space frame (window + a) 2
        (InWindows-Plain (window + a) (record { table = table }))) [
          | inl (stuck, missing, p) ↦ absurd (not_missing (window + a) table missing)
          | inr (r, er, _, m) ↦ subst (λ v. Mapped s.space frame (window + a) 2 v) (cc) m
        ]

  map_memory-Opened :
      (t : Virtual)
      → window % 4096 ≡ 0
      → map_memory undef s.space frame window 2 ≡ some t
      → Opened s frame window (record s { space = t })
  map_memory-Opened t whole e =
      let m = window-Mapped t 0 whole (omega arith) e in
      let index : (window + 0) / 2 ^ 22 ≡ 1022 = omega (arith, w.table) in
      record {
        frames = refl;
        copied = refl;
        ready =
            subst (λ i. t.memory (page_directories i) ≢ 0) index
              (table_of t (window + 0) _ 3 (omega (arith, w.table)) (λ z. omega arith) m.target);
        leads = λ a l.
            translate-mapped (record s { space = t }) (window + a) _
              ((window-Mapped t a whole l e).target
                ∙ ap (λ o. (frame / 4096 % 2 ^ 20 * 4096 + o, 3)) (omega arith));
        beyond = λ a p n.
            m.elsewhere a p (λ z. n (omega (arith, index))) (inl (not_missing (window + 0) index));
        others = λ a wa n.
            translate-same s (record s { space = t }) a
              (m.elsewhere a (InWindows-Plain a wa) (λ z. n (omega arith))
                (inl (not_missing (window + 0) index)));
      }

  pub open_window-Opened :
      window % 4096 ≡ 0
      → (t : Spaces) × (open_window undef s frame window ≡ some t) × Opened s frame window t
  unfolding open_window
  open_window-Opened whole =
      elim (map_memory-Mapped undef s.space frame window 2 (InWindows-Plain window w)) [
        | inl (stuck, missing, p) ↦ absurd (not_missing window w.table missing)
        | inr (t, e, _, m) ↦ (record s { space = t }, rw e refl, map_memory-Opened t whole e)
      ]
