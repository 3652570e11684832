-- ===== src/Virtual/Erasing.antt =====
-- `EraseMapping` of Source/Multitasking/Paging.cpp: the page goes, its table goes with its last
-- page, and every other mapping stays.
use x3c0_microkernel.Common.{
  ℕ, zero, suc, ◌+◌, ◌*◌, ◌/◌, ◌%◌, ◌^◌, ◌≤◌, ◌<◌, ◌≡◌, ◌≢◌, ◌⊎◌, inl, inr, refl, sym, ap, ◌∙◌,
  true, false, arith, bit_or, ◌==◌, ◌!=◌, Bool-cases, update, update_self, update_ne,
}
use x3c0_microkernel.Common.Words.{bit_or_fields}
use x3c0_microkernel.Physical.{PageAllocator}
use x3c0_microkernel.Virtual.{
  Virtual, page_directories, page_tables, retrieve_mapping, any_left, erase_mapping,
}
use x3c0_microkernel.Virtual.Entries.{Plain, target_table, target_directory, tables-ne-directories}
use x3c0_microkernel.Virtual.Mapping.{looked_up, retrieve_mapping-looked_up, retrieve_mapping-same}

-- Entries `i` up to `stop` of table `d` are zero.
abbrev pub Empty : Virtual → (d i stop : ℕ) → Type 0
Empty v d i stop = (j : ℕ) → i ≤ j → j < stop → v.memory (page_tables (d * 2 ^ 10 + j)) ≡ 0

any_left-Empty :
    (v : Virtual) (d left i : ℕ)
    → i + left ≡ 1024
    → ((any_left v d left i ≡ false) × Empty v d i 1024)
      ⊎ ((any_left v d left i ≡ true)
          × (j : ℕ) × (j < 1024)
          × (v.memory (page_tables (d * 2 ^ 10 + j)) ≢ 0))
unfolding any_left
any_left-Empty v d zero i h = inl (refl, λ j a b. absurd (omega arith))
any_left-Empty v d (suc left) i h =
    let index : bit_or (d * 2 ^ 10) i ≡ d * 2 ^ 10 + i = bit_or_fields 10 d i (omega arith) in
    rw index (elim (Bool-cases (v.memory (page_tables (d * 2 ^ 10 + i)) != 0)) [
      | inl used ↦ inr (rw used refl, i, omega arith, ground arith)
      | inr free ↦ elim (any_left-Empty v d left (i + 1) (omega arith)) [
        | inl (e, empty) ↦ inl (
          rw (free, e) refl,
          λ j a b. elim (Bool-cases (j == i)) [
            | inl here ↦ let at : j ≡ i = ground arith in rw at (ground arith)
            | inr past ↦ empty j (ground arith) b
          ],
        )
        | inr (e, j, small, full) ↦ inr (rw (free, e) refl, j, small, full)
      ]
    ])

looked_up_zero : (directory mem : ℕ) → looked_up directory 0 mem ≡ (0, 0)
unfolding looked_up
looked_up_zero directory mem = ground arith

no_directory : (entry mem : ℕ) → looked_up 0 entry mem ≡ (0, 0)
unfolding looked_up
no_directory entry mem = refl

-- `t` is `v` without the mapping of `mem`: it looks up to nothing, other pages look up as before,
-- and the directory entry is cleared if no other entry of the table is in use and kept otherwise.
pub record Erased (v : Virtual) (mem : ℕ) (t : Virtual) : Type 0 where
  pub gone : retrieve_mapping t mem ≡ (0, 0)
  pub elsewhere :
      (other : ℕ)
      → Plain other
      → other / 2 ^ 12 ≢ mem / 2 ^ 12
      → retrieve_mapping t other ≡ retrieve_mapping v other
  pub last :
      ((j : ℕ)
        → j < 1024
        → mem / 2 ^ 22 * 2 ^ 10 + j ≢ mem / 2 ^ 12
        → v.memory (page_tables (mem / 2 ^ 22 * 2 ^ 10 + j)) ≡ 0)
      → t.memory (page_directories (mem / 2 ^ 22)) ≡ 0
  pub not_last :
      (j : ℕ)
      → j < 1024
      → mem / 2 ^ 22 * 2 ^ 10 + j ≢ mem / 2 ^ 12
      → v.memory (page_tables (mem / 2 ^ 22 * 2 ^ 10 + j)) ≢ 0
      → t.memory (page_directories (mem / 2 ^ 22)) ≡ v.memory (page_directories (mem / 2 ^ 22))

module _ (v : Virtual) (mem : ℕ) (p : Plain mem) where
  abbrev d : ℕ
  d = mem / 2 ^ 22

  -- The state after the entry is cleared.
  abbrev unset : Virtual
  unset = record v { memory = update v.memory (page_tables (mem / 2 ^ 12)) 0 }

  unset_directory :
      (other : ℕ)
      → other < 2 ^ 32
      → unset.memory (page_directories (other / 2 ^ 22))
        ≡ v.memory (page_directories (other / 2 ^ 22))
  unset_directory other h =
      update_ne v.memory (page_tables (mem / 2 ^ 12)) (page_directories (other / 2 ^ 22)) 0
        (tables-ne-directories mem other p h)

  unset_table : (t : ℕ) → t ≢ mem / 2 ^ 12 → unset.memory (page_tables t) ≡ v.memory (page_tables t)
  unset_table t n =
      update_ne v.memory (page_tables (mem / 2 ^ 12)) (page_tables t) 0 (λ e. n (omega arith))

  unset_self : unset.memory (page_tables (mem / 2 ^ 12)) ≡ 0
  unset_self = update_self v.memory (page_tables (mem / 2 ^ 12)) 0

  unset_gone : retrieve_mapping unset mem ≡ (0, 0)
  unset_gone = rw (retrieve_mapping-looked_up unset mem p.small, unset_self) (looked_up_zero _ mem)

  unset_elsewhere :
      (other : ℕ)
      → Plain other
      → other / 2 ^ 12 ≢ mem / 2 ^ 12
      → retrieve_mapping unset other ≡ retrieve_mapping v other
  unset_elsewhere other q n =
      retrieve_mapping-same unset v other q.small (unset_directory other q.small)
        (unset_table (other / 2 ^ 12) n)

  -- An entry in use after the erasure was in use before, and is another page's.
  still_used :
      (j : ℕ)
      → unset.memory (page_tables (d * 2 ^ 10 + j)) ≢ 0
      → (d * 2 ^ 10 + j ≢ mem / 2 ^ 12) × (v.memory (page_tables (d * 2 ^ 10 + j)) ≢ 0)
  still_used j full = (other, λ e. full (unset_table (d * 2 ^ 10 + j) other ∙ e))
    where
      other : d * 2 ^ 10 + j ≢ mem / 2 ^ 12
      other e = full (ap (λ t. unset.memory (page_tables t)) e ∙ unset_self)

  kept-Erased :
      (j : ℕ) → j < 1024 → unset.memory (page_tables (d * 2 ^ 10 + j)) ≢ 0 → Erased v mem unset
  kept-Erased j h full = record {
    gone = unset_gone;
    elsewhere = unset_elsewhere;
    last = λ empty. absurd ((still_used j full).1 (empty j h (still_used j full).0));
    not_last = λ _ _ _ _. unset_directory mem p.small;
  }

  -- The state after the directory entry is cleared too, with whatever allocator.
  abbrev released : PageAllocator → Virtual
  released a = record unset { memory = update unset.memory (page_directories d) 0; allocator = a }

  released_gone :
      (a : PageAllocator) (other : ℕ)
      → other < 2 ^ 32
      → other / 2 ^ 22 ≡ d
      → retrieve_mapping (released a) other ≡ (0, 0)
  released_gone a other h e =
      rw
        (
          retrieve_mapping-looked_up (released a) other h,
          e,
          update_self unset.memory (page_directories d) 0,
        )
        (no_directory _ other)

  unset-Empty :
      Empty unset d 0 1024
      → (other : ℕ) → Plain other
      → other / 2 ^ 22 ≡ d
      → retrieve_mapping unset other ≡ (0, 0)
  unset-Empty empty other q e =
      rw (retrieve_mapping-looked_up unset other q.small, entry) (looked_up_zero _ other)
    where
      entry : unset.memory (page_tables (other / 2 ^ 12)) ≡ 0
      entry =
          ap (λ t. unset.memory (page_tables t)) (omega arith)
          ∙ empty (other / 2 ^ 12 % 1024) (omega arith) (omega arith)

  released-Erased : (a : PageAllocator) → Empty unset d 0 1024 → Erased v mem (released a)
  released-Erased a empty = record {
    gone = released_gone a mem p.small refl;
    elsewhere = λ other q n. elim (Bool-cases (other / 2 ^ 22 == d)) [
      | inl same ↦
          let e : other / 2 ^ 22 ≡ d = ground arith in
          released_gone a other q.small e
          ∙ sym (unset-Empty empty other q e)
          ∙ unset_elsewhere other q n
      | inr apart ↦
          retrieve_mapping-same (released a) unset other q.small
            (update_ne unset.memory (page_directories d) (page_directories (other / 2 ^ 22)) 0
              (λ e. ground arith))
            (update_ne unset.memory (page_directories d) (page_tables (other / 2 ^ 12)) 0
              (λ e. tables-ne-directories other mem q p.small (sym e)))
          ∙ unset_elsewhere other q n
    ];
    last = λ _. update_self unset.memory (page_directories d) 0;
    not_last = λ j h n full. absurd (full (sym (unset_table _ n) ∙ empty j (omega arith) h));
  }

-- For a 32-bit address outside of the place where the two windows overlap, `EraseMapping` removes
-- the mapping of the page, and the page's table exactly when no other entry of it is in use; every
-- other such page, in the same table or not, looks up as before.
pub erase_mapping-Erased :
    (undef : ℕ → ℕ) (v : Virtual) (mem : ℕ) → Plain mem → Erased v mem (erase_mapping undef v mem)
unfolding erase_mapping
erase_mapping-Erased undef v mem p =
    rw (target_table mem p.small, target_directory mem p.small)
      (elim (any_left-Empty (unset v mem p) (mem / 2 ^ 22) 1024 0 refl) [
        | inl (e, empty) ↦ rw e (released-Erased v mem p _ empty)
        | inr (e, j, h, full) ↦ rw e (kept-Erased v mem p j h full)
      ])
