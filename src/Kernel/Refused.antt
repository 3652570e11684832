-- ===== src/Kernel/Refused.antt =====
-- `CreateProcess` of Source/SystemCalls/Native.cpp: what its tests accept, and how it ends.
use x3c0_microkernel.Common.{
  ℕ, zero, suc, ◌+◌, ◌*◌, ◌^◌, ◌≤◌, ◌<◌, ◌≡◌, ◌≢◌, ◌⊎◌, inl, inr, refl, sym, ap, subst, ◌∙◌, arith,
  Bool, true, false, Option, none, some, ltb, ◌!=◌, Bool-cases,
}
use x3c0_microkernel.Common.Words.{u32, u64}
use x3c0_microkernel.Bitmap
use x3c0_microkernel.Security
use x3c0_microkernel.Virtual.{Virtual}
use x3c0_microkernel.Virtual.Spaces.{translate, table_window}
use x3c0_microkernel.Virtual.Windows.{HasWindows}
use x3c0_microkernel.Virtual.Cloning.{clone_page_directory-faults}
use x3c0_microkernel.SystemCalls.{is_address_valid}
use x3c0_microkernel.Kernel.Calls.{Surroundings}
use x3c0_microkernel.Kernel.Delivery.{Mail, spaces}
use x3c0_microkernel.Kernel.Creation.{
  MemoryBlock, user_heap_start, check_from, check_block, check_blocks, load_process, create_process,
}

-- Every address that the loop looks at is the user's: the last page of a range that does not start
-- with a page may be left out.
abbrev pub PagesValid : Virtual → (base i limit : ℕ) → Type 0
PagesValid v base i limit =
    (k : ℕ) → i + 4096 * k < limit → is_address_valid v (u64 (base + (i + 4096 * k))) true ≡ 0

-- A block of the caller that the tests accept.
pub record BlockValid (v : Virtual) (b : MemoryBlock) : Type 0 where
  pub ordered : b.start ≤ b.end
  pub low : b.end ≤ user_heap_start
  pub pages : PagesValid v 0 b.start b.end

abbrev pub BlocksValid : Virtual → (ℕ → MemoryBlock) → (n at : ℕ) → Type 0
BlocksValid v block_at n at = (i : ℕ) → i < n → BlockValid v (block_at (at + 12 * i))

-- A test returns a code, and what `P` says holds if the code is 0.
abbrev pub Tested : (r : Option ℕ) → Type 0 → Type 0
Tested r P = (c : ℕ) × (r ≡ some c) × (c ≡ 0 → P)

PagesValid-suc :
    (v : Virtual) (base i limit : ℕ)
    → i + 4096 < 2 ^ 32
    → is_address_valid v (u64 (base + i)) true ≡ 0
    → PagesValid v base (u32 (i + 0x1000)) limit
    → PagesValid v base i limit
PagesValid-suc v base i limit small here later zero h =
    ap (λ t. is_address_valid v (u64 (base + t)) true) (omega arith) ∙ here
PagesValid-suc v base i limit small here later (suc k) h =
    ap (λ t. is_address_valid v (u64 (base + t)) true) (omega arith) ∙ later k (omega arith)

check_from-Tested :
    (n : ℕ) (v : Virtual) (base i limit : ℕ)
    → limit + 4096 < 2 ^ 32
    → limit ≤ i + 4096 * n
    → Tested (check_from (suc n) v base i limit) (PagesValid v base i limit)
unfolding check_from
check_from-Tested zero v base i limit small enough =
    let done : ltb i limit ≡ false = ground arith in
    (0, rw done refl, λ e k h. absurd (omega arith))
check_from-Tested (suc n) v base i limit small enough = elim (Bool-cases (ltb i limit)) [
  | inr done ↦ (0, rw done refl, λ e k h. absurd (ground arith))
  | inl more ↦ elim (Bool-cases (is_address_valid v (u64 (base + i)) true != 0)) [
    | inl bad ↦
        (is_address_valid v (u64 (base + i)) true, rw (more, bad) refl, λ e. absurd (ground arith))
    | inr good ↦
        let below : i < limit = ground arith in
        let (c, e, later) =
          check_from-Tested n v base (u32 (i + 0x1000)) limit small (omega arith) in
        (
          c,
          rw (more, good) e,
          λ z. PagesValid-suc v base i limit (omega arith) (ground arith) (later z),
        )
  ]
]

check_block-Tested :
    (n : ℕ) (v : Virtual) (b : MemoryBlock)
    → user_heap_start ≤ 4096 * n
    → Tested (check_block (suc n) v b) (BlockValid v b)
unfolding check_block
check_block-Tested n v b enough = elim (Bool-cases (ltb b.end b.start)) [
  | inl reversed ↦ (4, rw reversed refl, λ e. absurd (omega arith))
  | inr in_order ↦ elim (Bool-cases (ltb user_heap_start b.end)) [
    | inl high ↦ (5, rw (in_order, high) refl, λ e. absurd (omega arith))
    | inr low ↦
        let below : b.end ≤ user_heap_start = ground arith in
        let (c, e, pages) = check_from-Tested n v 0 b.start b.end (omega arith) (omega arith) in
        (
          c,
          rw (in_order, low) e,
          λ z. record { ordered = ground arith; low = below; pages = pages z },
        )
  ]
]

BlocksValid-suc :
    (v : Virtual) (block_at : ℕ → MemoryBlock) (left at : ℕ)
    → BlockValid v (block_at at)
    → BlocksValid v block_at left (at + 12)
    → BlocksValid v block_at (suc left) at
BlocksValid-suc v block_at left at first later zero h =
    subst (λ a. BlockValid v (block_at a)) at_first first
  where
    at_first : at ≡ at + 12 * 0
    at_first = omega arith
BlocksValid-suc v block_at left at first later (suc i) h =
    subst (λ a. BlockValid v (block_at a)) at_next (later i (omega arith))
  where
    at_next : at + 12 + 12 * i ≡ at + 12 * suc i
    at_next = omega arith

check_blocks-Tested :
    (n : ℕ) (v : Virtual) (block_at : ℕ → MemoryBlock) (left at : ℕ)
    → user_heap_start ≤ 4096 * n
    → Tested (check_blocks (suc n) v block_at left at) (BlocksValid v block_at left at)
unfolding check_blocks
check_blocks-Tested n v block_at zero at enough = (0, refl, λ e i h. absurd (omega arith))
check_blocks-Tested n v block_at (suc left) at enough =
    let (c, e, first) = check_block-Tested n v (block_at at) enough in
    elim (Bool-cases (c != 0)) [
      | inl bad ↦ (c, rw (e, bad) refl, λ z. absurd (ground arith))
      | inr good ↦
          let (d, f, later) = check_blocks-Tested n v block_at left (at + 12) enough in
          (
            d,
            rw (e, good) f,
            λ z. BlocksValid-suc v block_at left at (first (ground arith)) (later z),
          )
    ]

module _ (m : Surroundings) (block_at : ℕ → MemoryBlock) where
  load_process-faults :
      (mail : Mail) (raw : ℕ → ℕ) (driver eax ebx ecx : ℕ)
      → HasWindows (spaces mail)
      → ((a : ℕ) → a < 4096 → translate (spaces mail) (table_window + a) ≡ none)
      → load_process m block_at mail raw driver eax ebx ecx ≡ none
  unfolding load_process
  load_process-faults mail raw driver eax ebx ecx ready unmapped =
      rw (clone_page_directory-faults m.undef (spaces mail) mail.kernel.space.kernel ready unmapped)
        refl

  -- `CreateProcess`, with fuel for every page below the user's heap and a list of blocks of less
  -- than `4096 * n` bytes, where the table of the windows is there and no page is mapped behind the
  -- window for a new directory: it returns a code that is not 0 and changes nothing, or the caller
  -- has the privilege, the addresses that are tested are the user's, every block is in order and
  -- ends at the user's heap or below, and the kernel faults. What is tested are the addresses at
  -- each multiple of 4096 bytes from the start of the list and of every block, below its end: where
  -- the start is not that of a page, the last page may not be among them.
  pub create_process-refused :
      (mail : Mail) (raw : ℕ → ℕ) (driver eax ebx ecx n : ℕ) (allowed : Bool)
      → m.fuel ≡ suc n
      → user_heap_start ≤ 4096 * n
      → ebx * 12 ≤ 4096 * n
      → ebx * 12 + 4096 < 2 ^ 32
      → Bitmap.test_bit
          (mail.kernel.processes mail.kernel.scheduler.current_process).security_privileges
          Security.create_process
        ≡ some allowed
      → HasWindows (spaces mail)
      → ((a : ℕ) → a < 4096 → translate (spaces mail) (table_window + a) ≡ none)
      → ((c : ℕ) × (create_process m block_at mail raw driver eax ebx ecx ≡ some (mail, c))
          × (c ≢ 0))
        ⊎ ((allowed ≡ true)
            × PagesValid mail.kernel.space eax 0 (ebx * 12)
            × BlocksValid mail.kernel.space block_at ebx eax
            × (create_process m block_at mail raw driver eax ebx ecx ≡ none))
  unfolding create_process
  create_process-refused mail raw driver eax ebx ecx n false fuel heap pages small privilege ready
        unmapped =
      inl (3, rw privilege refl, λ e. omega arith)
  create_process-refused mail raw driver eax ebx ecx n true fuel heap pages small privilege ready
        unmapped =
      let v = mail.kernel.space in
      let (c, e, list) =
        subst (λ f. Tested (check_from f v eax 0 (ebx * 12)) (PagesValid v eax 0 (ebx * 12)))
          (sym fuel) (check_from-Tested n v eax 0 (ebx * 12) small (omega arith)) in
      let (d, f, blocks) =
        subst (λ f. Tested (check_blocks f v block_at ebx eax) (BlocksValid v block_at ebx eax))
          (sym fuel) (check_blocks-Tested n v block_at ebx eax heap) in
      elim (Bool-cases (c != 0)) [
        | inl bad ↦ inl (c, rw (privilege, e, bad) refl, λ z. ground arith)
        | inr good ↦ elim (Bool-cases (d != 0)) [
          | inl bad ↦ inl (d, rw (privilege, e, good, f, bad) refl, λ z. ground arith)
          | inr fine ↦ inr (
            refl,
            list (ground arith),
            blocks (ground arith),
            rw
                (
                  privilege,
                  e,
                  good,
                  f,
                  fine,
                  load_process-faults mail raw driver eax ebx ecx ready unmapped,
                )
                refl,
          )
        ]
      ]
