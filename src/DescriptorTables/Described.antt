-- ===== src/DescriptorTables/Described.antt =====
-- `describe` of Segments: the descriptor and the segment, byte by byte.
use x3c0_microkernel.Common.{
  ℕ, zero, suc, ◌+◌, ◌*◌, ◌/◌, ◌%◌, ◌^◌, ◌≤◌, ◌<◌, ◌≡◌, ◌⊎◌, inl, inr, refl, ap, ◌∙◌, arith, bit_or,
  List, [], ◌∷◌, length, update,
}
use x3c0_microkernel.Common.Words.{u64, bit_and_low, bit_or_fields}
use x3c0_microkernel.DescriptorTables.Segments.{Tables, store, descriptor, word, describe}

-- Two ranges of bytes share no byte.
abbrev pub Apart : (a n b k : ℕ) → Type 0
Apart a n b k = (a + n ≤ b) ⊎ (b + k ≤ a)

-- The address that the processor reads from the 8 bytes of a descriptor.
abbrev pub entry_base : (ℕ → ℕ) → ℕ → ℕ
entry_base m d = m (d + 2) + m (d + 3) * 2 ^ 8 + m (d + 4) * 2 ^ 16 + m (d + 7) * 2 ^ 24

-- A 64-bit word, its low byte first.
abbrev pub word_at : (ℕ → ℕ) → ℕ → ℕ
word_at m a =
    m a
    + m (a + 1) * 2 ^ 8
    + m (a + 2) * 2 ^ 16
    + m (a + 3) * 2 ^ 24
    + m (a + 4) * 2 ^ 32
    + m (a + 5) * 2 ^ 40
    + m (a + 6) * 2 ^ 48
    + m (a + 7) * 2 ^ 56

store-outside :
    (m : ℕ → ℕ) (a : ℕ) (bs : List ℕ) (x : ℕ) → Apart x 1 a (length bs) → store m a bs x ≡ m x
unfolding store
store-outside m a [] x h = refl
store-outside m a (b ∷ bs) x (inl h) =
    store-outside (update m a b) (a + 1) bs x (inl (omega arith)) ∙ ground arith
store-outside m a (b ∷ bs) x (inr h) =
    store-outside (update m a b) (a + 1) bs x (inr (omega arith)) ∙ ground arith

-- The byte `i` of a list.
abbrev byte : List ℕ → ℕ → ℕ
byte [] i = 0
byte (b ∷ bs) zero = b
byte (b ∷ bs) (suc i) = byte bs i

store-first : (m : ℕ → ℕ) (a b : ℕ) (bs : List ℕ) → store m a (b ∷ bs) a ≡ b
unfolding store
store-first m a b bs = store-outside (update m a b) (a + 1) bs a (inl (omega arith)) ∙ ground arith

store-at :
    (m : ℕ → ℕ) (a : ℕ) (bs : List ℕ) (i : ℕ) → i < length bs → store m a bs (a + i) ≡ byte bs i
unfolding store
store-at m a [] i h = absurd (omega arith)
store-at m a (b ∷ bs) zero h = ap (store m a (b ∷ bs)) (omega arith) ∙ store-first m a b bs
store-at m a (b ∷ bs) (suc i) h =
    ap (store (update m a b) (a + 1) bs) (omega arith)
    ∙ store-at (update m a b) (a + 1) bs i (omega arith)

store-descriptor :
    (m : ℕ → ℕ) (d base limit : ℕ)
    → entry_base (store m d (descriptor base limit)) d ≡ base % 2 ^ 32
store-descriptor m d base limit =
    let at : (i : ℕ)
        → i < 8
        → store m d (descriptor base limit) (d + i) ≡ byte (descriptor base limit) i =
      store-at m d (descriptor base limit) in
    omega (
      arith,
      at 2 (omega arith),
      at 3 (omega arith),
      at 4 (omega arith),
      at 7 (omega arith),
      bit_and_low 16 base,
      bit_and_low 8 (base / 2 ^ 16),
      bit_and_low 8 (base / 2 ^ 24),
    )

store-word : (m : ℕ → ℕ) (a n : ℕ) → n < 2 ^ 64 → word_at (store m a (word n)) a ≡ n
store-word m a n h =
    let at : (i : ℕ) → i < 8 → store m a (word n) (a + i) ≡ byte (word n) i =
      store-at m a (word n) in
    omega (
      arith,
      store-first m a _ _,
      at 1 (omega arith),
      at 2 (omega arith),
      at 3 (omega arith),
      at 4 (omega arith),
      at 5 (omega arith),
      at 6 (omega arith),
      at 7 (omega arith),
    )

-- `SetTSS` gets the selector of the entry, with the lowest privileges.
pub describe-task_register :
    (w : Tables) (tss index esp0 : ℕ)
    → index < 2 ^ 16
    → (describe w tss index esp0).task_register ≡ 8 * index + 3
unfolding describe
describe-task_register w tss index esp0 h =
    ap (λ k. bit_or k 3) (omega arith) ∙ bit_or_fields 3 index 3 (omega arith) ∙ omega arith

-- The two stores to the segment leave the other bytes.
segment-outside :
    (m : ℕ → ℕ) (tss esp0 a : ℕ)
    → Apart a 1 tss 104
    → store (store m (tss + 4) (word esp0)) (tss + 102) (104 ∷ 0 ∷ []) a ≡ m a
segment-outside m tss esp0 a h =
    store-outside _ (tss + 102) _ a (ground arith) ∙ store-outside m (tss + 4) _ a (ground arith)

-- Outside of the descriptor and of the segment, `describe` changes nothing.
pub describe-outside :
    (w : Tables) (tss index esp0 a : ℕ)
    → Apart a 1 (w.gdt + 8 * index) 8
    → Apart a 1 tss 104
    → (describe w tss index esp0).memory a ≡ w.memory a
unfolding describe
describe-outside w tss index esp0 a hd ht =
    segment-outside _ tss esp0 a ht ∙ store-outside w.memory (w.gdt + 8 * index) _ a hd

pub describe-entry :
    (w : Tables) (tss index esp0 : ℕ)
    → Apart (w.gdt + 8 * index) 8 tss 104
    → entry_base (describe w tss index esp0).memory (w.gdt + 8 * index) ≡ tss % 2 ^ 32
unfolding describe
describe-entry w tss index esp0 h =
    let d = w.gdt + 8 * index in
    let m = store w.memory d (descriptor tss (u64 (tss + 104))) in
    rw
      (
        segment-outside m tss esp0 (d + 2) (ground arith),
        segment-outside m tss esp0 (d + 3) (ground arith),
        segment-outside m tss esp0 (d + 4) (ground arith),
        segment-outside m tss esp0 (d + 7) (ground arith),
      )
      (store-descriptor w.memory d tss (u64 (tss + 104)))

pub describe-stack :
    (w : Tables) (tss index esp0 : ℕ)
    → esp0 < 2 ^ 64
    → word_at (describe w tss index esp0).memory (tss + 4) ≡ esp0
unfolding describe
describe-stack w tss index esp0 h =
    let m0 = store w.memory (w.gdt + 8 * index) (descriptor tss (u64 (tss + 104))) in
    let m = store m0 (tss + 4) (word esp0) in
    let last : (i : ℕ)
        → i < 8
        → store m (tss + 102) (104 ∷ 0 ∷ []) (tss + 4 + i) ≡ m (tss + 4 + i) =
      λ i l. store-outside m (tss + 102) _ (tss + 4 + i) (inl (omega arith)) in
    rw
      (
        store-outside m (tss + 102) (104 ∷ 0 ∷ []) (tss + 4) (inl (omega arith)),
        last 1 (omega arith),
        last 2 (omega arith),
        last 3 (omega arith),
        last 4 (omega arith),
        last 5 (omega arith),
        last 6 (omega arith),
        last 7 (omega arith),
      )
      (store-word m0 (tss + 4) esp0 h)
