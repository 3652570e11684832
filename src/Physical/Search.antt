-- ===== src/Physical/Search.antt =====
-- `firstFreeBit` of Source/MemoryAllocation/PhysicalAllocator.cpp against what it promises: the
-- first page of the zone that tests free in a word that is not skipped.
use x3c0_microkernel.Common.{
  ℕ, zero, suc, ◌+◌, ◌-◌, ◌*◌, ◌/◌, ◌^◌, ◌≤◌, ◌<◌, ◌≡◌, ◌≢◌, ◌⊎◌, inl, inr, refl, sym, ap, ◌∙◌,
  subst, ltb, ==_iff, Bool, true, false, Option, none, some, arith, ◌==◌, Bool-cases, Option-cases,
}
use x3c0_microkernel.Common.Words.{u32}
use x3c0_microkernel.Physical.{
  PageAllocator, test_bit, scan_bits, scan_frames, zone_start, zone_end, first_free_bit,
}

module _ (undef : ℕ → ℕ) (s : PageAllocator) where
  -- Every page from `lo` up to `hi` whose word is looked into tests as used.
  abbrev pub AllUsed : (lo hi : ℕ) → Type 0
  AllUsed lo hi =
      (b : ℕ) → lo ≤ b → b < hi → s.bitmap (b / 64) ≢ 0xffffffff → test_bit undef s b ≡ true

  -- `r` is the first free page from `lo` on.
  pub record FirstFree (lo hi r : ℕ) : Type 0 where
    pub from : lo ≤ r
    pub below : r < hi
    pub free : test_bit undef s r ≡ false
    pub open_word : s.bitmap (r / 64) ≢ 0xffffffff
    pub before : AllUsed lo r

  -- All bits of word `i` from `bit` on are used, or the result is the first that is not.
  abbrev WordResult : (i bit : ℕ) → Option ℕ → Type 0
  WordResult i bit none = (b : ℕ) → i * 64 + bit ≤ b → b < i * 64 + 64 → test_bit undef s b ≡ true
  WordResult i bit (some r) =
      (i * 64 + bit ≤ r)
      × (r < i * 64 + 64)
      × (test_bit undef s r ≡ false)
      × ((b : ℕ) → i * 64 + bit ≤ b → b < r → test_bit undef s b ≡ true)

  scan_bits-WordResult :
      (i left bit : ℕ)
      → i < 2 ^ 26
      → left + bit ≡ 64
      → WordResult i bit (scan_bits undef s i left bit)
  unfolding scan_bits
  scan_bits-WordResult i zero bit h e = λ b lo hi. absurd (omega arith)
  scan_bits-WordResult i (suc left) bit h e = elim (Bool-cases (test_bit undef s (i * 64 + bit))) [
    | inl used ↦
        rw (fits, used) (extend _ used (scan_bits-WordResult i left (bit + 1) h (omega arith)))
    | inr free ↦ rw (fits, free) (omega arith, omega arith, free, λ b lo hi. absurd (omega arith))
  ]
    where
      fits : u32 (i * 64 + bit) ≡ i * 64 + bit
      fits = omega arith

      extend_used :
          (r : ℕ)
          → test_bit undef s (i * 64 + bit) ≡ true
          → ((b : ℕ) → i * 64 + (bit + 1) ≤ b → b < r → test_bit undef s b ≡ true)
          → (b : ℕ) → i * 64 + bit ≤ b
          → b < r
          → test_bit undef s b ≡ true
      extend_used r used rest b lo hi = elim (Bool-cases (b == i * 64 + bit)) [
        | inl at ↦ ground (arith, used)
        | inr past ↦ rest b (ground arith) hi
      ]

      extend :
          (o : Option ℕ)
          → test_bit undef s (i * 64 + bit) ≡ true
          → WordResult i (bit + 1) o
          → WordResult i bit o
      extend none used rest = extend_used (i * 64 + 64) used rest
      extend (some r) used rest = (omega arith, rest.1, rest.2, extend_used r used rest.3)

  -- What the search over the pages from `lo` to `hi` returns.
  abbrev pub Found : (lo hi r : ℕ) → Type 0
  Found lo hi r = ((r ≡ 0) × AllUsed lo hi) ⊎ FirstFree lo hi r

  -- Used pages in front change nothing.
  prepend :
      {lo mid hi r : ℕ} → lo ≤ mid → mid ≤ hi → AllUsed lo mid → Found mid hi r → Found lo hi r
  prepend {lo} {mid} {hi} {r} h k used (inl (z, rest)) = inl (
    z,
    λ b l u o. elim (Bool-cases (ltb b mid)) [
      | inl front ↦ used b l (ground arith) o
      | inr back ↦ rest b (ground arith) u o
    ],
  )
  prepend {lo} {mid} {hi} {r} h k used (inr f) = inr (record {
    from = omega (arith, f.from);
    below = f.below;
    free = f.free;
    open_word = f.open_word;
    before = λ b l u o. elim (Bool-cases (ltb b mid)) [
      | inl front ↦ used b l (ground arith) o
      | inr back ↦ f.before b (ground arith) u o
    ];
  })

  scan_frames-Found :
      (left i : ℕ)
      → i + left ≤ 2 ^ 26
      → Found (i * 64) ((i + left) * 64) (scan_frames undef s left i)
  unfolding scan_frames
  scan_frames-Found zero i h = inl (refl, λ b lo hi o. absurd (omega arith))
  scan_frames-Found (suc left) i h = elim (Bool-cases (s.bitmap i == 0xffffffff)) [
    | inl full ↦ rw full (
        later (scan_frames-Found left (i + 1) (omega arith))
          (λ b lo hi o. absurd (o (in_word b lo hi ∙ (==_iff _ _).0 full))))
    | inr looked ↦ rw looked (elim (Option-cases (scan_bits undef s i 64 0)) [
      | inl e ↦
          rw (e, scan_frames)
            (later (scan_frames-Found left (i + 1) (omega arith))
              (λ b lo hi o. (subst (WordResult i 0) e word) b (omega arith) hi))
      | inr (r, e) ↦
          let w : WordResult i 0 (some r) = subst (WordResult i 0) e word in
          rw (e, scan_frames)
            (inr (record {
              from = omega (arith, w.0);
              below = omega (arith, w.1);
              free = w.2;
              open_word =
                  λ f. cc (looked, (==_iff _ _).1 (sym (in_word r (omega (arith, w.0)) w.1) ∙ f));
              before = λ b lo hi o. w.3 b (omega arith) hi;
            }))
    ])
  ]
    where
      in_word : (b : ℕ) → i * 64 ≤ b → b < i * 64 + 64 → s.bitmap (b / 64) ≡ s.bitmap i
      in_word b lo hi = ap s.bitmap (omega arith)

      word : WordResult i 0 (scan_bits undef s i 64 0)
      word = scan_bits-WordResult i 64 0 (omega arith) refl

      later :
          Found ((i + 1) * 64) ((i + 1 + left) * 64) (scan_frames undef s left (i + 1))
          → AllUsed (i * 64) (i * 64 + 64)
          → Found (i * 64) ((i + suc left) * 64) (scan_frames undef s left (i + 1))
      later rest used =
          subst (λ hi. Found (i * 64) hi (scan_frames undef s left (i + 1))) (omega arith)
            (prepend (omega arith) (omega arith) (λ b l u o. used b l (omega arith) o) rest)

  -- In a zone that ends within the first 2^26 words and does not end before it starts,
  -- `firstFreeBit` returns the first free page, or 0 when every page is used. Words of exactly 32
  -- low ones are passed over by both.
  pub first_free_bit-Found :
      (dma : Bool)
      → zone_end s dma ≤ 2 ^ 26
      → zone_start s dma ≤ zone_end s dma
      → Found (zone_start s dma * 64) (zone_end s dma * 64) (first_free_bit undef s dma)
  unfolding first_free_bit
  first_free_bit-Found dma h k =
      let lo = zone_start s dma in
      let hi = zone_end s dma in
      subst (λ t. Found (lo * 64) (t * 64) (first_free_bit undef s dma)) (omega arith)
        (scan_frames-Found (hi - lo) lo (omega arith))

  -- There is only one such answer.
  pub Found-unique : {lo hi p q : ℕ} → p ≢ 0 → FirstFree lo hi p → Found lo hi q → p ≡ q
  Found-unique {lo} {hi} {p} {q} n f (inl (_, used)) =
      absurd (cc (used p f.from f.below f.open_word, f.free))
  Found-unique {lo} {hi} {p} {q} n f (inr g) = elim (Bool-cases (ltb p q)) [
    | inl less ↦ absurd (cc (g.before p f.from (ground arith) f.open_word, f.free))
    | inr ge ↦ elim (Bool-cases (ltb q p)) [
      | inl more ↦ absurd (cc (f.before q g.from (ground arith) g.open_word, g.free))
      | inr le ↦ ground arith
    ]
  ]
