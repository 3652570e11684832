-- ===== src/LinkedList/Removed.antt =====
-- `Remove` of Include/LinkedList.h at every index of a list with nodes.
use x3c0_microkernel.Common.{
  ℕ, zero, suc, ◌<◌, ◌≤◌, ◌≡◌, ◌≢◌, ◌⊎◌, inl, inr, refl, ◌∙◌, [], ◌∷◌, Option, some, none, length,
  arith, ◌==◌, ◌!=◌, ==_ne, Bool-cases, ltb, true,
}
use x3c0_microkernel.Common.Words.{sub_u32}
use x3c0_microkernel.LinkedList.{Heap, LinkedList, node, load, unlink_from, remove}
use x3c0_microkernel.LinkedList.Chain.{Cells, start, finish, Chain, IsList}
use x3c0_microkernel.LinkedList.Lookup.{load-node}
use x3c0_microkernel.LinkedList.Append.{Holds}
use x3c0_microkernel.LinkedList.Removal.{
  erase_at, remove_first, remove_middle, remove_last, remove_loop,
}

-- Past the end the loop of `Remove` finds nothing.
unlink_past :
    (fuel i : ℕ) (h : Heap) (p : ℕ) (xs : Cells)
    → Chain h p xs
    → length xs ≤ i
    → length xs < fuel
    → unlink_from fuel h (start xs) i ≡ some h
unfolding unlink_from
unlink_past zero i h p xs c le f = absurd (omega arith)
unlink_past (suc fuel) i h p [] c le f = refl
unlink_past (suc fuel) zero h p ((a, v) ∷ xs) c le f = absurd (omega arith)
unlink_past (suc fuel) (suc i) h p ((a, v) ∷ xs) c le f =
    rw (==_ne a 0 c.0, c.2, ==_ne v 0 c.1)
      (unlink_past fuel i h a xs c.4 (omega arith) (omega arith))

-- The node in front of the last one.
abbrev pub before_last : (previous : ℕ) → Cells → ℕ
before_last p [] = p
before_last p ((a, v) ∷ []) = p
before_last p ((a, v) ∷ x ∷ xs) = before_last a (x ∷ xs)

last-previous :
    (h : Heap) (p a v : ℕ) (xs : Cells)
    → Chain h p ((a, v) ∷ xs)
    → (w : ℕ) × (h (finish p ((a, v) ∷ xs)) ≡ some (node w 0 (before_last p ((a, v) ∷ xs))))
      × (finish p ((a, v) ∷ xs) ≢ 0)
last-previous h p a v [] c = (v, c.2, c.0)
last-previous h p a v ((b, w) ∷ xs) c = last-previous h a b w xs c.4

remove_count :
    (fuel n : ℕ) (h : Heap) (l : LinkedList) (xs : Cells)
    → (is : IsList h l xs) → suc n ≡ length xs
    → remove fuel h l (suc n)
      ≡ some (h, record { count = n; first = l.first; last = before_last is.previous xs })
unfolding remove
remove_count fuel n h l [] is e = absurd (omega arith)
remove_count fuel n h l ((a, v) ∷ xs) is e =
    let (w, stored, there) = last-previous h is.previous a v xs is.chain in
    let at_count : (suc n == l.count) ≡ true = ground (arith, is.count) in
    let has_last : (l.last != 0) ≡ true = ground (arith, is.last, there) in
    let loaded : load h l.last ≡ some (node w 0 (before_last is.previous ((a, v) ∷ xs))) =
      rw is.last (load-node h there stored) in
    let less : sub_u32 l.count 1 ≡ n = omega (arith, is.count, is.small) in
    rw (==_ne (suc n) 0 (λ z. omega (arith, z)), at_count, has_last, loaded, less) refl

-- What `Remove(i)` of a list of the nodes `xs` gives. First index: the first node is off the list.
-- In the middle: the node is out of the chain, and the count is one too large. Last index: a fault.
-- Index that equals the count: the heap is as it was, `Last` is the node in front of the last one
-- and the count is one too small. Any other: nothing changes.
abbrev pub Removed :
    (h : Heap) (l : LinkedList) (previous : ℕ) (xs : Cells) (i : ℕ) (r : Option (Heap × LinkedList))
    → Type 0
Removed h l previous xs i r =
    ((i ≡ 0) × (m : LinkedList) × (r ≡ some (h, m)) × Holds h m (erase_at 0 xs))
    ⊎ ((0 < i)
        × (suc i < length xs)
        × (g : Heap) × (p : ℕ) × (r ≡ some (g, l))
        × Chain g p (erase_at i xs)
        × (l.first ≡ start (erase_at i xs))
        × (l.count ≡ suc (length (erase_at i xs))))
    ⊎ ((0 < i) × (suc i ≡ length xs) × (r ≡ none))
    ⊎ ((0 < i)
        × (n : ℕ) × (i ≡ suc n)
        × (i ≡ length xs)
        × (r ≡ some (h, record { count = n; first = l.first; last = before_last previous xs })))
    ⊎ ((length xs < i) × (r ≡ some (h, l)))

-- On a well-formed list with nodes, `Remove` with any index does one of five things. It takes the
-- first node off at index 0. In the middle it takes the node out of the chain and leaves the count
-- as it was. At the last index of two or more nodes it faults. With the count as the index it
-- leaves every node where it was, but moves `Last` and the count down. Past that it does nothing.
pub remove-Removed :
    (fuel i : ℕ) (h : Heap) (l : LinkedList) (a v : ℕ) (xs : Cells)
    → (is : IsList h l ((a, v) ∷ xs)) → suc (length xs) < fuel
    → Removed h l is.previous ((a, v) ∷ xs) i (remove fuel h l i)
remove-Removed fuel zero h l a v xs is f =
    let (m, e, holds) = remove_first fuel h l a v xs is in inl (refl, m, e, holds)
remove-Removed fuel (suc i) h l a v xs is f = elim (Bool-cases (i == length xs)) [
  | inl y ↦
      let e : i ≡ length xs = ground (arith, y) in
      inr (
        inr (
          inr (
            inl (
              omega arith,
              i,
              refl,
              omega (arith, e),
              remove_count fuel i h l ((a, v) ∷ xs) is (omega (arith, e)),
            ))))
  | inr other ↦ elim (Bool-cases (ltb i (length xs))) [
    | inr past ↦
        let over : suc (length xs) < suc i = ground (arith, past, other) in
        inr (
          inr (
            inr (
              inr (
                over,
                remove_loop fuel i h l (λ e. omega (arith, e, is.count, over))
                    ∙ rw
                        (
                          is.first,
                          unlink_past fuel (suc i) h is.previous ((a, v) ∷ xs) is.chain
                              (omega (arith, over)) f,
                        )
                        refl,
              ))))
    | inl inside ↦ elim (Bool-cases (suc i == length xs)) [
      | inl y ↦
          let e : suc (suc i) ≡ suc (length xs) = ground (arith, y) in
          inr (inr (inl (omega arith, e, remove_last fuel i h l ((a, v) ∷ xs) is e f)))
      | inr inner ↦
          let small : suc (suc i) < suc (length xs) = ground (arith, inside, inner) in
          let (g, p, e, chain, first, count) = remove_middle fuel i h l ((a, v) ∷ xs) is small f in
          inr (inl (omega arith, small, g, p, e, chain, first, count))
    ]
  ]
]
