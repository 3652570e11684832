-- ===== src/LinkedList/Lookup.antt =====
-- `GetItem` and `Find` of Include/LinkedList.h on a list of nodes.
use x3c0_microkernel.Common.{
  ℕ, zero, suc, ◌+◌, ◌<◌, ◌^◌, ◌≡◌, ◌≢◌, ◌⊎◌, inl, inr, refl, ap, [], ◌∷◌, some, length, arith,
  ◌==◌, Bool-cases,
}
use x3c0_microkernel.Common.Words.{u32}
use x3c0_microkernel.LinkedList.{
  Heap, LinkedList, Node, node, load, get_from, get_item, find_from, find,
}
use x3c0_microkernel.LinkedList.Chain.{Cells, start, Chain, IsList}

-- The value of node number `i`, 0 past the end.
abbrev pub value_at : Cells → ℕ → ℕ
value_at [] i = 0
value_at ((_, v) ∷ xs) zero = v
value_at ((_, v) ∷ xs) (suc i) = value_at xs i

pub load-node : (h : Heap) {a : ℕ} {n : Node} → a ≢ 0 → h a ≡ some n → load h a ≡ some n
load-node h ne e = ground arith

get_from-value_at :
    (fuel : ℕ) (h : Heap) (p : ℕ) (xs : Cells) (i : ℕ)
    → Chain h p xs
    → length xs < fuel
    → get_from fuel h (start xs) i ≡ some (value_at xs i)
unfolding get_from
get_from-value_at zero h p xs i c f = absurd (omega arith)
get_from-value_at (suc fuel) h p [] zero c f = refl
get_from-value_at (suc fuel) h p [] (suc i) c f = refl
get_from-value_at (suc fuel) h p ((a, v) ∷ xs) zero c f = ground (arith, load-node h c.0 c.2)
get_from-value_at (suc fuel) h p ((a, v) ∷ xs) (suc i) c f =
    ground (arith, get_from-value_at fuel h a xs i c.4 (omega arith), c.0, c.2)

-- On a well-formed list, `GetItem` returns the value of the node at the index, and 0 past the end.
pub get_item-value_at :
    {h : Heap} {l : LinkedList} {xs : Cells} (fuel i : ℕ)
    → IsList h l xs
    → length xs < fuel
    → get_item fuel h l i ≡ some (value_at xs i)
unfolding get_item
get_item-value_at {h} {l} {xs} fuel i is f =
    rw is.first (get_from-value_at fuel h is.previous xs i is.chain f)

-- The result of a search that counts from `i`.
abbrev pub FindResult : (item i r : ℕ) → Cells → Type 0
FindResult item i r xs =
    ((j : ℕ) × (j < length xs)
      × (r ≡ i + j)
      × (value_at xs j ≡ item)
      × ((k : ℕ) → k < j → value_at xs k ≢ item))
    ⊎ ((r ≡ 0) × ((k : ℕ) → k < length xs → value_at xs k ≢ item))

FindResult-cons :
    (item i r a v : ℕ) (xs : Cells)
    → v ≢ item
    → FindResult item (i + 1) r xs
    → FindResult item i r ((a, v) ∷ xs)
FindResult-cons item i r a v xs ne (inl (j, small, e, at, before)) =
    inl (suc j, omega arith, omega arith, at, earlier)
  where
    earlier : (k : ℕ) → k < suc j → value_at ((a, v) ∷ xs) k ≢ item
    earlier zero h = ne
    earlier (suc k) h = before k (omega arith)
FindResult-cons item i r a v xs ne (inr (e, none_there)) = inr (e, nowhere)
  where
    nowhere : (k : ℕ) → k < suc (length xs) → value_at ((a, v) ∷ xs) k ≢ item
    nowhere zero h = ne
    nowhere (suc k) h = none_there k (omega arith)

find_from-FindResult :
    (fuel : ℕ) (h : Heap) (p : ℕ) (xs : Cells) (item i : ℕ)
    → Chain h p xs
    → length xs < fuel
    → i + length xs < 2 ^ 32
    → (r : ℕ) × (find_from fuel h (start xs) item i ≡ some r) × FindResult item i r xs
unfolding find_from
find_from-FindResult zero h p xs item i c f s = absurd (omega arith)
find_from-FindResult (suc fuel) h p [] item i c f s =
    (0, refl, inr (refl, λ k b. absurd (omega arith)))
find_from-FindResult (suc fuel) h p ((a, v) ∷ xs) item i c f s = elim (Bool-cases (v == item)) [
  | inl hit ↦ (
    i,
    ground (arith, load-node h c.0 c.2),
    inl (0, omega arith, omega arith, ground arith, λ k b. absurd (omega arith)),
  )
  | inr miss ↦
      let (r, e, found) =
        find_from-FindResult fuel h a xs item (i + 1) c.4 (omega arith) (omega arith) in
      let next : u32 (i + 1) ≡ i + 1 = omega arith in
      (
        r,
        rw next (ground (arith, load-node h c.0 c.2, e)),
        FindResult-cons item i r a v xs (ground arith) found,
      )
]

-- On a well-formed list, `Find` returns the first index that holds the item, or 0 when none does.
pub find-FindResult :
    {h : Heap} {l : LinkedList} {xs : Cells} (fuel item : ℕ)
    → IsList h l xs
    → length xs < fuel
    → (r : ℕ) × (find fuel h l item ≡ some r) × FindResult item 0 r xs
unfolding find
find-FindResult {h} {l} {xs} fuel item is f =
    let (r, e, found) =
      find_from-FindResult fuel h is.previous xs item 0 is.chain f (omega (arith, is.small)) in
    (r, rw is.first e, found)

-- The value of the first node is found there.
pub find-first :
    {h : Heap} {l : LinkedList} {a v : ℕ} {xs : Cells} (fuel : ℕ)
    → IsList h l ((a, v) ∷ xs)
    → suc (length xs) < fuel
    → find fuel h l v ≡ some 0
find-first {h} {l} {a} {v} {xs} fuel is f =
    let (r, e, found) = find-FindResult fuel v is f in rw e (ap some (at_start r found))
  where
    at_start : (r : ℕ) → FindResult v 0 r ((a, v) ∷ xs) → r ≡ 0
    at_start r (inl (zero, small, e, at, before)) = e
    at_start r (inl (suc i, small, e, at, before)) = absurd (before 0 (omega arith) refl)
    at_start r (inr (z, _)) = z

-- The first node can be read.
pub load-first :
    {h : Heap} {l : LinkedList} {a v : ℕ} {xs : Cells}
    → (is : IsList h l ((a, v) ∷ xs)) → load h l.first ≡ some (node v (start xs) is.previous)
load-first {h} is = rw is.first (load-node h is.chain.0 is.chain.2)
