-- ===== src/LinkedList/Cleared.antt =====
-- `Clear` and the destructor of Include/LinkedList.h.
use x3c0_microkernel.Common.{
  ℕ, zero, suc, ◌+◌, ◌<◌, ◌≡◌, ◌≢◌, ◌⊎◌, inl, inr, refl, sym, ◌∙◌, [], ◌∷◌, some, none, length,
  arith, ◌!=◌, ==_ne, ==_self, update, update_self, update_ne, true,
}
use x3c0_microkernel.Common.Words.{u32}
use x3c0_microkernel.LinkedList.{
  Heap, LinkedList, Node, node, new_node, add, get_from, get_item, unlink_all, clear, free_from,
}
use x3c0_microkernel.LinkedList.Chain.{Cells, start, Absent, Chain, IsList}
use x3c0_microkernel.LinkedList.Removal.{Chain-update}

-- The address of node number `i`, 0 past the end.
abbrev pub address_at : Cells → ℕ → ℕ
address_at [] i = 0
address_at ((a, _) ∷ xs) zero = a
address_at ((a, _) ∷ xs) (suc i) = address_at xs i

-- The node in front of a chain: none, or one that is not in the chain.
abbrev InFront : Heap → ℕ → Cells → Type 0
InFront h p xs = (p ≡ 0) ⊎ ((p ≢ 0) × (n : Node) × (h p ≡ some n) × Absent p xs)

unlink_all-end : (fuel : ℕ) (h : Heap) → unlink_all (suc fuel) h 0 ≡ some h
unfolding unlink_all
unlink_all-end fuel h = refl

-- One round of `Clear` on a node behind the node `p`, if there is one.
unlink_all-step :
    (fuel : ℕ) (h : Heap) (p a v : ℕ) (xs : Cells)
    → Chain h p ((a, v) ∷ xs)
    → InFront h p ((a, v) ∷ xs)
    → (g : Heap) × (unlink_all (suc fuel) h a ≡ unlink_all fuel g (start xs))
      × Chain g a xs
      × (g a ≡ some (node v (start xs) 0))
unfolding unlink_all
unlink_all-step fuel h p a v xs c (inl z) =
    let stored : h a ≡ some (node v (start xs) 0) = rw (sym z) c.2 in
    (
      update h a (some (node v (start xs) 0)),
      rw (==_ne a 0 c.0, stored, ==_ne v 0 c.1, stored, ==_self a) refl,
      Chain-update h a _ a xs c.3 c.4,
      update_self h a _,
    )
unlink_all-step fuel h p a v xs c (inr (np, n, e, absent)) =
    let g = update h p (some (record n { next = 0 })) in
    let behind : (p != 0) ≡ true = ground (arith, np) in
    (
      update g a (some (node v (start xs) 0)),
      rw
          (
            ==_ne a 0 c.0,
            c.2,
            ==_ne v 0 c.1,
            behind,
            ==_ne p 0 np,
            e,
            ==_ne p a absent.0,
            c.2,
            ==_self a,
          )
          refl,
      Chain-update g a _ a xs c.3 (Chain-update h p _ a xs absent.1 c.4),
      update_self g a _,
    )

unlink_all-runs :
    (fuel : ℕ) (h : Heap) (p : ℕ) (xs : Cells)
    → Chain h p xs
    → InFront h p xs
    → length xs < fuel
    → (g : Heap) × (unlink_all fuel h (start xs) ≡ some g)
unlink_all-runs zero h p xs c front f = absurd (omega arith)
unlink_all-runs (suc fuel) h p [] c front f = (h, unlink_all-end fuel h)
unlink_all-runs (suc fuel) h p ((a, v) ∷ xs) c front f =
    let (g, step, chain, e) = unlink_all-step fuel h p a v xs c front in
    let (last, d) =
      unlink_all-runs fuel g a xs chain (inr (c.0, node v (start xs) 0, e, c.3))
        (omega (arith, f)) in
    (last, step ∙ d)

-- `GetItem` of a list without a first node.
get_item-none :
    (fuel i : ℕ) (h : Heap) (l : LinkedList) → l.first ≡ 0 → get_item (suc fuel) h l i ≡ some 0
unfolding get_item get_from
get_item-none fuel zero h l e = rw e refl
get_item-none fuel (suc i) h l e = rw e refl

-- `Clear` on a well-formed list with nodes, whose first node has none in front of it, succeeds but
-- leaves the count as it was. So an item that is added afterwards never is in the list: the count
-- goes up, `Last` is its node, and `GetItem` returns 0 at every index.
pub clear-lost :
    (fuel : ℕ) (h : Heap) (l : LinkedList) (a v : ℕ) (xs : Cells) (f item : ℕ)
    → (is : IsList h l ((a, v) ∷ xs)) → is.previous ≡ 0
    → suc (length xs) < fuel
    → (g : Heap) × (clear fuel h l
        ≡ some (g, record { count = suc (length xs); first = 0; last = 0 }))
      × (k : Heap) × (m : LinkedList) × (add g
            (record { count = suc (length xs); first = 0; last = 0 })
            f
            item
          ≡ some (k, m))
      × (m.count ≡ u32 (suc (length xs) + 1))
      × (m.last ≡ f)
      × ((j i : ℕ) → get_item (suc j) k m i ≡ some 0)
unfolding clear add
clear-lost fuel h l a v xs f item is front room =
    let (g, e) = unlink_all-runs fuel h is.previous ((a, v) ∷ xs) is.chain (inl front) room in
    let m : LinkedList = record { count = u32 (suc (length xs) + 1); first = 0; last = f } in
    (
      g,
      rw (is.first, e, is.count) refl,
      new_node g f item,
      m,
      rw (==_ne (suc (length xs)) 0 (λ z. omega (arith, z))) refl,
      refl,
      refl,
      λ j i. get_item-none j i (new_node g f item) m refl,
    )

-- What the destructor leaves: the nodes are gone and all else is there.
pub record Freed (h : Heap) (xs : Cells) (g : Heap) : Type 0 where
  pub gone : (i : ℕ) → i < length xs → g (address_at xs i) ≡ none
  pub kept : (p : ℕ) → Absent p xs → g p ≡ h p

-- The destructor reads no node that it has freed, frees each node of the chain and nothing else.
pub free_from-Freed :
    (fuel : ℕ) (h : Heap) (p : ℕ) (xs : Cells)
    → Chain h p xs
    → length xs < fuel
    → (g : Heap) × (free_from fuel h (start xs) ≡ some g) × Freed h xs g
unfolding free_from
free_from-Freed zero h p xs c f = absurd (omega arith)
free_from-Freed (suc fuel) h p [] c f =
    (h, refl, record { gone = λ i b. absurd (omega (arith, b)); kept = λ q n. refl })
free_from-Freed (suc fuel) h p ((a, v) ∷ xs) c f =
    let (g, e, freed) =
      free_from-Freed fuel (update h a none) a xs (Chain-update h a none a xs c.3 c.4)
        (omega (arith, f)) in
    (
      g,
      rw (==_ne a 0 c.0, c.2) e,
      record {
        gone = every g freed;
        kept = λ q n. freed.kept q n.1 ∙ update_ne h a q none (λ z. n.0 (sym z));
      },
    )
  where
    every :
        (g : Heap)
        → Freed (update h a none) xs g
        → (i : ℕ) → i < suc (length xs)
        → g (address_at ((a, v) ∷ xs) i) ≡ none
    every g freed zero b = freed.kept a c.3 ∙ update_self h a none
    every g freed (suc i) b = freed.gone i (omega (arith, b))
