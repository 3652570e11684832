-- ===== src/LinkedList/Removal.antt =====
-- `Remove` of Include/LinkedList.h: what it does at the first index, in the middle and at the last
-- index, and when the item is missing.
use x3c0_microkernel.Common.{
  ℕ, zero, suc, ◌<◌, ◌≡◌, ◌≢◌, inl, inr, refl, ◌∙◌, [], ◌∷◌, Option, some, none, length, arith,
  ◌==◌, ◌!=◌, ==_ne, update, true, false, ◌>>=◌,
}
use x3c0_microkernel.Common.Words.{sub_u32}
use x3c0_microkernel.LinkedList.{
  Heap, LinkedList, Node, node, load, unlink_from, remove, remove_item,
}
use x3c0_microkernel.LinkedList.Chain.{Cells, start, Absent, Chain, IsList}
use x3c0_microkernel.LinkedList.Lookup.{value_at, load-node, FindResult, find-FindResult}
use x3c0_microkernel.LinkedList.Append.{Holds}

-- What `Remove(0)` leaves, field by field.
pub remove_head :
    (fuel : ℕ) (h : Heap) (l : LinkedList) (a v : ℕ) (xs : Cells)
    → IsList h l ((a, v) ∷ xs)
    → remove fuel h l 0 ≡ some (h, record { count = length xs; first = start xs; last = l.last })
unfolding remove
remove_head fuel h l a v xs is =
    let there : (l.first != 0) ≡ true = ground (arith, is.first, is.chain.0) in
    let loaded : load h l.first ≡ some (node v (start xs) is.previous) =
      rw is.first (load-node h is.chain.0 is.chain.2) in
    let less : sub_u32 l.count 1 ≡ length xs = omega (arith, is.count, is.small) in
    rw (there, loaded, less) refl

-- On a well-formed list with nodes, `Remove(0)` takes the first node off, and writes nothing to
-- the heap.
pub remove_first :
    (fuel : ℕ) (h : Heap) (l : LinkedList) (a v : ℕ) (xs : Cells)
    → IsList h l ((a, v) ∷ xs)
    → (m : LinkedList) × (remove fuel h l 0 ≡ some (h, m)) × Holds h m xs
remove_first fuel h l a v [] is =
    (record { count = 0; first = 0; last = l.last }, remove_head fuel h l a v [] is, refl)
remove_first fuel h l a v ((b, w) ∷ xs) is = (
  record { count = suc (length xs); first = b; last = l.last },
  remove_head fuel h l a v ((b, w) ∷ xs) is,
  record {
    previous = a;
    chain = is.chain.4;
    first = refl;
    last = is.last;
    count = refl;
    small = omega (arith, is.small);
  },
)

abbrev pub erase_at : ℕ → Cells → Cells
erase_at i [] = []
erase_at zero (x ∷ xs) = xs
erase_at (suc i) (x ∷ xs) = x ∷ erase_at i xs

length-erase_at : (i : ℕ) (xs : Cells) → i < length xs → suc (length (erase_at i xs)) ≡ length xs
length-erase_at i [] h = absurd (omega arith)
length-erase_at zero (x ∷ xs) h = refl
length-erase_at (suc i) (x ∷ xs) h = omega (arith, length-erase_at i xs (omega arith))

Absent-erase_at : (p i : ℕ) (xs : Cells) → Absent p xs → Absent p (erase_at i xs)
Absent-erase_at p zero [] n = tt
Absent-erase_at p (suc i) [] n = tt
Absent-erase_at p zero ((a, v) ∷ xs) n = n.1
Absent-erase_at p (suc i) ((a, v) ∷ xs) n = (n.0, Absent-erase_at p i xs n.1)

pub Chain-update :
    (h : Heap) (z : ℕ) (n : Option Node) (p : ℕ) (xs : Cells)
    → Absent z xs
    → Chain h p xs
    → Chain (update h z n) p xs
Chain-update h z n p [] t c = tt
Chain-update h z n p ((a, v) ∷ xs) t c =
    (c.0, c.1, ground (arith, c.2, t.0), c.3, Chain-update h z n a xs t.1 c.4)

-- Taking out the node behind `a`.
unlink_second :
    (fuel : ℕ) (h : Heap) (p a v b w c u : ℕ) (xs : Cells)
    → Chain h p ((a, v) ∷ (b, w) ∷ (c, u) ∷ xs)
    → let g = update (update h a (some (node v c p))) c (some (node u (start xs) a)) in
      (unlink_from (suc (suc fuel)) h a 1 ≡ some g) × Chain g p ((a, v) ∷ (c, u) ∷ xs)
unfolding unlink_from
unlink_second fuel h p a v b w c u xs ch =
    let (na, nv, ha, ta, (nb, nw, hb, tb, (nc, nu, hc, tc, rest))) = ch in
    (
      ground (arith),
      (
        na,
        nv,
        ground arith,
        ta.1,
        (
          nc,
          nu,
          ground arith,
          tc,
          Chain-update _ c _ c xs tc (Chain-update h a _ c xs ta.1.1 rest),
        ),
      ),
    )

step_over :
    (fuel i : ℕ) (h : Heap) (p a v b w : ℕ) (xs : Cells)
    → Chain h p ((a, v) ∷ (b, w) ∷ xs)
    → unlink_from (suc (suc fuel)) h a (suc (suc i)) ≡ unlink_from (suc fuel) h b (suc i)
unfolding unlink_from
step_over fuel i h p a v b w xs ch =
    let here : (a == 0) ≡ false = ground (arith, ch.0) in
    let full : (v == 0) ≡ false = ground (arith, ch.1) in rw (here, ch.2, full) refl

-- No step of a removal touches a node outside of the list.
unlink_behind :
    (fuel i : ℕ) (h : Heap) (p a v : ℕ) (xs : Cells)
    → Chain h p ((a, v) ∷ xs)
    → suc i < length xs
    → length xs < fuel
    → (g : Heap) × (unlink_from (suc fuel) h a (suc i) ≡ some g)
      × Chain g p ((a, v) ∷ erase_at i xs)
      × ((z : ℕ) → Absent z ((a, v) ∷ xs) → g z ≡ h z)
unlink_behind zero i h p a v xs ch small f = absurd (omega arith)
unlink_behind (suc fuel) i h p a v [] ch small f = absurd (omega arith)
unlink_behind (suc fuel) i h p a v ((b, w) ∷ []) ch small f = absurd (omega arith)
unlink_behind (suc fuel) zero h p a v ((b, w) ∷ (c, u) ∷ xs) ch small f =
    let (runs, chain) = unlink_second fuel h p a v b w c u xs ch in
    (_, runs, chain, λ z n. ground arith)
unlink_behind (suc fuel) (suc i) h p a v ((b, w) ∷ (c, u) ∷ xs) ch small f =
    let (g, e, chain, same) =
      unlink_behind fuel i h a b w ((c, u) ∷ xs) ch.4 (omega arith) (omega arith) in
    (
      g,
      step_over fuel i h p a v b w ((c, u) ∷ xs) ch ∙ e,
      (ch.0, ch.1, same a ch.3 ∙ ch.2, (ch.3.0, Absent-erase_at a i ((c, u) ∷ xs) ch.3.1), chain),
      λ z n. same z n.1,
    )

unlink_last :
    (fuel i : ℕ) (h : Heap) (p a v : ℕ) (xs : Cells)
    → Chain h p ((a, v) ∷ xs)
    → suc i ≡ length xs
    → length xs < fuel
    → unlink_from (suc fuel) h a (suc i) ≡ none
unfolding unlink_from
unlink_last zero i h p a v xs ch e f = absurd (omega arith)
unlink_last (suc fuel) i h p a v [] ch e f = absurd (omega arith)
unlink_last (suc fuel) zero h p a v ((b, w) ∷ []) ch e f =
    let (na, nv, ha, ta, (nb, nw, hb, tb, rest)) = ch in ground arith
unlink_last (suc fuel) zero h p a v ((b, w) ∷ (c, u) ∷ xs) ch e f = absurd (omega arith)
unlink_last (suc fuel) (suc i) h p a v ((b, w) ∷ []) ch e f = absurd (omega arith)
unlink_last (suc fuel) (suc i) h p a v ((b, w) ∷ (c, u) ∷ xs) ch e f =
    step_over fuel i h p a v b w ((c, u) ∷ xs) ch
    ∙ unlink_last fuel i h a b w ((c, u) ∷ xs) ch.4 (omega arith) (omega arith)

-- Past the two tests on the index, `Remove` is its loop.
pub remove_loop :
    (fuel i : ℕ) (h : Heap) (l : LinkedList)
    → suc i ≢ l.count
    → remove fuel h l (suc i) ≡ (unlink_from fuel h l.first (suc i) >>= λ g. some (g, l))
unfolding remove
remove_loop fuel i h l n = rw (==_ne (suc i) 0 (λ e. omega arith), ==_ne (suc i) l.count n) refl

-- On a well-formed list, `Remove` in the middle takes the node out of the chain and leaves the
-- list as it was, so the count is then one more than the number of nodes.
pub remove_middle :
    (fuel i : ℕ) (h : Heap) (l : LinkedList) (xs : Cells)
    → IsList h l xs
    → suc (suc i) < length xs
    → length xs < fuel
    → (g : Heap) × (p : ℕ) × (remove fuel h l (suc i) ≡ some (g, l))
      × Chain g p (erase_at (suc i) xs)
      × (l.first ≡ start (erase_at (suc i) xs))
      × (l.count ≡ suc (length (erase_at (suc i) xs)))
remove_middle fuel i h l [] is small f = absurd (omega arith)
remove_middle zero i h l ((a, v) ∷ xs) is small f = absurd (omega arith)
remove_middle (suc fuel) i h l ((a, v) ∷ xs) is small f =
    let (g, e, chain, _) =
      unlink_behind fuel i h is.previous a v xs is.chain (omega arith) (omega arith) in
    (
      g,
      is.previous,
      remove_loop (suc fuel) i h l (λ q. omega (arith, is.count)) ∙ rw (is.first, e) refl,
      chain,
      is.first,
      omega (arith, is.count, length-erase_at i xs (omega arith)),
    )

-- On a well-formed list of two or more nodes, `Remove` at the last index faults: it writes through
-- the null pointer behind the last node.
pub remove_last :
    (fuel i : ℕ) (h : Heap) (l : LinkedList) (xs : Cells)
    → IsList h l xs
    → suc (suc i) ≡ length xs
    → length xs < fuel
    → remove fuel h l (suc i) ≡ none
remove_last fuel i h l [] is e f = absurd (omega arith)
remove_last zero i h l ((a, v) ∷ xs) is e f = absurd (omega arith)
remove_last (suc fuel) i h l ((a, v) ∷ xs) is e f =
    remove_loop (suc fuel) i h l (λ q. omega (arith, is.count))
    ∙ rw (is.first, unlink_last fuel i h is.previous a v xs is.chain (omega arith) (omega arith))
        refl

-- On a well-formed list with nodes, `Remove` of an item that no node holds takes the first node
-- off.
pub remove_item_missing :
    (fuel item : ℕ) (h : Heap) (l : LinkedList) (a v : ℕ) (xs : Cells)
    → IsList h l ((a, v) ∷ xs)
    → ((k : ℕ) → k < suc (length xs) → value_at ((a, v) ∷ xs) k ≢ item)
    → suc (length xs) < fuel
    → (m : LinkedList) × (remove_item fuel h l item ≡ some (h, m)) × Holds h m xs
unfolding remove_item
remove_item_missing fuel item h l a v xs is missing f =
    let (m, removed, holds) = remove_first fuel h l a v xs is in
    let (r, e, found) = find-FindResult fuel item is f in
    (m, rw (e, not_found r found) removed, holds)
  where
    not_found : (r : ℕ) → FindResult item 0 r ((a, v) ∷ xs) → r ≡ 0
    not_found r (inl (j, small, e, at, _)) = absurd (missing j small at)
    not_found r (inr (z, _)) = z
