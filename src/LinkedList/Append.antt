-- ===== src/LinkedList/Append.antt =====
-- `Add` of Include/LinkedList.h: the new node comes last and the others stay.
use x3c0_microkernel.Common.{
  ℕ, suc, ◌+◌, ◌<◌, ◌^◌, ◌≡◌, ◌≢◌, refl, sym, ◌∙◌, [], ◌∷◌, ◌++◌, some, none, length, arith, update,
  length-append,
}
use x3c0_microkernel.Common.Words.{u32}
use x3c0_microkernel.LinkedList.{Heap, LinkedList, node, new_node, link, add}
use x3c0_microkernel.LinkedList.Chain.{Cells, finish, Absent, Chain, IsList}

pub Absent-unused : (h : Heap) (f p : ℕ) (xs : Cells) → h f ≡ none → Chain h p xs → Absent f xs
Absent-unused h f p [] e c = tt
Absent-unused h f p ((a, v) ∷ xs) e c = (λ q. ground (arith, c.2), Absent-unused h f a xs e c.4)

pub Absent-finish :
    (f p : ℕ) (a v : ℕ) (xs : Cells) → Absent f ((a, v) ∷ xs) → f ≢ finish p ((a, v) ∷ xs)
Absent-finish f p a v [] n = n.0
Absent-finish f p a v ((b, w) ∷ xs) n = Absent-finish f a b w xs n.1

-- The last node of a list points nowhere.
pub last_node :
    (h : Heap) (p a v : ℕ) (xs : Cells)
    → Chain h p ((a, v) ∷ xs)
    → let z = finish p ((a, v) ∷ xs) in
      (w : ℕ) × (q : ℕ) × (z ≢ 0) × (w ≢ 0) × (h z ≡ some (node w 0 q))
last_node h p a v [] c = (v, p, c.0, c.1, c.2)
last_node h p a v ((b, w) ∷ xs) c = last_node h a b w xs c.4

-- `g` is `h` with a node `f` linked behind the last node `z`.
record Linked (h : Heap) (z f item : ℕ) (g : Heap) : Type 0 where
  others : (a : ℕ) → a ≢ f → a ≢ z → g a ≡ h a
  fresh : g f ≡ some (node item 0 z)
  joined : (w q : ℕ) → h z ≡ some (node w 0 q) → g z ≡ some (node w f q)

Absent-snoc : (a f item : ℕ) (xs : Cells) → a ≢ f → Absent a xs → Absent a (xs ++ (f, item) ∷ [])
Absent-snoc a f item [] n t = (n, tt)
Absent-snoc a f item ((b, w) ∷ xs) n t = (t.0, Absent-snoc a f item xs n t.1)

Chain-snoc :
    (h g : Heap) (p a v : ℕ) (xs : Cells) (f item : ℕ)
    → f ≢ 0
    → item ≢ 0
    → Absent f ((a, v) ∷ xs)
    → Linked h (finish p ((a, v) ∷ xs)) f item g
    → Chain h p ((a, v) ∷ xs)
    → Chain g p (((a, v) ∷ xs) ++ (f, item) ∷ [])
Chain-snoc h g p a v [] f item nf ni t l c =
    (c.0, c.1, l.joined v p c.2, (λ e. t.0 (sym e), tt), (nf, ni, l.fresh, tt, tt))
Chain-snoc h g p a v ((b, w) ∷ xs) f item nf ni t l c = (
  c.0,
  c.1,
  l.others a (λ e. t.0 (sym e)) (Absent-finish a a b w xs c.3) ∙ c.2,
  Absent-snoc a f item ((b, w) ∷ xs) (λ e. t.0 (sym e)) c.3,
  Chain-snoc h g a b w xs f item nf ni t.1 l c.4,
)

-- The heap that `Add` leaves.
abbrev joined_heap : Heap → (z f item w q : ℕ) → Heap
joined_heap h z f item w q =
    update (update (update h f (some (node item 0 0))) z (some (node w f q))) f
      (some (node item 0 z))

link-Linked :
    (h : Heap) (z f item w q : ℕ)
    → z ≢ 0
    → f ≢ 0
    → z ≢ f
    → w ≢ 0
    → h z ≡ some (node w 0 q)
    → (link (new_node h f item) z f ≡ some (joined_heap h z f item w q))
      × Linked h z f item (joined_heap h z f item w q)
link-Linked h z f item w q nz nf nzf nw e = (
  ground arith,
  record {
    others = λ a n m. ground arith;
    fresh = ground arith;
    joined = λ w' q' e'. ground arith;
  },
)

finish-snoc : (p f item : ℕ) (xs : Cells) → finish p (xs ++ (f, item) ∷ []) ≡ f
finish-snoc p f item [] = refl
finish-snoc p f item ((a, v) ∷ xs) = finish-snoc a f item xs

-- A list that is empty by its count, whatever its pointers hold, or one with nodes.
abbrev pub Holds : Heap → LinkedList → Cells → Type 0
Holds h l [] = l.count ≡ 0
Holds h l (x ∷ xs) = IsList h l (x ∷ xs)

-- `Add` to a list that is empty by its count writes the new node only.
pub add_empty :
    (h : Heap) (l : LinkedList) (f item : ℕ)
    → l.count ≡ 0
    → f ≢ 0
    → item ≢ 0
    → (g : Heap) × (m : LinkedList) × (add h l f item ≡ some (g, m))
      × IsList g m ((f, item) ∷ [])
      × ((a : ℕ) → a ≢ f → g a ≡ h a)
unfolding add
add_empty h l f item z nf ni = (
  update (update h f (some (node item 0 0))) f (some (node item 0 0)),
  record { count = 1; first = f; last = f },
  ground arith,
  record {
    previous = 0;
    chain = (nf, ni, ground arith, tt, tt);
    first = refl;
    last = refl;
    count = refl;
    small = omega arith;
  },
  λ a n. ground arith,
)

add_behind :
    (h : Heap) (l : LinkedList) (f item a v : ℕ) (xs : Cells)
    → IsList h l ((a, v) ∷ xs)
    → f ≢ 0
    → item ≢ 0
    → h f ≡ none
    → suc (suc (length xs)) < 2 ^ 32
    → (g : Heap) × (m : LinkedList) × (add h l f item ≡ some (g, m))
      × IsList g m (((a, v) ∷ xs) ++ (f, item) ∷ [])
      × ((b : ℕ) → b ≢ f → b ≢ l.last → g b ≡ h b)
unfolding add
add_behind h l f item a v xs is nf ni unused small =
    let absent = Absent-unused h f is.previous ((a, v) ∷ xs) unused is.chain in
    let (w, q, nz, nw, e) = last_node h is.previous a v xs is.chain in
    let z : ℕ = finish is.previous ((a, v) ∷ xs) in
    let apart : z ≢ f = λ d. Absent-finish f is.previous a v xs absent (sym d) in
    let (runs, linked) = link-Linked h z f item w q nz nf apart nw e in
    (
      joined_heap h z f item w q,
      record { count = u32 (l.count + 1); first = l.first; last = f },
      rw is.last (ground (arith, is.count, runs)),
      record {
        previous = is.previous;
        chain = Chain-snoc h _ is.previous a v xs f item nf ni absent linked is.chain;
        first = is.first;
        last = sym (finish-snoc is.previous f item ((a, v) ∷ xs));
        count = omega (arith, is.count, length-append xs ((f, item) ∷ []));
        small = omega (arith, length-append xs ((f, item) ∷ []));
      },
      λ b n m. linked.others b n (λ d. m (d ∙ sym is.last)),
    )

-- On a well-formed list of fewer than 2^32 - 1 nodes, `Add` with a fresh node and a value that is
-- not null succeeds: the list then holds the same values in the same order and the new one last,
-- and no node but the last and the new one changes.
pub add-IsList :
    (h : Heap) (l : LinkedList) (f item : ℕ) (xs : Cells)
    → Holds h l xs
    → f ≢ 0
    → item ≢ 0
    → h f ≡ none
    → suc (length xs) < 2 ^ 32
    → (g : Heap) × (m : LinkedList) × (add h l f item ≡ some (g, m))
      × IsList g m (xs ++ (f, item) ∷ [])
      × ((b : ℕ) → b ≢ f → b ≢ l.last → g b ≡ h b)
add-IsList h l f item [] z nf ni unused small =
    let (g, m, e, is, same) = add_empty h l f item z nf ni in (g, m, e, is, λ b n _. same b n)
add-IsList h l f item ((a, v) ∷ xs) is nf ni unused small =
    add_behind h l f item a v xs is nf ni unused small
