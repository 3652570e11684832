-- ===== src/ArrayList/Laws.antt =====
-- CommonSourceCode/List.h: what the array holds after `Add` and `Remove`.
use mathlib.Core.List.{append_assoc, append-nil}
use x3c0_microkernel.Common.{
  ℕ, zero, suc, ◌+◌, ◌-◌, ◌^◌, ◌<◌, ◌≡◌, refl, sym, ap, subst, ◌∙◌, none, some, List, [], ◌∷◌, ◌++◌,
  get_elem?, set, length, length-append, get_elem?_ge, arith, ltb, leb, ◌==◌, ◌&&◌, true, false,
}
use x3c0_microkernel.Common.Words.{u32, sub_u32}
use x3c0_microkernel.ArrayList.{ArrayList, create, get_item, copied, add, remove, add_all}

-- The list holds the items: they are the first cells of the array, and a 32-bit count.
pub record Holds (l : ArrayList) (xs : List ℕ) : Type 0 where
  pub spare : List ℕ
  pub array : l.array ≡ xs ++ spare
  pub count : l.count ≡ length xs
  pub small : length xs < 2 ^ 32

copied-append : (xs ys : List ℕ) → copied (length xs) (xs ++ ys) ≡ some xs
unfolding copied
copied-append [] ys = refl
copied-append (x ∷ xs) ys = rw (copied-append xs ys) refl

get_elem?-append :
    (xs ys : List ℕ) (i : ℕ) → i < length xs → get_elem? (xs ++ ys) i ≡ get_elem? xs i
get_elem?-append [] ys i h = absurd (omega arith)
get_elem?-append (x ∷ xs) ys zero h = refl
get_elem?-append (x ∷ xs) ys (suc i) h = get_elem?-append xs ys i (omega arith)

-- `Add` appends.
pub add-Holds :
    (l : ArrayList) (xs : List ℕ) (item : ℕ)
    → Holds l xs
    → suc (length xs) < 2 ^ 32
    → (m : ArrayList) × (add l item ≡ some m) × Holds m (xs ++ item ∷ [])
unfolding add
add-Holds l xs item h small = (
  record { count = u32 (l.count + 1); array = xs ++ item ∷ [] },
  rw (h.count, h.array, copied-append xs h.spare) refl,
  record {
    spare = [];
    array = sym (append-nil _);
    count = omega (arith, h.count, length-append xs (item ∷ []));
    small = omega (arith, length-append xs (item ∷ []));
  },
)

add_all-Holds :
    (l : ArrayList) (xs ys : List ℕ)
    → Holds l xs
    → length xs + length ys < 2 ^ 32
    → (m : ArrayList) × (add_all l ys ≡ some m) × Holds m (xs ++ ys)
unfolding add_all
add_all-Holds l xs [] h small = (l, refl, subst (Holds l) (sym (append-nil xs)) h)
add_all-Holds l xs (y ∷ ys) h small =
    let (m, e, k) = add-Holds l xs y h (omega arith) in
    let (n, d, last) =
      add_all-Holds m (xs ++ y ∷ []) ys k (omega (arith, length-append xs (y ∷ []))) in
    (n, rw e d, subst (Holds n) (append_assoc xs (y ∷ []) ys) last)

-- `GetItem` below the count.
pub get_item-Holds :
    (l : ArrayList) (xs : List ℕ) (i : ℕ)
    → Holds l xs
    → i < length xs
    → get_item l i ≡ get_elem? xs i
unfolding get_item
get_item-Holds l xs i h lt =
    let inside : ltb l.count i ≡ false = ground (arith, h.count) in
    rw (inside, h.array) (get_elem?-append xs h.spare i lt)

-- The array implements a sequence: after any series of `Add`, of fewer than 2^32 items, `GetItem`
-- returns the items in the order in which they were added, and 0 past the count.
pub add_all-get_item :
    (raw : ℕ) (xs : List ℕ)
    → length xs < 2 ^ 32
    → (l : ArrayList) × (add_all (create raw) xs ≡ some l)
      × (l.count ≡ length xs)
      × ((i : ℕ) → i < length xs → get_item l i ≡ get_elem? xs i)
      × ((i : ℕ) → length xs < i → get_item l i ≡ some 0)
unfolding create get_item
add_all-get_item raw xs small =
    let (l, e, h) =
      add_all-Holds (create raw) [] xs
        (record { spare = raw ∷ []; array = refl; count = refl; small = omega arith })
        (omega arith) in
    (l, e, h.count, λ i lt. get_item-Holds l xs i h lt, λ i gt. ground (arith, h.count))

-- The cell behind the first items and the next one.
get_elem?_second :
    (xs zs : List ℕ) (x y : ℕ) → get_elem? (xs ++ x ∷ y ∷ zs) (suc (length xs)) ≡ some y
get_elem?_second [] zs x y = refl
get_elem?_second (w ∷ xs) zs x y = get_elem?_second xs zs x y

set_second :
    (xs zs : List ℕ) (x y v : ℕ) → set (xs ++ x ∷ y ∷ zs) (suc (length xs)) v ≡ xs ++ x ∷ v ∷ zs
set_second [] zs x y v = refl
set_second (w ∷ xs) zs x y v = ap (λ ys. w ∷ ys) (set_second xs zs x y v)

copied_short : (xs : List ℕ) → copied (suc (length xs)) xs ≡ none
unfolding copied
copied_short [] = refl
copied_short (x ∷ xs) = rw (copied_short xs) refl

-- Removing the last of two or more items leaves an array that is a cell too short for the count:
-- reading the item that is then the last one, or adding another, leaves the array.
pub remove_last-short :
    (l : ArrayList) (xs : List ℕ) (x y : ℕ)
    → Holds l (xs ++ x ∷ y ∷ [])
    → (m : ArrayList) × (remove l (suc (length xs)) ≡ some m)
      × (m.count ≡ suc (length xs))
      × (get_item m (length xs) ≡ none)
      × ((item : ℕ) → add m item ≡ none)
unfolding remove get_item add
remove_last-short l xs x y h =
    let two : l.count ≡ suc (suc (length xs)) =
      omega (arith, h.count, length-append xs (x ∷ y ∷ [])) in
    let small : suc (suc (length xs)) < 2 ^ 32 =
      omega (arith, h.small, length-append xs (x ∷ y ∷ [])) in
    let cells : l.array ≡ xs ++ x ∷ y ∷ h.spare = h.array ∙ append_assoc xs (x ∷ y ∷ []) h.spare in
    let inside : ltb l.count (suc (length xs)) ≡ false = ground (arith, two) in
    let last : (leb 1 l.count && suc (length xs) == l.count - 1) ≡ true = ground (arith, two) in
    let less : sub_u32 l.count 1 ≡ suc (length xs) = omega (arith, two, small) in
    let read : get_elem? l.array (suc (length xs)) ≡ some y =
      rw cells (get_elem?_second xs h.spare x y) in
    let kept : copied (length xs) (set l.array (suc (length xs)) 0) ≡ some xs =
      rw (cells, set_second xs h.spare x y 0) (copied-append xs (x ∷ 0 ∷ h.spare)) in
    let behind : ltb (suc (length xs)) (length xs) ≡ false = ground arith in
    (
      record { count = suc (length xs); array = xs },
      rw (inside, read, last, kept, less) refl,
      refl,
      rw behind (get_elem?_ge xs (length xs) (omega arith)),
      λ item. rw (copied_short xs) refl,
    )
