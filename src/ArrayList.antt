-- ===== src/ArrayList.antt =====
-- CommonSourceCode/List.h: the list that is kept in an array, for pointers and numbers. `array`
-- holds the cells that were allocated; `none` is an access outside of them.
pub mod Laws
mod Tests
use x3c0_microkernel.Common.{
  ℕ, zero, suc, ◌+◌, ◌-◌, ◌&&◌, Option, none, some, List, [], ◌∷◌, ◌++◌, get_elem?, set, length,
  ltb, leb, ◌==◌, if◌then◌else◌, ◌>>=◌,
}
use x3c0_microkernel.Common.Words.{u32, sub_u32}

pub record ArrayList : Type 0 where
  pub count : ℕ
  pub array : List ℕ

-- `List()`: one cell, with what the memory held.
unfoldable pub create : (raw : ℕ) → ArrayList
create raw = record { count = 0; array = raw ∷ [] }

-- `List(firstItem)`.
unfoldable pub create_with : ℕ → ArrayList
create_with first_item = record { count = 1; array = first_item ∷ [] }

unfoldable pub get_item : ArrayList → ℕ → Option ℕ
get_item l index = if ltb l.count index then some 0 else get_elem? l.array index

-- The loop of `Find`.
unfoldable pub find_from : List ℕ → (item left i : ℕ) → Option ℕ
find_from array item zero i = some 0
find_from array item (suc left) i =
    let rest = find_from array item left (i + 1) in
    get_elem? array i >>= λ x. if x == item then some i else rest

unfoldable pub find : ArrayList → ℕ → Option ℕ
find l item = find_from l.array item l.count 0

-- The first `n` cells, which `Memory::Copy` reads.
unfoldable pub copied : (n : ℕ) → List ℕ → Option (List ℕ)
copied zero xs = some []
copied (suc n) [] = none
copied (suc n) (x ∷ xs) = copied n xs >>= λ ys. some (x ∷ ys)

unfoldable pub add : ArrayList → ℕ → Option ArrayList
add l item = copied l.count l.array >>= λ xs.
    some (record { count = u32 (l.count + 1); array = xs ++ item ∷ [] })

-- The array without its last item, which is two cells shorter. For index 0 the size is `0 - 1`, and
-- the copy leaves the array.
abbrev pub retracted : List ℕ → (idx : ℕ) → Option (List ℕ)
retracted array zero = none
retracted array (suc n) = copied n array

-- `Remove(idx)`.
unfoldable pub remove : ArrayList → ℕ → Option ArrayList
remove l idx =
    if ltb l.count idx
    then some l
    else get_elem? l.array idx >>= λ _.
        let cleared = set l.array idx 0 in
        (if leb 1 l.count && idx == l.count - 1 then retracted cleared idx else some cleared)
        >>= λ xs. some (record { count = sub_u32 l.count 1; array = xs })

-- `Remove(item)`.
unfoldable pub remove_item : ArrayList → ℕ → Option ArrayList
remove_item l item = find l item >>= remove l

unfoldable pub clear : ArrayList → ArrayList
clear l = record { count = 0; array = [] }

-- `Add` for each of the items.
unfoldable pub add_all : ArrayList → List ℕ → Option ArrayList
add_all l [] = some l
add_all l (x ∷ xs) = add l x >>= λ m. add_all m xs
