-- ===== src/ArrayList/Tests.antt =====
-- Three items that are added, and the last one removed.
use x3c0_microkernel.Common.{ℕ, ◌<◌, ◌≡◌, refl, some, List, [], ◌∷◌, get_elem?, arith}
use x3c0_microkernel.ArrayList.{ArrayList, create, get_item, find, find_from, add_all}
use x3c0_microkernel.ArrayList.Laws.{Holds, add_all-get_item}

abbrev three : List ℕ
three = 5 ∷ 6 ∷ 7 ∷ []

abbrev filled : ArrayList
filled = record { count = 3; array = three }

find_last : find filled 7 ≡ some 2
unfolding find find_from
find_last = refl

filled-Holds : Holds filled three
filled-Holds = record { spare = []; array = refl; count = refl; small = omega arith }

add_all-get_item_example :
    (l : ArrayList) × (add_all (create 9) three ≡ some l)
    × (l.count ≡ 3)
    × ((i : ℕ) → i < 3 → get_item l i ≡ get_elem? three i)
    × ((i : ℕ) → 3 < i → get_item l i ≡ some 0)
add_all-get_item_example = add_all-get_item 9 three (omega arith)
