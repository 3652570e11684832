-- ===== src/LinkedList/Tests.antt =====
-- A list of three nodes at addresses 8, 16 and 24.
use x3c0_microkernel.Common.{
  ℕ, ◌≡◌, ◌≢◌, refl, [], ◌∷◌, ◌++◌, some, none, arith, ◌==◌, if◌then◌else◌,
}
use x3c0_microkernel.LinkedList.{Heap, LinkedList, node, add, remove}
use x3c0_microkernel.LinkedList.Chain.{Cells, IsList}
use x3c0_microkernel.LinkedList.Append.{add-IsList}
use x3c0_microkernel.LinkedList.Removed.{Removed, remove-Removed}

abbrev heap : Heap
heap p =
    if p == 8
    then some (node 100 16 0)
    else if p == 16
    then some (node 200 24 8)
    else if p == 24
    then some (node 300 0 16)
    else none

abbrev cells : Cells
cells = (8, 100) ∷ (16, 200) ∷ (24, 300) ∷ []

abbrev three : LinkedList
three = record { count = 3; first = 8; last = 24 }

three-IsList : IsList heap three cells
three-IsList = record {
  previous = 0;
  chain = (
    omega arith,
    omega arith,
    refl,
    omega arith,
    (omega arith, omega arith, refl, omega arith, (omega arith, omega arith, refl, tt, tt)),
  );
  first = refl;
  last = refl;
  count = refl;
  small = omega arith;
}

add-IsList_example :
    (g : Heap) × (m : LinkedList) × (add heap three 32 400 ≡ some (g, m))
    × IsList g m (cells ++ (32, 400) ∷ [])
    × ((b : ℕ) → b ≢ 32 → b ≢ 24 → g b ≡ heap b)
add-IsList_example =
    add-IsList heap three 32 400 cells three-IsList (omega arith) (omega arith) refl (omega arith)

remove-Removed_example : Removed heap three 0 cells 1 (remove 5 heap three 1)
remove-Removed_example =
    remove-Removed 5 1 heap three 8 100 ((16, 200) ∷ (24, 300) ∷ []) three-IsList (omega arith)
