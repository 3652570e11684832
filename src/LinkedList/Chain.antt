-- ===== src/LinkedList/Chain.antt =====
-- What a list of Include/LinkedList.h stands for: the address and the value of each node, in order.
use x3c0_microkernel.Common.{ℕ, ◌<◌, ◌^◌, ◌≡◌, ◌≢◌, List, [], ◌∷◌, some, length}
use x3c0_microkernel.LinkedList.{Heap, LinkedList, node}

abbrev pub Cells : Type 0
Cells = List (ℕ × ℕ)

-- The address of the first node, 0 if there is none.
abbrev pub start : Cells → ℕ
start [] = 0
start ((a, _) ∷ xs) = a

-- The address of the last node, or that of the node in front.
abbrev pub finish : ℕ → Cells → ℕ
finish p [] = p
finish p ((a, _) ∷ xs) = finish a xs

-- No node stands at the address.
abbrev pub Absent : ℕ → Cells → Type 0
Absent p [] = Unit {0}
Absent p ((a, _) ∷ xs) = (p ≢ a) × Absent p xs

-- The nodes are linked both ways, at distinct addresses, and hold pointers that are not null.
abbrev pub Chain : Heap → (previous : ℕ) → Cells → Type 0
Chain h p [] = Unit {0}
Chain h p ((a, v) ∷ xs) =
    (a ≢ 0) × (v ≢ 0) × (h a ≡ some (node v (start xs) p)) × Absent a xs × Chain h a xs

-- A list with nodes. The first node may still point back at one that was removed.
pub record IsList (h : Heap) (l : LinkedList) (xs : Cells) : Type 0 where
  pub previous : ℕ
  pub chain : Chain h previous xs
  pub first : l.first ≡ start xs
  pub last : l.last ≡ finish previous xs
  pub count : l.count ≡ length xs
  pub small : length xs < 2 ^ 32
