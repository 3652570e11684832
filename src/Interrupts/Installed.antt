-- ===== src/Interrupts/Installed.antt =====
-- `Install` of Source/Common/Interrupts.cpp: which list each vector gets.
use x3c0_microkernel.Common.{
  ℕ, zero, suc, ◌+◌, ◌^◌, ◌<◌, ◌≡◌, refl, sym, ap, subst, ◌∙◌, none, some, List, [], ◌∷◌, ◌++◌,
  get_elem?, length, length-append, arith, leb, update, false,
}
use mathlib.Core.List.{append_assoc, append-nil}
use x3c0_microkernel.ArrayList
use x3c0_microkernel.ArrayList.{create_with}
use x3c0_microkernel.ArrayList.Laws.{Holds, add-Holds, get_item-Holds}
use x3c0_microkernel.LinkedList
use x3c0_microkernel.Interrupts.{Table, install_from, install, add_interrupt, get_interrupts}

-- What the rounds from `i` on put into the array.
abbrev addresses : (list_at : ℕ → ℕ) → (left i : ℕ) → List ℕ
addresses list_at zero i = []
addresses list_at (suc left) i = list_at i ∷ addresses list_at left (suc i)

length-addresses : (list_at : ℕ → ℕ) (left i : ℕ) → length (addresses list_at left i) ≡ left
length-addresses list_at zero i = refl
length-addresses list_at (suc left) i = ap suc (length-addresses list_at left (suc i))

get_elem?-addresses :
    (list_at : ℕ → ℕ) (left i k : ℕ)
    → k < left
    → get_elem? (addresses list_at left i) k ≡ some (list_at (i + k))
get_elem?-addresses list_at zero i k h = absurd (omega arith)
get_elem?-addresses list_at (suc left) i zero h = ap (λ j. some (list_at j)) (omega arith)
get_elem?-addresses list_at (suc left) i (suc k) h =
    get_elem?-addresses list_at left (suc i) k (omega arith)
    ∙ ap (λ j. some (list_at j)) (omega arith)

install_from-Holds :
    (list_at node_at : ℕ → ℕ) (left i : ℕ) (t : Table) (xs : List ℕ)
    → Holds t.interrupts xs
    → length xs + left < 2 ^ 32
    → (u : Table) × (install_from list_at node_at left i t ≡ some u)
      × Holds u.interrupts (xs ++ addresses list_at left i)
      × (u.vector ≡ t.vector)
unfolding install_from
install_from-Holds list_at node_at zero i t xs h small =
    (t, refl, subst (Holds t.interrupts) (sym (append-nil xs)) h, refl)
install_from-Holds list_at node_at (suc left) i t xs h small =
    let (a, e, k) = add-Holds t.interrupts xs (list_at i) h (omega arith) in
    let (g, l) = LinkedList.create t.nodes (node_at i) 0 in
    let next : Table = record t {
      interrupts = a;
      lists = update t.lists (list_at i) l;
      nodes = g;
    } in
    let (u, d, last, same) =
      install_from-Holds list_at node_at left (suc i) next (xs ++ list_at i ∷ []) k
        (omega (arith, length-append xs (list_at i ∷ []))) in
    (
      u,
      rw e d,
      subst (Holds u.interrupts) (append_assoc xs (list_at i ∷ []) (addresses list_at left (suc i)))
          last,
      same,
    )

-- `Install` gives the 48 lists to the vectors 1 to 48 and a null list to vector 0, since the array
-- starts with the null pointer in it. A handler for vector 0 cannot be added: that faults.
pub install-shifted :
    (list_at node_at : ℕ → ℕ) (t : Table) (fresh sink : ℕ)
    → t.vector sink ≡ 0
    → (u : Table) × (install list_at node_at t ≡ some u)
      × (u.interrupts.count ≡ 49)
      × (get_interrupts u 0 ≡ some 0)
      × ((i : ℕ) → i < 48 → get_interrupts u (suc i) ≡ some (list_at i))
      × (add_interrupt fresh u sink ≡ none)
unfolding install create_with get_interrupts add_interrupt
install-shifted list_at node_at t fresh sink at_zero =
    let (u, e, h, same) =
      install_from-Holds list_at node_at 48 0
        (record t { interrupts = record { count = 1; array = 0 ∷ [] } }) (0 ∷ [])
        (record { spare = []; array = refl; count = refl; small = omega arith }) (omega arith) in
    let size = length-addresses list_at 48 0 in
    let count : u.interrupts.count ≡ 49 = omega (arith, h.count, size) in
    let first : ArrayList.get_item u.interrupts 0 ≡ some 0 =
      get_item-Holds u.interrupts _ 0 h (omega arith) in
    let place : u.vector sink ≡ 0 = ap (λ (v : ℕ → ℕ). v sink) same ∙ at_zero in
    let inside : leb u.interrupts.count 0 ≡ false = ground (arith, count) in
    (
      u,
      e,
      count,
      first,
      λ i lt.
          get_item-Holds u.interrupts _ (suc i) h (omega arith)
          ∙ get_elem?-addresses list_at 48 0 i lt
          ∙ ap (λ j. some (list_at j)) (omega arith),
      rw (place, inside, first) refl,
    )
