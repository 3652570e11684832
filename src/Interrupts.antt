-- ===== src/Interrupts.antt =====
-- Source/Common/Interrupts.cpp: the handlers of each interrupt vector, in linked lists whose
-- addresses stand in an array. `none` is a fault, such as an access through a null list.
pub mod Installed
mod Tests
use x3c0_microkernel.Common.{
  ℕ, zero, suc, Option, none, some, leb, ◌==◌, if◌then◌else◌, update, ◌>>=◌,
}
use x3c0_microkernel.ArrayList
use x3c0_microkernel.ArrayList.{ArrayList, create_with}
use x3c0_microkernel.LinkedList
use x3c0_microkernel.LinkedList.{Heap, LinkedList, load}

-- `interrupts`, the lists by their addresses, and the field `v` of each sink by its address.
pub record Table : Type 0 where
  pub interrupts : ArrayList
  pub lists : ℕ → LinkedList
  pub nodes : Heap
  pub vector : ℕ → ℕ

-- The loop of `Install`; `list_at i` and `node_at i` are what the allocator returns for the list
-- of round `i`.
unfoldable pub install_from : (list_at node_at : ℕ → ℕ) → (left i : ℕ) → Table → Option Table
install_from list_at node_at zero i t = some t
install_from list_at node_at (suc left) i t =
    let (h, l) = LinkedList.create t.nodes (node_at i) 0 in
    ArrayList.add t.interrupts (list_at i) >>= λ a.
    install_from list_at node_at left (suc i)
      (record t { interrupts = a; lists = update t.lists (list_at i) l; nodes = h })

unfoldable pub install : (list_at node_at : ℕ → ℕ) → Table → Option Table
install list_at node_at t =
    install_from list_at node_at 48 0 (record t { interrupts = create_with 0 })

-- `GetItem(vector)` where a list is used.
abbrev pub list_of : Table → (vector : ℕ) → Option ℕ
list_of t vector = ArrayList.get_item t.interrupts vector >>= λ l. if l == 0 then none else some l

unfoldable pub add_interrupt : (fresh : ℕ) → Table → (sink : ℕ) → Option Table
add_interrupt fresh t sink =
    if leb t.interrupts.count (t.vector sink)
    then some t
    else list_of t (t.vector sink) >>= λ l.
        LinkedList.add t.nodes (t.lists l) fresh sink >>= λ (h, m).
        some (record t { nodes = h; lists = update t.lists l m })

unfoldable pub remove_interrupt : (fuel : ℕ) → Table → (sink : ℕ) → Option Table
remove_interrupt fuel t sink =
    if leb t.interrupts.count (t.vector sink)
    then some t
    else list_of t (t.vector sink) >>= λ l.
        LinkedList.remove_item fuel t.nodes (t.lists l) sink >>= λ (h, m).
        let u = record t { nodes = h; lists = update t.lists l m } in
        if m.first == 0
        then (ArrayList.remove t.interrupts (t.vector sink) >>= λ a.
            some (record u { interrupts = a }))
        else some u

unfoldable pub get_interrupts : Table → (vector : ℕ) → Option ℕ
get_interrupts t vector = ArrayList.get_item t.interrupts vector

-- `InvokeInterruptChain` on a state `S` that holds the nodes; `receive` is the method of the sinks.
module _ {S : Type 0} (nodes : S → Heap) (receive : (sink : ℕ) → S → Option S) where
  unfoldable pub invoke_from : (fuel : ℕ) → S → (nd : ℕ) → Option S
  invoke_from zero s nd = none
  invoke_from (suc fuel) s nd =
      if nd == 0
      then some s
      else load (nodes s) nd >>= λ n.
          if n.value == 0
          then some s
          else receive n.value s >>= λ s. load (nodes s) nd >>= λ n. invoke_from fuel s n.next

  unfoldable pub invoke_interrupt_chain : (fuel : ℕ) → (table : Table) → (vector : ℕ) → S → Option S
  invoke_interrupt_chain fuel table vector s =
      list_of table vector >>= λ l. invoke_from fuel s (table.lists l).first
