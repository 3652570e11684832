-- ===== src/LinkedList.antt =====
-- Include/LinkedList.h: the list that the scheduler, the processes, the drivers and the interrupt
-- table are built on. Nodes stand at addresses of a heap and hold pointers, so that an absent value
-- is 0. `none` is an access through a null or dangling pointer. A loop runs on fuel; the laws give
-- it more than the length of the list.
pub mod Chain
pub mod Lookup
pub mod Append
pub mod Removal
pub mod Removed
pub mod Cleared
mod Tests
use x3c0_microkernel.Common.{
  ℕ, zero, suc, ◌+◌, ◌-◌, ◌%◌, ◌^◌, Bool, true, false, ◌||◌, ◌&&◌, Option, none, some, ◌==◌, ◌!=◌,
  if◌then◌else◌, update, ◌>>=◌,
}
use x3c0_microkernel.Common.Words.{u32, sub_u32}

pub record Node : Type 0 where
  pub value : ℕ
  pub next : ℕ
  pub previous : ℕ

abbrev pub node : (value next previous : ℕ) → Node
node v n p = record { value = v; next = n; previous = p }

abbrev pub Heap : Type 0
Heap = ℕ → Option Node

pub record LinkedList : Type 0 where
  pub count : ℕ
  pub first : ℕ
  pub last : ℕ

abbrev pub load : Heap → ℕ → Option Node
load h p = if p == 0 then none else h p

abbrev pub set_next : Heap → (p q : ℕ) → Option Heap
set_next h p q = load h p >>= λ n. some (update h p (some (record n { next = q })))

abbrev pub set_previous : Heap → (p q : ℕ) → Option Heap
set_previous h p q = load h p >>= λ n. some (update h p (some (record n { previous = q })))

-- `new LinkedListNode<T>(item)`, where the allocator returned `fresh`; 0 if it had no memory.
abbrev pub new_node : Heap → (fresh item : ℕ) → Heap
new_node h fresh item = if fresh == 0 then h else update h fresh (some (node item 0 0))

-- The loop of `GetItem`, with the rounds left until `index`.
unfoldable pub get_from : (fuel : ℕ) → Heap → (nd index : ℕ) → Option ℕ
get_from zero h nd index = none
get_from (suc fuel) h nd zero = if nd == 0 then some 0 else load h nd >>= λ n. some n.value
get_from (suc fuel) h nd (suc index) =
    if nd == 0 then some 0 else load h nd >>= λ n. get_from fuel h n.next index

unfoldable pub get_item : (fuel : ℕ) → Heap → LinkedList → ℕ → Option ℕ
get_item fuel h l index = get_from fuel h l.first index

-- The loop of `Find`.
unfoldable pub find_from : (fuel : ℕ) → Heap → (nd item search_index : ℕ) → Option ℕ
find_from zero h nd item i = none
find_from (suc fuel) h nd item i =
    if nd == 0
    then some 0
    else load h nd >>= λ n.
        let rest = find_from fuel h n.next item (u32 (i + 1)) in
        if n.value == item then some i else rest

unfoldable pub find : (fuel : ℕ) → Heap → LinkedList → ℕ → Option ℕ
find fuel h l item = find_from fuel h l.first item 0

-- The new node behind the last one, unless that is missing or holds nothing.
abbrev pub link_behind : Heap → (last fresh value : ℕ) → Option Heap
link_behind g last fresh value =
    if value == 0 then some g else set_next g last fresh >>= λ g. set_previous g fresh last

abbrev pub link : Heap → (last fresh : ℕ) → Option Heap
link g last fresh =
    if last == 0 then some g else load g last >>= λ n. link_behind g last fresh n.value

-- `Add`: the heap and the list; the result of the C++ method is the new count.
unfoldable pub add : Heap → LinkedList → (fresh item : ℕ) → Option (Heap × LinkedList)
add h l fresh item =
    let g = new_node h fresh item in
    if l.count == 0
    then (set_previous g fresh 0 >>= λ g.
        some (g, record l { first = fresh; last = fresh; count = u32 (l.count + 1) }))
    else (link g l.last fresh >>= λ g.
        some (g, record l { last = fresh; count = u32 (l.count + 1) }))

-- The loop of `Remove`: the heap after node number `index` is taken out of the chain.
unfoldable pub unlink_from : (fuel : ℕ) → Heap → (nd index : ℕ) → Option Heap
unlink_from zero h nd index = none
unlink_from (suc fuel) h nd index =
    if nd == 0
    then some h
    else load h nd >>= λ n. if n.value == 0 then some h else elim index [
      | zero ↦
          set_next h n.previous n.next >>= λ g. load g nd >>= λ m. set_previous g m.next m.previous
      | suc left ↦ unlink_from fuel h n.next left
    ]

-- `Remove(index)`.
unfoldable pub remove : (fuel : ℕ) → Heap → LinkedList → ℕ → Option (Heap × LinkedList)
remove fuel h l index =
    if index == 0 && l.first != 0
    then (load h l.first >>= λ n. some (h, record l { first = n.next; count = sub_u32 l.count 1 }))
    else if index == l.count && l.last != 0
    then (load h l.last >>= λ n.
        some (h, record l { last = n.previous; count = sub_u32 l.count 1 }))
    else (unlink_from fuel h l.first index >>= λ g. some (g, l))

-- `Remove(item)`.
unfoldable pub remove_item : (fuel : ℕ) → Heap → LinkedList → ℕ → Option (Heap × LinkedList)
remove_item fuel h l item = find fuel h l item >>= remove fuel h l

-- `LinkedList(firstItem)`, where the allocator returned `fresh`; `LinkedList()` is that of item 0.
unfoldable pub create : Heap → (fresh first_item : ℕ) → Heap × LinkedList
create h fresh first_item = (
  new_node h fresh first_item,
  record { count = if first_item != 0 then 1 else 0; first = fresh; last = fresh },
)

-- The loop of `Clear`.
unfoldable pub unlink_all : (fuel : ℕ) → Heap → (nd : ℕ) → Option Heap
unlink_all zero h nd = none
unlink_all (suc fuel) h nd =
    if nd == 0
    then some h
    else load h nd >>= λ n.
        if n.value == 0
        then some h
        else (if n.previous != 0 then set_next h n.previous 0 else some h)
          >>= (λ g. set_previous g nd 0)
          >>= λ g. load g nd >>= λ m. unlink_all fuel g m.next

unfoldable pub clear : (fuel : ℕ) → Heap → LinkedList → Option (Heap × LinkedList)
clear fuel h l = unlink_all fuel h l.first >>= λ g. some (g, record l { first = 0; last = 0 })

-- The destructor: every node is freed, after its pointer to the next one is read.
unfoldable pub free_from : (fuel : ℕ) → Heap → (nd : ℕ) → Option Heap
free_from zero h nd = none
free_from (suc fuel) h nd =
    if nd == 0 then some h else load h nd >>= λ n. free_from fuel (update h nd none) n.next
