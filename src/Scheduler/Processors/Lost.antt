-- ===== src/Scheduler/Processors/Lost.antt =====
-- `GetScheduler` for the processors behind those that have a scheduler.
use x3c0_microkernel.Common.{
  ℕ, suc, ◌+◌, ◌-◌, ◌^◌, ◌<◌, ◌≡◌, refl, ◌∙◌, none, some, List, [], ◌∷◌, ◌++◌, length,
  length-append, get_elem?, get_elem?_ge, arith, ltb, max, min, update, true, false, subst,
}
use x3c0_microkernel.Common.Words.{u32}
use x3c0_microkernel.ArrayList
use x3c0_microkernel.ArrayList.{ArrayList}
use x3c0_microkernel.LinkedList.{Heap, LinkedList}
use x3c0_microkernel.Process.{Process}
use x3c0_microkernel.Random.{RandomGenerator}
use x3c0_microkernel.Scheduler.{Scheduler}
use x3c0_microkernel.Scheduler.Processors.{Processors, create, get_scheduler}

-- Reading at the count is let through, but leaves the array.
get_item-count :
    (l : ArrayList) (xs : List ℕ)
    → l.array ≡ xs
    → l.count ≡ length xs
    → ArrayList.get_item l (length xs) ≡ none
unfolding ArrayList.get_item
get_item-count l xs cells count =
    let inside : ltb l.count (length xs) ≡ false = ground (arith, count) in
    rw (inside, cells) (get_elem?_ge xs (length xs) (omega arith))

get_item-past :
    (l : ArrayList) (xs : List ℕ)
    → l.count ≡ length xs
    → ArrayList.get_item l (suc (length xs)) ≡ some 0
unfolding ArrayList.get_item
get_item-past l xs count =
    let outside : ltb l.count (suc (length xs)) ≡ true = ground (arith, count) in rw outside refl

copied-all : (xs : List ℕ) → ArrayList.copied (length xs) xs ≡ some xs
unfolding ArrayList.copied
copied-all [] = refl
copied-all (x ∷ xs) = rw (copied-all xs) refl

abbrev longer : List ℕ → ℕ → ArrayList
longer xs item = record { count = suc (length xs); array = xs ++ item ∷ [] }

add-longer :
    (l : ArrayList) (xs : List ℕ) (item : ℕ)
    → l.array ≡ xs
    → l.count ≡ length xs
    → suc (length xs) < 2 ^ 32
    → ArrayList.add l item ≡ some (longer xs item)
unfolding ArrayList.add
add-longer l xs item cells count small =
    let next : u32 (length xs + 1) ≡ suc (length xs) = omega (arith, small) in
    rw (count, cells, copied-all xs, next) refl

get_elem?-longer : (xs : List ℕ) (x : ℕ) → get_elem? (xs ++ x ∷ []) (length xs) ≡ some x
get_elem?-longer [] x = refl
get_elem?-longer (y ∷ xs) x = get_elem?-longer xs x

get_item-longer :
    (xs : List ℕ) (item : ℕ) → ArrayList.get_item (longer xs item) (length xs) ≡ some item
unfolding ArrayList.get_item
get_item-longer xs item =
    let inside : ltb (suc (length xs)) (length xs) ≡ false = ground arith in
    rw inside (get_elem?-longer xs item)

-- A new scheduler without a process.
create_idle :
    (gen : RandomGenerator) (h : Heap) (ps : ℕ → Process) (threads : ℕ → LinkedList)
    (node sleeping_node : ℕ)
    → (g : Heap) × (s : Scheduler) × (create gen h ps threads node sleeping_node 0 ≡ some (g, s))
unfolding create
create_idle gen h ps threads node sleeping_node = (_, _, refl)

-- When the array holds as many schedulers as it has cells, `GetScheduler` on the next processor
-- reads behind the array. On the processor after that one it succeeds once, but the new scheduler
-- is then found for the processor before it, and the next call there reads behind the array.
pub get_scheduler-lost :
    (gen : RandomGenerator) (ps : ℕ → Process) (threads : ℕ → LinkedList)
    (raw fresh node sleeping_node : ℕ) (t : Processors) (l : ArrayList) (xs : List ℕ)
    → t.schedulers ≡ some l
    → (l.array ≡ xs) × (l.count ≡ length xs)
    → suc (length xs) < 2 ^ 32
    → (get_scheduler gen ps threads raw fresh node sleeping_node (length xs) t ≡ none)
      × (u : Processors) × (get_scheduler gen ps threads raw fresh node sleeping_node
            (suc (length xs))
            t
          ≡ some (u, fresh))
      × (m : ArrayList) × (u.schedulers ≡ some m)
      × (ArrayList.get_item m (length xs) ≡ some fresh)
      × (get_scheduler gen ps threads raw fresh node sleeping_node (suc (length xs)) u ≡ none)
unfolding get_scheduler
get_scheduler-lost gen ps threads raw fresh node sleeping_node t l xs there (cells, count) small =
    let grown : ArrayList = longer xs fresh in
    let apart : max (suc (length xs)) l.count - min (suc (length xs)) l.count ≡ 1 =
      omega (arith, count) in
    let kept : ArrayList.add l fresh ≡ some grown = add-longer l xs fresh cells count small in
    let (h, s, made) = create_idle gen t.nodes ps threads node sleeping_node in
    let last : ArrayList.get_item grown (suc (length xs)) ≡ none =
      subst (λ n. ArrayList.get_item grown n ≡ none) (length-append xs (fresh ∷ []) ∙ omega arith)
        (get_item-count grown (xs ++ fresh ∷ []) refl
          (omega (arith, length-append xs (fresh ∷ [])))) in
    (
      rw (there, get_item-count l xs cells count) refl,
      record { schedulers = some grown; objects = update t.objects fresh s; nodes = h },
      rw (there, get_item-past l xs count, apart, kept, made) refl,
      grown,
      refl,
      get_item-longer xs fresh,
      rw last refl,
    )
