-- ===== src/Scheduler/Processors.antt =====
-- The schedulers of several processors, in an array: the constructor and `GetScheduler` of
-- Source/Multitasking/Scheduler.cpp. The two mutexes are left out. `threads` holds the list of a
-- process' threads, and `gen` the words of the generator, which all schedulers share.
pub mod Lost
use x3c0_microkernel.Common.{
  ℕ, zero, suc, ◌+◌, ◌-◌, ◌/◌, ◌%◌, Option, none, some, max, min, ◌==◌, if◌then◌else◌, update,
  ◌>>=◌,
}
use x3c0_microkernel.Common.Words.{sub_u32}
use x3c0_microkernel.ArrayList
use x3c0_microkernel.ArrayList.{ArrayList}
use x3c0_microkernel.LinkedList
use x3c0_microkernel.LinkedList.{Heap, LinkedList, load}
use x3c0_microkernel.Process.{Process}
use x3c0_microkernel.Random.{RandomGenerator}
use x3c0_microkernel.Scheduler.{Scheduler, effective_priority}

-- `schedulers`, which is null at first, and the schedulers by their addresses.
pub record Processors : Type 0 where
  pub schedulers : Option ArrayList
  pub objects : ℕ → Scheduler
  pub nodes : Heap

-- `getCPUIdentifier`, where `tss` is the selector in the processor's register: without its two
-- lowest bits, it is 8 times a number from 5 on.
unfoldable pub cpu_identifier : (tss : ℕ) → ℕ
cpu_identifier tss =
    let selector = tss - tss % 4 in if selector == 0 then 0 else sub_u32 (selector / 8) 5

-- `Scheduler(first)`, with the nodes of its two lists.
unfoldable pub create :
    RandomGenerator
    → Heap
    → (ℕ → Process)
    → (threads : ℕ → LinkedList) → (node sleeping_node first : ℕ) → Option (Heap × Scheduler)
create gen nodes ps threads node sleeping_node first =
    let (g, l) = LinkedList.create nodes node first in
    let (h, sleeping) = LinkedList.create g sleeping_node 0 in
    let idle : Scheduler = record {
      total_priority = 0;
      random_gen = gen;
      processes = l;
      sleeping_processes = sleeping;
      current_process = 0;
      current_thread = 0;
      timer = 0;
    } in
    if first == 0
    then some (h, idle)
    else load nodes (threads first).first >>= λ n. some (
      h,
      record idle {
        total_priority = effective_priority (ps first);
        current_process = first;
        current_thread = n.value;
      },
    )

-- The loop that adds null pointers.
unfoldable pub fill : (left : ℕ) → ArrayList → Option ArrayList
fill zero l = some l
fill (suc left) l = ArrayList.add l 0 >>= fill left

-- Where the new scheduler goes when the array has none for the processor.
abbrev pub place : (id fresh : ℕ) → ArrayList → Option ArrayList
place id fresh l =
    let apart = max id l.count - min id l.count in
    if apart == 1 then ArrayList.add l fresh else fill apart l >>= λ l. ArrayList.add l fresh

module _ (gen : RandomGenerator) (ps : ℕ → Process) (threads : ℕ → LinkedList) where
  -- The state with a new scheduler at `fresh` and the array `l`.
  abbrev pub adopt :
      (fresh node sleeping_node : ℕ) → Processors → (l : ArrayList) → Option (Processors × ℕ)
  adopt fresh node sleeping_node t l =
      create gen t.nodes ps threads node sleeping_node 0 >>= λ (h, s).
      some (record { schedulers = some l; objects = update t.objects fresh s; nodes = h }, fresh)

  -- `GetScheduler` on processor `id`; a new scheduler stands at `fresh`, and `raw` is what the cell
  -- of a new array held.
  unfoldable pub get_scheduler :
      (raw fresh node sleeping_node id : ℕ) → Processors → Option (Processors × ℕ)
  get_scheduler raw fresh node sleeping_node id t = elim t.schedulers [
    | none ↦ ArrayList.add (ArrayList.create raw) fresh >>= adopt fresh node sleeping_node t
    | some l ↦ ArrayList.get_item l id >>= λ s.
        if s == 0 then place id fresh l >>= adopt fresh node sleeping_node t else some (t, s)
  ]
