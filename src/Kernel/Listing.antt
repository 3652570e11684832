-- ===== src/Kernel/Listing.antt =====
-- `RequestProcessData` of Source/SystemCalls/Native.cpp, with `GetAllProcesses` of
-- Source/Multitasking/Scheduler.cpp. What a process' heap and its list of shared pages have in use,
-- and its name, are parameters; `fresh` gives the nodes of the new list in turn. `none` is a null or
-- dangling pointer, or a write outside of the array of threads.
use x3c0_microkernel.Common.{
  ℕ, zero, suc, ◌+◌, ◌^◌, bit_and, Bool, not, ◌&&◌, ◌||◌, Option, none, some, List, [], ◌∷◌, ltb,
  ◌==◌, ◌!=◌, if◌then◌else◌, ◌>>=◌,
}
use x3c0_microkernel.Common.Words.{u32}
use x3c0_microkernel.LinkedList
use x3c0_microkernel.LinkedList.{Heap, LinkedList, load, add}
use x3c0_microkernel.Thread.{get_status}
use x3c0_microkernel.DriverBlocks.{DriverInfoBlock}
use x3c0_microkernel.Kernel.{Kernel}

-- The structures of `UserLevelStructures::ProcessData`.
pub record ThreadData : Type 0 where
  pub tid : ℕ
  pub eip : ℕ
  pub status : ℕ

pub record MemoryUsage : Type 0 where
  pub memory_used : ℕ
  pub shared_page_count : ℕ

-- `driver` is the kernel's block whose first bytes are copied for the caller, or `none` for a null
-- pointer; `thread_count` is `none` where it is not written; `threads` is `none` for a null pointer.
pub record ProcessEntry : Type 0 where
  pub name : ℕ → ℕ
  pub pid : ℕ
  pub driver : Option DriverInfoBlock
  pub state : ℕ
  pub memory_usage : Option MemoryUsage
  pub thread_count : Option ℕ
  pub threads : Option (List ThreadData)

pub record ReturnValue : Type 0 where
  pub vfs_pointer : ℕ
  pub current_pid : ℕ
  pub process_count : ℕ
  pub processes : List ProcessEntry

-- `BitSet(integer, bit)`.
abbrev pub bit_set : (flags bit : ℕ) → Bool
bit_set flags bit = bit_and flags (2 ^ bit) != 0

-- The loop over one scheduler's list; `i` counts the nodes that were allocated.
unfoldable pub collect :
    (fuel : ℕ)
    → Heap
    → LinkedList
    → (nd : ℕ) (fresh : ℕ → ℕ) (i : ℕ) → Option (Heap × LinkedList × ℕ)
collect zero h l nd fresh i = none
collect (suc fuel) h l nd fresh i =
    if nd == 0
    then some (h, l, i)
    else load h nd >>= λ n.
        if n.value == 0
        then some (h, l, i)
        else add h l (fresh i) n.value >>= λ (g, m). collect fuel g m n.next fresh (i + 1)

-- The loop over the schedulers, by their lists of processes.
unfoldable pub collect_all :
    (fuel : ℕ)
    → Heap
    → LinkedList
    → List LinkedList
    → (fresh : ℕ → ℕ) (i : ℕ) → Option (Heap × LinkedList)
collect_all fuel h l [] fresh i = some (h, l)
collect_all fuel h l (processes ∷ rest) fresh i =
    collect fuel h l processes.first fresh i >>= λ (g, m, j). collect_all fuel g m rest fresh j

-- `GetAllProcesses`.
unfoldable pub get_all_processes :
    (fuel : ℕ) → Heap → List LinkedList → (fresh : ℕ → ℕ) → Option (Heap × LinkedList)
get_all_processes fuel h schedulers fresh =
    let (g, l) = LinkedList.create h (fresh 0) 0 in collect_all fuel g l schedulers fresh 1

-- What is known of one thread.
abbrev pub thread_data : Kernel → (t : ℕ) → ThreadData
thread_data k t = record {
  tid = u32 t;
  eip = u32 (k.states (k.threads t).state).rip;
  status = get_status (k.threads t);
}

-- The loop over the threads of a process: its condition and its step are about `node`, the one of the
-- process, and `count` elements were allocated. The last `node` is left.
unfoldable pub thread_entries :
    (fuel : ℕ) → Kernel → (thread_node node count j : ℕ) → Option (ℕ × List ThreadData)
thread_entries zero k thread_node node count j = none
thread_entries (suc fuel) k thread_node node count j =
    if node == 0
    then some (0, [])
    else load k.nodes node >>= λ n.
        if n.value == 0
        then some (node, [])
        else load k.nodes thread_node >>= λ t.
            thread_entries fuel k thread_node n.next count (j + 1) >>= λ (left, rest).
            if ltb j count then some (left, thread_data k t.value ∷ rest) else none

module _ (name_of : ℕ → ℕ → ℕ) (usage_of : ℕ → MemoryUsage) where
  -- The fields that do not need a loop.
  unfoldable pub process_entry :
      Kernel → (flags p : ℕ) (threads : Option (List ThreadData)) → ProcessEntry
  process_entry k flags p threads = record {
    name = name_of p;
    pid = u32 p;
    driver =
        if bit_set flags 3 && (k.processes p).driver != 0
        then some (k.drivers (k.processes p).driver)
        else none;
    state = (k.processes p).state;
    memory_usage = if bit_set flags 4 then some (usage_of p) else none;
    thread_count = if bit_set flags 2 then none else some 0;
    threads = threads;
  }

  -- The loop over the processes; `node->Next` is read when a round is over.
  unfoldable pub process_entries :
      (fuel : ℕ) → Kernel → (flags node : ℕ) → Option (List ProcessEntry)
  process_entries zero k flags node = none
  process_entries (suc fuel) k flags node =
      if node == 0
      then some []
      else load k.nodes node >>= λ n.
          if n.value == 0
          then some []
          else let own = (k.process_threads n.value).threads in
            if bit_set flags 2
            then (thread_entries fuel k own.first node own.count 0 >>= λ (left, threads).
                load k.nodes left >>= λ m. process_entries fuel k flags m.next >>= λ rest.
                some (process_entry k flags n.value (some threads) ∷ rest))
            else (process_entries fuel k flags n.next >>= λ rest.
                some (process_entry k flags n.value none ∷ rest))

  -- Threads, drivers and memory cannot be had without the processes.
  abbrev pub refused : (flags : ℕ) → Bool
  refused flags = not (bit_set flags 1) && (bit_set flags 2 || bit_set flags 3 || bit_set flags 4)

  -- `RequestProcessData`, given the process of the file system or 0: the kernel with the new list,
  -- what is returned, and the code. `schedulers` has the list of processes of each one.
  unfoldable pub request_process_data :
      (fuel : ℕ)
      → Kernel
      → (schedulers : List LinkedList) (fresh : ℕ → ℕ) (flags vfs : ℕ)
      → Option (Kernel × Option ReturnValue × ℕ)
  request_process_data fuel k schedulers fresh flags vfs =
      let result : ℕ → List ProcessEntry → ReturnValue = λ count entries. record {
        vfs_pointer = if bit_set flags 0 then u32 vfs else 0;
        current_pid = if bit_set flags 6 then u32 k.scheduler.current_process else 0;
        process_count = count;
        processes = entries;
      } in
      if refused flags
      then some (k, none, 4)
      else if bit_set flags 1
      then (get_all_processes fuel k.nodes schedulers fresh >>= λ (h, all).
          process_entries fuel (record k { nodes = h }) flags all.first >>= λ entries.
          some (record k { nodes = h }, some (result all.count entries), 0))
      else some (k, some (result 0 []), 0)
