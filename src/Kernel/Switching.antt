-- ===== src/Kernel/Switching.antt =====
-- `YieldTo`, `Yield` and `RemoveProcess` of Source/Multitasking/Scheduler.cpp. Only the boot code
-- passes a null stack to `YieldTo`; what it does then, a return into the first thread by assembly, is
-- left out. `none` is a halted processor or a null pointer; a thread's registers are never at a null
-- pointer.
use x3c0_microkernel.Common.{ℕ, zero, suc, Option, none, some, ◌==◌, if◌then◌else◌, update, ◌>>=◌}
use x3c0_microkernel.Common.Words.{sub_u32}
use x3c0_microkernel.LinkedList.{Heap, load, remove_item}
use x3c0_microkernel.StackStates.{Interrupt, save, restore}
use x3c0_microkernel.Thread.{Thread}
use x3c0_microkernel.Scheduler
use x3c0_microkernel.Scheduler.{effective_priority}
use x3c0_microkernel.Kernel.{Kernel, ProcessThreads}

-- The node behind the process' current one, or its first one.
abbrev pub next_node : Heap → ProcessThreads → Option ℕ
next_node nodes p =
    load nodes p.current_thread >>= λ n. some (if n.next == 0 then p.threads.first else n.next)

-- The loop that passes over sleeping threads, to the end of the list.
unfoldable pub skip_sleeping : (fuel : ℕ) → Heap → (ℕ → Thread) → (nd : ℕ) → Option ℕ
skip_sleeping zero nodes threads nd = none
skip_sleeping (suc fuel) nodes threads nd =
    if nd == 0
    then some 0
    else load nodes nd >>= λ n.
        let rest = skip_sleeping fuel nodes threads n.next in
        if n.value == 0 then some nd else if (threads n.value).sleeping then rest else some nd

-- The address space of another process is switched to.
unfoldable pub enter_process : Kernel → ℕ → Kernel
enter_process k p = if p == k.scheduler.current_process then k else record k {
  scheduler = record k.scheduler { current_process = p };
  cr3 = (k.processes p).page_dir;
}

-- The state of the thread that is left is saved, and that of thread `t` at node `nd` loaded.
unfoldable pub switch_thread : Kernel → (p nd t : ℕ) → Interrupt → Option (Kernel × Interrupt)
switch_thread k p nd t stack =
    let old = (k.threads k.scheduler.current_thread).state in
    let states = update k.states old (save (k.states old) stack) in
    if k.scheduler.current_thread == 0
    then none
    else if t == 0
    then none
    else some (
      record k {
        process_threads =
            update k.process_threads p (record (k.process_threads p) { current_thread = nd });
        states = states;
        scheduler = record k.scheduler { current_thread = t };
      },
      restore stack (states (k.threads t).state),
    )

unfoldable pub yield_to : (fuel : ℕ) → Kernel → (p : ℕ) → Interrupt → Option (Kernel × Interrupt)
yield_to fuel k p stack =
    if p == 0
    then some (k, stack)
    else if (k.process_threads p).threads.count == 0
    then some (k, stack)
    else let j = enter_process k p in
      next_node j.nodes (j.process_threads p) >>= skip_sleeping fuel j.nodes j.threads >>= λ nd.
      load j.nodes nd >>= λ n. switch_thread j p nd n.value stack

-- `Yield`: the process that the lottery draws is switched to.
unfoldable pub yield : (fuel : ℕ) → (ℕ → ℕ → ℕ) → Kernel → Interrupt → Option (Kernel × Interrupt)
yield fuel scale k stack = Scheduler.yield fuel scale k.nodes k.processes k.scheduler >>= λ (s, p).
    yield_to fuel (record k { scheduler = s }) p stack

-- The process that takes over from one that was removed: the first of the list, with its next
-- thread.
abbrev pub take_over : Kernel → Option Kernel
take_over k = load k.nodes k.scheduler.processes.first >>= λ first.
    let p = k.process_threads first.value in
    next_node k.nodes p >>= λ nd. load k.nodes nd >>= λ n. some (record k {
      process_threads = update k.process_threads first.value (record p { current_thread = nd });
      scheduler = record k.scheduler { current_process = first.value; current_thread = n.value };
    })

-- `RemoveProcess`.
unfoldable pub remove_process : (fuel : ℕ) → Kernel → (p : ℕ) → Option Kernel
remove_process fuel k p = remove_item fuel k.nodes k.scheduler.processes p >>= λ (nodes, l).
    let s = k.scheduler in
    let j = record k {
      nodes = nodes;
      scheduler = record s {
        processes = l;
        total_priority = sub_u32 s.total_priority (effective_priority (k.processes p));
      };
    } in
    if s.current_process == p then take_over j else some j
