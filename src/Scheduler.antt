-- ===== src/Scheduler.antt =====
-- Include/Multitasking/Scheduler.h and Source/Multitasking/Scheduler.cpp: the list of processes
-- with its total priority, and the lottery of `Yield`. `ps` holds the processes by address. One
-- processor runs, so the mutex of the list is left out. The switch to the chosen process stands in
-- Kernel/Switching.
pub mod Lottery
pub mod Processes
pub mod Processors
pub mod Stacks
pub mod Fairness
mod Tests
use x3c0_microkernel.Common.{
  ℕ, zero, suc, ◌+◌, ◌/◌, bit_and, Bool, ◌&&◌, Option, none, some, ltb, leb, ◌==◌, if◌then◌else◌,
  ◌>>=◌,
}
use x3c0_microkernel.Common.Words.{u32}
use x3c0_microkernel.LinkedList.{Heap, LinkedList, load, add}
use x3c0_microkernel.Process.{Process, io_bound}
use x3c0_microkernel.Random.{RandomGenerator, next}

pub record Scheduler : Type 0 where
  pub total_priority : ℕ
  pub random_gen : RandomGenerator
  pub processes : LinkedList
  pub sleeping_processes : LinkedList
  pub current_process : ℕ
  pub current_thread : ℕ
  pub timer : ℕ

-- The priority of a process, halved while it is bound by input and output.
abbrev pub effective_priority : Process → ℕ
effective_priority p = if bit_and p.state io_bound == io_bound then p.priority / 2 else p.priority

-- The loop of `Yield`: the process whose interval holds `rnd`, 0 if there is none.
unfoldable pub choose : (fuel : ℕ) → Heap → (ℕ → Process) → (nd rnd accumulator : ℕ) → Option ℕ
choose zero h ps nd rnd accumulator = none
choose (suc fuel) h ps nd rnd accumulator =
    if nd == 0
    then some 0
    else load h nd >>= λ n.
        let after = u32 (accumulator + effective_priority (ps n.value)) in
        let rest = choose fuel h ps n.next rnd after in
        if n.value == 0
        then some 0
        else if leb accumulator rnd && ltb rnd after
        then some n.value
        else rest

-- `Yield` up to the call of `YieldTo`: the scheduler, and the process that is switched to or 0.
unfoldable pub yield :
    (fuel : ℕ) → (ℕ → ℕ → ℕ) → Heap → (ℕ → Process) → Scheduler → Option (Scheduler × ℕ)
yield fuel scale h ps s =
    let (g, rnd) = next scale s.random_gen 0 s.total_priority in
    choose fuel h ps s.processes.first rnd 0 >>= λ p. some (record s { random_gen = g }, p)

-- `AddProcess`; `fresh` is the node that the allocator returns.
unfoldable pub add_process :
    Heap → (ℕ → Process) → Scheduler → (fresh p : ℕ) → Option (Heap × Scheduler)
add_process h ps s fresh p =
    if p == 0
    then some (h, s)
    else add h s.processes fresh p >>= λ (g, l). some (
      g,
      record s {
        processes = l;
        total_priority = u32 (s.total_priority + effective_priority (ps p));
      },
    )
