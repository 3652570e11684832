-- ===== src/Kernel/Sleeping.antt =====
-- `AddProcess`, `Sleep` and `Wake` of Source/Multitasking/Scheduler.cpp on the whole state. `fresh` is
-- the node that the allocator returns, `local` the place of the message on the stack.
use x3c0_microkernel.Common.{ℕ, Option, some, List, [], ◌==◌, ◌!=◌, if◌then◌else◌, ◌>>=◌}
use x3c0_microkernel.LinkedList.{load, find, add, remove_item}
use x3c0_microkernel.Messages.{Sent, send_status_change}
use x3c0_microkernel.Scheduler
use x3c0_microkernel.Scheduler.{Scheduler}
use x3c0_microkernel.Kernel.{Kernel}
use x3c0_microkernel.Kernel.Switching.{remove_process}

unfoldable pub add_process : Kernel → (fresh p : ℕ) → Option Kernel
add_process k fresh p = Scheduler.add_process k.nodes k.processes k.scheduler fresh p >>= λ (h, s).
    some (record k { nodes = h; scheduler = s })

unfoldable pub sleep : (fuel local : ℕ) → Kernel → (fresh p : ℕ) → Option (Kernel × List Sent)
sleep fuel local k fresh p = remove_process fuel k p >>= λ j.
    add j.nodes j.scheduler.sleeping_processes fresh p >>= λ (h, l). some (
      record j { nodes = h; scheduler = record j.scheduler { sleeping_processes = l } },
      send_status_change local (j.processes p) p 0x0,
    )

-- `Wake` of a process that sleeps.
abbrev pub rouse : (fuel local : ℕ) → Kernel → (fresh p : ℕ) → Option (Kernel × List Sent)
rouse fuel local k fresh p = remove_item fuel k.nodes k.scheduler.sleeping_processes p >>= λ (h, l).
    add_process (record k { nodes = h; scheduler = record k.scheduler { sleeping_processes = l } })
      fresh p
    >>= λ j. some (j, send_status_change local (j.processes p) p 0x1)

unfoldable pub wake : (fuel local : ℕ) → Kernel → (fresh p : ℕ) → Option (Kernel × List Sent)
wake fuel local k fresh p = load k.nodes k.scheduler.sleeping_processes.first >>= λ first.
    if first.value != p
    then (find fuel k.nodes k.scheduler.sleeping_processes p >>= λ place.
        if place == 0 then some (k, []) else rouse fuel local k fresh p)
    else rouse fuel local k fresh p
