-- ===== src/Kernel.antt =====
-- The objects of Source/Multitasking by their addresses, with the scheduler of the one processor
-- that runs, and what the system calls do with them.
pub mod Switching
pub mod Switched
pub mod Registers
pub mod Removal
pub mod Sleeping
pub mod Calls
pub mod Sleepers
pub mod Killing
pub mod Delivery
pub mod Creation
pub mod Listing
pub mod Listed
pub mod Refused
pub mod Dispatch
pub mod Starting
pub mod Frames
pub mod Tests
use x3c0_microkernel.Common.{ℕ}
use x3c0_microkernel.LinkedList.{Heap, LinkedList}
use x3c0_microkernel.StackStates.{X86Stack}
use x3c0_microkernel.Thread.{Thread}
use x3c0_microkernel.Process.{Process}
use x3c0_microkernel.DriverBlocks.{DriverInfoBlock}
use x3c0_microkernel.Scheduler.{Scheduler}
use x3c0_microkernel.Virtual.{Virtual}

-- The fields `threads` and `currentThread` of a process; the second is the address of a node.
pub record ProcessThreads : Type 0 where
  pub threads : LinkedList
  pub current_thread : ℕ

-- `cr3` is the processor's register.
pub record Kernel : Type 0 where
  pub nodes : Heap
  pub processes : ℕ → Process
  pub process_threads : ℕ → ProcessThreads
  pub threads : ℕ → Thread
  pub states : ℕ → X86Stack
  pub drivers : ℕ → DriverInfoBlock
  pub scheduler : Scheduler
  pub space : Virtual
  pub cr3 : ℕ
