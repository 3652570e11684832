-- ===== src/Drivers.antt =====
-- Source/Drivers/DriverStructures.cpp, and the system call InstallDriver of
-- Source/SystemCalls/Native.cpp. `Add` of a driver and of its handler take the nodes `fresh` and
-- `fresh_sink`; `sink` is the address of the handler.
pub mod Displaced
pub mod Silenced
mod Tests
use x3c0_microkernel.Common.{
  ℕ, ◌+◌, ◌*◌, ◌^◌, bit_and, bit_or, Bool, true, false, ◌&&◌, Option, none, some, List, [], ◌∷◌,
  ltb, ◌==◌, ◌!=◌, if◌then◌else◌, update, ◌>>=◌,
}
use x3c0_microkernel.LinkedList
use x3c0_microkernel.LinkedList.{LinkedList, remove_item}
use x3c0_microkernel.StackStates.{Interrupt}
use x3c0_microkernel.DriverBlocks
use x3c0_microkernel.DriverBlocks.{DriverInfoBlock}
use x3c0_microkernel.Scheduler.{Scheduler}
use x3c0_microkernel.Messages
use x3c0_microkernel.Messages.{Message}
use x3c0_microkernel.Interrupts.{Table, add_interrupt}
use x3c0_microkernel.SystemCalls.{is_address_valid}
use x3c0_microkernel.Kernel.{Kernel}
use x3c0_microkernel.Kernel.Switching.{yield}
use x3c0_microkernel.Kernel.Calls.{Surroundings}
use x3c0_microkernel.Kernel.Delivery.{Mail, deliver}

-- The manager, which is a list of drivers, with the table of interrupts and the field `driver` of
-- each handler. The table and the manager share the heap of the nodes, which is the table's.
pub record DriverManager : Type 0 where
  pub drivers : LinkedList
  pub vfs : ℕ
  pub table : Table
  pub source : ℕ → ℕ

-- `SetTimer` and `TimerInUse` of Source/Multitasking/Scheduler.cpp.
abbrev pub set_timer : Scheduler → ℕ → Scheduler
set_timer s tmr = record s { timer = tmr }

abbrev pub timer_in_use : Scheduler → ℕ → Bool
timer_in_use s tmr = tmr == s.timer

-- The first two steps of `InstallDriver`: the timer and the file system.
abbrev pub claim_timer : Scheduler → (block : ℕ) → DriverInfoBlock → Scheduler
claim_timer s block d =
    if bit_and d.type DriverBlocks.timer == DriverBlocks.timer && timer_in_use s 0
    then set_timer s block
    else s

abbrev pub claim_vfs : (vfs block : ℕ) → DriverInfoBlock → ℕ
claim_vfs vfs block d =
    if bit_and d.type DriverBlocks.vfs == DriverBlocks.vfs && vfs == 0 then block else vfs

-- `new DriverInterruptSource(block)` at `sink`.
abbrev pub new_source : DriverManager → (sink block irq : ℕ) → DriverManager
new_source m sink block irq = record m {
  table = record m.table { vector = update m.table.vector sink irq };
  source = update m.source sink block;
}

-- `DriverManager::InstallDriver` of the block at the address `block`.
unfoldable pub install_driver :
    (fresh sink fresh_sink : ℕ)
    → DriverManager
    → Scheduler
    → (block : ℕ) → DriverInfoBlock
    → Option (DriverManager × Scheduler)
install_driver fresh sink fresh_sink m s block d =
    let t = claim_timer s block d in
    LinkedList.add m.table.nodes m.drivers fresh block >>= λ (h, l).
    let j = record m {
      drivers = l;
      vfs = claim_vfs m.vfs block d;
      table = record m.table { nodes = h };
    } in
    let source = new_source j sink block d.irq in
    if d.supports_interrupts
    then (add_interrupt fresh_sink source.table sink >>= λ u. some (record source { table = u }, t))
    else some (j, t)

-- `DriverManager::RemoveDriver`.
unfoldable pub remove_driver : (fuel : ℕ) → DriverManager → (block : ℕ) → Option DriverManager
remove_driver fuel m block = remove_item fuel m.table.nodes m.drivers block >>= λ (h, l).
    some (record m { drivers = l; table = record m.table { nodes = h } })

-- `DriverManager::GetVFS`.
abbrev pub get_vfs : DriverManager → ℕ
get_vfs m = m.vfs

-- `driver->CanReceiveIRQ = false`.
abbrev pub silence : Kernel → (driver : ℕ) → Kernel
silence k driver = record k {
  drivers = update k.drivers driver (record (k.drivers driver) { can_receive_irq = false });
}

-- The message about a frame at `at`, which has 23 words of 8 bytes.
abbrev pub interrupt_message : Kernel → (at driver : ℕ) → Message
interrupt_message k at driver = Messages.create at 184 0 (k.drivers driver).parent 0 0

-- `DriverInterruptSource::receive` for a handler of the driver at `driver`, with the frame at `at`.
unfoldable pub receive :
    Surroundings → Mail → (driver at : ℕ) → Interrupt → Option (Mail × Interrupt)
receive m mail driver at stack =
    let k = mail.kernel in
    if driver == 0
    then some (mail, stack)
    else (if timer_in_use k.scheduler driver then yield m.fuel m.scale k stack else some (k, stack))
      >>= λ (j, next).
          if (j.drivers driver).can_receive_irq
          then (deliver m (record mail { kernel = silence j driver })
                (interrupt_message j at driver)
              >>= λ r. some (r, next))
          else some (record mail { kernel = j }, next)

-- `Memory::Copy` of the 39 packed bytes of the user's structure over a new block of zeros, whose
-- `IRQ` and `Type` stand at the offsets 34 and 36; `bytes` are the user's.
abbrev pub copied : (bytes : ℕ → ℕ) → ℕ → ℕ
copied bytes i = if ltb i 39 then bytes i else 0

abbrev pub copied_block : (bytes : ℕ → ℕ) → (parent : ℕ) → DriverInfoBlock
copied_block bytes parent =
    let b = copied bytes in
    record {
      name = b;
      supports_interrupts = b 32 != 0;
      irq = b 34 + 2 ^ 8 * b 35;
      type = b 36 + 2 ^ 8 * b 37 + 2 ^ 16 * b 38 + 2 ^ 24 * b 39;
      parent = parent;
      can_receive_irq = b 48 != 0;
    }

-- The system call InstallDriver, with the block at `block`; `bytes` are those of the memory from EAX
-- on.
unfoldable pub install_driver_call :
    (fresh sink fresh_sink block : ℕ)
    → (bytes : ℕ → ℕ) → (eax : ℕ) → Kernel
    → DriverManager
    → Interrupt
    → Option (Kernel × DriverManager × Interrupt × ℕ)
install_driver_call fresh sink fresh_sink block bytes eax k m stack =
    let valid = is_address_valid k.space eax true in
    let d = copied_block bytes k.scheduler.current_process in
    if valid != 0
    then some (k, m, stack, valid)
    else install_driver fresh sink fresh_sink m k.scheduler block d >>= λ (j, s). some (
      record k { drivers = update k.drivers block d; scheduler = s },
      j,
      record stack { rflags = bit_or stack.rflags 0x3000 },
      0,
    )
