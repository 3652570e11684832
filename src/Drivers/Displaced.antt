-- ===== src/Drivers/Displaced.antt =====
-- The system call InstallDriver with the packed structure of the user.
use x3c0_microkernel.Common.{
  ℕ, suc, ◌+◌, ◌*◌, ◌^◌, ◌<◌, ◌≡◌, ◌≢◌, refl, bit_or, none, some, length, arith, ==_self, update,
  true,
}
use x3c0_microkernel.LinkedList.Chain.{Cells}
use x3c0_microkernel.LinkedList.Append.{Holds, add-IsList}
use x3c0_microkernel.StackStates.{Interrupt}
use x3c0_microkernel.SystemCalls.{is_address_valid}
use x3c0_microkernel.Kernel.{Kernel}
use x3c0_microkernel.Drivers.{
  DriverManager, claim_timer, claim_vfs, copied_block, install_driver, install_driver_call,
}

-- Any process can install a driver: no privilege is tested. When the user's structure says that it
-- is a timer without interrupts, the call returns 0 and gives the process access to the ports, but
-- the kernel reads type 0 and, as the IRQ, 256 and the upper byte of the user's. So the scheduler's
-- timer stays what it was. This is for a well-formed list of drivers and fresh addresses.
pub install_driver_call-displaced :
    (fresh sink fresh_sink block : ℕ) (bytes : ℕ → ℕ) (eax : ℕ) (k : Kernel) (m : DriverManager)
    (stack : Interrupt) (xs : Cells)
    → Holds m.table.nodes m.drivers xs
    → (fresh ≢ 0) × (block ≢ 0) × (m.table.nodes fresh ≡ none) × (suc (length xs) < 2 ^ 32)
    → is_address_valid k.space eax true ≡ 0
    → (bytes 32 ≡ 0) × (bytes 35 + 2 ^ 8 * bytes 36 + 2 ^ 16 * bytes 37 + 2 ^ 24 * bytes 38 ≡ 1)
    → (j : Kernel) × (n : DriverManager) × (install_driver_call fresh sink fresh_sink block bytes
          eax k m stack
        ≡ some (j, n, record stack { rflags = bit_or stack.rflags 0x3000 }, 0))
      × ((j.drivers block).type ≡ 0)
      × ((j.drivers block).irq ≡ 2 ^ 8 + bytes 34)
      × (j.scheduler.timer ≡ k.scheduler.timer)
unfolding install_driver_call install_driver
install_driver_call-displaced fresh sink fresh_sink block bytes eax k m stack xs list
      (nf, nb, unused, small) valid (quiet, timer) =
    let (h, l, added, is, same) =
      add-IsList m.table.nodes m.drivers fresh block xs list nf nb unused small in
    let low : bytes 35 ≡ 1 = omega (arith, timer) in
    let second : bytes 36 ≡ 0 = omega (arith, timer) in
    let third : bytes 37 ≡ 0 = omega (arith, timer) in
    let fourth : bytes 38 ≡ 0 = omega (arith, timer) in
    let d = copied_block bytes k.scheduler.current_process in
    let kind : d.type ≡ 0 = rw (second, third, fourth) refl in
    (
      record k { drivers = update k.drivers block d; scheduler = claim_timer k.scheduler block d },
      record m { drivers = l; vfs = claim_vfs m.vfs block d; table = record m.table { nodes = h } },
      rw (valid, added, quiet) refl,
      rw (==_self block) kind,
      rw (==_self block, low) (omega arith),
      rw kind refl,
    )
