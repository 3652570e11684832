-- ===== src/DriverBlocks.antt =====
-- Include/Drivers/DriverStructures.h and Include/Drivers/DriverType.h: what the kernel keeps of a
-- driver.
use x3c0_microkernel.Common.{ℕ, Bool}

-- `namespace DriverType`, as far as the kernel looks at it.
abbrev pub timer : ℕ
timer = 0x1

abbrev pub vfs : ℕ
vfs = 0x8000

-- `DriverInfoBlock`; `name` has 32 bytes.
pub record DriverInfoBlock : Type 0 where
  pub name : ℕ → ℕ
  pub supports_interrupts : Bool
  pub irq : ℕ
  pub type : ℕ
  pub parent : ℕ
  pub can_receive_irq : Bool
