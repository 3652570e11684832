-- ===== src/Drivers/Tests.antt =====
-- A driver in the system of Kernel/Tests, and one that a process installs from packed bytes.
use x3c0_microkernel.Common.{
  ℕ, ◌+◌, ◌^◌, ◌≡◌, ◌∷◌, ◌>>=◌, refl, bit_or, true, some, none, [], arith, ◌==◌, if◌then◌else◌,
}
use x3c0_microkernel.Virtual.{retrieve_mapping}
use x3c0_microkernel.SystemCalls.{is_address_valid}
use x3c0_microkernel.Kernel.{Kernel}
use x3c0_microkernel.Kernel.Tests.{system, frame, no_registers}
use x3c0_microkernel.Kernel.Calls.{Surroundings}
use x3c0_microkernel.Kernel.Delivery.{Mail, deliver}
use x3c0_microkernel.Drivers.{DriverManager, silence, interrupt_message, install_driver_call}
use x3c0_microkernel.Drivers.Silenced.{receive_all, receive-silenced}
use x3c0_microkernel.Drivers.Displaced.{install_driver_call-displaced}

-- The driver at 0x700 can receive, and its parent takes no messages.
abbrev listening : Mail
listening = record {
  kernel = record system { drivers = λ d. record (system.drivers d) { can_receive_irq = true } };
  frames = λ a. 0;
  copied = [];
  messages = λ a. record { contents = 0; length = 0; code = 0; source = 0; message_chain = 0 };
}

abbrev surroundings : Surroundings
surroundings = record {
  fuel = 5;
  undef = λ k. 0;
  scale = λ range rnd. 0;
  return_method = 0x7000;
  ring3_start = 0x8000;
  allocated = λ i. 0xe0000040;
  local = 0x9000;
  raw = no_registers;
  rflags = 0x202;
  message_at = λ a. record { contents = 0; length = 0; code = 0; source = 0; message_chain = 0 };
}

receive-silenced_example :
    receive_all surroundings listening 0x700 ((0x9000, frame) ∷ (0x9100, frame) ∷ []) ≡ (
      deliver surroundings
        (record listening { kernel = silence listening.kernel 0x700 })
        (interrupt_message listening.kernel 0x9000 0x700)
      >>= λ n. some (n, frame ∷ frame ∷ []))
receive-silenced_example =
    receive-silenced surroundings listening 0x700 0x9000 frame ((0x9100, frame) ∷ [])
      (λ e. omega arith) (λ e. omega arith)

-- Every address is the user's.
abbrev open_system : Kernel
open_system = record system { space = record system.space { memory = λ a. 7 } }

open_valid : is_address_valid open_system.space 0x4000 true ≡ 0
unfolding is_address_valid retrieve_mapping
open_valid = refl

-- A timer with IRQ 0x120.
abbrev timer_bytes : ℕ → ℕ
timer_bytes i = if i == 33 then 0x20 else if i == 34 then 1 else if i == 35 then 1 else 0

abbrev manager : DriverManager
manager = record {
  drivers = record { count = 0; first = 0; last = 0 };
  vfs = 0;
  table = record {
    interrupts = record { count = 0; array = [] };
    lists = λ a. record { count = 0; first = 0; last = 0 };
    nodes = λ a. none;
    vector = λ sink. 0;
  };
  source = λ sink. 0;
}

install_driver_call-displaced_example :
    (j : Kernel) × (n : DriverManager) × (install_driver_call 64 72 80 0x700 timer_bytes 0x4000
        open_system manager frame
      ≡ some (j, n, record frame { rflags = bit_or 0x202 0x3000 }, 0))
    × ((j.drivers 0x700).type ≡ 0)
    × ((j.drivers 0x700).irq ≡ 2 ^ 8 + 1)
    × (j.scheduler.timer ≡ 0)
install_driver_call-displaced_example =
    install_driver_call-displaced 64 72 80 0x700 timer_bytes 0x4000 open_system manager frame []
      refl (omega arith, omega arith, refl, omega arith) open_valid (refl, omega arith)
