-- ===== src/Kernel/Tests/Creation.antt =====
-- A new process and a message, in the system of Kernel/Tests with the table of the windows there.
use x3c0_microkernel.Common.{
  ℕ, ◌*◌, ◌<◌, ◌≡◌, ◌≢◌, ◌⊎◌, refl, true, none, some, [], ◌∷◌, ◌+◌, arith, ◌==◌, if◌then◌else◌,
}
use x3c0_microkernel.Bitmap
use x3c0_microkernel.Messages
use x3c0_microkernel.Virtual.{page_directories, retrieve_mapping}
use x3c0_microkernel.Virtual.Spaces.{translate, table_window}
use x3c0_microkernel.Virtual.Windows.{HasWindows}
use x3c0_microkernel.Kernel.Calls.{Surroundings}
use x3c0_microkernel.Kernel.Delivery.{Mail, spaces, deliver, deliver-faults}
use x3c0_microkernel.Kernel.Creation.{MemoryBlock, create_process}
use x3c0_microkernel.Kernel.Refused.{PagesValid, BlocksValid, create_process-refused}
use x3c0_microkernel.Kernel.Tests.{no_registers, process, system}

-- Every process takes messages and may create processes.
abbrev mail : Mail
mail = record {
  kernel = record system {
    space = record system.space { memory = λ a. if a == page_directories 1022 then 0x5007 else 0 };
    processes = λ p. record (process 3) {
      on_receipt = 0x4000;
      security_privileges = record { words = 0x200 ∷ []; elements = 21 };
    };
  };
  frames = λ a. 0;
  copied = [];
  messages = λ a. record { contents = 0; length = 0; code = 0; source = 0; message_chain = 0 };
}

abbrev surroundings : Surroundings
surroundings = record {
  fuel = 0xe0001;
  undef = λ k. 0;
  scale = λ range rnd. 0;
  return_method = 0x7000;
  ring3_start = 0x8000;
  allocated = λ i. 0xe0000040;
  local = 0x9000;
  raw = no_registers;
  rflags = 0x202;
  message_at = λ a. record { contents = 0; length = 0; code = 0; source = 0; message_chain = 0 };
}

windows_there : HasWindows (spaces mail)
windows_there e = omega arith

windows_closed : (a : ℕ) → a < 4096 → translate (spaces mail) (table_window + a) ≡ none
unfolding translate retrieve_mapping
windows_closed a h = ground arith

deliver-faults_example : deliver surroundings mail (Messages.create 0x5000 16 100 200 2 0) ≡ none
deliver-faults_example =
    deliver-faults surroundings mail (Messages.create 0x5000 16 100 200 2 0) (λ e. omega arith)
      windows_there windows_closed (omega arith) (omega arith) (omega arith)

abbrev blocks : ℕ → MemoryBlock
blocks a = record { start = 0x8000; end = 0x8800; copy_to = 0x8000 }

create_process-refused_example :
    ((c : ℕ) × (create_process surroundings blocks mail (λ i. 0) 0 0x5000 1 0x8000 ≡ some (mail, c))
      × (c ≢ 0))
    ⊎ ((true ≡ true)
        × PagesValid mail.kernel.space 0x5000 0 (1 * 12)
        × BlocksValid mail.kernel.space blocks 1 0x5000
        × (create_process surroundings blocks mail (λ i. 0) 0 0x5000 1 0x8000 ≡ none))
unfolding Bitmap.test_bit
create_process-refused_example =
    create_process-refused surroundings blocks mail (λ i. 0) 0 0x5000 1 0x8000 0xe0000 true refl
      (omega arith) (omega arith) (omega arith) refl windows_there windows_closed
