-- ===== src/Kernel/Delivery.antt =====
-- `Process::SendMessage` of Source/Multitasking/Process.cpp: a message becomes a thread of the
-- process that gets it. The allocations of `Surroundings` are the block for the data in the
-- receiver's heap, the message, the thread, its registers, its stack and its node, in turn.
use x3c0_microkernel.Common.{
  ℕ, ◌≤◌, ◌<◌, ◌+◌, ◌^◌, ◌≡◌, ◌≢◌, refl, true, Option, none, some, List, ◌==◌, if◌then◌else◌, ◌>>=◌,
  update, ==_ne, arith,
}
use x3c0_microkernel.Common.Words.{u32}
use x3c0_microkernel.Thread.{new_thread, initial_state}
use x3c0_microkernel.Messages.{Message}
use x3c0_microkernel.Virtual.Spaces.{
  Spaces, Transfer, translate, table_window, copy_to_address_space,
}
use x3c0_microkernel.Virtual.Windows.{HasWindows}
use x3c0_microkernel.Virtual.Beyond.{copy_to_address_space-faults}
use x3c0_microkernel.Kernel.{Kernel}
use x3c0_microkernel.Kernel.Starting.{start}
use x3c0_microkernel.Kernel.Calls.{Surroundings, UserMessage}

-- The kernel with the frames of all address spaces, and the messages by their addresses.
pub record Mail : Type 0 where
  pub kernel : Kernel
  pub frames : ℕ → ℕ
  pub copied : List (ℕ × Transfer)
  pub messages : ℕ → UserMessage

abbrev pub spaces : Mail → Spaces
spaces mail = record { space = mail.kernel.space; frames = mail.frames; copied = mail.copied }

-- The directory that the data goes to: that of the sender, or the kernel's.
unfoldable pub data_directory : Kernel → Message → ℕ
data_directory k message =
    if message.source == 0 then k.space.kernel else (k.processes message.source).page_dir

-- The message for the receiver, with its data at `block`.
abbrev pub forward : Message → (block : ℕ) → UserMessage
forward message block = record {
  contents = block;
  length = message.length;
  code = message.code;
  source = message.source;
  message_chain = message.message_chain;
}

module _ (m : Surroundings) where
  -- `new Thread(onReceipt, sendTo, irq)`.
  abbrev pub receipt_thread : Kernel → Message → Kernel
  receipt_thread k message =
      let to = message.destination in
      record k {
        threads =
            update k.threads (m.allocated 2) (new_thread (m.allocated 3) to (message.code == 0));
        states =
            update k.states (m.allocated 3)
              (initial_state m.raw m.rflags (k.processes to).on_receipt);
      }

  -- `CopyToAddressSpace`, with the data's addresses cut to 32 bits.
  unfoldable pub copy_data : Mail → Message → Option Spaces
  copy_data mail message =
      copy_to_address_space m.undef (spaces mail) (u32 message.contents) message.length
        (u32 (m.allocated 0)) (data_directory mail.kernel message) true true

  -- The thread starts with the address of the message, which a local variable holds.
  unfoldable pub start_receipt : Mail → Spaces → Message → Option Mail
  start_receipt mail s message =
      let space = record s.space { memory = update s.space.memory m.local (m.allocated 1) } in
      let k = record (receipt_thread mail.kernel message) { space = space } in
      start m.undef m.return_method m.ring3_start k (m.allocated 2) m.local 1 (m.allocated 4)
        (m.allocated 5)
      >>= λ j. some (record {
        kernel = j;
        frames = s.frames;
        copied = s.copied;
        messages = update mail.messages (m.allocated 1) (forward message (m.allocated 0));
      })

  unfoldable pub deliver : Mail → Message → Option Mail
  deliver mail message =
      if (mail.kernel.processes message.destination).on_receipt == 0
      then some mail
      else copy_data mail message >>= λ s. start_receipt mail s message

  -- The delivery of a message to a process that takes messages faults, where the table of the
  -- windows is there and no page is mapped behind the window for the directory, for all data below
  -- 4 GiB and every block of the receiver's heap, which begins at 3.5 GiB.
  pub deliver-faults :
      (mail : Mail) (message : Message)
      → (mail.kernel.processes message.destination).on_receipt ≢ 0
      → HasWindows (spaces mail)
      → ((a : ℕ) → a < 4096 → translate (spaces mail) (table_window + a) ≡ none)
      → message.contents + message.length < 2 ^ 32
      → 0xe0000000 ≤ m.allocated 0
      → m.allocated 0 < 2 ^ 32
      → deliver mail message ≡ none
  unfolding deliver copy_data
  deliver-faults mail message takes ready unmapped short heap small =
      rw
        (
          ==_ne (mail.kernel.processes message.destination).on_receipt 0 takes,
          copy_to_address_space-faults m.undef (spaces mail) (u32 message.contents) message.length
              (u32 (m.allocated 0)) (data_directory mail.kernel message) true true ready unmapped
              (omega arith) (omega arith) (omega arith),
        )
        refl
