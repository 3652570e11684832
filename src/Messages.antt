-- ===== src/Messages.antt =====
-- Include/IPC/Message.h and Source/IPC/Message.cpp, with the message by which a process tells its
-- parent of a change, `sendStatusChangeMessage` of Source/Multitasking/Process.cpp. That message is
-- given as a list, without its delivery; Kernel/Delivery has `Process::SendMessage`.
use x3c0_microkernel.Common.{ℕ, ◌*◌, ◌^◌, bit_or, List, [], ◌∷◌, ◌!=◌, if◌then◌else◌}
use x3c0_microkernel.Common.Words.{u32, u64}
use x3c0_microkernel.Process.{Process}

-- `contents` is the field `data`, an address.
pub record Message : Type 0 where
  pub contents : ℕ
  pub length : ℕ
  pub source : ℕ
  pub destination : ℕ
  pub code : ℕ
  pub message_chain : ℕ

-- `Message::Message`.
abbrev pub create : (d l src dest cd msg_chain : ℕ) → Message
create d l src dest cd msg_chain = record {
  contents = d;
  length = u32 l;
  source = src;
  destination = dest;
  code = u32 cd;
  message_chain = u32 msg_chain;
}

-- The get methods.
abbrev pub get_destination : Message → ℕ
get_destination m = m.destination

abbrev pub get_source : Message → ℕ
get_source m = m.source

abbrev pub get_data : Message → ℕ
get_data m = m.contents

abbrev pub get_length : Message → ℕ
get_length m = m.length

abbrev pub get_code : Message → ℕ
get_code m = m.code

abbrev pub get_message_chain : Message → ℕ
get_message_chain m = m.message_chain

-- A message that was sent, with the 64-bit word that stood at its data.
pub record Sent : Type 0 where
  pub message : Message
  pub word : ℕ

-- `sendStatusChangeMessage` of the process `p` at `this`; the data stands on the stack, at `local`.
abbrev pub send_status_change : (local : ℕ) → Process → (this new_status : ℕ) → List Sent
send_status_change local p this new_status =
    let sent : Sent = record {
      message = create local 8 0 p.parent 41 0;
      word = bit_or (u64 (this * 2 ^ 32)) new_status;
    } in
    if p.parent != 0 then sent ∷ [] else []
