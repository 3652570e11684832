-- ===== src/Process.antt =====
-- Include/Multitasking/Process.h and Source/Multitasking/Process.cpp, without the delivery of
-- messages, and the system call `ToggleSecurityPrivilege` of Source/SystemCalls/Native.cpp: a
-- process' state, priority and privileges. Pointers are addresses. `none` is an access outside of
-- the bitmap of privileges.
pub mod States
pub mod Privileges
mod Tests
use x3c0_microkernel.Common.{
  ℕ, ◌-◌, ◌%◌, ◌^◌, bit_and, bit_or, Bool, true, false, not, ◌&&◌, Option, none, some, List, [],
  ◌∷◌, ltb, ◌==◌, ◌!=◌, if◌then◌else◌, ◌>>=◌,
}
use x3c0_microkernel.Common.Words.{not_u32}
use x3c0_microkernel.Security.{security_privilege_count, restricted_privileges, default_privileges}
use x3c0_microkernel.Bitmap.{Bitmap}
use x3c0_microkernel.Bitmap

-- `namespace ProcessState`.
abbrev pub io_bound : ℕ
io_bound = 0x1

abbrev pub kernel : ℕ
kernel = 0x8

abbrev pub receipt_method : ℕ
receipt_method = 0x10

abbrev pub default_process_priority : ℕ
default_process_priority = 1

pub record Process : Type 0 where
  pub page_dir : ℕ
  pub priority : ℕ
  pub security_privileges : Bitmap
  pub state : ℕ
  pub on_receipt : ℕ
  pub driver : ℕ
  pub parent : ℕ

-- `SetBit` on each privilege of a list.
abbrev pub set_all : Bitmap → List ℕ → Option Bitmap
set_all m [] = some m
set_all m (b ∷ bs) = Bitmap.set_bit m b >>= λ t. set_all t bs

-- `Process::Process`; `raw` is what the memory of the bitmap and of the uninitialised field
-- `driver` held.
unfoldable pub create : (raw : ℕ → ℕ) → (driver pd message_method f par : ℕ) → Option Process
create raw driver pd message_method f par =
    set_all (Bitmap.create raw security_privilege_count) default_privileges >>= λ m. some (record {
      page_dir = pd;
      priority = default_process_priority;
      security_privileges = m;
      state = if message_method != 0 then bit_or f receipt_method else f;
      on_receipt = message_method;
      driver = driver;
      parent = par;
    })

-- `SetPriority` takes an `unsigned char`.
unfoldable pub set_priority : Process → ℕ → Process
set_priority p n = record p { priority = n % 2 ^ 8 }

-- `SetState`: any state, the kernel's too.
unfoldable pub set_state : Process → ℕ → Process
set_state p st = record p { state = st }

unfoldable pub set_receipt_method : Process → ℕ → Process
set_receipt_method p on_rec = record p {
  on_receipt = on_rec;
  state =
      if on_rec != 0
      then bit_or p.state receipt_method
      else bit_and p.state (not_u32 receipt_method);
}

unfoldable pub become_driver : Process → ℕ → Process
become_driver p d = if d != 0 && p.driver == 0 then record p { driver = d } else p

unfoldable pub is_driver : Process → Bool
is_driver p = p.driver != 0

abbrev pub is_kernel : Process → Bool
is_kernel p = bit_and p.state kernel == kernel

-- Is the privilege one of the list?
abbrev pub listed : ℕ → List ℕ → Bool
listed b [] = false
listed b (c ∷ cs) = if c == b then true else listed b cs

-- `SetSecurityPrivilege` flips the privilege.
unfoldable pub set_security_privilege : Process → ℕ → Option (Process × Bool)
set_security_privilege p b =
    if not (is_kernel p) && listed b restricted_privileges
    then some (p, false)
    else (Bitmap.test_bit p.security_privileges b >>= λ on.
        (if on
          then Bitmap.clear_bit p.security_privileges b
          else Bitmap.set_bit p.security_privileges b)
        >>= λ m. some (record p { security_privileges = m }, true))

-- The system call, with the number in EAX: the process and the code returned.
unfoldable pub toggle_security_privilege : Process → ℕ → Option (Process × ℕ)
toggle_security_privilege p eax =
    if ltb (security_privilege_count - 1) eax
    then some (p, 4)
    else (set_security_privilege p eax >>= λ (q, done). some (q, if done then 0 else 5))

-- A series of such calls by one process.
unfoldable pub toggle_all : Process → List ℕ → Option Process
toggle_all p [] = some p
toggle_all p (b ∷ bs) = toggle_security_privilege p b >>= λ (q, _). toggle_all q bs
