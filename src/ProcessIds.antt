-- ===== src/ProcessIds.antt =====
-- C library stubs/SystemCalls.c: the POSIX process IDs, which are places in the array `_pids`, and
-- the handlers of messages that are kept with them. An element is `none` for a null pointer. The
-- count `_pidCount` is the array's length. A function gives `none` where it reads or writes outside
-- of the array or through a null pointer.
pub mod Places
pub mod Handlers
mod Tests
use x3c0_microkernel.Common.{
  ℕ, zero, suc, ◌+◌, ◌-◌, ◌^◌, Bool, true, false, ◌&&◌, Option, none, some, List, [], ◌∷◌, ◌++◌,
  get_elem?, set, length, ltb, leb, ◌==◌, if◌then◌else◌, ◌>>=◌,
}

-- `int`.
pub data ℤ : Type 0 where
  pos : ℕ → ℤ
  negsuc : ℕ → ℤ

-- `(int)pid`.
abbrev pub to_int : ℕ → ℤ
to_int w = if ltb w (2 ^ 31) then pos w else negsuc (2 ^ 32 - 1 - w)

-- `ProcessData`; a handler is the address of a function.
pub record ProcessData : Type 0 where
  pub native_pid : ℕ
  pub handler : ℕ

abbrev pub Pids : Type 0
Pids = List (Option ProcessData)

-- The loop of `getLinuxPID`.
unfoldable pub get_linux_from : Pids → (kernel_pid i : ℕ) → ℤ
get_linux_from [] kernel_pid i = negsuc 0
get_linux_from (none ∷ pids) kernel_pid i = get_linux_from pids kernel_pid (i + 1)
get_linux_from (some d ∷ pids) kernel_pid i =
    let rest = get_linux_from pids kernel_pid (i + 1) in
    if d.native_pid == kernel_pid then pos i else rest

unfoldable pub get_linux_pid : Pids → (kernel_pid : ℕ) → ℤ
get_linux_pid pids kernel_pid = get_linux_from pids kernel_pid 0

unfoldable pub get_kernel_pid : Pids → ℤ → Option ℕ
get_kernel_pid pids (negsuc n) = some 0
get_kernel_pid pids (pos linux_pid) =
    if ltb (length pids) linux_pid
    then some 0
    else get_elem? pids linux_pid >>= λ e. e >>= λ d. some d.native_pid

-- The loop of `addPOSIXPid`: the new element takes the first empty place; `none` if there is none.
unfoldable pub fill_from : Pids → ProcessData → (i : ℕ) → Option (Pids × ℤ)
fill_from [] new i = none
fill_from (none ∷ pids) new i = some (some new ∷ pids, pos i)
fill_from (some d ∷ pids) new i =
    fill_from pids new (i + 1) >>= λ (qids, at). some (some d ∷ qids, at)

-- What follows the loop; `grown` tells whether `realloc` succeeded.
abbrev pub fill_or_grow :
    (grown : Bool) → Pids → ProcessData → Option (Pids × ℤ) → Option (Pids × ℤ)
fill_or_grow grown pids new (some filled) = some filled
fill_or_grow true pids new none = some (pids ++ some new ∷ [], pos (length pids))
fill_or_grow false pids new none = none

-- What is done when `getLinuxPID` returned `idx`.
abbrev pub add_unless : ℤ → (grown : Bool) → Pids → ProcessData → Option (Pids × ℤ)
add_unless (pos idx) grown pids new = some (pids, pos idx)
add_unless (negsuc zero) grown pids new = fill_or_grow grown pids new (fill_from pids new 0)
add_unless (negsuc (suc n)) grown pids new = some (pids, negsuc (suc n))

-- `addPOSIXPid`; `malloc` succeeds, and `raw` is what the handler's memory held.
unfoldable pub add_posix_pid : (grown : Bool) → (raw : ℕ) → Pids → (native : ℕ) → Option (Pids × ℤ)
add_posix_pid grown raw pids native =
    add_unless (get_linux_pid pids native) grown pids
      (record { native_pid = native; handler = raw })

-- `_pids[idx]->handler = hnd`, behind the two tests of `idx`.
abbrev pub set_handler : Pids → ℤ → (hnd : ℕ) → Option Pids
set_handler pids (negsuc n) hnd = some pids
set_handler pids (pos idx) hnd =
    if ltb (length pids) idx
    then some pids
    else get_elem? pids idx >>= λ e.
        e >>= λ d. some (set pids idx (some (record d { handler = hnd })))

unfoldable pub install_message_handler :
    (grown : Bool) → (raw : ℕ) → Pids → (pid native_pid hnd : ℕ) → Option Pids
install_message_handler grown raw pids pid native_pid hnd =
    if native_pid == 1
    then (add_posix_pid grown raw pids pid >>= λ (qids, idx). set_handler qids idx hnd)
    else set_handler pids (to_int pid) hnd

-- The handler at `idx`; of the negative ones only -1 is tested for.
abbrev pub get_handler : Pids → ℤ → Option ℕ
get_handler pids (negsuc zero) = some 0
get_handler pids (negsuc (suc n)) = none
get_handler pids (pos idx) =
    if leb (length pids) idx
    then some 0
    else get_elem? pids idx >>= λ e. elim e [ none ↦ some 0 | some d ↦ some d.handler ]

-- `retreiveMessageHandler`.
unfoldable pub retrieve_message_handler : Pids → (pid native_pid : ℕ) → Option ℕ
retrieve_message_handler pids pid native_pid =
    if native_pid == 1
    then get_handler pids (get_linux_pid pids pid)
    else get_handler pids (to_int pid)
