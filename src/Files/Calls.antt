-- ===== src/Files/Calls.antt =====
-- The POSIX calls of C library stubs/SystemCalls.c on open files and processes. The words that a
-- response points at are given by `memory`. `none` is an access outside of an array.
use x3c0_microkernel.Common.{
  ℕ, zero, suc, ◌+◌, Bool, ◌&&◌, Option, none, some, List, [], ◌∷◌, get_elem?, set, length, ltb,
  leb, ◌==◌, if◌then◌else◌, ◌>>=◌, update,
}
use x3c0_microkernel.Common.Words.{u32}
use x3c0_microkernel.ProcessIds.{ℤ, pos, negsuc, Pids, get_kernel_pid}
use x3c0_microkernel.Files.{
  Files, Errno, ebadf, enotty, esrch, erange, Outside, send_message, send_message_to_vfs,
}

-- `errno = e; return -1`.
abbrev pub fail : Files → Errno → Files × ℤ
fail f e = (record f { errno = e }, negsuc 0)

-- `file < 0 || file > _handleCount`: the place of the file, or nothing.
abbrev pub checked : Files → ℤ → Option ℕ
checked f (negsuc n) = none
checked f (pos file) = if ltb (length f.handles) file then none else some file

-- The codes of the messages.
abbrev pub msg_close_stream : ℕ
msg_close_stream = 26

abbrev pub msg_read_stream : ℕ
msg_read_stream = 27

abbrev pub msg_write_stream : ℕ
msg_write_stream = 28

abbrev pub msg_get_file_status : ℕ
msg_get_file_status = 29

-- `FileData`, and what `fstat` makes of it in `struct stat`.
pub record FileData : Type 0 where
  pub device_id : ℕ
  pub file_identifier : ℕ
  pub file_mode : ℕ
  pub user_id : ℕ
  pub group_id : ℕ
  pub file_size : ℕ

pub record Stat : Type 0 where
  pub st_dev : ℕ
  pub st_ino : ℕ
  pub st_mode : ℕ
  pub st_nlink : ℕ
  pub st_uid : ℕ
  pub st_gid : ℕ
  pub st_rdev : ℕ
  pub st_size : ℕ

abbrev pub stat_of : FileData → Stat
stat_of d = record {
  st_dev = d.device_id;
  st_ino = d.file_identifier;
  st_mode = d.file_mode;
  st_nlink = 1;
  st_uid = d.user_id;
  st_gid = d.group_id;
  st_rdev = d.device_id;
  st_size = d.file_size;
}

-- `lseek`'s third argument.
pub data Whence : Type 0 where
  seek_set : Whence
  seek_cur : Whence
  seek_end : Whence

module _ (o : Outside) where
  -- The request with the number by which the file system knows the file.
  abbrev pub ask : Files → (file code : ℕ) → Option Files
  ask f file code = get_elem? f.handles file >>= λ at.
      send_message_to_vfs o f (pos file) (f.handle_at at).absolute_handle 4 code 1

  unfoldable pub close : Files → (file : ℤ) → Option (Files × ℤ)
  close f file = elim (checked f file) [
    | none ↦ some (fail f ebadf)
    | some n ↦ ask f n msg_close_stream >>= λ g. some (g, pos 0)
  ]

  -- The operation's data leads to the description of the file.
  unfoldable pub fstat :
      (file_data : ℕ → FileData) → Files → (file : ℤ) (st : Stat) → Option (Files × Stat × ℤ)
  fstat file_data f file st = elim (checked f file) [
    | none ↦ some (record f { errno = ebadf }, st, negsuc 0)
    | some n ↦ ask f n msg_get_file_status >>= λ g.
        some (g, stat_of (file_data (g.operations o.op_at).operation_wake_data), pos 0)
  ]

  -- `fh->filePosition = position`.
  abbrev pub set_position : Files → (at position : ℕ) → Files
  set_position f at position = record f {
    handle_at = update f.handle_at at (record (f.handle_at at) { file_position = position });
  }

  -- `lseek`, with its offset in two's complement; where it succeeds nothing is returned.
  unfoldable pub lseek :
      (file_data : ℕ → FileData)
      → Files
      → (file : ℤ) (ptr : ℕ) (dir : Whence) (st : Stat) → Option (Files × Option ℤ)
  lseek file_data f file ptr dir st = elim (checked f file) [
    | none ↦ some (record f { errno = ebadf }, some (negsuc 0))
    | some n ↦ get_elem? f.handles n >>= λ at. elim dir [
      | seek_set ↦ some (set_position f at ptr, none)
      | seek_cur ↦ some (set_position f at (u32 (ptr + (f.handle_at at).file_position)), none)
      | seek_end ↦ fstat file_data f file st >>= λ (g, status, r).
          some (set_position g at (u32 (ptr + status.st_size)), none)
    ]
  ]

  -- What a call writes at `buffer`.
  abbrev pub fill : Files → (buffer : ℕ) → List ℕ → Files
  fill f buffer words = record f { buffers = update f.buffers buffer words }

  -- `read`: the request, at `structure`, has three words; the response has the address of the bytes
  -- and their number, which are copied to the caller.
  unfoldable pub read :
      (memory : ℕ → ℕ)
      → Files
      → (file : ℤ) (len structure : ℕ) → Option (Files × ℤ × Option (ℕ × ℕ))
  read memory f file len structure = elim (checked f file) [
    | none ↦ some (record f { errno = ebadf }, negsuc 0, none)
    | some n ↦ get_elem? f.handles n >>= λ at.
        if at == 0
        then some (record f { errno = ebadf }, negsuc 0, none)
        else let h = f.handle_at at in
          let asked = fill f structure (h.absolute_handle ∷ len ∷ h.file_position ∷ []) in
          send_message_to_vfs o asked file structure 12 msg_read_stream 1 >>= λ g.
          let response = (g.operations o.op_at).operation_wake_data in
          let count = memory (response + 4) in
          some (
            set_position g at (u32 ((g.handle_at at).file_position + count)),
            pos count,
            some (memory response, count),
          )
  ]

  -- `write`: the buffer begins with the file system's number of the file, and the bytes follow. A
  -- negative file is not refused.
  unfoldable pub write : Files → (file : ℤ) (buffer : ℕ) (bytes : List ℕ) → Option (Files × ℤ)
  write f (negsuc n) buffer bytes = if length bytes == 0 then some (fail f erange) else none
  write f (pos file) buffer bytes =
      if length bytes == 0
      then some (fail f erange)
      else if ltb (length f.handles) file
      then some (fail f ebadf)
      else get_elem? f.handles file >>= λ at.
          let asked = fill f buffer ((f.handle_at at).absolute_handle ∷ bytes) in
          send_message_to_vfs o asked (pos file) buffer (u32 (length bytes + 4)) msg_write_stream 1
          >>= λ g. some (g, pos 0)

  -- `isatty`: `tty` tells whether the name at an address is that of the terminal.
  unfoldable pub isatty : (tty : ℕ → Bool) → Files → (file : ℤ) → Option (Files × ℤ)
  isatty tty f (negsuc n) = some (record f { errno = enotty }, pos 0)
  isatty tty f (pos file) =
      if ltb file (length f.handles) && ltb 0 file
      then (get_elem? f.handles file >>= λ at.
          if tty (f.handle_at at).name
          then some (f, pos 1)
          else some (record f { errno = enotty }, pos 0))
      else some (record f { errno = enotty }, pos 0)

-- `kill`.
unfoldable pub kill : Pids → Files → (pid : ℤ) (sig : ℕ) → Option (Files × ℤ)
kill pids f pid sig = get_kernel_pid pids pid >>= λ native.
    if native == 0 then some (fail f esrch) else some (send_message f native 0 0 sig 0 0, pos 0)

-- The array of signals after `realloc` to `n` elements; the new ones are as `raw` has them.
unfoldable pub resize : (raw : ℕ → ℕ) → List ℕ → (n : ℕ) → List ℕ
resize raw signals zero = []
resize raw [] (suc n) = raw n ∷ resize raw [] n
resize raw (x ∷ signals) (suc n) = x ∷ resize raw signals n

abbrev pub write_at : List ℕ → (i value : ℕ) → Option (List ℕ)
write_at xs i value = if ltb i (length xs) then some (set xs i value) else none

-- `signal`, for a number that is not negative.
unfoldable pub signal : (raw : ℕ → ℕ) → (signals : List ℕ) → (sig action : ℕ) → Option (List ℕ)
signal raw signals sig action =
    write_at (if leb (length signals) sig then resize raw signals sig else signals) sig action
