-- ===== src/Files.antt =====
-- C library stubs/SystemCalls.c and C library stubs/MessageHandlers.c: the open files of a process,
-- the requests to the file system about them, and the handler of its responses. Pointers are
-- addresses; `_handleCount` is the length of the array `_handles`. `malloc` and the calls of
-- `realloc` that lengthen an array succeed, and a new block's contents are parameters. `none` is an
-- access outside of an array, or a loop that does not end.
pub mod Calls
pub mod Answers
pub mod Waiting
pub mod Requests
pub mod Behind
mod Tests
use x3c0_microkernel.Common.{
  ℕ, zero, suc, ◌+◌, ◌*◌, ◌%◌, ◌^◌, bit_and, Option, none, some, List, [], ◌∷◌, ◌++◌, get_elem?,
  length, ◌==◌, if◌then◌else◌, ◌>>=◌, update,
}
use x3c0_microkernel.Common.Words.{u32}
use x3c0_microkernel.MessageThreads.{Pool, get_next_mtid, recycle_mtid}
use x3c0_microkernel.ProcessIds.{ℤ, pos, negsuc}

-- `FileOperation`; `waitingForID` is a `uint8_t`.
pub record FileOperation : Type 0 where
  pub waiting_for_id : ℕ
  pub wake_thread : ℕ
  pub operation_wake_data : ℕ

-- `FileHandle`; `pendingOperations` gives addresses.
pub record FileHandle : Type 0 where
  pub name : ℕ
  pub absolute_handle : ℕ
  pub file_position : ℕ
  pub flags : ℕ
  pub pending_operations : ℕ → ℕ
  pub operation_count : ℕ

-- The message that `sendMessage` passes to the kernel.
pub record Request : Type 0 where
  pub destination : ℕ
  pub contents : ℕ
  pub length : ℕ
  pub code : ℕ
  pub message_thread : ℕ

-- The values that `errno` is set to.
pub data Errno : Type 0 where
  ebadf : Errno
  enotty : Errno
  esrch : Errno
  erange : Errno
  none_yet : Errno

-- `handles` is `_handles`; `handle_at` and `operations` are what stands at addresses; `sent` has the
-- last message first, and `woken` the last thread that was woken. `buffers` has what the calls wrote
-- for the file system.
pub record Files : Type 0 where
  pub handles : List ℕ
  pub handle_at : ℕ → FileHandle
  pub operations : ℕ → FileOperation
  pub pool : Pool
  pub errno : Errno
  pub sent : List Request
  pub woken : List ℕ
  pub buffers : ℕ → List ℕ

-- `sendMessage`.
unfoldable pub send_message : Files → (destination contents size code m_id flags : ℕ) → Files
send_message f destination contents size code m_id flags =
    let bare = bit_and flags 1 == 0 in
    record f {
      sent =
          record {
            destination = destination;
            contents = if bare then 0 else contents;
            length = if bare then 0 else size;
            code = code;
            message_thread = m_id;
          }
          ∷ f.sent;
    }

-- What a call needs from outside: `realloc` for the IDs, the process of the file system, the
-- allocator's answers and what the new blocks hold, and what happens while the thread sleeps, for the
-- first and the second time.
pub record Outside : Type 0 where
  pub realloc : (ℕ → ℕ) → (bytes : ℕ) → Option (ℕ → ℕ)
  pub vfs : ℕ
  pub op_at : ℕ
  pub raw_op : FileOperation
  pub handle_at : ℕ
  pub raw_handle : FileHandle
  pub meanwhile : Files → Option Files
  pub meanwhile_again : Files → Option Files

module _ (o : Outside) where
  -- The operation is tacked onto those of the file at `at`, with its ID, which is cut to 8 bits.
  abbrev pub noted : Files → (at : ℕ) → Files
  noted f at =
      let (pool, m_id) = get_next_mtid o.realloc f.pool in
      let handle = f.handle_at at in
      record f {
        pool = pool;
        handle_at = update f.handle_at at (record handle {
          pending_operations = update handle.pending_operations handle.operation_count o.op_at;
          operation_count = u32 (handle.operation_count + 1);
        });
        operations =
            update f.operations o.op_at (record o.raw_op { waiting_for_id = m_id % 2 ^ 8 });
      }

  -- The request is noted with its file and sent.
  unfoldable pub begin_request : Files → (fh contents size code flags : ℕ) → Option Files
  begin_request f fh contents size code flags = get_elem? f.handles fh >>= λ at.
      some (
        send_message (noted f at) o.vfs contents size code (get_next_mtid o.realloc f.pool).1 flags)

  -- What call 15 returns is noted as the thread. That call is `SleepThread`, whose code is 0.
  abbrev pub awoken : Files → Files
  awoken f = record f {
    operations = update f.operations o.op_at (record (f.operations o.op_at) { wake_thread = 0 });
  }

  -- The thread sleeps unless the response is there: in the call that is made for its ID, and then in
  -- the one that is made for the sleep.
  unfoldable pub await : Files → Option Files
  await f =
      if (f.operations o.op_at).operation_wake_data == 0
      then (o.meanwhile f >>= λ g. o.meanwhile_again (awoken g))
      else some f

  -- `sendMessageToVFS`; for a negative file a handle is added, and the operation's address is
  -- returned.
  unfoldable pub send_message_to_vfs :
      Files → (fh : ℤ) (contents size code flags : ℕ) → Option Files
  send_message_to_vfs f (pos fh) contents size code flags =
      begin_request f fh contents size code flags >>= λ g. await g
  send_message_to_vfs f (negsuc n) contents size code flags =
      let g = record f {
        handles = f.handles ++ o.handle_at ∷ [];
        handle_at = update f.handle_at o.handle_at o.raw_handle;
      } in
      begin_request g (length f.handles) contents size code flags >>= λ g. await g

-- The response for one operation: the thread is woken, and the ID goes back to the pool. The
-- handler waits as long as the thread is 0, and nothing sets it to anything else.
unfoldable pub answer :
    (realloc : (ℕ → ℕ) → ℕ → Option (ℕ → ℕ))
    → Files
    → (op message_thread contents : ℕ) → Option Files
answer realloc f op message_thread contents =
    let p = f.operations op in
    if p.waiting_for_id == message_thread
    then (if p.wake_thread == 0
        then none
        else some (record f {
          operations = update f.operations op (record p { operation_wake_data = contents });
          woken = p.wake_thread ∷ f.woken;
          pool = recycle_mtid realloc f.pool message_thread;
        }))
    else some f

-- The loop over the operations of a file, from `j` on; its count is read once, since it does not
-- change in the loop.
unfoldable pub answer_pending :
    (realloc : (ℕ → ℕ) → ℕ → Option (ℕ → ℕ))
    → (left : ℕ) → Files
    → (at j message_thread contents : ℕ) → Option Files
answer_pending realloc zero f at j message_thread contents = some f
answer_pending realloc (suc left) f at j message_thread contents =
    answer realloc f ((f.handle_at at).pending_operations j) message_thread contents >>= λ g.
    answer_pending realloc left g at (j + 1) message_thread contents

-- The loop over the files.
unfoldable pub answer_files :
    (realloc : (ℕ → ℕ) → ℕ → Option (ℕ → ℕ))
    → List ℕ
    → Files
    → (message_thread contents : ℕ) → Option Files
answer_files realloc [] f message_thread contents = some f
answer_files realloc (at ∷ rest) f message_thread contents =
    answer_pending realloc (f.handle_at at).operation_count f at 0 message_thread contents >>= λ g.
    answer_files realloc rest g message_thread contents

-- `vfsHandler`.
unfoldable pub vfs_handler :
    (realloc : (ℕ → ℕ) → ℕ → Option (ℕ → ℕ)) → Files → (message_thread contents : ℕ) → Option Files
vfs_handler realloc f message_thread contents =
    answer_files realloc f.handles f message_thread contents
