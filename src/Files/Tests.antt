-- ===== src/Files/Tests.antt =====
-- A process with one open file, whose next request gets an ID of its pool.
use x3c0_microkernel.Common.{ℕ, ◌≡◌, refl, arith, none, some, [], ◌∷◌}
use x3c0_microkernel.Files.{
  FileOperation, FileHandle, Request, Files, Outside, none_yet, begin_request, awoken, vfs_handler,
}
use x3c0_microkernel.Files.Answers.{Known, Got}
use x3c0_microkernel.Files.Requests.{next_id, begin_request-answered, begin_request-unanswered}
use x3c0_microkernel.MessageThreads.{get_next_mtid}
use x3c0_microkernel.ProcessIds.{pos}
use x3c0_microkernel.Files.Calls.{FileData, Stat, close, fstat, lseek, read, write, seek_cur}
use x3c0_microkernel.Files.Behind.{calls-behind}

abbrev operation : FileOperation
operation = record { waiting_for_id = 0; wake_thread = 0; operation_wake_data = 0 }

abbrev file : FileHandle
file = record {
  name = 0x100;
  absolute_handle = 7;
  file_position = 0;
  flags = 0;
  pending_operations = λ i. 0;
  operation_count = 0;
}

-- A pool without free IDs.
abbrev files : (max_thread : ℕ) → Files
files max_thread = record {
  handles = 0x200 ∷ [];
  handle_at = λ a. file;
  operations = λ a. operation;
  pool = record { free_ids = λ i. 0; free_count = 0; max_thread = max_thread };
  errno = none_yet;
  sent = [];
  woken = [];
  buffers = λ a. [];
}

abbrev outside : Outside
outside = record {
  realloc = λ words bytes. some words;
  vfs = 0x300;
  op_at = 0x400;
  raw_op = record operation { wake_thread = 0x600 };
  handle_at = 0x500;
  raw_handle = file;
  meanwhile = λ f. some f;
  meanwhile_again = λ f. some f;
}

next_id_lem : next_id outside (files 5) ≡ 5
unfolding get_next_mtid
next_id_lem = refl

next_id_large : next_id outside (files 300) ≡ 300
unfolding get_next_mtid
next_id_large = refl

files-Known : Known (files 5) (next_id outside (files 5))
files-Known a e z = omega (arith, e, next_id_lem)

begin_request-answered_example :
    (g : Files) × (begin_request outside (files 5) 0 7 4 26 1 ≡ some g)
    × ((r : Request) × (g.sent ≡ r ∷ []) × (r.message_thread ≡ next_id outside (files 5)))
    × ((h : Files) × (vfs_handler outside.realloc g (next_id outside (files 5)) 0x700 ≡ some h)
        × Got h 0x400 0x700)
    × (vfs_handler outside.realloc (awoken outside g) (next_id outside (files 5)) 0x700 ≡ none)
begin_request-answered_example =
    begin_request-answered outside (files 5) 0 0x200 7 4 26 1 0x700 refl
      (omega (arith, next_id_lem)) (omega arith) (λ e. omega arith) files-Known

begin_request-unanswered_example :
    (g : Files) × (begin_request outside (files 300) 0 7 4 26 1 ≡ some g)
    × ((r : Request) × (g.sent ≡ r ∷ []) × (r.message_thread ≡ next_id outside (files 300)))
    × (vfs_handler outside.realloc g (next_id outside (files 300)) 0x700 ≡ some g)
begin_request-unanswered_example =
    begin_request-unanswered outside (files 300) 0 0x200 7 4 26 1 0x700 refl
      (omega (arith, next_id_large)) (λ a. omega arith)

abbrev no_status : Stat
no_status = record {
  st_dev = 0;
  st_ino = 0;
  st_mode = 0;
  st_nlink = 0;
  st_uid = 0;
  st_gid = 0;
  st_rdev = 0;
  st_size = 0;
}

abbrev file_data : ℕ → FileData
file_data a = record {
  device_id = 0;
  file_identifier = 0;
  file_mode = 0;
  user_id = 0;
  group_id = 0;
  file_size = 0;
}

calls-behind_example :
    (close outside (files 5) (pos 1) ≡ none)
    × (fstat outside file_data (files 5) (pos 1) no_status ≡ none)
    × (lseek outside file_data (files 5) (pos 1) 16 seek_cur no_status ≡ none)
    × (read outside (λ a. 0) (files 5) (pos 1) 8 0x800 ≡ none)
    × (write outside (files 5) (pos 1) 0x800 (65 ∷ []) ≡ none)
calls-behind_example =
    calls-behind outside file_data (λ a. 0) (files 5) 16 seek_cur no_status 8 0x800 (65 ∷ [])
      (λ e. omega arith)
