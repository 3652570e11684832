-- ===== src/Files/Behind.antt =====
-- The calls of C library stubs/SystemCalls.c on the first file behind the open ones.
use x3c0_microkernel.Common.{
  ℕ, ◌≡◌, ◌≢◌, refl, arith, false, none, List, length, get_elem?_ge, ltb, ==_ne,
}
use x3c0_microkernel.ProcessIds.{pos}
use x3c0_microkernel.Files.{Files, Outside}
use x3c0_microkernel.Files.Calls.{FileData, Stat, Whence, close, fstat, lseek, read, write}

not_beyond : (n : ℕ) → ltb n n ≡ false
not_beyond n = ground arith

-- The file whose number is that of the open files passes the tests of close, fstat, lseek, read and
-- of write with a byte or more, and each of them reads the array of handles behind its end.
pub calls-behind :
    (o : Outside) (file_data : ℕ → FileData) (memory : ℕ → ℕ) (f : Files) (ptr : ℕ) (dir : Whence)
    (st : Stat) (len buffer : ℕ) (bytes : List ℕ)
    → length bytes ≢ 0
    → (close o f (pos (length f.handles)) ≡ none)
      × (fstat o file_data f (pos (length f.handles)) st ≡ none)
      × (lseek o file_data f (pos (length f.handles)) ptr dir st ≡ none)
      × (read o memory f (pos (length f.handles)) len buffer ≡ none)
      × (write o f (pos (length f.handles)) buffer bytes ≡ none)
unfolding close fstat lseek read write
calls-behind o file_data memory f ptr dir st len buffer bytes some_bytes =
    let same = not_beyond (length f.handles) in
    let behind = get_elem?_ge f.handles (length f.handles) (omega arith) in
    (
      rw (close, same, behind) refl,
      rw (fstat, same, behind) refl,
      rw (lseek, same, behind) refl,
      rw (read, same, behind) refl,
      rw (write, ==_ne (length bytes) 0 some_bytes, same, behind) refl,
    )
