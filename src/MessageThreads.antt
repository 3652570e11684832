-- ===== src/MessageThreads.antt =====
-- `getNextMTID` of C library stubs/SystemCalls.c and `recycleMTID` of C library
-- stubs/MessageHandlers.c: the IDs by which a response is matched to its request. Words and
-- pointers have 4 bytes. `realloc` gives what the words from the new block's start on read as, or
-- `none` for a null pointer; those behind the block's end are among them, with any value.
pub mod Behind
mod Tests
use x3c0_microkernel.Common.{
  ℕ, ◌+◌, ◌-◌, ◌*◌, Option, none, some, ◌==◌, ◌!=◌, if◌then◌else◌, update,
}
use x3c0_microkernel.Common.Words.{u32, sub_u32}

-- `_freeMThreadIDs`, `_freeMThreadCount` and `_maxMThread`.
pub record Pool : Type 0 where
  pub free_ids : ℕ → ℕ
  pub free_count : ℕ
  pub max_thread : ℕ

-- The pool as `preMain` leaves it; the one word that it allocates is not set.
abbrev pub pre_main : (raw : ℕ → ℕ) → Pool
pre_main raw = record { free_ids = raw; free_count = 1; max_thread = 1 }

-- `if(tids != 0) _freeMThreadIDs = tids`.
abbrev pub moved : Option (ℕ → ℕ) → (ℕ → ℕ) → ℕ → ℕ
moved none ids = ids
moved (some tids) ids = tids

-- The new ID behind the others in the block that `realloc` returned; it is lost when it failed.
abbrev pub append_id : Option (ℕ → ℕ) → Pool → (mtid : ℕ) → Pool
append_id none p mtid = p
append_id (some ids) p mtid = record p {
  free_ids = update ids p.free_count mtid;
  free_count = u32 (p.free_count + 1);
}

module _ (realloc : (ℕ → ℕ) → (bytes : ℕ) → Option (ℕ → ℕ)) where
  -- Where `realloc` succeeds, the word that is read is the first one behind the new block.
  unfoldable pub get_next_mtid : Pool → Pool × ℕ
  get_next_mtid p =
      let max_idx = sub_u32 p.free_count 1 in
      let ids = moved (realloc p.free_ids (u32 (max_idx * 4))) p.free_ids in
      if p.free_count != 0
      then (record p { free_ids = ids; free_count = max_idx }, ids max_idx)
      else (record p { max_thread = u32 (p.max_thread + 1) }, p.max_thread)

  unfoldable pub recycle_mtid : Pool → (mtid : ℕ) → Pool
  recycle_mtid p mtid =
      if mtid == sub_u32 p.max_thread 1
      then record p { max_thread = sub_u32 p.max_thread 1 }
      else append_id (realloc p.free_ids (u32 (4 * u32 (p.free_count + 1)))) p mtid
