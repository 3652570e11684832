-- ===== src/Kernel/Listed.antt =====
-- `RequestProcessData` of Source/SystemCalls/Native.cpp: the processes that it lists.
use x3c0_microkernel.Common.{
  ℕ, zero, suc, ◌+◌, ◌<◌, ◌≡◌, ◌⊎◌, inl, inr, refl, arith, true, false, none, some, List, [], ◌∷◌,
  length, ltb, if◌then◌else◌, ==_ne, Bool-cases, Option-cases,
}
use x3c0_microkernel.Common.Words.{u32}
use x3c0_microkernel.LinkedList.{Heap, LinkedList, load}
use x3c0_microkernel.LinkedList.Chain.{Cells, start, Chain, IsList}
use x3c0_microkernel.Kernel.{Kernel}
use x3c0_microkernel.Kernel.Listing.{
  ThreadData, MemoryUsage, ProcessEntry, ReturnValue, bit_set, thread_data, get_all_processes,
  thread_entries, process_entry, process_entries, request_process_data,
}

-- The loop over the threads walks the list of processes to its end, if it ends.
thread_entries-end :
    (fuel : ℕ) (k : Kernel) (thread_node count j p : ℕ) (cells : Cells)
    → Chain k.nodes p cells
    → (thread_entries fuel k thread_node (start cells) count j ≡ none)
      ⊎ ((ts : List ThreadData) × (thread_entries fuel k thread_node (start cells) count j
            ≡ some (0, ts)))
unfolding thread_entries
thread_entries-end zero k thread_node count j p cells c = inl refl
thread_entries-end (suc fuel) k thread_node count j p [] c = inr ([], refl)
thread_entries-end (suc fuel) k thread_node count j p ((a, v) ∷ cells) (na, nv, e, absent, rest) =
    elim (Option-cases (load k.nodes thread_node)) [
      | inl missing ↦ inl (rw (==_ne a 0 na, e, ==_ne v 0 nv, missing) refl)
      | inr (t, there) ↦ elim (thread_entries-end fuel k thread_node count (j + 1) a cells rest) [
        | inl stuck ↦ inl (rw (==_ne a 0 na, e, ==_ne v 0 nv, there, stuck) refl)
        | inr (ts, done) ↦ elim (Bool-cases (ltb j count)) [
          | inl room ↦ inr (
            thread_data k t.value ∷ ts,
            rw (==_ne a 0 na, e, ==_ne v 0 nv, there, done, room) refl,
          )
          | inr full ↦ inl (rw (==_ne a 0 na, e, ==_ne v 0 nv, there, done, full) refl)
        ]
      ]
    ]

module _ (name_of : ℕ → ℕ → ℕ) (usage_of : ℕ → MemoryUsage) where
  process_entries-faults :
      (fuel : ℕ) (k : Kernel) (flags p a v : ℕ) (cells : Cells)
      → Chain k.nodes p ((a, v) ∷ cells)
      → bit_set flags 2 ≡ true
      → process_entries name_of usage_of fuel k flags a ≡ none
  unfolding process_entries
  process_entries-faults zero k flags p a v cells c threads = refl
  process_entries-faults (suc fuel) k flags p a v cells (na, nv, e, absent, rest) threads =
      let own = (k.process_threads v).threads in
      elim (thread_entries-end fuel k own.first own.count 0 p ((a, v) ∷ cells)
        (na, nv, e, absent, rest)) [
          | inl stuck ↦ rw (==_ne a 0 na, e, ==_ne v 0 nv, threads, stuck) refl
          | inr (ts, done) ↦ rw (==_ne a 0 na, e, ==_ne v 0 nv, threads, done) refl
        ]

  -- The entries of the processes of a list.
  abbrev pub listed : Kernel → (flags : ℕ) → Cells → List ProcessEntry
  listed k flags [] = []
  listed k flags ((a, v) ∷ cells) =
      process_entry name_of usage_of k flags v none ∷ listed k flags cells

  process_entries-listed :
      (fuel : ℕ) (k : Kernel) (flags p : ℕ) (cells : Cells)
      → Chain k.nodes p cells
      → length cells < fuel
      → bit_set flags 2 ≡ false
      → process_entries name_of usage_of fuel k flags (start cells) ≡ some (listed k flags cells)
  unfolding process_entries
  process_entries-listed zero k flags p cells c l threads = absurd (omega arith)
  process_entries-listed (suc fuel) k flags p [] c l threads = refl
  process_entries-listed (suc fuel) k flags p ((a, v) ∷ cells) (na, nv, e, absent, rest) l threads =
      rw
        (
          ==_ne a 0 na,
          e,
          ==_ne v 0 nv,
          threads,
          process_entries-listed fuel k flags a cells rest (omega arith) threads,
        )
        refl

  -- What is returned when the list of processes was asked for.
  abbrev pub listing : Kernel → (flags vfs count : ℕ) → List ProcessEntry → ReturnValue
  listing k flags vfs count entries = record {
    vfs_pointer = if bit_set flags 0 then u32 vfs else 0;
    current_pid = if bit_set flags 6 then u32 k.scheduler.current_process else 0;
    process_count = count;
    processes = entries;
  }

  -- Let bit 1 of the flags be set, and let `GetAllProcesses` give a list with at least one process,
  -- with more fuel than its length. If bit 2 is set, the threads are asked for, and the call faults:
  -- the loop over the threads moves on in the list of processes, to its end. If not, the call
  -- succeeds, and has one entry for each process of the list, in its order.
  pub request_process_data-listed :
      (fuel : ℕ) (k : Kernel) (schedulers : List LinkedList) (fresh : ℕ → ℕ) (flags vfs : ℕ)
      (h : Heap) (all : LinkedList) (a v : ℕ) (cells : Cells)
      → get_all_processes fuel k.nodes schedulers fresh ≡ some (h, all)
      → IsList h all ((a, v) ∷ cells)
      → length ((a, v) ∷ cells) < fuel
      → bit_set flags 1 ≡ true
      → let asked = request_process_data name_of usage_of fuel k schedulers fresh flags vfs in
        let after = record k { nodes = h } in
        ((bit_set flags 2 ≡ true) × (asked ≡ none))
        ⊎ ((bit_set flags 2 ≡ false)
            × (asked
                ≡ some (
                  after,
                  some (
                      listing after flags vfs
                        (length ((a, v) ∷ cells))
                        (listed after flags ((a, v) ∷ cells))),
                  0,
                )))
  unfolding request_process_data
  request_process_data-listed fuel k schedulers fresh flags vfs h all a v cells got l enough one =
      elim (Bool-cases (bit_set flags 2)) [
        | inl two ↦ inl (
          two,
          rw
              (
                one,
                got,
                l.first,
                process_entries-faults fuel (record k { nodes = h }) flags l.previous a v cells
                    l.chain two,
              )
              refl,
        )
        | inr two ↦ inr (
          two,
          rw
              (
                one,
                got,
                l.first,
                l.count,
                process_entries-listed fuel (record k { nodes = h }) flags l.previous
                    ((a, v) ∷ cells) l.chain enough two,
              )
              refl,
        )
      ]
