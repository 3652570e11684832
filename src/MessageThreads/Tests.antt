-- ===== src/MessageThreads/Tests.antt =====
-- A pool of three IDs, of which 0 goes back to it and 2 stays in use.
use x3c0_microkernel.Common.{ℕ, ◌+◌, ◌≡◌, refl, Option, none, arith}
use x3c0_microkernel.MessageThreads.{Pool, pre_main, get_next_mtid, recycle_mtid}
use x3c0_microkernel.MessageThreads.Behind.{KeepsContents, recycle_mtid-lost}

abbrev three_out : Pool
three_out = record { free_ids = λ i. 0; free_count = 0; max_thread = 3 }

recycle_mtid-lost_example :
    (realloc : (ℕ → ℕ) → (bytes : ℕ) → Option (ℕ → ℕ)) × KeepsContents realloc
    × (let q = recycle_mtid realloc three_out 0 in
        (q.free_count ≡ 0 + 1) × (q.free_ids 0 ≡ 0) × ((get_next_mtid realloc q).1 ≡ 2))
unfolding recycle_mtid
recycle_mtid-lost_example = recycle_mtid-lost three_out 0 2 (λ e. omega arith) (omega arith)

-- The first ID is the word that `preMain` leaves unset.
first_id : (get_next_mtid (λ ids bytes. none) (pre_main (λ i. 7))).1 ≡ 7
unfolding get_next_mtid
first_id = refl
