-- ===== src/Kernel/Tests/Listing.antt =====
-- The processes of the system of Kernel/Tests, in a new list with its nodes at 64, 72 and so on.
use x3c0_microkernel.Common.{
  ℕ, update, ◌+◌, ◌*◌, ◌≡◌, ◌⊎◌, refl, true, false, some, none, [], ◌∷◌, arith,
}
use x3c0_microkernel.LinkedList.{Heap, LinkedList, node, add, create}
use x3c0_microkernel.LinkedList.Chain.{IsList}
use x3c0_microkernel.Kernel.Listing.{
  MemoryUsage, get_all_processes, bit_set, collect, collect_all, request_process_data,
}
use x3c0_microkernel.Kernel.Listed.{listed, listing, request_process_data-listed}
use x3c0_microkernel.Kernel.Tests.{heap, system}

abbrev name_of : ℕ → ℕ → ℕ
name_of p i = 0x41 + i

abbrev usage_of : ℕ → MemoryUsage
usage_of p = record { memory_used = p; shared_page_count = 0 }

abbrev fresh : ℕ → ℕ
fresh i = 64 + i * 8

-- The heap with a node of the constructor, which `Add` leaves behind, and two more.
abbrev first_added : Heap
first_added =
    let started = update heap 64 (some (node 0 0 0)) in
    update (update started 72 (some (node 100 0 0))) 72 (some (node 100 0 0))

abbrev added : Heap
added =
    let fresh_node = update first_added 80 (some (node 200 0 0)) in
    update (update fresh_node 72 (some (node 100 80 0))) 80 (some (node 200 0 72))

abbrev all : LinkedList
all = record { count = 2; first = 72; last = 80 }

got : get_all_processes 5 heap (system.scheduler.processes ∷ []) fresh ≡ some (added, all)
unfolding get_all_processes collect collect_all add create
got = refl

all-IsList : IsList added all ((72, 100) ∷ (80, 200) ∷ [])
all-IsList = record {
  previous = 0;
  chain = (omega arith, omega arith, refl, omega arith, (omega arith, omega arith, refl, tt, tt));
  first = refl;
  last = refl;
  count = refl;
  small = omega arith;
}

request_process_data-listed_example :
    let asked =
      request_process_data name_of usage_of 5 system (system.scheduler.processes ∷ []) fresh 2 0 in
    let after = record system { nodes = added } in
    ((bit_set 2 2 ≡ true) × (asked ≡ none))
    ⊎ ((bit_set 2 2 ≡ false)
        × (asked
            ≡ some (
              after,
              some (
                  listing name_of usage_of after 2 0 2
                    (listed name_of usage_of after 2 ((72, 100) ∷ (80, 200) ∷ []))),
              0,
            )))
request_process_data-listed_example =
    request_process_data-listed name_of usage_of 5 system (system.scheduler.processes ∷ []) fresh 2
      0 added all 72 100 ((80, 200) ∷ []) got all-IsList (omega arith) refl
