-- ===== src/HeapPosition.antt =====
-- `sbrk` of C library stubs/SystemCalls.c: the end of a process' heap, and the calls to the kernel
-- by which its pages are mapped and freed. Addresses and differences have 32 bits, a negative one in
-- two's complement.
pub mod Growing
mod Tests
use x3c0_microkernel.Common.{
  ℕ, zero, suc, ◌+◌, ◌*◌, ◌/◌, bit_and, List, [], ◌∷◌, ltb, ◌==◌, if◌then◌else◌,
}
use x3c0_microkernel.Common.Words.{u32, sub_u32, page_mask}

-- `int $0x30`, with the registers it is given.
pub record SystemCall : Type 0 where
  pub eax : ℕ
  pub ebx : ℕ
  pub edx : ℕ

-- The heap's end afterwards, what is returned, and the calls in order.
pub record Outcome : Type 0 where
  pub heap_position : ℕ
  pub returned : ℕ
  pub calls : List SystemCall

-- The loop that maps pages, from page `i` on.
unfoldable pub map_calls : (heap_position left i : ℕ) → List SystemCall
map_calls heap_position zero i = []
map_calls heap_position (suc left) i =
    record { eax = u32 (heap_position + u32 (i * 4096)); ebx = 0; edx = 11 }
    ∷ map_calls heap_position left (i + 1)

-- The loop that frees pages.
unfoldable pub free_calls : (heap_position left i : ℕ) → List SystemCall
free_calls heap_position zero i = []
free_calls heap_position (suc left) i =
    record { eax = sub_u32 heap_position (u32 (i * 4096)); ebx = 2; edx = 11 }
    ∷ free_calls heap_position left (i + 1)

-- The calls for a move from one page to another; the numbers of rounds are differences of 32 bits.
unfoldable pub page_calls : (heap_position current_page new_page : ℕ) → List SystemCall
page_calls heap_position current_page new_page =
    if ltb current_page new_page
    then map_calls heap_position (sub_u32 current_page new_page / 4096) 0
    else if ltb new_page current_page
    then free_calls heap_position (sub_u32 (sub_u32 new_page current_page / 4096) 1) 0
    else []

unfoldable pub sbrk : (heap_position incr : ℕ) → Outcome
sbrk heap_position incr =
    let new_position = u32 (heap_position + incr) in
    let unchanged : Outcome = record {
      heap_position = heap_position;
      returned = heap_position;
      calls = [];
    } in
    if incr == 0 then unchanged else if ltb 0xcfffffff new_position then unchanged else record {
      heap_position = new_position;
      returned = sub_u32 new_position incr;
      calls =
          page_calls heap_position (bit_and heap_position page_mask)
            (bit_and new_position page_mask);
    }
