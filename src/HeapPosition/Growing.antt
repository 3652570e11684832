-- ===== src/HeapPosition/Growing.antt =====
-- `sbrk` of C library stubs/SystemCalls.c: the calls that it makes.
use x3c0_microkernel.Common.{
  ℕ, zero, suc, ◌+◌, ◌-◌, ◌*◌, ◌/◌, ◌%◌, ◌^◌, ◌<◌, ◌≤◌, ◌≡◌, refl, ap, ◌∙◌, arith, true, false,
  some, get_elem?, length, ltb, ◌==◌,
}
use x3c0_microkernel.Common.Words.{u32, sub_u32, bit_and-page_mask}
use x3c0_microkernel.HeapPosition.{SystemCall, Outcome, map_calls, free_calls, page_calls, sbrk}

length-map_calls : (p left i : ℕ) → length (map_calls p left i) ≡ left
unfolding map_calls
length-map_calls p zero i = refl
length-map_calls p (suc left) i = omega (arith, length-map_calls p left (i + 1))

length-free_calls : (p left i : ℕ) → length (free_calls p left i) ≡ left
unfolding free_calls
length-free_calls p zero i = refl
length-free_calls p (suc left) i = omega (arith, length-free_calls p left (i + 1))

-- A call to the kernel that manages the page at `eax`.
abbrev pub page_call : (eax ebx : ℕ) → SystemCall
page_call eax ebx = record { eax = eax; ebx = ebx; edx = 11 }

get_elem?-map_calls :
    (p left i k : ℕ)
    → k < left
    → get_elem? (map_calls p left i) k ≡ some (page_call (u32 (p + 4096 * (i + k))) 0)
unfolding map_calls
get_elem?-map_calls p zero i k h = absurd (omega arith)
get_elem?-map_calls p (suc left) i zero h = ap (λ a. some (page_call a 0)) (omega arith)
get_elem?-map_calls p (suc left) i (suc k) h =
    get_elem?-map_calls p left (i + 1) k (omega arith)
    ∙ ap (λ a. some (page_call a 0)) (omega arith)

get_elem?-free_calls :
    (p left i k : ℕ)
    → k < left
    → get_elem? (free_calls p left i) k ≡ some (page_call (sub_u32 p (4096 * (i + k))) 2)
unfolding free_calls
get_elem?-free_calls p zero i k h = absurd (omega arith)
get_elem?-free_calls p (suc left) i zero h = ap (λ a. some (page_call a 2)) (omega arith)
get_elem?-free_calls p (suc left) i (suc k) h =
    get_elem?-free_calls p left (i + 1) k (omega arith)
    ∙ ap (λ a. some (page_call a 2)) (omega arith)

-- What `sbrk` has done where the heap's end moved from `p` to `q`: the end moved, the old one is
-- returned, and there are `n` calls, the `k`th of them as `call` says.
pub record Moved (p q n : ℕ) (call : ℕ → SystemCall) (o : Outcome) : Type 0 where
  pub heap_position : o.heap_position ≡ q
  pub returned : o.returned ≡ p
  pub count : length o.calls ≡ n
  pub each : (k : ℕ) → k < n → get_elem? o.calls k ≡ some (call k)

sbrk-moved :
    (p incr q : ℕ)
    → 0 < incr
    → u32 (p + incr) ≡ q
    → q < 0xd0000000
    → sbrk p incr ≡ record {
      heap_position = q;
      returned = sub_u32 q incr;
      calls = page_calls p (p / 4096 % 2 ^ 20 * 4096) (q / 4096 % 2 ^ 20 * 4096);
    }
unfolding sbrk
sbrk-moved p incr q pos e h =
    let moves : (incr == 0) ≡ false = ground arith in
    let below : ltb 0xcfffffff q ≡ false = ground arith in
    rw (moves, e, below, bit_and-page_mask p, bit_and-page_mask q) refl

-- When the heap of a process grows into `d + 1` further pages and stays below 0xD0000000, `sbrk` asks
-- for `2 ^ 20 - (d + 1)` pages to be mapped, one after the other from the old end on and around the
-- end of the address space.
pub sbrk-grown :
    (p incr d : ℕ)
    → p + incr < 0xd0000000
    → (p + incr) / 4096 ≡ p / 4096 + suc d
    → Moved p (p + incr) (2 ^ 20 - suc d) (λ k. page_call (u32 (p + 4096 * k)) 0) (sbrk p incr)
unfolding page_calls
sbrk-grown p incr d h e =
    let up : ltb (p / 4096 % 2 ^ 20 * 4096) ((p + incr) / 4096 % 2 ^ 20 * 4096) ≡ true =
      ground arith in
    let n : sub_u32 (p / 4096 % 2 ^ 20 * 4096) ((p + incr) / 4096 % 2 ^ 20 * 4096) / 4096
        ≡ 2 ^ 20 - suc d =
      omega arith in
    rw (sbrk-moved p incr (p + incr) (omega arith) (omega arith) h, up, n)
      (record {
        heap_position = refl;
        returned = omega arith;
        count = length-map_calls p (2 ^ 20 - suc d) 0;
        each = λ k l.
            get_elem?-map_calls p (2 ^ 20 - suc d) 0 k l
            ∙ ap (λ a. some (page_call a 0)) (omega arith);
      })

-- When the heap shrinks by `x` bytes, out of `d + 1` pages, `sbrk` asks for `2 ^ 20 - (d + 2)` pages to be
-- freed, one after the other from the old end down and around the start of the address space.
pub sbrk-shrunk :
    (p x d : ℕ)
    → p < 0xd0000000
    → x ≤ p
    → p / 4096 ≡ (p - x) / 4096 + suc d
    → Moved p
        (p - x)
        (2 ^ 20 - suc (suc d))
        (λ k. page_call (sub_u32 p (4096 * k)) 2)
        (sbrk p (2 ^ 32 - x))
unfolding page_calls
sbrk-shrunk p x d h l e =
    let q = p - x in
    let not_up : ltb (p / 4096 % 2 ^ 20 * 4096) (q / 4096 % 2 ^ 20 * 4096) ≡ false = ground arith in
    let down : ltb (q / 4096 % 2 ^ 20 * 4096) (p / 4096 % 2 ^ 20 * 4096) ≡ true = ground arith in
    let n : sub_u32 (sub_u32 (q / 4096 % 2 ^ 20 * 4096) (p / 4096 % 2 ^ 20 * 4096) / 4096) 1
        ≡ 2 ^ 20 - suc (suc d) =
      omega arith in
    rw (sbrk-moved p (2 ^ 32 - x) q (omega arith) (omega arith) (omega arith), not_up, down, n)
      (record {
        heap_position = refl;
        returned = omega arith;
        count = length-free_calls p (2 ^ 20 - suc (suc d)) 0;
        each = λ k b.
            get_elem?-free_calls p (2 ^ 20 - suc (suc d)) 0 k b
            ∙ ap (λ a. some (page_call a 2)) (omega arith);
      })
