-- ===== src/Semaphore.antt =====
-- Include/IPC/Semaphore.h and Source/IPC/Semaphore.cpp: one word of 32 bits, which the processor
-- changes in one step, so that each operation is a function on it. An operation returns the new
-- word, which is its result too.
pub mod Swaps
use x3c0_microkernel.Common.{
  ℕ, zero, suc, ◌+◌, bit_and, bit_or, bit_xor, Bool, true, false, List, [], ◌∷◌, ◌==◌,
  if◌then◌else◌,
}
use x3c0_microkernel.Common.Words.{u32, sub_u32}

pub record Semaphore : Type 0 where
  pub atomic : ℕ

unfoldable pub add_assign : Semaphore → ℕ → Semaphore
add_assign s x = record { atomic = u32 (s.atomic + x) }

unfoldable pub sub_assign : Semaphore → ℕ → Semaphore
sub_assign s x = record { atomic = sub_u32 s.atomic x }

unfoldable pub or_assign : Semaphore → ℕ → Semaphore
or_assign s x = record { atomic = bit_or s.atomic x }

unfoldable pub and_assign : Semaphore → ℕ → Semaphore
and_assign s x = record { atomic = bit_and s.atomic x }

unfoldable pub xor_assign : Semaphore → ℕ → Semaphore
xor_assign s x = record { atomic = bit_xor s.atomic x }

unfoldable pub equals : Semaphore → Semaphore → Bool
equals s t = t.atomic == s.atomic

-- `CompareAndSwap`: the word, and whether it was exchanged.
unfoldable pub compare_and_swap : Semaphore → (old_value new_value : ℕ) → Semaphore × Bool
compare_and_swap s old_value new_value =
    if s.atomic == old_value then (record { atomic = new_value }, true) else (s, false)

-- `n` processors that call `CompareAndSwap` one after the other: the word, and how many succeed.
unfoldable pub swap_all : Semaphore → (n old_value new_value : ℕ) → Semaphore × ℕ
swap_all s zero old_value new_value = (s, 0)
swap_all s (suc n) old_value new_value =
    let (t, done) = compare_and_swap s old_value new_value in
    let (u, count) = swap_all t n old_value new_value in (u, if done then count + 1 else count)
