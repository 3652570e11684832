-- ===== src/Semaphore/Swaps.antt =====
-- Source/IPC/Semaphore.cpp: what `CompareAndSwap` promises to the processors that compete.
use x3c0_microkernel.Common.{ℕ, zero, suc, ◌^◌, ◌<◌, ◌≡◌, ◌≢◌, refl, ap, arith, ==_ne, ==_self}
use x3c0_microkernel.Semaphore.{Semaphore, add_assign, sub_assign, compare_and_swap, swap_all}

swap_all_lost :
    (n old_value new_value : ℕ) (s : Semaphore)
    → s.atomic ≢ old_value
    → swap_all s n old_value new_value ≡ (s, 0)
unfolding swap_all compare_and_swap
swap_all_lost zero old_value new_value s h = refl
swap_all_lost (suc n) old_value new_value s h =
    rw (==_ne s.atomic old_value h, swap_all_lost n old_value new_value s h) refl

-- Of any number of processors that try to exchange the old value for another one, the first
-- succeeds and no other does, and the word then holds the new value; if it did not hold the old
-- value, none succeeds and it stays as it is.
pub swap_all_first :
    (n old_value new_value : ℕ) (s : Semaphore)
    → old_value ≢ new_value
    → (s.atomic ≡ old_value
        → swap_all s (suc n) old_value new_value ≡ (record { atomic = new_value }, 1))
      × (s.atomic ≢ old_value → swap_all s (suc n) old_value new_value ≡ (s, 0))
unfolding swap_all compare_and_swap
swap_all_first n old_value new_value s h = (
  λ e.
      rw
        (
          e,
          ==_self old_value,
          swap_all_lost n old_value new_value (record { atomic = new_value }) (λ d. h (cc d)),
        )
        refl,
  λ lost. swap_all_lost (suc n) old_value new_value s lost,
)

-- Adding and then subtracting the same amount gives a 32-bit word back, through any overflow.
pub sub_assign-add_assign :
    (s : Semaphore) (x : ℕ) → s.atomic < 2 ^ 32 → sub_assign (add_assign s x) x ≡ s
unfolding sub_assign add_assign
sub_assign-add_assign s x h = ap (λ n. record { atomic = n }) (omega arith)
