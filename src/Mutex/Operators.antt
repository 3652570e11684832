-- ===== src/Mutex/Operators.antt =====
-- The constructor and the operators of Source/IPC/Mutex.cpp, which pass a Boolean value on to those
-- of Semaphore as 0 or 1. An operator returns a Boolean value, which tells whether the word is 0.
use x3c0_microkernel.Common.{
  ℕ, ◌≡◌, refl, Bool, true, false, not, ◌&&◌, ◌||◌, ◌==◌, ◌!=◌, if◌then◌else◌,
}
use x3c0_microkernel.Semaphore
use x3c0_microkernel.Semaphore.{Semaphore}

abbrev pub to_word : Bool → ℕ
to_word b = if b then 1 else 0

unfoldable pub create : Bool → Semaphore
create value = record { atomic = to_word value }

-- `operator =`.
unfoldable pub assign : (mutex x : Semaphore) → Semaphore
assign mutex x = record { atomic = x.atomic }

-- The word, and the word as a Boolean value.
abbrev pub returned : Semaphore → Semaphore × Bool
returned m = (m, m.atomic != 0)

unfoldable pub or_assign : Semaphore → Bool → Semaphore × Bool
or_assign m x = returned (Semaphore.or_assign m (to_word x))

unfoldable pub and_assign : Semaphore → Bool → Semaphore × Bool
and_assign m x = returned (Semaphore.and_assign m (to_word x))

unfoldable pub xor_assign : Semaphore → Bool → Semaphore × Bool
xor_assign m x = returned (Semaphore.xor_assign m (to_word x))

unfoldable pub equals : Semaphore → Semaphore → Bool
equals m x = Semaphore.equals m x

unfoldable pub differs : Semaphore → Semaphore → Bool
differs m x = not (Semaphore.equals m x)

-- `operator bool`.
unfoldable pub to_bool : Semaphore → Bool
to_bool m = m.atomic == 1

unfoldable pub compare_and_swap : Semaphore → (old_value new_value : Bool) → Semaphore × Bool
compare_and_swap m old_value new_value =
    Semaphore.compare_and_swap m (to_word old_value) (to_word new_value)

abbrev pub exclusive : Bool → Bool → Bool
exclusive b x = if x then not b else b

-- The operators of a mutex are those of a cell with a Boolean value `b`: each leaves a mutex with
-- the value, and returns the value, that the Boolean operation gives. CompareAndSwap stores the new
-- value exactly when the cell holds the old one, and two mutexes are equal when their values are.
pub create-operators :
    (b x y : Bool)
    → (to_bool (create b) ≡ b)
      × (assign (create b) (create x) ≡ create x)
      × (or_assign (create b) x ≡ (create (b || x), b || x))
      × (and_assign (create b) x ≡ (create (b && x), b && x))
      × (xor_assign (create b) x ≡ (create (exclusive b x), exclusive b x))
      × (equals (create b) (create x) ≡ not (exclusive b x))
      × (differs (create b) (create x) ≡ exclusive b x)
      × (compare_and_swap (create b) x y
          ≡ (create (if exclusive b x then b else y), not (exclusive b x)))
unfolding create assign or_assign and_assign xor_assign equals differs to_bool compare_and_swap
    Semaphore.or_assign Semaphore.and_assign Semaphore.xor_assign Semaphore.equals
    Semaphore.compare_and_swap
create-operators true true true = (refl, refl, refl, refl, refl, refl, refl, refl)
create-operators true true false = (refl, refl, refl, refl, refl, refl, refl, refl)
create-operators true false true = (refl, refl, refl, refl, refl, refl, refl, refl)
create-operators true false false = (refl, refl, refl, refl, refl, refl, refl, refl)
create-operators false true true = (refl, refl, refl, refl, refl, refl, refl, refl)
create-operators false true false = (refl, refl, refl, refl, refl, refl, refl, refl)
create-operators false false true = (refl, refl, refl, refl, refl, refl, refl, refl)
create-operators false false false = (refl, refl, refl, refl, refl, refl, refl, refl)
