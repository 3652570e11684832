-- ===== src/Process/States.antt =====
-- Source/Multitasking/Process.cpp: the bits of a process' state that follow its receipt method.
use x3c0_microkernel.Common.{
  ℕ, ◌<◌, ◌≡◌, refl, inl, inr, arith, ◌==◌, ◌!=◌, if◌then◌else◌, Bool-cases,
}
use x3c0_microkernel.Common.Flags.{flag, flag-set, flag-clear}
use x3c0_microkernel.Process.{Process, set_receipt_method}

-- `SetReceiptMethod` stores the method; bit 4 of the state then says whether there is one, and the
-- other bits of the state, the kernel's among them, are as before.
pub set_receipt_method-flag :
    (p : Process) (on_rec : ℕ)
    → let q = set_receipt_method p on_rec in
      (q.on_receipt ≡ on_rec)
      × ((j : ℕ) → j < 32 → flag q.state j ≡ (if 4 == j then on_rec != 0 else flag p.state j))
unfolding set_receipt_method
set_receipt_method-flag p on_rec = (
  refl,
  λ j h. elim (Bool-cases (on_rec != 0)) [
    | inl e ↦ rw e (flag-set p.state 4 j)
    | inr e ↦ rw e (flag-clear 32 p.state 4 j (omega arith) h)
  ],
)
