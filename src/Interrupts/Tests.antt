-- ===== src/Interrupts/Tests.antt =====
-- The table after `Install`, with a sink of vector 0.
use x3c0_microkernel.Common.{ℕ, ◌+◌, ◌*◌, ◌<◌, suc, ◌≡◌, refl, some, none, []}
use x3c0_microkernel.Interrupts.{Table, install, add_interrupt, get_interrupts}
use x3c0_microkernel.Interrupts.Installed.{install-shifted}

abbrev unset : Table
unset = record {
  interrupts = record { count = 0; array = [] };
  lists = λ a. record { count = 0; first = 0; last = 0 };
  nodes = λ a. none;
  vector = λ sink. 0;
}

abbrev list_at : ℕ → ℕ
list_at i = 0x1000 + 32 * i

abbrev node_at : ℕ → ℕ
node_at i = 0x9000 + 32 * i

install-shifted_example :
    (u : Table) × (install list_at node_at unset ≡ some u)
    × (u.interrupts.count ≡ 49)
    × (get_interrupts u 0 ≡ some 0)
    × ((i : ℕ) → i < 48 → get_interrupts u (suc i) ≡ some (list_at i))
    × (add_interrupt 0xa000 u 0x5000 ≡ none)
install-shifted_example = install-shifted list_at node_at unset 0xa000 0x5000 refl
