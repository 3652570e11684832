-- ===== src/DescriptorTables.antt =====
-- Include/Boot/DescriptorTables.h and Source/Boot/DescriptorTables.cpp: the gates of the interrupt
-- descriptor table, and in the modules below the global table and the task state segments. The
-- set-up of the interrupt controllers' ports is not modelled.
pub mod Segments
pub mod Described
pub mod Added
mod Tests
use x3c0_microkernel.Common.{
  ℕ, zero, suc, ◌+◌, ◌*◌, ◌/◌, ◌%◌, ◌^◌, ◌≤◌, ◌<◌, ◌≡◌, ◌≢◌, ◌⊎◌, inl, inr, refl, sym, ap, ◌∙◌,
  arith, bit_and, bit_or, ◌==◌, if◌then◌else◌, update, update_self, update_ne, Bool-cases,
}
use x3c0_microkernel.Common.Words.{bit_and_low}

-- `struct IDTEntry`.
pub record IdtEntry : Type 0 where
  pub function_low : ℕ
  pub segment_selector : ℕ
  pub reserved0 : ℕ
  pub flags : ℕ
  pub function_middle : ℕ
  pub function_high : ℕ
  pub reserved1 : ℕ

abbrev pub gate : (function selector flags : ℕ) → IdtEntry
gate function selector flags = record {
  function_low = bit_and function 0xffff;
  segment_selector = selector;
  reserved0 = 0;
  flags = bit_or flags 0x60;
  function_middle = bit_and (function / 2 ^ 16) 0xffff;
  function_high = bit_and (function / 2 ^ 32) 0xffffffff;
  reserved1 = 0;
}

-- `setIDTGate`; the table is a function of the index.
unfoldable pub set_idt_gate : (ℕ → IdtEntry) → (i function selector flags : ℕ) → ℕ → IdtEntry
set_idt_gate idt i function selector flags = update idt i (gate function selector flags)

-- The loop of `installIDT`: `left` gates from gate `i` on.
unfoldable pub install_from : (ℕ → IdtEntry) → (ℕ → ℕ) → (left i : ℕ) → ℕ → IdtEntry
install_from idt handlers zero i = idt
install_from idt handlers (suc left) i =
    install_from (set_idt_gate idt i (handlers i) 0x8 0x8e) handlers left (i + 1)

abbrev pub empty_gate : IdtEntry
empty_gate = record {
  function_low = 0;
  segment_selector = 0;
  reserved0 = 0;
  flags = 0;
  function_middle = 0;
  function_high = 0;
  reserved1 = 0;
}

-- `installIDT`: the table is cleared, then every gate is set.
unfoldable pub install_idt : (ℕ → ℕ) → ℕ → IdtEntry
install_idt handlers = install_from (λ i. empty_gate) handlers 256 0

-- The address that the processor reads from the three fields of a gate.
abbrev pub target : IdtEntry → ℕ
target e = e.function_low + e.function_middle * 2 ^ 16 + e.function_high * 2 ^ 32

gate-target :
    (function selector flags : ℕ)
    → function < 2 ^ 64
    → target (gate function selector flags) ≡ function
gate-target function selector flags h = omega (
  arith,
  bit_and_low 16 function,
  bit_and_low 16 (function / 2 ^ 16),
  bit_and_low 32 (function / 2 ^ 32),
)

install_from_outside :
    (idt : ℕ → IdtEntry) (handlers : ℕ → ℕ) (left i j : ℕ)
    → j < i
    → install_from idt handlers left i j ≡ idt j
unfolding install_from set_idt_gate
install_from_outside idt handlers zero i j h = refl
install_from_outside idt handlers (suc left) i j h =
    install_from_outside (update idt i (gate (handlers i) 0x8 0x8e)) handlers left (i + 1) j
      (omega arith)
    ∙ update_ne idt i j _ (λ e. omega arith)

install_from-gate :
    (idt : ℕ → IdtEntry) (handlers : ℕ → ℕ) (left i j : ℕ)
    → i ≤ j
    → j < i + left
    → install_from idt handlers left i j ≡ gate (handlers j) 0x8 0x8e
unfolding install_from set_idt_gate
install_from-gate idt handlers zero i j h l = absurd (omega arith)
install_from-gate idt handlers (suc left) i j h l = elim (Bool-cases (i == j)) [
  | inl here ↦
      let e : i ≡ j = ground arith in
      install_from_outside (update idt i (gate (handlers i) 0x8 0x8e)) handlers left (i + 1) j
        (omega arith)
      ∙ ap (update idt i (gate (handlers i) 0x8 0x8e)) (sym e)
      ∙ update_self idt i _
      ∙ ap (λ k. gate (handlers k) 0x8 0x8e) e
  | inr later ↦
      install_from-gate (update idt i (gate (handlers i) 0x8 0x8e)) handlers left (i + 1) j
        (ground arith) (omega arith)
]

-- After `installIDT` with handlers at 64-bit addresses, each of the 256 vectors leads to the
-- address of its handler, in the kernel's code segment, by a gate that is present and that every
-- privilege level may use.
pub install_idt-target :
    (handlers : ℕ → ℕ) (i : ℕ)
    → i < 256
    → handlers i < 2 ^ 64
    → (target (install_idt handlers i) ≡ handlers i)
      × ((install_idt handlers i).segment_selector ≡ 0x8)
      × ((install_idt handlers i).flags ≡ 0xee)
unfolding install_idt
install_idt-target handlers i h small =
    let e = install_from-gate (λ k. empty_gate) handlers 256 0 i (omega arith) (omega arith) in
    rw e (gate-target (handlers i) 0x8 0x8e small, refl, refl)
