-- ===== src/Drivers/Silenced.antt =====
-- `DriverInterruptSource::receive` of Source/Drivers/DriverStructures.cpp one time after another.
use x3c0_microkernel.Common.{
  ℕ, ◌+◌, ◌≡◌, ◌≢◌, ◌⊎◌, inl, inr, refl, ap, ◌∙◌, Bool, true, false, Option, none, some, List, [],
  ◌∷◌, map, ◌==◌, ==_ne, Bool-cases, Option-cases, if◌then◌else◌, ◌>>=◌, update, update_self,
}
use x3c0_microkernel.Common.Words.{u64}
use x3c0_microkernel.StackStates.{Interrupt}
use x3c0_microkernel.LinkedList.{add}
use x3c0_microkernel.Messages.{Message}
use x3c0_microkernel.Kernel.{Kernel}
use x3c0_microkernel.Kernel.Starting.{expose, announce, set_up, start}
use x3c0_microkernel.Kernel.Calls.{Surroundings}
use x3c0_microkernel.Kernel.Delivery.{
  Mail, copy_data, forward, receipt_thread, start_receipt, deliver,
}
use x3c0_microkernel.Drivers.{receive, silence, interrupt_message}

-- Interrupts one after another, each with a frame and its address.
unfoldable pub receive_all :
    Surroundings → Mail → (driver : ℕ) → List (ℕ × Interrupt) → Option (Mail × List Interrupt)
receive_all m mail driver [] = some (mail, [])
receive_all m mail driver ((at, stack) ∷ rest) = receive m mail driver at stack >>= λ (n, next).
    receive_all m n driver rest >>= λ (r, frames). some (r, next ∷ frames)

-- `j` has the drivers and the scheduler of `k`.
record Kept (k j : Kernel) : Type 0 where
  drivers : j.drivers ≡ k.drivers
  scheduler : j.scheduler ≡ k.scheduler

set_up-Kept :
    (undef : ℕ → ℕ) (return_method ring3_start : ℕ) (k : Kernel) (t args count base : ℕ)
    (custom : Bool)
    → Kept k (if custom then k else set_up undef return_method ring3_start k t args count base)
unfolding set_up
set_up-Kept undef return_method ring3_start k t args count base true = record {
  drivers = refl;
  scheduler = refl;
}
set_up-Kept undef return_method ring3_start k t args count base false = record {
  drivers = refl;
  scheduler = refl;
}

-- It faults, or ends with the drivers and the scheduler of `k`.
abbrev Keeps : Kernel → Option Kernel → Type 0
Keeps k r = (r ≡ none) ⊎ ((j : Kernel) × (r ≡ some j) × Kept k j)

Keeps->>= :
    {A : Type 0} (k : Kernel) (r : Option A) (f : A → Option Kernel)
    → ((a : A) → Keeps k (f a))
    → Keeps k (r >>= f)
Keeps->>= k none f h = inl refl
Keeps->>= k (some a) f h = h a

start-Keeps :
    (undef : ℕ → ℕ) (return_method ring3_start : ℕ) (k : Kernel) (t args count base fresh : ℕ)
    → Keeps k (start undef return_method ring3_start k t args count base fresh)
unfolding start
start-Keeps undef return_method ring3_start k t args count base fresh =
    let custom = (k.threads t).custom_state in
    let j = if custom then k else set_up undef return_method ring3_start k t args count base in
    let kept : Kept k j = set_up-Kept undef return_method ring3_start k t args count base custom in
    let own = j.process_threads (k.threads t).parent in
    Keeps->>= k
      (expose undef j.space return_method >>= λ v. expose undef v (u64 (return_method + 4096))) _
      (λ v. Keeps->>= k (add j.nodes own.threads fresh t) _ (λ (h, l).
        Keeps->>= k (announce h own.current_thread l.count t) _
          (λ h. inr (_, refl, record { drivers = kept.drivers; scheduler = kept.scheduler }))))

-- The same of a delivery.
abbrev KeepsMail : Mail → Option Mail → Type 0
KeepsMail mail r = (r ≡ none) ⊎ ((n : Mail) × (r ≡ some n) × Kept mail.kernel n.kernel)

deliver-KeepsMail :
    (m : Surroundings) (mail : Mail) (message : Message) → KeepsMail mail (deliver m mail message)
unfolding deliver start_receipt
deliver-KeepsMail m mail message =
    elim (Bool-cases ((mail.kernel.processes message.destination).on_receipt == 0)) [
      | inl refused ↦ inr (mail, rw refused refl, record { drivers = refl; scheduler = refl })
      | inr takes ↦ elim (Option-cases (copy_data m mail message)) [
        | inl fault ↦ inl (rw (takes, fault) refl)
        | inr (s, e) ↦
            let space = record s.space { memory = update s.space.memory m.local (m.allocated 1) } in
            let k = record (receipt_thread m mail.kernel message) { space = space } in
            elim (start-Keeps m.undef m.return_method m.ring3_start k (m.allocated 2) m.local 1
              (m.allocated 4) (m.allocated 5)) [
                | inl stuck ↦ inl (rw (takes, e, stuck) refl)
                | inr (j, f, kept) ↦ inr (
                  record {
                    kernel = j;
                    frames = s.frames;
                    copied = s.copied;
                    messages =
                        update mail.messages (m.allocated 1) (forward message (m.allocated 0));
                  },
                  rw (takes, e, f) refl,
                  record { drivers = kept.drivers; scheduler = kept.scheduler },
                )
              ]
      ]
    ]

module _ (m : Surroundings) (driver : ℕ) (there : driver ≢ 0) where
  -- The driver is not the timer, and cannot receive.
  record Closed (k : Kernel) : Type 0 where
    apart : driver ≢ k.scheduler.timer
    closed : (k.drivers driver).can_receive_irq ≡ false

  receive-Closed :
      (mail : Mail) (at : ℕ) (stack : Interrupt)
      → Closed mail.kernel
      → receive m mail driver at stack ≡ some (mail, stack)
  unfolding receive
  receive-Closed mail at stack c =
      rw (==_ne driver 0 there, ==_ne driver mail.kernel.scheduler.timer c.apart, c.closed) refl

  receive_all-Closed :
      (mail : Mail) (frames : List (ℕ × Interrupt))
      → Closed mail.kernel
      → receive_all m mail driver frames ≡ some (mail, map (λ x. x.1) frames)
  unfolding receive_all
  receive_all-Closed mail [] c = refl
  receive_all-Closed mail ((at, stack) ∷ rest) c =
      rw (receive-Closed mail at stack c, receive_all-Closed mail rest c) refl

-- Interrupts one after another for a driver that is not the timer. If it can receive when the first
-- one comes, the outcome of them all is that of one delivery of a message to its parent, with the
-- driver unable to receive: if the delivery faults, so do they, and if not, the others send nothing
-- and change nothing. If it cannot, nothing is sent and nothing changes. No frame is changed.
pub receive-silenced :
    (m : Surroundings) (mail : Mail) (driver at : ℕ) (stack : Interrupt)
    (rest : List (ℕ × Interrupt))
    → driver ≢ 0
    → driver ≢ mail.kernel.scheduler.timer
    → receive_all m mail driver ((at, stack) ∷ rest) ≡ (
        (if (mail.kernel.drivers driver).can_receive_irq
          then deliver m
              (record mail { kernel = silence mail.kernel driver })
              (interrupt_message mail.kernel at driver)
          else some mail)
        >>= λ n. some (n, stack ∷ map (λ x. x.1) rest))
unfolding receive_all receive
receive-silenced m mail driver at stack rest there other =
    let silent = record mail { kernel = silence mail.kernel driver } in
    elim (Bool-cases (mail.kernel.drivers driver).can_receive_irq) [
      | inr closed ↦
          let c : Closed m driver there mail.kernel = record { apart = other; closed = closed } in
          rw
            (
              receive-Closed m driver there mail at stack c,
              closed,
              receive_all-Closed m driver there mail rest c,
            )
            refl
      | inl ready ↦ elim (deliver-KeepsMail m silent (interrupt_message mail.kernel at driver)) [
        | inl fault ↦
            rw (==_ne driver 0 there, ==_ne driver mail.kernel.scheduler.timer other, ready, fault)
              refl
        | inr (n, e, kept) ↦
            let c : Closed m driver there n.kernel = record {
              apart = λ z. other (z ∙ ap (λ s. s.timer) kept.scheduler);
              closed =
                  ap (λ d. (d driver).can_receive_irq) kept.drivers
                  ∙ ap (λ d. d.can_receive_irq) (update_self mail.kernel.drivers driver _);
            } in
            rw
              (
                ==_ne driver 0 there,
                ==_ne driver mail.kernel.scheduler.timer other,
                ready,
                e,
                receive_all-Closed m driver there n rest c,
              )
              refl
      ]
    ]
