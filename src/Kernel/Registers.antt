-- ===== src/Kernel/Registers.antt =====
-- `YieldTo` of Source/Multitasking/Scheduler.cpp: the registers that no switch of threads moves.
use x3c0_microkernel.Common.{
  ℕ, ◌≡◌, inl, inr, refl, subst, Option, some, ◌==◌, Bool-cases, update, ◌>>=◌, bind_inv,
}
use x3c0_microkernel.LinkedList.{Node, load}
use x3c0_microkernel.StackStates.{Interrupt, X86Stack, save, restore}
use x3c0_microkernel.Kernel.{Kernel}
use x3c0_microkernel.Kernel.Switching.{
  next_node, skip_sleeping, enter_process, switch_thread, yield_to,
}

-- The registers that a switch of threads does not move.
abbrev pub SameExtended : Interrupt → Interrupt → Type 0
SameExtended stack next =
    (next.r8 ≡ stack.r8)
    × (next.r9 ≡ stack.r9)
    × (next.r10 ≡ stack.r10)
    × (next.r11 ≡ stack.r11)
    × (next.r12 ≡ stack.r12)
    × (next.r13 ≡ stack.r13)
    × (next.r14 ≡ stack.r14)
    × (next.r15 ≡ stack.r15)

SameExtended-of_some :
    (k j : Kernel) (stack next : Interrupt)
    → ◌≡◌ {A = Option (Kernel × Interrupt)} (some (k, stack)) (some (j, next))
    → SameExtended stack next
SameExtended-of_some k j stack next e =
    let q : stack ≡ next = cc e in
    subst (SameExtended stack) q (refl, refl, refl, refl, refl, refl, refl, refl)

switch_thread-SameExtended :
    (k j : Kernel) (p nd t : ℕ) (stack next : Interrupt)
    → switch_thread k p nd t stack ≡ some (j, next)
    → SameExtended stack next
unfolding switch_thread
switch_thread-SameExtended k j p nd t stack next e =
    elim (Bool-cases (k.scheduler.current_thread == 0)) [
      | inl idle ↦ absurd (cc (rw idle at e))
      | inr running ↦ elim (Bool-cases (t == 0)) [
        | inl missing ↦ absurd (cc (rw (running, missing) at e))
        | inr there ↦
            SameExtended-of_some _ j (restore stack loaded) next (rw (running, there) at e)
      ]
    ]
  where
    old : ℕ
    old = (k.threads k.scheduler.current_thread).state

    loaded : X86Stack
    loaded = update k.states old (save (k.states old) stack) (k.threads t).state

-- A switch that succeeds leaves R8 to R15 as they were, so the next thread finds those of the one
-- that ran.
pub yield_to-SameExtended :
    (fuel : ℕ) (k j : Kernel) (p : ℕ) (stack next : Interrupt)
    → yield_to fuel k p stack ≡ some (j, next)
    → SameExtended stack next
unfolding yield_to
yield_to-SameExtended fuel k j p stack next e = elim (Bool-cases (p == 0)) [
  | inl none_chosen ↦ SameExtended-of_some k j stack next (rw none_chosen at e)
  | inr chosen ↦ elim (Bool-cases ((k.process_threads p).threads.count == 0)) [
    | inl empty ↦ SameExtended-of_some k j stack next (rw (chosen, empty) at e)
    | inr threaded ↦ ran (rw (chosen, threaded) at e)
  ]
]
  where
    i : Kernel
    i = enter_process k p

    ran :
        (next_node i.nodes (i.process_threads p) >>= skip_sleeping fuel i.nodes i.threads >>= λ nd.
        load i.nodes nd >>= λ n. switch_thread i p nd n.value stack)
          ≡ some (j, next)
        → SameExtended stack next
    ran e =
        let (nd, _, loaded) =
          bind_inv
            (next_node i.nodes (i.process_threads p) >>= skip_sleeping fuel i.nodes i.threads)
            (λ nd. load i.nodes nd >>= λ n. switch_thread i p nd n.value stack) (j, next) e in
        let (n, _, switched) =
          bind_inv {A = Node} (load i.nodes nd) (λ n. switch_thread i p nd n.value stack) (j, next)
            loaded in
        switch_thread-SameExtended i j p nd n.value stack next switched
