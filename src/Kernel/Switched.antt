-- ===== src/Kernel/Switched.antt =====
-- `YieldTo` of Source/Multitasking/Scheduler.cpp: which thread runs next, and with what registers.
use x3c0_microkernel.Common.{
  ℕ, zero, suc, ◌<◌, ◌≡◌, ◌≢◌, ◌⊎◌, inl, inr, refl, sym, ap, ◌∙◌, false, none, some, [], ◌∷◌, ◌++◌,
  length, length-append, arith, ==_ne, ◌==◌, if◌then◌else◌, Bool-cases, update, update_self,
  update_ne,
}
use x3c0_microkernel.LinkedList.{Heap}
use x3c0_microkernel.LinkedList.Chain.{Cells, start, Chain, IsList}
use x3c0_microkernel.LinkedList.Lookup.{load-node}
use x3c0_microkernel.StackStates.{Interrupt, X86Stack, save, restore}
use x3c0_microkernel.Thread.{Thread}
use x3c0_microkernel.Kernel.{Kernel, ProcessThreads}
use x3c0_microkernel.Kernel.Switching.{
  next_node, skip_sleeping, enter_process, switch_thread, yield_to,
}

-- The threads from the first one on that does not sleep.
abbrev pub from_awake : (ℕ → Thread) → Cells → Cells
from_awake threads [] = []
from_awake threads ((a, t) ∷ xs) =
    if (threads t).sleeping then from_awake threads xs else (a, t) ∷ xs

-- The end of a chain is a chain.
Chain-drop :
    (h : Heap) (p a v : ℕ) (xs ys : Cells)
    → Chain h p (xs ++ (a, v) ∷ ys)
    → (q : ℕ) × Chain h q ((a, v) ∷ ys)
Chain-drop h p a v [] ys c = (p, c)
Chain-drop h p a v ((b, w) ∷ xs) ys c = Chain-drop h b a v xs ys c.4

-- The loop stops at the first thread that does not sleep, or past the end.
skip_sleeping-start :
    (fuel : ℕ) (h : Heap) (threads : ℕ → Thread) (p : ℕ) (xs : Cells)
    → Chain h p xs
    → length xs < fuel
    → skip_sleeping fuel h threads (start xs) ≡ some (start (from_awake threads xs))
unfolding skip_sleeping
skip_sleeping-start zero h threads p xs c f = absurd (omega arith)
skip_sleeping-start (suc fuel) h threads p [] c f = refl
skip_sleeping-start (suc fuel) h threads p ((a, v) ∷ xs) c f =
    rw (load-node h c.0 c.2, ==_ne a 0 c.0, ==_ne v 0 c.1)
      (elim (Bool-cases (threads v).sleeping) [
        | inl asleep ↦ rw (asleep, skip_sleeping-start fuel h threads a xs c.4 (omega arith)) refl
        | inr awake ↦ rw awake refl
      ])

-- What is left of the threads is a chain, of which the first does not sleep.
from_awake-Chain :
    (h : Heap) (threads : ℕ → Thread) (p : ℕ) (xs : Cells)
    → Chain h p xs
    → (from_awake threads xs ≡ [])
      ⊎ ((q : ℕ) × (a : ℕ) × (t : ℕ) × (ys : Cells) × (from_awake threads xs ≡ (a, t) ∷ ys)
          × Chain h q ((a, t) ∷ ys)
          × ((threads t).sleeping ≡ false))
from_awake-Chain h threads p [] c = inl refl
from_awake-Chain h threads p ((a, v) ∷ xs) c = elim (Bool-cases (threads v).sleeping) [
  | inl asleep ↦ rw asleep (from_awake-Chain h threads a xs c.4)
  | inr awake ↦ rw awake (inr (p, a, v, xs, refl, c, awake))
]

-- The threads that come into question: those behind the current one, or all of them at the end.
abbrev pub candidates : (before : Cells) → (a t : ℕ) → (after : Cells) → Cells
candidates before a t [] = before ++ (a, t) ∷ []
candidates before a t (x ∷ after) = x ∷ after

-- A process with threads, of which the one at node `a` is the current one.
pub record IsReady (k : Kernel) (p : ℕ) (before : Cells) (a t : ℕ) (after : Cells) : Type 0 where
  pub list : IsList k.nodes (k.process_threads p).threads (before ++ (a, t) ∷ after)
  pub current : (k.process_threads p).current_thread ≡ a
  pub process : p ≢ 0
  pub running : k.scheduler.current_thread ≢ 0

next_node-start :
    (k : Kernel) (p : ℕ) (before : Cells) (a t : ℕ) (after : Cells)
    → IsReady k p before a t after
    → next_node k.nodes (k.process_threads p) ≡ some (start (candidates before a t after))
next_node-start k p before a t [] r =
    let (q, c) = Chain-drop k.nodes r.list.previous a t before [] r.list.chain in
    rw (r.current, load-node k.nodes c.0 c.2) (ap some r.list.first)
next_node-start k p before a t ((b, u) ∷ after) r =
    let (q, c) = Chain-drop k.nodes r.list.previous a t before ((b, u) ∷ after) r.list.chain in
    rw (r.current, load-node k.nodes c.0 c.2, ==_ne b 0 c.4.0) refl

candidates-Chain :
    (k : Kernel) (p : ℕ) (before : Cells) (a t : ℕ) (after : Cells)
    → IsReady k p before a t after
    → (q : ℕ) × Chain k.nodes q (candidates before a t after)
candidates-Chain k p before a t [] r = (r.list.previous, r.list.chain)
candidates-Chain k p before a t (x ∷ after) r =
    let (q, c) = Chain-drop k.nodes r.list.previous a t before (x ∷ after) r.list.chain in (a, c.4)

length-candidates :
    (before : Cells) (a t : ℕ) (after : Cells)
    → length (candidates before a t after) < suc (length (before ++ (a, t) ∷ after))
length-candidates before a t [] = omega arith
length-candidates before a t (x ∷ after) = omega (arith, length-append before ((a, t) ∷ x ∷ after))

-- What changing the address space leaves alone.
pub record Entered (k : Kernel) (p : ℕ) (j : Kernel) : Type 0 where
  pub nodes : j.nodes ≡ k.nodes
  pub process_threads : j.process_threads ≡ k.process_threads
  pub threads : j.threads ≡ k.threads
  pub states : j.states ≡ k.states
  pub running : j.scheduler.current_thread ≡ k.scheduler.current_thread
  pub process : j.scheduler.current_process ≡ p

pub enter_process-Entered : (k : Kernel) (p : ℕ) → Entered k p (enter_process k p)
unfolding enter_process
enter_process-Entered k p = elim (Bool-cases (p == k.scheduler.current_process)) [
  | inl same ↦ rw same (record {
    nodes = refl;
    process_threads = refl;
    threads = refl;
    states = refl;
    running = refl;
    process = ground arith;
  })
  | inr other ↦ rw other (record {
    nodes = refl;
    process_threads = refl;
    threads = refl;
    states = refl;
    running = refl;
    process = refl;
  })
]

-- Thread `t` of process `p`, at node `nd`, runs in place of the thread with its registers at `old`.
pub record Switched (threads : ℕ → Thread) (states : ℕ → X86Stack) (p nd t old : ℕ)
    (stack : Interrupt) (j : Kernel) (next : Interrupt) : Type 0 where
  pub process : j.scheduler.current_process ≡ p
  pub thread : j.scheduler.current_thread ≡ t
  pub node : (j.process_threads p).current_thread ≡ nd
  pub saved : j.states old ≡ save (states old) stack
  pub others : (s : ℕ) → s ≢ old → j.states s ≡ states s
  pub loaded : next ≡ restore stack (j.states (threads t).state)

switch_thread-Switched :
    (k : Kernel) (p nd t : ℕ) (stack : Interrupt)
    → k.scheduler.current_process ≡ p
    → k.scheduler.current_thread ≢ 0
    → t ≢ 0
    → (j : Kernel) × (next : Interrupt) × (switch_thread k p nd t stack ≡ some (j, next))
      × Switched k.threads k.states p nd t (k.threads k.scheduler.current_thread).state stack j next
unfolding switch_thread
switch_thread-Switched k p nd t stack at running ready =
    let old : ℕ = (k.threads k.scheduler.current_thread).state in
    let states = update k.states old (save (k.states old) stack) in
    (
      record k {
        process_threads =
            update k.process_threads p (record (k.process_threads p) { current_thread = nd });
        states = states;
        scheduler = record k.scheduler { current_thread = t };
      },
      restore stack (states (k.threads t).state),
      rw (==_ne k.scheduler.current_thread 0 running, ==_ne t 0 ready) refl,
      record {
        process = at;
        thread = refl;
        node = ap (λ (u : ProcessThreads). u.current_thread) (update_self k.process_threads p _);
        saved = update_self k.states old _;
        others = λ s n. update_ne k.states old s _ (λ e. n (sym e));
        loaded = refl;
      },
    )

entered_switch :
    (k : Kernel) (p nd t : ℕ) (stack : Interrupt)
    → k.scheduler.current_thread ≢ 0
    → t ≢ 0
    → (j : Kernel) × (next : Interrupt) × (switch_thread (enter_process k p) p nd t stack
        ≡ some (j, next))
      × Switched k.threads k.states p nd t (k.threads k.scheduler.current_thread).state stack j next
unfolding enter_process
entered_switch k p nd t stack running ready =
    let e = enter_process-Entered k p in
    rw (e.threads, e.states, e.running) at
      (switch_thread-Switched (enter_process k p) p nd t stack e.process
        (λ z. running (sym e.running ∙ z)) ready)

-- `YieldTo` a process with threads looks behind its current thread, or at all of its threads when
-- that is the last one. It switches to the first one there that does not sleep: the registers of
-- the thread that ran are saved and no others, and the processor gets those of the chosen one. When
-- all of them sleep the processor halts.
pub yield_to-Switched :
    (fuel : ℕ) (k : Kernel) (p : ℕ) (stack : Interrupt) (before : Cells) (a t : ℕ) (after : Cells)
    → IsReady k p before a t after
    → length (before ++ (a, t) ∷ after) < fuel
    → ((from_awake k.threads (candidates before a t after) ≡ []) × (yield_to fuel k p stack ≡ none))
      ⊎ ((nd : ℕ) × (u : ℕ) × (rest : Cells) × (from_awake k.threads (candidates before a t after)
            ≡ (nd, u) ∷ rest)
          × ((k.threads u).sleeping ≡ false)
          × (j : Kernel) × (next : Interrupt) × (yield_to fuel k p stack ≡ some (j, next))
          × Switched k.threads k.states p nd u
              (k.threads k.scheduler.current_thread).state
              stack
              j
              next)
unfolding yield_to enter_process
yield_to-Switched fuel k p stack before a t after r f =
    let xs = candidates before a t after in
    let e = enter_process-Entered k p in
    let (q, chain) = candidates-Chain k p before a t after r in
    let skipped =
      skip_sleeping-start fuel k.nodes k.threads q xs chain
        (omega (arith, length-candidates before a t after)) in
    rw
      (
        ==_ne p 0 r.process,
        threaded,
        e.nodes,
        e.process_threads,
        e.threads,
        next_node-start k p before a t after r,
        skipped,
      )
      (elim (from_awake-Chain k.nodes k.threads q xs chain) [
        | inl asleep ↦ inl (asleep, rw asleep refl)
        | inr (b, nd, u, rest, some_awake, c, awake) ↦
            let (j, next, switched, s) = entered_switch k p nd u stack r.running c.1 in
            inr (
              nd,
              u,
              rest,
              some_awake,
              awake,
              j,
              next,
              rw (some_awake, load-node k.nodes c.0 c.2) switched,
              s,
            )
      ])
  where
    threaded : ((k.process_threads p).threads.count == 0) ≡ false
    threaded =
        ==_ne (k.process_threads p).threads.count 0
          (λ z. omega (arith, z, r.list.count, length-append before ((a, t) ∷ after)))
