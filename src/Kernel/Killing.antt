-- ===== src/Kernel/Killing.antt =====
-- `KillThread` of Source/SystemCalls/Native.cpp on the thread that runs, and the switch after it.
use x3c0_microkernel.Common.{
  ℕ, suc, ◌<◌, ◌≡◌, ◌≢◌, inl, inr, refl, ◌∙◌, Option, none, some, [], ◌∷◌, length, arith, ◌==◌, ◌⊎◌,
  Bool-cases, ==_ne, ==_self, if_either, ◌>>=◌, update,
}
use x3c0_microkernel.LinkedList.{Heap, LinkedList, load, remove_item}
use x3c0_microkernel.LinkedList.Chain.{Cells, start, IsList}
use x3c0_microkernel.LinkedList.Lookup.{find-first}
use x3c0_microkernel.LinkedList.Removal.{remove_head}
use x3c0_microkernel.StackStates.{Interrupt}
use x3c0_microkernel.Thread.{Thread}
use x3c0_microkernel.Kernel.{Kernel}
use x3c0_microkernel.Kernel.Switching.{
  next_node, skip_sleeping, enter_process, yield_to, switch_thread,
}
use x3c0_microkernel.Kernel.Switched.{enter_process-Entered}
use x3c0_microkernel.Kernel.Calls.{Surroundings, Reply, kill_thread, end_thread, release_driver}

-- Without a thread to save, no switch succeeds.
switch_thread-null :
    (k : Kernel) (p nd t : ℕ) (stack : Interrupt)
    → k.scheduler.current_thread ≡ 0
    → switch_thread k p nd t stack ≡ none
unfolding switch_thread
switch_thread-null k p nd t stack z = rw z refl

bind_none :
    {A B : Type 0} (o : Option A) (f : A → Option B) → ((a : A) → f a ≡ none) → (o >>= f) ≡ none
bind_none none f e = refl
bind_none (some a) f e = e a

yield_to-null :
    (fuel : ℕ) (k : Kernel) (p : ℕ) (stack : Interrupt)
    → k.scheduler.current_thread ≡ 0
    → p ≢ 0
    → (k.process_threads p).threads.count ≢ 0
    → yield_to fuel k p stack ≡ none
unfolding yield_to
yield_to-null fuel k p stack z np nc =
    let j = enter_process k p in
    let e = enter_process-Entered k p in
    rw (==_ne p 0 np, ==_ne (k.process_threads p).threads.count 0 nc)
      (bind_none (next_node j.nodes (j.process_threads p) >>= skip_sleeping fuel j.nodes j.threads)
        _
        (λ nd.
          bind_none (load j.nodes nd) _
            (λ n. switch_thread-null j p nd n.value stack (e.running ∙ z))))

-- Releasing the driver changes nothing but the drivers.
record Released (k j : Kernel) : Type 0 where
  nodes : j.nodes ≡ k.nodes
  process_threads : j.process_threads ≡ k.process_threads
  scheduler : j.scheduler ≡ k.scheduler

release_driver-Released : (k : Kernel) (eax : ℕ) (t : Thread) → Released k (release_driver k eax t)
unfolding release_driver
release_driver-Released k eax t =
    if_either (Released k) _ _ k (record { nodes = refl; process_threads = refl; scheduler = refl })
      (record { nodes = refl; process_threads = refl; scheduler = refl })

remove_own :
    (fuel : ℕ) (h : Heap) (l : LinkedList) (a t : ℕ) (xs : Cells)
    → IsList h l ((a, t) ∷ xs)
    → suc (length xs) < fuel
    → remove_item fuel h l t
      ≡ some (h, record { count = length xs; first = start xs; last = l.last })
unfolding remove_item
remove_own fuel h l a t xs is f = rw (find-first fuel is f) (remove_head fuel h l a t xs is)

-- `KillThread` with 0 by the first of two or more threads of a well-formed list: the call succeeds,
-- leaves the registers alone and takes the thread off the list. After it no `YieldTo` a process
-- with threads succeeds, with any fuel: the thread whose registers it would save is null.
pub kill_thread-null :
    (m : Surroundings) (k : Kernel) (stack : Interrupt) (a b u : ℕ) (xs : Cells)
    → let t = k.scheduler.current_thread in
      let p = (k.threads t).parent in
      IsList k.nodes (k.process_threads p).threads ((a, t) ∷ (b, u) ∷ xs)
      → suc (suc (length xs)) < m.fuel
      → (r : Reply) × (kill_thread m 0 k stack ≡ some r)
        × (r.stack ≡ stack)
        × IsList r.kernel.nodes (r.kernel.process_threads p).threads ((b, u) ∷ xs)
        × ((fuel q : ℕ) (other : Interrupt)
            → (q ≡ 0)
              ⊎ ((r.kernel.process_threads q).threads.count ≡ 0)
              ⊎ (yield_to fuel r.kernel q other ≡ none))
unfolding kill_thread end_thread
kill_thread-null m k stack a b u xs is f =
    let t : ℕ = k.scheduler.current_thread in
    let p : ℕ = (k.threads t).parent in
    let c = release_driver k 0 (k.threads t) in
    let e = release_driver-Released k 0 (k.threads t) in
    let own = (k.process_threads p).threads in
    let left : LinkedList = record { count = suc (length xs); first = b; last = own.last } in
    let removed : remove_item m.fuel c.nodes (c.process_threads p).threads t
        ≡ some (k.nodes, left) =
      rw (e.nodes, e.process_threads) (remove_own m.fuel k.nodes own a t ((b, u) ∷ xs) is f) in
    let j = record c {
      nodes = k.nodes;
      process_threads =
          update c.process_threads p (record (c.process_threads p) { threads = left });
      scheduler = record c.scheduler { current_thread = 0 };
    } in
    (
      record { kernel = j; stack = stack; sent = []; result = 0 },
      rw (removed, ==_ne (suc (length xs)) 0 (λ z. omega (arith, z))) refl,
      refl,
      rw (==_self p) (record {
        previous = a;
        chain = is.chain.4;
        first = refl;
        last = is.last;
        count = refl;
        small = omega (arith, is.small);
      }),
      λ fuel q other. elim (Bool-cases (q == 0)) [
        | inl z ↦ inl (ground arith)
        | inr nz ↦ elim (Bool-cases ((j.process_threads q).threads.count == 0)) [
          | inl empty ↦ inr (inl (ground arith))
          | inr full ↦ inr (inr (yield_to-null fuel j q other refl (ground arith) (ground arith)))
        ]
      ],
    )
