-- ===== src/Kernel/Frames.antt =====
-- `Thread::Start` of Source/Multitasking/Thread.cpp: where the words of the first stack frame stand.
use x3c0_microkernel.Common.{
  ℕ, zero, suc, ◌+◌, ◌-◌, ◌*◌, ◌^◌, ◌<◌, ◌≤◌, ◌≡◌, ◌≢◌, ◌⊎◌, inl, inr, refl, sym, ap, subst, ◌∙◌,
  Bool, true, false, Bool-cases, if◌then◌else◌, update, update_self, update_ne, arith, ◌==◌,
}
use x3c0_microkernel.Common.Words.{u64, sub_u64}
use x3c0_microkernel.Kernel.Starting.{push, push_args, push_frame}

-- The words from `args` on, of which there are `n`, stand at `to` instead, and nothing else has
-- changed.
record Moved (old : ℕ → ℕ) (args to n : ℕ) (new : ℕ → ℕ) : Type 0 where
  words : (i : ℕ) → i < n → new (to + 8 * i) ≡ old (args + 8 * i)
  rest : (a : ℕ) → (a < to) ⊎ (to + 8 * n ≤ a) → new a ≡ old a

push_args-Moved :
    (n : ℕ) (memory : ℕ → ℕ) (sp args to : ℕ)
    → to + 8 * n ≡ sp
    → sp < 2 ^ 64
    → (args + 8 * n ≤ to) ⊎ (sp ≤ args)
    → Moved memory args to n (push_args (memory, sp) args n).0
      × ((push_args (memory, sp) args n).1 ≡ to)
unfolding push_args
push_args-Moved zero memory sp args to room small apart =
    (record { words = λ i h. absurd (omega arith); rest = λ a h. refl }, omega arith)
push_args-Moved (suc n) memory sp args to room small apart =
    let down : sub_u64 sp 8 ≡ sp - 8 = omega (arith, room, small) in
    let m = update memory (sp - 8) (memory (args + 8 * n)) in
    let (moved, at) =
      push_args-Moved n m (sp - 8) args to (omega (arith, room)) (omega (arith, small))
        (omega (arith, apart, room)) in
    rw down (record { words = words moved; rest = others moved }, at)
  where
    same : (a : ℕ) → a ≢ sp - 8 → update memory (sp - 8) (memory (args + 8 * n)) a ≡ memory a
    same a ne = update_ne memory (sp - 8) a (memory (args + 8 * n)) (λ e. ne (sym e))

    others :
        {new : ℕ → ℕ}
        → Moved (update memory (sp - 8) (memory (args + 8 * n))) args to n new
        → (a : ℕ) → (a < to) ⊎ (to + 8 * suc n ≤ a)
        → new a ≡ memory a
    others moved a h = moved.rest a (omega (arith, h)) ∙ same a (omega (arith, h, room))

    words :
        {new : ℕ → ℕ}
        → Moved (update memory (sp - 8) (memory (args + 8 * n))) args to n new
        → (i : ℕ) → i < suc n
        → new (to + 8 * i) ≡ memory (args + 8 * i)
    words {new} moved i h = elim (Bool-cases (i == n)) [
      | inl y ↦
          let e : n ≡ i = ground (arith, y) in
          let top : to + 8 * n ≡ sp - 8 = omega (arith, room) in
          subst (λ k. new (to + 8 * k) ≡ memory (args + 8 * k)) e
            (moved.rest (to + 8 * n) (inr (omega arith))
              ∙ ap (update memory (sp - 8) (memory (args + 8 * n))) top
              ∙ update_self memory (sp - 8) (memory (args + 8 * n)))
      | inr y ↦
          let ne : i ≢ n = ground (arith, y) in
          moved.words i (omega (arith, h, ne)) ∙ same (args + 8 * i) (omega (arith, room, apart, h))
    ]

-- The lowest three words, from `sp` on.
record Base (old : ℕ → ℕ) (sp return_method entry : ℕ) (new : ℕ → ℕ) : Type 0 where
  frame : new sp ≡ 0
  code : new (sp + 8) ≡ entry
  return : new (sp + 16) ≡ return_method
  rest : (a : ℕ) → (a < sp) ⊎ (sp + 24 ≤ a) → new a ≡ old a

push-Base :
    (memory : ℕ → ℕ) (top sp return_method entry : ℕ)
    → sp + 24 ≡ top
    → top < 2 ^ 64
    → let (new, at) = push (push (push (memory, top) return_method) entry) 0 in
      Base memory sp return_method entry new × (at ≡ sp)
push-Base memory top sp return_method entry room small =
    let first : sub_u64 top 8 ≡ sp + 16 = omega (arith, room, small) in
    let second : sub_u64 (sp + 16) 8 ≡ sp + 8 = omega (arith, room, small) in
    let third : sub_u64 (sp + 8) 8 ≡ sp = omega (arith, room, small) in
    rw (first, second, third)
      (
        record {
          frame = ground arith;
          code = ground arith;
          return = ground arith;
          rest = λ a h. ground (arith, h);
        },
        refl,
      )

-- The frame of a thread with `n` arguments from `args` on: from the stack's position upwards 0, the
-- address at which it starts, that of the method that ends it, for the process' first thread its
-- registers, and the arguments. None of it stands in the 16384 bytes from `base` on.
pub record Frame (old : ℕ → ℕ) (user : Bool) (return_method base args n state entry : ℕ)
    (new : ℕ → ℕ) (sp : ℕ) : Type 0 where
  pub top : sp + (if user then 24 else 32) + 8 * n ≡ base + 0x8000
  pub frame : new sp ≡ 0
  pub code : new (sp + 8) ≡ entry
  pub return : new (sp + 16) ≡ return_method
  pub registers : user ≡ false → new (sp + 24) ≡ state
  pub arguments :
      (i : ℕ) → i < n → new (sp + (if user then 24 else 32) + 8 * i) ≡ old (args + 8 * i)
  pub below : (a : ℕ) → a < base + 0x4000 → new a ≡ old a

-- What stands on the stack before the lowest three words.
record Upper (old : ℕ → ℕ) (user : Bool) (base args n state : ℕ) (new : ℕ → ℕ) (sp : ℕ)
    : Type 0 where
  top : sp + (if user then 0 else 8) + 8 * n ≡ base + 0x8000
  registers : user ≡ false → new sp ≡ state
  arguments : (i : ℕ) → i < n → new (sp + (if user then 0 else 8) + 8 * i) ≡ old (args + 8 * i)
  below : (a : ℕ) → a < base + 0x4000 → new a ≡ old a

abbrev size : Bool → ℕ
size user = if user then 24 else 32

size-Upper : (user : Bool) → size user ≡ 24 + (if user then 0 else 8)
size-Upper true = omega arith
size-Upper false = omega arith

Upper-Frame :
    (return_method : ℕ) (memory : ℕ → ℕ) (user : Bool) (base args n state entry : ℕ) (m : ℕ → ℕ)
    (at : ℕ)
    → base + 0x8000 < 2 ^ 64
    → n < 2044
    → Upper memory user base args n state m at
    → let (new, sp) = push (push (push (m, at) return_method) entry) 0 in
      Frame memory user return_method base args n state entry new sp
Upper-Frame return_method memory user base args n state entry m at small few u =
    let (b, there) =
      push-Base m at (at - 24) return_method entry (omega (arith, few, u.top, le_size))
        (omega (arith, small, u.top)) in
    let new = (push (push (push (m, at) return_method) entry) 0).0 in
    subst (Frame memory user return_method base args n state entry new) (sym there) (record {
      top = omega (arith, few, u.top, le_size, size-Upper user);
      frame = b.frame;
      code = b.code;
      return = b.return;
      registers = λ e.
          ap new (omega (arith, few, u.top, le_size))
          ∙ b.rest at (omega (arith, few, u.top, le_size))
          ∙ u.registers e;
      arguments = λ i h.
          ap new (same_place i)
          ∙ b.rest (at + (if user then 0 else 8) + 8 * i) (omega (arith, few, u.top, le_size))
          ∙ u.arguments i h;
      below = λ a h. b.rest a (omega (arith, few, u.top, le_size, h)) ∙ u.below a h;
    })
  where
    le_size : (if user then 0 else 8) ≤ 8
    le_size = elim (Bool-cases user) [ inl y ↦ rw y (omega arith) | inr y ↦ rw y (omega arith) ]

    same_place : (i : ℕ) → at - 24 + size user + 8 * i ≡ at + (if user then 0 else 8) + 8 * i
    same_place i = omega (arith, few, u.top, le_size, size-Upper user)

push_args-Upper :
    (memory : ℕ → ℕ) (base args n state : ℕ)
    → base + 0x8000 < 2 ^ 64
    → n < 2044
    → (args + 8 * n ≤ base + 0x4000) ⊎ (base + 0x8000 ≤ args)
    → let s = push_args (memory, u64 (base + 0x8000)) args n in
      Upper memory true base args n state s.0 s.1
push_args-Upper memory base args n state small few apart =
    let to : ℕ = base + 0x8000 - 8 * n in
    let start : u64 (base + 0x8000) ≡ base + 0x8000 = omega (arith, small) in
    let (moved, at) =
      push_args-Moved n memory (base + 0x8000) args to (omega (arith, few)) small
        (omega (arith, few, apart)) in
    rw (start, at)
      (record {
        top = omega (arith, few);
        registers = λ e. absurd (cc e);
        arguments = λ i h.
            let place : to + 0 + 8 * i ≡ to + 8 * i = omega arith in rw place (moved.words i h);
        below = λ a h. moved.rest a (omega (arith, few, h));
      })

push-Upper :
    (memory : ℕ → ℕ) (base args n state : ℕ) (m : ℕ → ℕ) (at : ℕ)
    → base + 0x8000 < 2 ^ 64
    → n < 2044
    → Upper memory true base args n state m at
    → let (new, sp) = push (m, at) state in Upper memory false base args n state new sp
push-Upper memory base args n state m at small few u =
    let down : sub_u64 at 8 ≡ at - 8 = omega (arith, u.top, small, few) in
    rw down (record {
      top = omega (arith, u.top, few);
      registers = λ e. update_self m (at - 8) state;
      arguments = λ i h.
          let place : at - 8 + 8 + 8 * i ≡ at + 0 + 8 * i = omega (arith, u.top, few) in
          rw place (
            update_ne m (at - 8) (at + 0 + 8 * i) state (omega (arith, u.top, few))
            ∙ u.arguments i h);
      below = λ a h. update_ne m (at - 8) a state (omega (arith, u.top, few, h)) ∙ u.below a h;
    })

-- `Thread::Start` puts the arguments and the addresses on the stack in the order in which the new
-- thread takes them off, when the arguments are fewer than 2044 and do not stand where the stack
-- does; but all of it stands behind the 0x1000 elements that were allocated.
pub push_frame-Frame :
    (return_method : ℕ) (memory : ℕ → ℕ) (user : Bool) (base args n state entry : ℕ)
    → base + 0x8000 < 2 ^ 64
    → n < 2044
    → (args + 8 * n ≤ base + 0x4000) ⊎ (base + 0x8000 ≤ args)
    → let (new, sp) = push_frame return_method memory user base args n state entry in
      Frame memory user return_method base args n state entry new sp
unfolding push_frame
push_frame-Frame return_method memory true base args n state entry small few apart =
    Upper-Frame return_method memory true base args n state entry _ _ small few
      (push_args-Upper memory base args n state small few apart)
push_frame-Frame return_method memory false base args n state entry small few apart =
    Upper-Frame return_method memory false base args n state entry _ _ small few (
      push-Upper memory base args n state _ _ small few
        (push_args-Upper memory base args n state small few apart))
