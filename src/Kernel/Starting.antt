-- ===== src/Kernel/Starting.antt =====
-- `Thread::Start` of Source/Multitasking/Thread.cpp. `return_method` and `ring3_start` are the
-- addresses of the functions of that name, `base` is the memory that `new(parent) unsigned
-- int[0x1000]` returned, and `fresh` the node of the list of threads. An unused stack goes back to
-- the process' heap, which is not part of the state.
use x3c0_microkernel.Common.{
  ℕ, zero, suc, ◌+◌, ◌*◌, bit_or, Bool, false, ◌&&◌, Option, some, ◌==◌, ◌!=◌, if◌then◌else◌,
  update, ◌>>=◌,
}
use x3c0_microkernel.Common.Words.{u64, sub_u64}
use x3c0_microkernel.PageFlags
use x3c0_microkernel.LinkedList.{Heap, load, add}
use x3c0_microkernel.Virtual.{Virtual, retrieve_mapping, map_memory}
use x3c0_microkernel.Kernel.{Kernel}

-- `*--stackState = value`, with the memory and the stack's position.
abbrev pub push : (ℕ → ℕ) × ℕ → (value : ℕ) → (ℕ → ℕ) × ℕ
push (memory, sp) value = (update memory (sub_u64 sp 8) value, sub_u64 sp 8)

-- The loop that pushes the last `n` arguments first.
unfoldable pub push_args : (ℕ → ℕ) × ℕ → (args n : ℕ) → (ℕ → ℕ) × ℕ
push_args s args zero = s
push_args (memory, sp) args (suc i) = push_args (push (memory, sp) (memory (args + 8 * i))) args i

-- What is pushed for a thread with registers at `state` that starts at `entry`.
unfoldable pub push_frame :
    (return_method : ℕ)
    → (memory : ℕ → ℕ) → (user : Bool) → (base args arg_count state entry : ℕ) → (ℕ → ℕ) × ℕ
push_frame return_method memory user base args arg_count state entry =
    let s = push_args (memory, u64 (base + 0x8000)) args arg_count in
    let s = if user then s else push s state in push (push (push s return_method) entry) 0

-- A page with the code that drops to ring 3 is made accessible.
abbrev pub expose : (ℕ → ℕ) → Virtual → (page : ℕ) → Option Virtual
expose undef v page =
    let (p, flags) = retrieve_mapping v page in
    map_memory undef v p page (bit_or flags PageFlags.user_accessible)

-- `nd->Value = value`.
abbrev pub set_value : Heap → (p value : ℕ) → Option Heap
set_value h p value = load h p >>= λ n. some (update h p (some (record n { value = value })))

-- The parent's first thread becomes its current one.
abbrev pub announce : Heap → (nd count t : ℕ) → Option Heap
announce h nd count t =
    load h nd >>= λ n. if n.value == 0 && count == 1 then set_value h nd t else some h

module _ (undef : ℕ → ℕ) (return_method ring3_start : ℕ) where
  -- The stack and the registers of a thread without a state of its own.
  unfoldable pub set_up : Kernel → (t args arg_count base : ℕ) → Kernel
  set_up k t args arg_count base =
      let th = k.threads t in
      let st = k.states th.state in
      let user = (k.process_threads th.parent).threads.count != 0 in
      let entry = if user then st.entry_point else ring3_start in
      let (memory, sp) =
        push_frame return_method k.space.memory user base args arg_count th.state entry in
      let top = if user then u64 (sp + 16) else sp in
      record k {
        space = record k.space { memory = memory };
        states = update k.states th.state (record st { rip = entry; rsp = top; rbp = top });
      }

  unfoldable pub start : Kernel → (t args arg_count base fresh : ℕ) → Option Kernel
  start k t args arg_count base fresh =
      let th = k.threads t in
      let j = if th.custom_state then k else set_up k t args arg_count base in
      let p = j.process_threads th.parent in
      expose undef j.space return_method
      >>= (λ v. expose undef v (u64 (return_method + 4096)))
      >>= λ v. add j.nodes p.threads fresh t >>= λ (h, l).
          announce h p.current_thread l.count t >>= λ h. some (record j {
            space = v;
            nodes = h;
            process_threads = update j.process_threads th.parent (record p { threads = l });
            threads = update j.threads t (record th { sleeping = false });
          })
