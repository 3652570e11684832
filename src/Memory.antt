-- ===== src/Memory.antt =====
-- CommonSourceCode/Memory.h and CommonSourceCode/Memory.cpp: the loops over bytes. A memory gives
-- the byte at each address; the ranges do not pass the end of the address space.
use x3c0_microkernel.Common.{
  ℕ, zero, suc, ◌+◌, ◌-◌, ◌≤◌, ◌≡◌, ◌⊎◌, inl, inr, ap, ◌∙◌, ◌&&◌, arith, ltb, leb, ◌==◌,
  if◌then◌else◌, update, Bool-cases,
}

-- The loop of `Clear`, from byte `i` on.
unfoldable pub clear_from : (ℕ → ℕ) → (src left i : ℕ) → ℕ → ℕ
clear_from m src zero i = m
clear_from m src (suc left) i = clear_from (update m (src + i) 0) src left (i + 1)

unfoldable pub clear : (ℕ → ℕ) → (src size : ℕ) → ℕ → ℕ
clear m src size = clear_from m src size 0

-- The loop of `Copy`.
unfoldable pub copy_from : (ℕ → ℕ) → (destination src left i : ℕ) → ℕ → ℕ
copy_from m destination src zero i = m
copy_from m destination src (suc left) i =
    copy_from (update m (destination + i) (m (src + i))) destination src left (i + 1)

unfoldable pub copy : (ℕ → ℕ) → (destination src num : ℕ) → ℕ → ℕ
copy m destination src num = copy_from m destination src num 0

clear_from-at :
    (m : ℕ → ℕ) (src left i a : ℕ)
    → clear_from m src left i a ≡ (if leb (src + i) a && ltb a (src + i + left) then 0 else m a)
unfolding clear_from
clear_from-at m src zero i a = ground arith
clear_from-at m src (suc left) i a =
    clear_from-at (update m (src + i) 0) src left (i + 1) a ∙ ground arith

-- `Clear` sets the bytes of the range to 0 and no other.
pub clear-at :
    (m : ℕ → ℕ) (src size a : ℕ)
    → clear m src size a ≡ (if leb src a && ltb a (src + size) then 0 else m a)
unfolding clear
clear-at m src size a = clear_from-at m src size 0 a ∙ ground arith

-- The loop reads no byte that it has written.
abbrev Forward : (destination src end : ℕ) → Type 0
Forward destination src end = (destination ≤ src) ⊎ (src + end ≤ destination)

Forward-same :
    {destination src x y : ℕ} → x ≡ y → Forward destination src x → Forward destination src y
Forward-same e (inl h) = inl h
Forward-same e (inr h) = inr (omega arith)

copy_from-at :
    (m : ℕ → ℕ) (destination src left i a : ℕ)
    → Forward destination src (i + left)
    → copy_from m destination src left i a ≡ (
        if leb (destination + i) a && ltb a (destination + i + left)
        then m (src + (a - destination))
        else m a)
unfolding copy_from
copy_from-at m destination src zero i a h = ground arith
copy_from-at m destination src (suc left) i a h =
    copy_from-at (update m (destination + i) (m (src + i))) destination src left (i + 1) a
      (Forward-same (omega arith) h)
    ∙ elim (Bool-cases (a == destination + i)) [
      | inl here ↦
          let moved : m (src + (a - destination)) ≡ m (src + i) = ap m (ground arith) in
          ground (arith, moved)
      | inr other ↦ elim h [ inl lower ↦ ground arith | inr apart ↦ ground arith ]
    ]

-- `Copy` leaves in the destination what the source held before, where the two do not overlap or
-- the destination lies lower, and changes no other byte.
pub copy-at :
    (m : ℕ → ℕ) (destination src num a : ℕ)
    → (destination ≤ src) ⊎ (src + num ≤ destination)
    → copy m destination src num a ≡ (
        if leb destination a && ltb a (destination + num) then m (src + (a - destination)) else m a)
unfolding copy
copy-at m destination src num a h =
    copy_from-at m destination src num 0 a (Forward-same (omega arith) h) ∙ ground arith
