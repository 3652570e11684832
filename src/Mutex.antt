-- ===== src/Mutex.antt =====
-- Include/IPC/Mutex.h and Source/IPC/Mutex.cpp: processors that call `Lock` and `Unlock` on one
-- word. `Lock` reads and writes the word in steps of its own, so a step of any other processor may
-- come between.
pub mod Runs
pub mod Operators
mod Tests
use x3c0_microkernel.Common.{ℕ, ◌≡◌, ◌≢◌, update}

-- Where a processor stands: before `Lock`, in its loop, in its `else`, and behind it.
pub data Point : Type 0 where
  outside waiting taking inside : Point

pub record System : Type 0 where
  pub atomic : ℕ
  pub point : ℕ → Point

abbrev pub move : System → ℕ → Point → System
move s p to = record s { point = update s.point p to }

-- The steps of processor `p`.
pub data Step (p : ℕ) : System → System → Type 0 where
  test_free : {s : System} → s.point p ≡ outside → s.atomic ≢ 0 → Step p s (move s p taking)
  test_held : {s : System} → s.point p ≡ outside → s.atomic ≡ 0 → Step p s (move s p waiting)
  spin : {s : System} → s.point p ≡ waiting → s.atomic ≡ 0 → Step p s s
  stop_waiting : {s : System} → s.point p ≡ waiting → s.atomic ≢ 0 → Step p s (move s p inside)
  take : {s : System} → s.point p ≡ taking → Step p s (record (move s p inside) { atomic = 0 })
  unlock : {s : System} → s.point p ≡ inside → Step p s (record (move s p outside) { atomic = 1 })

-- Steps of one processor alone, and steps of any.
pub data Alone (p : ℕ) : System → System → Type 0 where
  stay : {s : System} → Alone p s s
  then_step : {s t u : System} → Alone p s t → Step p t u → Alone p s u

pub data Run : System → System → Type 0 where
  start : {s : System} → Run s s
  after : {s t u : System} → Run s t → (p : ℕ) → Step p t u → Run s u
