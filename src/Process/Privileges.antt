-- ===== src/Process/Privileges.antt =====
-- Source/Multitasking/Process.cpp: the privileges that a process starts with, and what its calls of
-- `ToggleSecurityPrivilege` can change.
use x3c0_microkernel.Common.{
  ℕ, ◌-◌, ◌!=◌, bit_or, ◌<◌, ◌≡◌, ◌⊎◌, refl, ap, ==_ne, ◌∙◌, Bool, true, false, not, ◌&&◌, some,
  List, [], ◌∷◌, inl, inr, arith, ltb, if◌then◌else◌, Bool-cases,
}
use x3c0_microkernel.Security.{security_privilege_count, restricted_privileges, default_privileges}
use x3c0_microkernel.Bitmap.{Bitmap, test_bit, set_bit, clear_bit}
use x3c0_microkernel.Bitmap
use x3c0_microkernel.Bitmap.Laws.{
  IsValid, Writes, create-IsValid, set_bit-Writes, clear_bit-Writes, test_bit_total,
}
use x3c0_microkernel.Process.{
  Process, receipt_method, default_process_priority, create, set_all, listed, is_kernel,
  set_security_privilege, toggle_security_privilege, toggle_all,
}

abbrev pub AllBelow : ℕ → List ℕ → Type 0
AllBelow n [] = Unit {0}
AllBelow n (b ∷ bs) = (b < n) × AllBelow n bs

-- The bitmap after the bits of a list were set.
record SetAll (m : Bitmap) (bs : List ℕ) (t : Bitmap) : Type 0 where
  valid : IsValid t
  count : t.elements ≡ m.elements
  reads : (j : ℕ) → test_bit t j ≡ (if listed j bs then some true else test_bit m j)

SetAll-cons :
    {m t u : Bitmap} (b : ℕ) (bs : List ℕ) → Writes m b true t → SetAll t bs u → SetAll m (b ∷ bs) u
SetAll-cons b bs w s = record {
  valid = s.valid;
  count = s.count ∙ w.count;
  reads = λ j. s.reads j ∙ rw (w.reads j) (ground arith);
}

set_all-SetAll :
    (m : Bitmap) (bs : List ℕ)
    → IsValid m
    → AllBelow m.elements bs
    → (t : Bitmap) × (set_all m bs ≡ some t) × SetAll m bs t
set_all-SetAll m [] v h = (m, refl, record { valid = v; count = refl; reads = λ j. refl })
set_all-SetAll m (b ∷ bs) v (h, hs) =
    let (t, e, w) = set_bit-Writes m b v h in
    let (u, d, s) = set_all-SetAll t bs w.valid (rw w.count hs) in (u, rw e d, SetAll-cons b bs w s)

-- The bitmap of a process has a bit for each privilege.
pub record HasPrivileges (p : Process) : Type 0 where
  pub valid : IsValid p.security_privileges
  pub count : p.security_privileges.elements ≡ security_privilege_count

-- A new process has every default privilege; whether it has another one is what the memory of the
-- bitmap held before.
pub create-HasPrivileges :
    (raw : ℕ → ℕ) (driver pd message_method f par : ℕ)
    → (p : Process) × (create raw driver pd message_method f par ≡ some p)
      × HasPrivileges p
      × ((j : ℕ)
          → test_bit p.security_privileges j ≡ (
              if listed j default_privileges
              then some true
              else test_bit (Bitmap.create raw security_privilege_count) j))
unfolding create Bitmap.create
create-HasPrivileges raw driver pd message_method f par =
    let (m, e, s) =
      set_all-SetAll (Bitmap.create raw security_privilege_count) default_privileges
        (create-IsValid raw security_privilege_count).0 (ground arith) in
    (
      record {
        page_dir = pd;
        priority = default_process_priority;
        security_privileges = m;
        state = if message_method != 0 then bit_or f receipt_method else f;
        on_receipt = message_method;
        driver = driver;
        parent = par;
      },
      rw e refl,
      record { valid = s.valid; count = s.count },
      s.reads,
    )

-- What `SetSecurityPrivilege` does to a process: nothing, where a process that is not the kernel's
-- asks for a restricted privilege, or it flips the one bit.
abbrev pub Toggled : Process → ℕ → Process → Bool → Type 0
Toggled p b q done =
    ((is_kernel p ≡ false) × (listed b restricted_privileges ≡ true) × (q ≡ p) × (done ≡ false))
    ⊎ (((is_kernel p ≡ true) ⊎ (listed b restricted_privileges ≡ false))
        × (done ≡ true)
        × (on : Bool) × (m : Bitmap) × (test_bit p.security_privileges b ≡ some on)
        × (q ≡ record p { security_privileges = m })
        × Writes p.security_privileges b (not on) m)

-- For each of the privileges, `SetSecurityPrivilege` on a process with a valid bitmap of them
-- refuses a restricted one to a process that is not the kernel's, and flips that privilege alone
-- otherwise.
pub set_security_privilege-Toggled :
    (p : Process) (b : ℕ)
    → HasPrivileges p
    → b < security_privilege_count
    → (q : Process) × (done : Bool) × (set_security_privilege p b ≡ some (q, done))
      × Toggled p b q done
unfolding set_security_privilege
set_security_privilege-Toggled p b h l =
    elim (Bool-cases (not (is_kernel p) && listed b restricted_privileges)) [
      | inl refused ↦
          let (a, c) = both _ _ refused in (p, false, rw refused refl, inl (a, c, refl, refl))
      | inr allowed ↦
          let (on, read) =
            test_bit_total p.security_privileges b h.valid (omega (arith, h.count)) in
          let (m, e, w) = flipped p b on h l in
          (
            record p { security_privileges = m },
            true,
            rw (allowed, read) (rw e refl),
            inr (either _ _ allowed, refl, on, m, read, refl, w),
          )
    ]
  where
    both : (k r : Bool) → (not k && r) ≡ true → (k ≡ false) × (r ≡ true)
    both true r e = absurd (cc)
    both false r e = (refl, e)

    either : (k r : Bool) → (not k && r) ≡ false → (k ≡ true) ⊎ (r ≡ false)
    either true r e = inl refl
    either false r e = inr e

    flipped :
        (p : Process) (b : ℕ) (on : Bool)
        → HasPrivileges p
        → b < security_privilege_count
        → (m : Bitmap) × ((if on
              then clear_bit p.security_privileges b
              else set_bit p.security_privileges b)
            ≡ some m)
          × Writes p.security_privileges b (not on) m
    flipped p b true h l = clear_bit-Writes p.security_privileges b h.valid (omega (arith, h.count))
    flipped p b false h l = set_bit-Writes p.security_privileges b h.valid (omega (arith, h.count))

-- What a process that is not the kernel's keeps through its calls.
pub record Keeps (p q : Process) : Type 0 where
  pub privileges : HasPrivileges q
  pub state : q.state ≡ p.state
  pub restricted :
      (j : ℕ)
      → listed j restricted_privileges ≡ true
      → test_bit q.security_privileges j ≡ test_bit p.security_privileges j

Keeps-self : (p : Process) → HasPrivileges p → Keeps p p
Keeps-self p h = record { privileges = h; state = refl; restricted = λ j r. refl }

Toggled-Keeps :
    (p q : Process) (b : ℕ) (done : Bool)
    → HasPrivileges p
    → is_kernel p ≡ false
    → Toggled p b q done
    → Keeps p q
Toggled-Keeps p q b done h k (inl (_, _, e, _)) = rw e (Keeps-self p h)
Toggled-Keeps p q b done h k (inr (inl is, _, _, _, _, _, _)) = absurd (cc (is, k))
Toggled-Keeps p q b done h k (inr (inr free, _, on, m, _, e, w)) = rw e (record {
  privileges = record { valid = w.valid; count = w.count ∙ h.count };
  state = refl;
  restricted = λ j r.
      w.reads j
      ∙ rw (==_ne b j (λ d. cc (free, r, ap (λ i. listed i restricted_privileges) d))) refl;
})

toggle_security_privilege-Keeps :
    (p : Process) (b : ℕ)
    → HasPrivileges p
    → is_kernel p ≡ false
    → (q : Process) × (code : ℕ) × (toggle_security_privilege p b ≡ some (q, code)) × Keeps p q
unfolding toggle_security_privilege
toggle_security_privilege-Keeps p b h k = elim (Bool-cases (ltb (security_privilege_count - 1) b)) [
  | inl above ↦ (p, 4, rw above refl, Keeps-self p h)
  | inr below ↦
      let (q, done, e, t) = set_security_privilege-Toggled p b h (ground arith) in
      (q, (if done then 0 else 5), rw (below, e) refl, Toggled-Keeps p q b done h k t)
]

-- A process that is not the kernel's, with a valid bitmap of the privileges, keeps through any
-- series of `ToggleSecurityPrivilege` calls, with any numbers, its state and each restricted
-- privilege as it was, and no call reads outside of the bitmap.
pub toggle_all-Keeps :
    (p : Process) (bs : List ℕ)
    → HasPrivileges p
    → is_kernel p ≡ false
    → (q : Process) × (toggle_all p bs ≡ some q) × Keeps p q
unfolding toggle_all
toggle_all-Keeps p [] h k = (p, refl, Keeps-self p h)
toggle_all-Keeps p (b ∷ bs) h k =
    let (q, code, e, a) = toggle_security_privilege-Keeps p b h k in
    let (t, d, c) = toggle_all-Keeps q bs a.privileges (rw a.state k) in
    (
      t,
      rw e d,
      record {
        privileges = c.privileges;
        state = c.state ∙ a.state;
        restricted = λ j r. c.restricted j r ∙ a.restricted j r;
      },
    )
