-- ===== src/ProcessIds/Places.antt =====
-- C library stubs/SystemCalls.c: POSIX process IDs and native ones determine each other.
use x3c0_microkernel.Common.{
  ℕ, zero, suc, ◌+◌, ◌≡◌, ◌≢◌, ◌⊎◌, inl, inr, refl, sym, ap, subst, ◌∙◌, true, false, Option, none,
  some, [], ◌∷◌, ◌++◌, get_elem?, length, get_elem?-lt, ltb, ◌==◌, Bool-cases, arith,
}
use x3c0_microkernel.ProcessIds.{
  ℤ, pos, negsuc, ProcessData, Pids, get_linux_from, get_linux_pid, get_kernel_pid, fill_from,
  add_posix_pid,
}

-- The native process `n` stands at place `i`.
abbrev pub At : Pids → (i n : ℕ) → Type 0
At pids i n = (d : ProcessData) × (get_elem? pids i ≡ some (some d)) × (d.native_pid ≡ n)

-- No native process has two places.
abbrev pub IsUnique : Pids → Type 0
IsUnique pids = (i j n : ℕ) → At pids i n → At pids j n → i ≡ j

-- The result of a search that counts from `i`.
abbrev pub Found : Pids → (n i : ℕ) → ℤ → Type 0
Found pids n i r =
    ((j : ℕ) × (r ≡ pos (i + j)) × At pids j n) ⊎ ((r ≡ negsuc 0) × ((k : ℕ) → At pids k n → ⊥))

Found-cons :
    (e : Option ProcessData) (pids : Pids) (n i : ℕ) (r : ℤ)
    → (At (e ∷ pids) 0 n → ⊥)
    → Found pids n (i + 1) r
    → Found (e ∷ pids) n i r
Found-cons e pids n i r absent (inl (j, q, at)) = inl (suc j, q ∙ ap pos (omega arith), at)
Found-cons e pids n i r absent (inr (q, nowhere)) = inr (q, nowhere_else)
  where
    nowhere_else : (k : ℕ) → At (e ∷ pids) k n → ⊥
    nowhere_else zero at = absent at
    nowhere_else (suc k) at = nowhere k at

pub same_process :
    (d e : ProcessData)
    → ◌≡◌ {A = Option (Option ProcessData)} (some (some d)) (some (some e))
    → d ≡ e
same_process d e s = cc s

wrong :
    (d : ProcessData) (pids : Pids) (n : ℕ)
    → (d.native_pid == n) ≡ false
    → At (some d ∷ pids) 0 n
    → ⊥
wrong d pids n miss (f, e, at) =
    let q : d ≡ f = same_process d f e in
    let there : d.native_pid ≡ n = ap (λ (x : ProcessData). x.native_pid) q ∙ at in
    ground (arith, miss, there)

pub get_linux_from-Found : (pids : Pids) (n i : ℕ) → Found pids n i (get_linux_from pids n i)
unfolding get_linux_from
get_linux_from-Found [] n i = inr (refl, λ k (d, e, _). absurd (cc))
get_linux_from-Found (none ∷ pids) n i =
    Found-cons none pids n i _ (λ (d, e, _). absurd (cc)) (get_linux_from-Found pids n (i + 1))
get_linux_from-Found (some d ∷ pids) n i = elim (Bool-cases (d.native_pid == n)) [
  | inl hit ↦ rw hit (inl (0, ap pos (omega arith), (d, refl, ground (arith, hit))))
  | inr miss ↦ rw miss (
      Found-cons (some d) pids n i _ (λ at. wrong d pids n miss at)
        (get_linux_from-Found pids n (i + 1)))
]

-- A process is found where it stands.
pub get_linux_pid-At :
    (pids : Pids) (i n : ℕ) → IsUnique pids → At pids i n → get_linux_pid pids n ≡ pos i
unfolding get_linux_pid
get_linux_pid-At pids i n unique at = elim (get_linux_from-Found pids n 0) [
  | inl (j, e, here) ↦ e ∙ ap pos (omega (arith, unique j i n here at))
  | inr (e, nowhere) ↦ absurd (nowhere i at)
]

pub get_linux_pid-absent :
    (pids : Pids) (n : ℕ) → ((k : ℕ) → At pids k n → ⊥) → get_linux_pid pids n ≡ negsuc 0
unfolding get_linux_pid
get_linux_pid-absent pids n nowhere = elim (get_linux_from-Found pids n 0) [
  | inl (j, e, here) ↦ absurd (nowhere j here)
  | inr (e, _) ↦ e
]

-- `qids` has the process `new` at `i`, where `pids` has none, and the others where they were.
record Placed (pids qids : Pids) (i : ℕ) (new : ProcessData) : Type 0 where
  here : get_elem? qids i ≡ some (some new)
  vacant : (d : ProcessData) → get_elem? pids i ≢ some (some d)
  others : (j : ℕ) → j ≢ i → get_elem? qids j ≡ get_elem? pids j

other_places :
    (x y : Option ProcessData) (pids : Pids) (j : ℕ)
    → j ≢ 0
    → get_elem? (x ∷ pids) j ≡ get_elem? (y ∷ pids) j
other_places x y pids zero n = absurd (n refl)
other_places x y pids (suc j) n = refl

cons_others :
    (x : Option ProcessData) (pids qids : Pids) (i : ℕ)
    → ((j : ℕ) → j ≢ i → get_elem? qids j ≡ get_elem? pids j)
    → (j : ℕ) → j ≢ suc i
    → get_elem? (x ∷ qids) j ≡ get_elem? (x ∷ pids) j
cons_others x pids qids i h zero n = refl
cons_others x pids qids i h (suc j) n = h j (λ e. n (ap suc e))

-- The first empty place, if there is one, is filled.
fill_from-Placed :
    (pids : Pids) (new : ProcessData) (i : ℕ)
    → (fill_from pids new i ≡ none)
      ⊎ ((j : ℕ) × (qids : Pids) × (fill_from pids new i ≡ some (qids, pos (i + j)))
          × Placed pids qids j new)
unfolding fill_from
fill_from-Placed [] new i = inl refl
fill_from-Placed (none ∷ pids) new i = inr (
  0,
  some new ∷ pids,
  ap (λ k. some (some new ∷ pids, pos k)) (omega arith),
  record { here = refl; vacant = λ d e. absurd (cc); others = other_places (some new) none pids },
)
fill_from-Placed (some d ∷ pids) new i = elim (fill_from-Placed pids new (i + 1)) [
  | inl full ↦ inl (rw full refl)
  | inr (j, qids, e, placed) ↦ inr (
    suc j,
    some d ∷ qids,
    rw e (ap (λ k. some (some d ∷ qids, pos k)) (omega arith)),
    record {
      here = placed.here;
      vacant = placed.vacant;
      others = cons_others (some d) pids qids j placed.others;
    },
  )
]

nothing_behind : (x : Option ProcessData) (j : ℕ) → j ≢ 0 → get_elem? (x ∷ []) j ≡ none
nothing_behind x zero n = absurd (n refl)
nothing_behind x (suc j) n = refl

append-Placed :
    (pids : Pids) (new : ProcessData) → Placed pids (pids ++ some new ∷ []) (length pids) new
append-Placed [] new = record {
  here = refl;
  vacant = λ d e. absurd (cc);
  others = nothing_behind (some new);
}
append-Placed (x ∷ pids) new =
    let rest = append-Placed pids new in
    record {
      here = rest.here;
      vacant = rest.vacant;
      others = cons_others x pids (pids ++ some new ∷ []) (length pids) rest.others;
    }

-- Process `n` has the number `i` and the others have theirs.
pub record Added (pids qids : Pids) (n i : ℕ) : Type 0 where
  pub at : At qids i n
  pub linux : get_linux_pid qids n ≡ pos i
  pub kernel : get_kernel_pid qids (pos i) ≡ some n
  pub others : (m : ℕ) → m ≢ n → get_linux_pid qids m ≡ get_linux_pid pids m
  pub unique : IsUnique qids

kernel-At : (pids : Pids) (i n : ℕ) → At pids i n → get_kernel_pid pids (pos i) ≡ some n
unfolding get_kernel_pid
kernel-At pids i n (d, e, at) =
    let inside : ltb (length pids) i ≡ false = ground (arith, get_elem?-lt pids i e) in
    rw (inside, e) (ap some at)

Placed-Added :
    (pids qids : Pids) (i : ℕ) (new : ProcessData)
    → IsUnique pids
    → ((k : ℕ) → At pids k new.native_pid → ⊥)
    → Placed pids qids i new
    → Added pids qids new.native_pid i
unfolding get_linux_pid
Placed-Added pids qids i new unique nowhere placed = record {
  at = at;
  linux = get_linux_pid-At qids i new.native_pid still at;
  kernel = kernel-At qids i new.native_pid at;
  others = same_number;
  unique = still;
}
  where
    at : At qids i new.native_pid
    at = (new, placed.here, refl)

    back : (j m : ℕ) → j ≢ i → At qids j m → At pids j m
    back j m n (d, e, q) = (d, sym (placed.others j n) ∙ e, q)

    forth : (j m : ℕ) → At pids j m → (j ≢ i) × At qids j m
    forth j m (d, e, q) =
        let n : j ≢ i = λ z. placed.vacant d (subst (λ k. get_elem? pids k ≡ some (some d)) z e) in
        (n, (d, placed.others j n ∙ e, q))

    only : (m : ℕ) → At qids i m → m ≡ new.native_pid
    only m (d, e, q) =
        let s : new ≡ d = same_process new d (sym placed.here ∙ e) in
        sym q ∙ sym (ap (λ (x : ProcessData). x.native_pid) s)

    elsewhere : (j m : ℕ) → At qids j m → (m ≡ new.native_pid × j ≡ i) ⊎ At pids j m
    elsewhere j m a = elim (Bool-cases (j == i)) [
      | inl y ↦ let z : j ≡ i = ground (arith, y) in inl (only m (subst (λ k. At qids k m) z a), z)
      | inr y ↦ inr (back j m (ground (arith, y)) a)
    ]

    still : IsUnique qids
    still j k m a b = elim (elsewhere j m a) [
      | inl (q, z) ↦ elim (elsewhere k m b) [
        | inl (_, w) ↦ z ∙ sym w
        | inr c ↦ absurd (nowhere k (subst (At pids k) q c))
      ]
      | inr c ↦ elim (elsewhere k m b) [
        | inl (q, _) ↦ absurd (nowhere j (subst (At pids j) q c))
        | inr e ↦ unique j k m c e
      ]
    ]

    same_number : (m : ℕ) → m ≢ new.native_pid → get_linux_pid qids m ≡ get_linux_pid pids m
    same_number m n = elim (get_linux_from-Found pids m 0) [
      | inl (j, e, here) ↦
          get_linux_pid-At qids j m still (forth j m here).1
          ∙ sym (get_linux_pid-At pids j m unique here)
      | inr (e, missing) ↦
          get_linux_pid-absent qids m
            (λ k a. elim (elsewhere k m a) [ inl (q, _) ↦ n q | inr c ↦ missing k c ])
          ∙ sym (get_linux_pid-absent pids m missing)
    ]

-- When no native process has two numbers, and `realloc` succeeds, `addPOSIXPid` gives a process the number it has, or a new
-- one if it has none: the number and the native ID then determine each other, the numbers of all
-- other processes stay the same, and still no process has two.
pub add_posix_pid-Added :
    (raw : ℕ) (pids : Pids) (n : ℕ)
    → IsUnique pids
    → (qids : Pids) × (i : ℕ) × (add_posix_pid true raw pids n ≡ some (qids, pos i))
      × Added pids qids n i
unfolding add_posix_pid get_linux_pid
add_posix_pid-Added raw pids n unique = elim (get_linux_from-Found pids n 0) [
  | inl (j, e, at) ↦
      let linux = get_linux_pid-At pids j n unique at in
      (
        pids,
        j,
        rw linux refl,
        record {
          at = at;
          linux = linux;
          kernel = kernel-At pids j n at;
          others = λ m ne. refl;
          unique = unique;
        },
      )
  | inr (e, nowhere) ↦ elim (fill_from-Placed pids new 0) [
    | inl full ↦ (
      pids ++ some new ∷ [],
      length pids,
      rw (e, full) refl,
      Placed-Added pids (pids ++ some new ∷ []) (length pids) new unique nowhere
          (append-Placed pids new),
    )
    | inr (j, qids, filled, placed) ↦ (
      qids,
      j,
      rw (e, filled) (ap (λ k. some (qids, pos k)) (omega arith)),
      Placed-Added pids qids j new unique nowhere placed,
    )
  ]
]
  where
    new : ProcessData
    new = record { native_pid = n; handler = raw }
