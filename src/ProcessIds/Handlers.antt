-- ===== src/ProcessIds/Handlers.antt =====
-- `installMessageHandler` and `retreiveMessageHandler` of C library stubs/SystemCalls.c.
use x3c0_microkernel.Common.{
  ℕ, ◌≡◌, ◌≢◌, inl, inr, refl, sym, ap, subst, ◌∙◌, true, false, some, set, length, get_elem?,
  get_elem?-lt, get_elem?-set_self, get_elem?-set_ne, ltb, leb, ◌==◌, Bool-cases, arith,
}
use x3c0_microkernel.ProcessIds.{
  ProcessData, Pids, get_linux_pid, install_message_handler, retrieve_message_handler,
}
use x3c0_microkernel.ProcessIds.Places.{
  At, IsUnique, add_posix_pid-Added, get_linux_from-Found, get_linux_pid-At, get_linux_pid-absent,
  same_process,
}

-- Two arrays with the same native processes at the same places.
abbrev SamePlaces : Pids → Pids → Type 0
SamePlaces pids qids = (j m : ℕ) → (At pids j m → At qids j m) × (At qids j m → At pids j m)

SamePlaces-IsUnique : (pids qids : Pids) → SamePlaces pids qids → IsUnique pids → IsUnique qids
SamePlaces-IsUnique pids qids same unique i j n a b = unique i j n ((same i n).1 a) ((same j n).1 b)

get_linux_pid-same :
    (pids qids : Pids) (m : ℕ)
    → SamePlaces pids qids
    → IsUnique pids
    → get_linux_pid qids m ≡ get_linux_pid pids m
get_linux_pid-same pids qids m same unique = elim (get_linux_from-Found pids m 0) [
  | inl (j, _, here) ↦
      get_linux_pid-At qids j m (SamePlaces-IsUnique pids qids same unique) ((same j m).0 here)
      ∙ sym (get_linux_pid-At pids j m unique here)
  | inr (_, missing) ↦
      get_linux_pid-absent qids m (λ k a. missing k ((same k m).1 a))
      ∙ sym (get_linux_pid-absent pids m missing)
]

module _ (pids : Pids) (i : ℕ) (d : ProcessData) (hnd : ℕ)
    (e : get_elem? pids i ≡ some (some d)) where
  abbrev handled : Pids
  handled = set pids i (some (record d { handler = hnd }))

  at_handled : get_elem? handled i ≡ some (some (record d { handler = hnd }))
  at_handled = get_elem?-set_self pids i _ (get_elem?-lt pids i e)

  handled-SamePlaces : SamePlaces pids handled
  handled-SamePlaces j m = elim (Bool-cases (j == i)) [
    | inl y ↦
        let z : i ≡ j = ground (arith, y) in
        subst (λ k. (At pids k m → At handled k m) × (At handled k m → At pids k m)) z
          (
            (λ (f, g, q).
                let s : d ≡ f = same_process d f (sym e ∙ g) in
                (
                  record d { handler = hnd },
                  at_handled,
                  ap (λ (x : ProcessData). x.native_pid) s ∙ q,
                )),
            (λ (f, g, q).
                let s : record d { handler = hnd } ≡ f = same_process _ f (sym at_handled ∙ g) in
                (d, e, ap (λ (x : ProcessData). x.native_pid) s ∙ q)),
          )
    | inr y ↦
        let kept =
          get_elem?-set_ne pids i j (some (record d { handler = hnd })) (ground (arith, y)) in
        ((λ (f, g, q). (f, kept ∙ g, q)), (λ (f, g, q). (f, sym kept ∙ g, q)))
  ]

-- When no native process has two numbers, and `realloc` succeeds: a handler that is installed for
-- a native process (`nativePid` is 1) is the one retrieved for it, and the numbers of
-- the other processes stay the same.
pub install_message_handler-retrieve :
    (raw : ℕ) (pids : Pids) (pid hnd : ℕ)
    → IsUnique pids
    → (qids : Pids) × (install_message_handler true raw pids pid 1 hnd ≡ some qids)
      × (retrieve_message_handler qids pid 1 ≡ some hnd)
      × IsUnique qids
      × ((m : ℕ) → m ≢ pid → get_linux_pid qids m ≡ get_linux_pid pids m)
unfolding install_message_handler retrieve_message_handler
install_message_handler-retrieve raw pids pid hnd unique =
    let (rids, i, added, a) = add_posix_pid-Added raw pids pid unique in
    let (d, e, native) = a.at in
    let inside : ltb (length rids) i ≡ false = ground (arith, get_elem?-lt rids i e) in
    let same = handled-SamePlaces rids i d hnd e in
    let linux = get_linux_pid-same rids (handled rids i d hnd e) pid same a.unique ∙ a.linux in
    let there = at_handled rids i d hnd e in
    let behind : leb (length (handled rids i d hnd e)) i ≡ false =
      ground (arith, get_elem?-lt (handled rids i d hnd e) i there) in
    (
      handled rids i d hnd e,
      rw (added, inside, e) refl,
      rw (linux, behind, there) refl,
      SamePlaces-IsUnique rids (handled rids i d hnd e) same a.unique,
      λ m n. get_linux_pid-same rids (handled rids i d hnd e) m same a.unique ∙ a.others m n,
    )
