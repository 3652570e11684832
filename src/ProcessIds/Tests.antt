-- ===== src/ProcessIds/Tests.antt =====
-- Two processes with an empty place between them.
use x3c0_microkernel.Common.{
  ℕ, zero, suc, ap, get_elem?, ◌≡◌, ◌≢◌, refl, true, none, some, [], ◌∷◌, arith,
}
use x3c0_microkernel.ProcessIds.{
  ProcessData, Pids, pos, add_posix_pid, get_linux_pid, install_message_handler,
  retrieve_message_handler,
}
use x3c0_microkernel.ProcessIds.Places.{same_process, IsUnique, Added, add_posix_pid-Added}
use x3c0_microkernel.ProcessIds.Handlers.{install_message_handler-retrieve}

abbrev process : ℕ → ProcessData
process n = record { native_pid = n; handler = 0x1000 }

abbrev three : Pids
three = some (process 5) ∷ none ∷ some (process 7) ∷ []

clash :
    {i j : ℕ} (d f : ProcessData) (n : ℕ)
    → get_elem? three 0 ≡ some (some d)
    → get_elem? three 2 ≡ some (some f)
    → d.native_pid ≡ n
    → f.native_pid ≡ n
    → i ≡ j
clash d f n e g p q =
    let five : 5 ≡ d.native_pid =
      ap (λ (x : ProcessData). x.native_pid) (same_process (process 5) d e) in
    let seven : 7 ≡ f.native_pid =
      ap (λ (x : ProcessData). x.native_pid) (same_process (process 7) f g) in
    absurd (omega (arith, five, seven, p, q))

three-IsUnique : IsUnique three
three-IsUnique zero zero n a b = refl
three-IsUnique zero (suc zero) n a (d, e, _) = absurd (cc e)
three-IsUnique zero (suc (suc zero)) n (d, e, p) (f, g, q) = clash d f n e g p q
three-IsUnique zero (suc (suc (suc j))) n a (d, e, _) = absurd (cc e)
three-IsUnique (suc zero) j n (d, e, _) b = absurd (cc e)
three-IsUnique (suc (suc zero)) zero n (d, e, p) (f, g, q) = clash f d n g e q p
three-IsUnique (suc (suc zero)) (suc zero) n a (d, e, _) = absurd (cc e)
three-IsUnique (suc (suc zero)) (suc (suc zero)) n a b = refl
three-IsUnique (suc (suc zero)) (suc (suc (suc j))) n a (d, e, _) = absurd (cc e)
three-IsUnique (suc (suc (suc i))) j n (d, e, _) b = absurd (cc e)

add_posix_pid-Added_example :
    (qids : Pids) × (i : ℕ) × (add_posix_pid true 0 three 9 ≡ some (qids, pos i))
    × Added three qids 9 i
add_posix_pid-Added_example = add_posix_pid-Added 0 three 9 three-IsUnique

install_message_handler-retrieve_example :
    (qids : Pids) × (install_message_handler true 0 three 9 1 0x2000 ≡ some qids)
    × (retrieve_message_handler qids 9 1 ≡ some 0x2000)
    × IsUnique qids
    × ((m : ℕ) → m ≢ 9 → get_linux_pid qids m ≡ get_linux_pid three m)
install_message_handler-retrieve_example =
    install_message_handler-retrieve 0 three 9 0x2000 three-IsUnique
