-- ===== src/Process/Tests.antt =====
-- A user process, and the calls of the system that change its privileges and its state.
use x3c0_microkernel.Common.{ℕ, ◌≡◌, refl, List, [], ◌∷◌, some}
use x3c0_microkernel.Security.{create_thread, read_file_system}
use x3c0_microkernel.Bitmap.{Bitmap, test_bit}
use x3c0_microkernel.Bitmap
use x3c0_microkernel.Bitmap.Laws.{create-IsValid}
use x3c0_microkernel.Process.{Process, toggle_all}
use x3c0_microkernel.Process.Privileges.{HasPrivileges, Keeps, toggle_all-Keeps}

abbrev user : Process
user = record {
  page_dir = 0x5000;
  priority = 1;
  security_privileges = Bitmap.create (λ i. 0x100000) 21;
  state = 2;
  on_receipt = 0;
  driver = 0;
  parent = 0;
}

user-HasPrivileges : HasPrivileges user
unfolding Bitmap.create
user-HasPrivileges = record { valid = (create-IsValid (λ i. 0x100000) 21).0; count = refl }

abbrev asked : List ℕ
asked = create_thread ∷ read_file_system ∷ 99 ∷ []

toggle_all-Keeps_example : (q : Process) × (toggle_all user asked ≡ some q) × Keeps user q
toggle_all-Keeps_example = toggle_all-Keeps user asked user-HasPrivileges refl
