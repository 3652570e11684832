-- ===== src/Security.antt =====
-- Include/Multitasking/Security.h: the privileges, which are bits of a process' bitmap.
use x3c0_microkernel.Common.{ℕ, List, [], ◌∷◌}

abbrev pub security_privilege_count : ℕ
security_privilege_count = 21

abbrev pub message_passing : ℕ
message_passing = 0

abbrev pub yield_timeslice : ℕ
yield_timeslice = 2

abbrev pub change_priority : ℕ
change_priority = 3

abbrev pub command_line : ℕ
command_line = 4

abbrev pub accept_keyboard_input : ℕ
accept_keyboard_input = 6

abbrev pub create_thread : ℕ
create_thread = 8

abbrev pub create_process : ℕ
create_process = 9

abbrev pub create_v86_thread : ℕ
create_v86_thread = 10

abbrev pub read_from_storage : ℕ
read_from_storage = 11

abbrev pub write_to_storage : ℕ
write_to_storage = 12

abbrev pub access_network_stack : ℕ
access_network_stack = 14

abbrev pub read_page_from_file : ℕ
read_page_from_file = 15

abbrev pub read_complete_file : ℕ
read_complete_file = 16

abbrev pub enumerate_devices : ℕ
enumerate_devices = 17

abbrev pub access_memory_mapped_devices : ℕ
access_memory_mapped_devices = 18

abbrev pub read_file_system : ℕ
read_file_system = 19

abbrev pub write_file_system : ℕ
write_file_system = 20

abbrev pub restricted_privileges : List ℕ
restricted_privileges =
    create_v86_thread ∷ access_network_stack ∷ read_complete_file ∷ enumerate_devices
    ∷ access_memory_mapped_devices ∷ read_file_system ∷ write_file_system ∷ []

abbrev pub default_privileges : List ℕ
default_privileges =
    message_passing ∷ yield_timeslice ∷ change_priority ∷ command_line ∷ accept_keyboard_input
    ∷ create_thread ∷ create_process ∷ read_from_storage ∷ write_to_storage ∷ read_page_from_file
    ∷ []
