-- ===== src/PageFlags.antt =====
-- `x86::PageDirectoryFlags` of Include/Multitasking/Paging.h, as far as the kernel uses them.
use x3c0_microkernel.Common.{ℕ}

abbrev pub present : ℕ
present = 0x1

abbrev pub read_write : ℕ
read_write = 0x2

abbrev pub user_accessible : ℕ
user_accessible = 0x4
