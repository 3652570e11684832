-- ===== src/Virtual/Spaces.antt =====
-- `CopyToAddressSpace`, `ClonePageDirectory` and `Initialise` of Source/Multitasking/Paging.cpp: the
-- work on another address space, through windows at fixed addresses. A window leads to the frame
-- that its entry of `pageTables` names, and the 64-bit words of frames are kept apart from the
-- recursive windows of the running address space. `none` is a page fault or a processor that halts.
use x3c0_microkernel.Common.{
  ℕ, zero, suc, ◌+◌, ◌-◌, ◌*◌, ◌/◌, ◌^◌, bit_and, bit_or, Bool, true, false, ◌&&◌, Option, none,
  some, List, ◌∷◌, leb, ◌==◌, if◌then◌else◌, ◌>>=◌, update, min,
}
use x3c0_microkernel.Common.Words.{u32, u64, sub_u32, page_mask}
use x3c0_microkernel.PageFlags
use x3c0_microkernel.Physical.{allocate_page}
use x3c0_microkernel.Virtual.{Virtual, retrieve_mapping, map_memory, erase_mapping}

-- What one `Memory::Copy` of `CopyToAddressSpace` is asked to do.
pub record Transfer : Type 0 where
  pub destination : ℕ
  pub source : ℕ
  pub bytes : ℕ

-- `frames` has the word at each physical address; `copied` the transfers with the physical page
-- that the window led to, the last one first.
pub record Spaces : Type 0 where
  pub space : Virtual
  pub frames : ℕ → ℕ
  pub copied : List (ℕ × Transfer)

-- The windows.
abbrev pub check_window : ℕ
check_window = 0xffbfb000

abbrev pub clone_window : ℕ
clone_window = 0xffbfc000

abbrev pub directory_window : ℕ
directory_window = 0xffbfd000

abbrev pub table_window : ℕ
table_window = 0xffbfe000

abbrev pub page_window : ℕ
page_window = 0xffbff000

-- The physical address that an access to `address` reaches.
unfoldable pub translate : Spaces → (address : ℕ) → Option ℕ
translate s address =
    let (p, flags) = retrieve_mapping s.space address in
    if bit_and flags PageFlags.present == 0 then none else some p

unfoldable pub load : Spaces → (address : ℕ) → Option ℕ
load s address = translate s address >>= λ p. some (s.frames p)

unfoldable pub store : Spaces → (address value : ℕ) → Option Spaces
store s address value =
    translate s address >>= λ p. some (record s { frames = update s.frames p value })

-- The loop of `CopyToAddressSpace` goes on, or it is left by `break`.
pub data Round : Type 0 where
  next : Spaces → Round
  stop : Spaces → Round

abbrev pub table_flags : ℕ
table_flags = bit_or (bit_or PageFlags.present PageFlags.read_write) PageFlags.user_accessible

abbrev pub page_flags : (user_mode : Bool) → ℕ
page_flags true = table_flags
page_flags false = bit_or PageFlags.present PageFlags.read_write

-- `Memory::Copy((void *)(0xFFBFF000 + offset), source, bytes)`.
unfoldable pub transfer : Spaces → (frame : ℕ) → (offset source bytes : ℕ) → Spaces
transfer s frame offset source bytes = record s {
  copied =
      (frame, record { destination = page_window + offset; source = source; bytes = bytes })
      ∷ s.copied;
}

-- The rounds from the page of `source` to the page of its end.
unfoldable pub round_count : (source length : ℕ) → ℕ
round_count source length =
    let first = bit_and source page_mask in
    let last = bit_and (u64 (source + length)) page_mask in
    if leb first last then (last - first) / 0x1000 + 1 else 0

-- `pageDirectoryVirt[i] = cloneDirectory[i]`.
unfoldable pub link_table : Spaces → (i : ℕ) → Option Spaces
link_table s i = load s (clone_window + 8 * i) >>= λ e. store s (directory_window + 8 * i) e

-- The tables of the kernel's heap are linked as well.
unfoldable pub link_heap : Spaces → (i : ℕ) → Option Spaces
link_heap s i =
    if leb (0xd0000000 / 2 ^ 22) i && leb i (0xdfffffff / 2 ^ 22) then link_table s i else some s

module _ (undef : ℕ → ℕ) where
  abbrev pub allocate : Spaces → Spaces × ℕ
  allocate s =
      let (a, p) = allocate_page undef s.space.allocator false in
      (record s { space = record s.space { allocator = a } }, p)

  -- `MapMemory(frame, window, ReadWrite)`.
  unfoldable pub open_window : Spaces → (frame window : ℕ) → Option Spaces
  open_window s frame window = map_memory undef s.space frame window PageFlags.read_write >>= λ v.
      some (record s { space = v })

  unfoldable pub close_window : Spaces → (window : ℕ) → Spaces
  close_window s window = record s { space = erase_mapping undef s.space window }

  -- An entry that is not present gets a new page with the given flags; `none` for one that is
  -- missing where it must exist.
  unfoldable pub ensure_present :
      Spaces → (must_exist : Bool) (address flags : ℕ) → Option (Spaces × Option ℕ)
  ensure_present s must_exist address flags = do
    entry ← load s address
    if bit_and entry PageFlags.present == PageFlags.present
        then some (s, some entry)
        else if must_exist
        then some (s, none)
        else (let (t, page) = allocate s in
            store t address (bit_or page flags) >>= λ w.
            load w address >>= λ written. some (w, some written))

  -- The end of a round: the page is mapped, filled, and the two windows are closed.
  unfoldable pub fill_page : Spaces → (page offset source bytes : ℕ) → Option Spaces
  fill_page s page offset source bytes =
      let frame = bit_and page page_mask in
      open_window s frame page_window >>= λ w.
      some (
        close_window (close_window (transfer w frame offset source bytes) page_window) table_window)

  -- The page table entry that the round needs, and what follows.
  unfoldable pub copy_page :
      Spaces → (must_exist user_mode : Bool) (table index offset source bytes : ℕ) → Option Round
  copy_page s must_exist user_mode table index offset source bytes = do
    w ← open_window s (bit_and table page_mask) table_window
    r ← ensure_present w must_exist (table_window + 8 * index) (page_flags user_mode)
    elim r.1 [
      | none ↦ some (stop (close_window r.0 table_window))
      | some page ↦ fill_page r.0 page offset source bytes >>= λ t. some (next t)
    ]

  -- One round of the loop, `offset` bytes behind its start.
  unfoldable pub copy_round :
      Spaces
      → (source length destination : ℕ) (must_exist user_mode : Bool) (offset : ℕ) → Option Round
  copy_round s source length destination must_exist user_mode offset =
      let bytes = min (sub_u32 length offset) 0x1000 in
      let adjusted = u64 (offset + destination) in
      let directory_index = u32 (adjusted / 2 ^ 22) in
      let table_index = bit_and (adjusted / 2 ^ 12) 0x3ff in
      ensure_present s must_exist (directory_window + 8 * directory_index) table_flags >>= λ r.
      elim r.1 [
        | none ↦ some (stop r.0)
        | some table ↦
            copy_page r.0 must_exist user_mode table table_index (u32 offset) source bytes
      ]

  unfoldable pub copy_rounds :
      (left : ℕ)
      → Spaces
      → (source length destination : ℕ) (must_exist user_mode : Bool) (offset : ℕ) → Option Spaces
  copy_rounds zero s source length destination must_exist user_mode offset = some s
  copy_rounds (suc left) s source length destination must_exist user_mode offset =
      copy_round s source length destination must_exist user_mode offset >>= λ r. elim r [
        | next t ↦
            copy_rounds left t source length destination must_exist user_mode (offset + 0x1000)
        | stop t ↦ some t
      ]

  -- `CopyToAddressSpace`.
  unfoldable pub copy_to_address_space :
      Spaces
      → (source length destination address_space : ℕ) (must_exist user_mode : Bool) → Option Spaces
  copy_to_address_space s source length destination address_space must_exist user_mode = do
    w ← open_window s address_space directory_window
    t ← copy_rounds (round_count source length) w source length destination must_exist user_mode 0
    some (close_window t directory_window)

  -- A page of the process that forks, if it is present.
  unfoldable pub fork_page : Spaces → (directory i j : ℕ) → Option Spaces
  fork_page s directory i j = do
    e ← load s (clone_window + 8 * i)
    w ← open_window s (bit_and e page_mask) check_window
    entry ← load w (check_window + 8 * j)
    (let t = close_window w check_window in
        let address = u32 (bit_or (i * 2 ^ 22) (j * 2 ^ 12)) in
        if bit_and entry PageFlags.present == 0
        then some t
        else copy_to_address_space t address 0x1000 address directory false true)

  unfoldable pub fork_pages : (left : ℕ) → Spaces → (directory i j : ℕ) → Option Spaces
  fork_pages zero s directory i j = some s
  fork_pages (suc left) s directory i j =
      fork_page s directory i j >>= λ t. fork_pages left t directory i (j + 1)

  -- The pages under entry `i`, unless it is not present.
  unfoldable pub fork_table : Spaces → (directory i : ℕ) → Option Spaces
  fork_table s directory i = load s (clone_window + 8 * i) >>= λ e.
      if bit_and e PageFlags.present == 0
      then some s
      else fork_pages 1024 s directory i 0 >>= λ t. link_heap t i

  -- One round of the loop of `ClonePageDirectory`.
  unfoldable pub clone_entry : Spaces → (fork : Bool) (directory i : ℕ) → Option Spaces
  clone_entry s fork directory i =
      if leb (check_window / 2 ^ 22) i && leb i (page_window / 2 ^ 22)
      then some s
      else if leb (0xf0000000 / 2 ^ 22) i
      then (link_table s i >>= λ t. link_heap t i)
      else if fork
      then fork_table s directory i
      else link_heap s i

  unfoldable pub clone_entries :
      (left : ℕ) → Spaces → (fork : Bool) (directory i : ℕ) → Option Spaces
  clone_entries zero s fork directory i = some s
  clone_entries (suc left) s fork directory i =
      clone_entry s fork directory i >>= λ t. clone_entries left t fork directory (i + 1)

  -- `ClonePageDirectory(dir, usePosixSemantics)`.
  unfoldable pub clone_page_directory :
      Spaces → (dir : ℕ) (use_posix_semantics : Bool) → Option (Spaces × ℕ)
  clone_page_directory s dir use_posix_semantics = do
    let (a, directory) = allocate s
    w ← open_window a directory directory_window
    x ← open_window w dir clone_window
    y ← clone_entries 1023 x (use_posix_semantics && dir == s.space.current) directory 0
    z ←
        store y (directory_window + 8 * 1023)
          (bit_or (bit_or directory PageFlags.present) PageFlags.read_write)
    some (close_window (close_window z directory_window) clone_window, directory)
