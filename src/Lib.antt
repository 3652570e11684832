-- ===== src/Lib.antt =====
-- The 0x3C0 microkernel: its memory management, its scheduler and threads, the system calls, the
-- privileges of processes, and the data structures that these stand on.
--
-- Parts, with the files of the repository that each module is about:
--   Physical (Source/MemoryAllocation/PhysicalAllocator.cpp): `PageAllocator`, the bitmap of the
--     pages of the memory. testBit, setBit, clearBit, firstFreeBit, firstFreeBits, AllocatePage,
--     AllocatePages and FreePage are the functions of these names in Physical.antt;
--     optimumMemoryLocation stands in Physical/MemoryMap, CompleteInitialisation in
--     Physical/Initialisation.
--   Virtual (Source/Multitasking/Paging.cpp): MapMemory, EraseMapping, RetrieveMapping and
--     SwitchPageDirectory, which read and write the tables through the recursive windows and take
--     their pages from Physical. Virtual/Spaces has CopyToAddressSpace and ClonePageDirectory, which
--     reach another address space through windows at fixed addresses, and Virtual/HeapTables
--     Initialise. PageFlags holds the bits of an entry.
--   LinkedList (Include/LinkedList.h): the list of nodes with pointers, on an explicit heap.
--     ArrayList (CommonSourceCode/List.h): the list in an array. Bitmap (Source/Bitmap.cpp): the
--     bitmap of a process' privileges.
--   Security and Process (Include/Multitasking/Security.h, Source/Multitasking/Process.cpp): a
--     process' state and privileges, and the system call ToggleSecurityPrivilege of
--     Source/SystemCalls/Native.cpp. Messages (Source/IPC/Message.cpp): messages, and the one that a
--     process sends to its parent when its status changes.
--   DriverBlocks and Drivers (Include/Drivers/DriverStructures.h,
--     Source/Drivers/DriverStructures.cpp): the record of a driver, the manager, the handler of a
--     driver's interrupts, and the system call InstallDriver. Interrupts
--     (Source/Common/Interrupts.cpp): the lists of handlers, in an array.
--   StackStates (Include/Common/Interrupts.h) and Thread (Source/Multitasking/Thread.cpp): the
--     registers of an interrupt and of a thread, and a thread's flags.
--   Random (Source/Common/RandomGenerator.cpp) and Scheduler (Source/Multitasking/Scheduler.cpp):
--     the lottery by which Yield chooses the next process from the linked list, and AddProcess.
--     Scheduler/Processors has the constructor and GetScheduler, Scheduler/Stacks SetupStack.
--   Kernel: the state that the parts above share. Kernel/Switching has YieldTo, Yield and
--     RemoveProcess, Kernel/Sleeping has AddProcess, Sleep and Wake of
--     Source/Multitasking/Scheduler.cpp, Kernel/Starting has Thread::Start, Kernel/Calls the
--     handlers of Source/SystemCalls/Native.cpp for threads, processes and messages,
--     Kernel/Delivery Process::SendMessage of Source/Multitasking/Process.cpp, Kernel/Creation
--     CreateProcess, Kernel/Listing RequestProcessData with Scheduler::GetAllProcesses, and
--     Kernel/Dispatch the two functions `receive` that call the handlers, of that file and of
--     Source/SystemCalls/POSIXInterface.cpp.
--   SystemCalls (Source/SystemCalls/Native.cpp): isAddressValid, PerformPageManagement and, in
--     SystemCalls/IdentityMapping, RequestIdentityMapping, over Virtual.
--   Elf (Source/ELF): the checks of a file, its table of sections, and the mapping of a section.
--   Memory (CommonSourceCode/Memory.cpp): Clear and Copy. Strings (Source/Common/Strings.cpp):
--     Compare, Length, Copy and Reverse. DescriptorTables (Source/Boot/DescriptorTables.cpp): the
--     gates that installIDT writes; DescriptorTables/Segments has the global table and installTSS.
--   Semaphore and Mutex (Source/IPC): the atomic word, and Lock and Unlock as steps of processors;
--     Mutex/Operators has the operators of the mutex.
--   ProcessIds and MessageThreads (C library stubs): the POSIX numbers of processes with the
--     handlers of their messages, and the IDs of message threads. HeapPosition: sbrk.
--     Files: the open files, the requests about them and the handler of the responses, with what
--     happens while a thread sleeps for one as parameters; Files/Calls
--     has close, fstat, lseek, read, write, isatty, kill and signal.
--   Common: Boolean tests, lists and binary digits of numbers, and wrap-around of machine words.
--
-- State is a record that each operation takes and returns. A machine word is a natural number and
-- its wrap-around is written out. `none` is a fault of the processor: a null or dangling pointer, an
-- access outside of an array, or a halt. In MessageThreads alone, a read behind a block on the heap
-- gives a word, which the parameter `realloc` decides.
--
-- Bounds and fuel: a loop over a range is recursion on the number of rounds left, so it needs no
-- fuel. A loop over linked nodes runs on fuel; its theorems ask for more than the length of the
-- list, and show that this is enough. `undef k` stands for what the compiled `1 << k` gives for an
-- `int` where C++ leaves it undefined; every theorem holds for each choice of it.
-- `scale` is the floating-point product in RandomGenerator::Next, of which only a bound is used. What
-- an allocator returns, and what the memory it returns held before, are parameters.
--
-- Not modelled: what the processor makes of the tables and its caches, and the bytes that a copy
-- between address spaces moves, of which the request is recorded; fork; what the ELF loader copies;
-- Strings::CreateNumeric; the boot code, the assembly and the ports; the liballoc library; the stubs
-- that only pass their arguments on; and the bootstrap driver.
pub mod Common
pub mod Bitmap
pub mod Physical
pub mod LinkedList
pub mod ArrayList
pub mod PageFlags
pub mod Virtual
pub mod Memory
pub mod Security
pub mod Process
pub mod Messages
pub mod DriverBlocks
pub mod Random
pub mod StackStates
pub mod Thread
pub mod Scheduler
pub mod Kernel
pub mod MessageThreads
pub mod ProcessIds
pub mod Files
pub mod HeapPosition
pub mod Interrupts
pub mod Drivers
pub mod Elf
pub mod Strings
pub mod SystemCalls
pub mod DescriptorTables
pub mod Semaphore
pub mod Mutex
