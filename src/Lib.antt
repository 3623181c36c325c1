-- ===== src/Lib.antt =====
-- The kernel of Nachos (code/), as a CPU-and-threads simulator with user processes and a lock server:
-- what its data structures and operations do. The system calls are those of the configuration with
-- USER_PROGRAM and without NETWORK.
--
-- The parts and how they interact. The scheduler (threads/scheduler.cc, threads/thread.cc) keeps the
-- ready list; semaphores, locks and conditions (threads/synch.cc) move threads between their own
-- queues and that list. All of these queues are Lists (threads/list.cc), as is the queue of pending
-- interrupts (machine/interrupt.cc), whose handlers wake threads and move the simulated time. A user
-- program runs on the simulated processor (machine/mipssim.cc); its loads and stores go through the
-- page table or the TLB (machine/translate.cc). It reaches locks and conditions by an index, through
-- the system calls of userprog/exception.cc, which keep a table and a BitMap (userprog/bitmap.cc) for
-- each kind. Another BitMap keeps the sectors of the disk that files use (filesys/filehdr.cc), whose
-- headers a directory finds by name (filesys/directory.cc). A lock server (network/server.cc) serves
-- clients on other machines by messages; several servers share the objects, ask each other for those
-- that they do not have, and agree on who makes a new one.
--
-- Which file models which part:
--   LinkedList   threads/list.cc: List and ListElement on a heap of elements with NULL and deleted
--                pointers. Append, Prepend, SortedInsert, Remove and SortedRemove are append, prepend,
--                sorted_insert and sorted_remove; LinkedList/Refinement says which list of items a
--                heap holds.
--   BitMap       userprog/bitmap.cc: the 32-bit words and every operation of the class but Print,
--                FetchFrom and WriteBack.
--   Kernel       threads/scheduler.cc and Yield, Sleep and Fork of threads/thread.cc. The state is one
--                record, System, with the queues as lists of thread numbers; where Sleep calls
--                Interrupt::Idle, a wake or a halt follows.
--   Synch        threads/synch.cc: Semaphore, Lock and Condition on System. A thread that blocks leaves
--                in `resume` where it goes on; Synch/Run is the step relation of all threads.
--   Syscalls     userprog/exception.cc: the system calls on locks and conditions, each with its three
--                tests. Tables is the state; Outcome has the calls that halt the machine or fail an
--                ASSERT as values.
--   Interrupt    machine/interrupt.cc: Schedule, CheckIfDue, OneTick, SetLevel and Idle, with the pending
--                interrupts in a LinkedList. The handlers are a parameter, the record Calls.
--   Memory       machine/translate.cc: Translate, ReadMem and WriteMem, little-endian.
--   Server       ServerLock and ServerCondition of threads/synch.cc, and of network/server.cc the
--                operations on the locks, conditions and variables of clients (Server/Operations,
--                Server/Conditions, Server/Variables) and the numbers that name them (Server/Index).
--   Peers        ServerToServerMessageHandler of network/server.cc: how servers look for an object on each
--                other and agree on who makes a new one. Peers/Pending has PendingCreate and
--                determineResponseToCreateRequest, Peers/Store the state of a server, Peers/Handler and
--                Peers/Queries a function for each group of cases of the switch, and Peers/Loop the
--                switch. The tables are a parameter, the record ObjectStore; the bytes of a new
--                buffer are one as well.
--   Clients      Server() of network/server.cc on ACQUIRE, RELEASE, DESTROY_LOCK, DESTROY_MV, GET_MV and
--                SET_MV, from the bytes of the message to those of the answers: here, or handed on to
--                Peers for an object of another server.
--   Mips         machine/mipssim.cc: Decode with opTable and specialTable, OneInstruction, the delayed
--                load and Mult. Loads and stores are ReadMem and WriteMem of Memory, and RaiseException
--                is modelled up to the call of the handler.
--   Directory    filesys/directory.cc: the table of entries and the constructor, Find, Add and Remove.
--   FileHeader   filesys/filehdr.cc: Allocate, Deallocate, ByteToSector and FileLength, on a BitMap of
--                the sectors.
--   Wire         the ints in messages: extractInt and compressInt of network/server.cc, and their
--                copies extractIntFromBytes and compressIntFromBytes in userprog/exception.cc.
--   Common       the names, tests, lists and bit lemmas that these share.
--   The Tests modules run each part on small states.
--
-- Bounds and fuel. A loop that the source bounds is structural recursion (BitMap's loops on the number
-- of bits, the search of the TLB on its size). Broadcast's loop has the length of the queue as fuel,
-- the loop of SortedInsert the number of elements that the heap has given out, and the loop of OneTick
-- a number of rounds that must exceed the number of interrupts that are due; each is shown to end
-- within its fuel. The loop of ServerBroadcast has rounds as fuel: it ends with the right lock number
-- and is shown not to end with another one. Words of a bit map, bytes of memory and ints in messages
-- wrap as written; simulated times, thread numbers and counters are natural numbers, and acquireCount,
-- which can fall below 0, is an integer.
--
-- Not modelled: printing and debug output; saving and restoring of registers in a thread switch and
-- the stack of a thread (Thread::StackAllocate, CheckOverflow, Finish); the loop Machine::Run and
-- the debugger; the devices (disk, console, timer, network), open files and the operations of
-- FileSystem; processes and page faults (userprog/addrspace.cc and the rest of exception.cc); the
-- cases of Server() in network/server.cc for creations and conditions, and LockWatcher there, and
-- network/post.cc. Allocation does not fail.
pub mod Common
pub mod BitMap
pub mod Clients
pub mod Kernel
pub mod LinkedList
pub mod Interrupt
pub mod Memory
pub mod Mips
pub mod Server
pub mod Wire
pub mod Peers
pub mod Directory
pub mod FileHeader
pub mod Synch
pub mod Syscalls
