-- ===== src/Lib.antt =====
-- AlaphiOS: the state of the kernel's parts and the operations on it.
--
-- AlaphiOS is a small operating system for x86_64 in Rust. The kernel keeps its state in statics
-- behind locks; system calls and interrupts call the operations of one part, which call those of
-- others. Here each part is a record, each operation a function from the state to the state and a
-- result, and a lock is the order of the calls.
--
-- Parts, their files here and their source:
--   Security     kernel/src/security/mod.rs: RbacAccessControl, the access matrix with roles. Acl
--                is about its entries, Rights about the bits, Delegation about one grant or
--                revocation, Confinement about sequences of them.
--   Scheduler    kernel/src/scheduler/mlfq.rs: MlfqScheduler, eight queues of tasks. An Arc of a
--                task is an address, and the tasks lie in a heap (Heap) that the queues, the
--                running task and the task table share. Queues and Levels are about the queues,
--                Slice and Boost about ticks, Switch, Policy and WellFormed about prepare_switch;
--                Runs has sequences of the operations, Places and Held are about a queued task in
--                them, Starvation about when it is chosen.
--   Lifecycle    kernel/src/process/table.rs, process/lifecycle.rs and scheduler/mod.rs: the task
--                table, the tasks and the scheduler as one state (System), with spawn, exit, the
--                rounds of wait, and the wake-ups. Lookup is about the search by process id,
--                Wakeups about unblock_tid, Keeps and Exits about exit and the wait that follows
--                it.
--   Process      kernel/src/process: Signal is SignalState of signal.rs, Task the control block of
--                task.rs with its constructors and the id counters of pid.rs.
--   Memory       kernel/src/memory: Area has the areas of Vmm in vmm.rs, with mprotect and
--                set_heap_end, Area.Protect the flags of each address. FreeList is
--                FreeListAllocator of free_list.rs, over the words of memory in which its links
--                lie; FreeList.Links, FreeList.Stack and FreeList.Filled say which frames those
--                links spell out. Boot is BootFrameAllocator of frame_allocator.rs over the memory
--                map of Regions; Boot.Order and Boot.Claims are about what it gives, Boot.Handover
--                about init of mod.rs. Swap is SwapPartition of swap.rs on a disk of Io;
--                Swap.Slots is about its slots, Swap.Sectors and Swap.RoundTrip about the pages in
--                them. Paging is what Vmm does to page tables, Fault its handle_fault;
--                Fault.Mapping, Fault.Confinement and Fault.Copies are about what a fault writes. Buddy is
--                BuddyAllocator of buddy_allocator.rs, the chain of each free list written out;
--                Buddy.Conservation counts its bytes, Buddy.Requests is about a request.
--   Fs           kernel/src/fs: Overlay is overlay.rs, Tables fcb.rs and fd_table.rs, Volume,
--                Access, Vfs and Directories are LogicalFs of vfs.rs, Records the files of
--                system_domain.rs. A method has the type M, from the state to the state and a
--                result, and `?` is its bind. Vfs.Descriptors, Vfs.Exclusive and Vfs.Locking are
--                about the exclusive locks, by way of the triples of Vfs.Steps; Vfs.Histories
--                about sequences of calls; Vfs.Permissions and Vfs.Contention about what a call
--                refuses.
--   Io           kernel/src/io: Cscan and Fcfs of scheduler.rs, with requests in Request; Disk is
--                RamDisk of disk.rs, its content a sequence of bytes, and Crc the checksum of
--                crc.rs; Device is device.rs and Console console.rs.
--   Ipc          kernel/src/ipc: Pipe, MsgQueue, Shm, and Table for table.rs. A call that waits on
--                a condition variable gives up the lock, so a call is a sequence of sections that
--                hold it, and processes interleave by sections.
--   Sync         kernel/src/sync: Resource is QueuedResource of resource.rs, by the sections that
--                hold its inner lock; Resource.Exclusion is about the tasks that hold it. Table is
--                resource_table.rs and Condvar condvar.rs.
--   Syscall      kernel/src/syscall/dispatch.rs: the handler of each call, over the state of the
--                whole kernel (Kernel), which holds the statics of the other parts and the user
--                memory. Errno has the error codes, Utf8 the test of a user string; Locks,
--                Channels, Devices, Files, Paths, Users, Tasks and Memory have the handlers.
--                Buffers, Overruns and Reads are about what they write to user memory, Transfers
--                about a pipe from buffer to buffer, Modes and Privileges about permissions and
--                users, Memory.Bounds about the end of the heap.
--   Base         lists, options, maps, bits and byte strings. Map is the BTreeMap of the standard
--                library, an association list in the order of its keys.
--
-- Function names are those of the source, but for `open` (open_path) and `SignalState::new` and the
-- like, which carry their module. Fields and constructors have the source's words.
--
-- Numbers are natural numbers; a sum or a product that a machine word could cut off has `% 2 ^ w`
-- written out. A panic is `none`.
--
-- Fuel: the loop of Pipe.send recurs on fuel, one more than the number of bytes to write, since
-- each round but the last writes at least one byte; the loop of Records.load_auth_db recurs on the
-- length of the file, of which each round reads a part; the outer loop of Buddy.init has one round
-- for every 32 bytes and one more, since a round goes on by 32 bytes at least. The other loops
-- recur on lists or on the orders, pages or places left.
--
-- Parameters: the volume of the crate fatfs (Fs.Volume.Fat; Syscall.Reads assumes of it that it
-- reads no more than it is asked for), the page tables of the crate x86_64 (Memory.Paging.Mapper; Memory.Fault.Mapping.Maps says where a mapping writes),
-- str::to_lowercase, String::from_utf8_lossy, the hash function of the passwords, and in
-- Fs.Records core::str::from_utf8.
--
-- Not modelled: the hardware side (kernel/src/arch, context switches, interrupts), the boot
-- sequence (kernel/src/main.rs), the program loader, the mapping of the kernel heap in
-- kernel/src/memory/heap.rs, evict_addr and the reaper of swap.rs, fork_eager of vmm.rs, the calls
-- SYS_FORK, SYS_SIGRETURN and SYS_RMDIR and the match on the call number, the spin lock and the
-- monitor, the load and repair of perms.db, and rmdir. The wake-ups of the condition variables of
-- a pipe and of a message queue are not part of their state: a section can follow whenever the
-- lock is free.
pub mod Base
pub mod Fs
pub mod Io
pub mod Ipc
pub mod Lifecycle
pub mod Memory
pub mod Process
pub mod Scheduler
pub mod Security
pub mod Sync
pub mod Syscall
