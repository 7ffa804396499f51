-- ===== src/Lib.antt =====
-- The WrmOS microkernel: a model of its threads, its scheduler, its IPC and its system calls, of
-- the words of its interface, and of containers that it shares with programs.
--
-- WrmOS is an L4 (x2) kernel. A thread (krn/thread.h) has a state, a priority, the priorities that other
-- threads have lent it, and a block of memory (UTCB) with message registers that it shares with the
-- kernel. The kernel keeps every thread that is ready, sends or waits with a timeout in one list
-- (krn/threads.h); `Thread_t::state(s)` moves it between the lists. The scheduler (krn/sched.h) takes a
-- ready thread of the highest priority by a bitmap. The call for IPC (krn/ipc.cpp, `do_ipc`) has a send
-- and a receive phase, either of which may make the caller wait and run another thread. Page faults and
-- exceptions go as messages to the pager and to the exception handler of the thread.
--
-- The parts and their files:
-- - L4.antt, lib/l4/inc/l4_types.h: L4/Thrid (L4_thrid_t), L4/MsgTag (L4_msgtag_t), L4/Time (L4_time_t,
--   for both byte orders) and L4/Fpage (L4_fpage_t), each as its word of 32 (16) bits.
-- - Kernel/State: `Thread` is Thread_t, `Kernel` is the static data of Threads_t and of Sched_t. A
--   Thread_t* is the slot of the thread in `_threads`.
-- - Kernel/Prio: inherit_prio_add, inherit_prio_del, prio_max (krn/thread.h).
-- - Kernel/Queues: add_ready, del_ready and the like (krn/threads.h). An iterator is the thread it points
--   at, since a list holds a thread at most once, which Kernel/Queues/Placed states. A list has an item for
--   every slot of `_threads`, so only timeslice_expired, which enters a thread twice for a moment, can lack one.
-- - Kernel/Transition: Thread_t::state(s) is `set_state`, Thread_t::prio(v) is `set_prio`.
--   Kernel/Transition/Well has the main invariant, `IsWell`: each thread is in the list of its state and
--   priority, once, in no other, and a bit of the bitmap is set just when its list is not empty.
-- - Kernel/Sched: timeslice_expired, get_highest_prio_ready_thread. Kernel/Switch: Sched_t::switch_to.
--   Kernel/Sched/Full and Kernel/Sched/Room are about a ready list that has no free item, and when it has one.
-- - Kernel/Sender: _is_good_sender, find_highest_prio_sender, find_sender (krn/threads.h).
-- - Kernel/Ipc: Messages (what is copied), Faults (process_pfault, process_exception), Send and Receive
--   (the phases of do_ipc). Kernel/Ipc/Keeps is about the invariant over all of it.
-- - Kernel/TimeAccount: Time_account_t (krn/tmaccount.h), with the timer and the tick as parameters.
-- - Containers/Cbuf: Cbuf_t (lib/containers/cbuf.h), whose bytes are a function of the index.
-- - Kernel/Timeouts: check_ipc_timeouts (krn/threads.h); Kernel/Timeouts/Timed has the invariant that the
--   lists of waiting threads are in the order of their timeouts, `IsTimely`.
-- - Kernel/Entry: the tick of the timer and kentry_irq (krn/kentry.cpp); the clock is the argument `now`.
-- - Kernel/Regions: Address_space_t (krn/kmem.h), the list of the busy regions of an address space, with a list
--   as the map from addresses to types (`lookup` of Kernel/Regions/Ordered). A search for a free region goes
--   through the list once.
-- - Kernel/Task: Task_t and Tasks_t (krn/task.h). A Task_t* is the place of the task in the list of tasks.
-- - Kernel/Syscalls: the calls of krn/syscalls.cpp, by the file: Threads (syscall_thread_control), Schedule,
--   Registers (syscall_exchange_registers, with the part of lib/sys/sparc/sys_eframe.h that it uses), Spaces,
--   Memory (syscall_unmap, syscall_memory_control), and Dispatch (kentry_syscall). Kernel/Syscalls/Keeps is
--   about the lists of threads over each call.
-- - Containers/Bitmap, Containers/StaticPool: bitmap_t and Static_pool_t (lib/containers).
-- - Tests: runs on small kernels, and the examples of the theorems.
--
-- How the code is read. A failed wassert or assert, a panic and a full container are `panic` of
-- Base/Panics, after which nothing runs. Bitmap words are kept bit by bit, 8 words of 32 bits. Bit fields
-- are those of a 32-bit big-endian machine (SPARC), whose entry frame has 132 words; times are 64 bits.
-- Every loop is structural recursion on a list or on a count: 32 halvings find the lowest bit of a word of
-- 32 bits that is not zero, and the 64 bits of a period are all searched, so no bound cuts a result.
-- A call that switches to another thread ends in the model at the switch, with the point where the code
-- goes on; `resume_send` and `resume_receive` are the rest of the call.
--
-- What the kernel asks of the interrupt controller and of the address spaces goes into the list `calls`
-- of the model, and the record `Env` answers what it reads from them, as functions of those calls. The
-- processing of the typed words of a message is an operation of `Env` too, and theorems that reach it
-- suppose that it keeps the kernel in order and a running thread ready (`IsOrderly`).
--
-- The system calls ask the address spaces for physical addresses, kernel addresses of UTCBs and attributes,
-- which the record `Spaces` answers, again as functions of the calls that have been made; the debugger's
-- call is an operation of the record `Board`. A null Task_t* is the number 0; where the code would read
-- through it, the model stops.
--
-- Not modelled: the page tables and what Aspace does beyond its lists of regions, the clock, the debugger, printing, names of threads,
-- kernel stacks, the floating-point registers, check_force_exception at the end of an entry, code for a
-- processor, and the libraries and programs above the kernel but the containers.
pub mod Base
pub mod L4
pub mod Kernel
pub mod Containers
mod Tests
