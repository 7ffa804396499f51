-- ===== src/Kernel.antt =====
-- krn/: threads, the queues they wait in, the scheduler and IPC.
pub mod State
pub mod Prio
pub mod Queues
pub mod Transition
pub mod Sched
pub mod Sender
pub mod ThreadIds
pub mod Switch
pub mod TimeAccount
pub mod Ipc
pub mod Timeouts
pub mod Entry
pub mod Task
pub mod Syscalls
pub mod Regions
