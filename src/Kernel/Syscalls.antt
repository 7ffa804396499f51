-- ===== src/Kernel/Syscalls.antt =====
-- krn/syscalls.cpp: the system calls other than IPC.
pub mod Frame
pub mod Keeps
pub mod Threads
pub mod Schedule
pub mod Registers
pub mod Spaces
pub mod Memory
pub mod Dispatch
