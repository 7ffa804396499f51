-- ===== src/Kernel/Ipc.antt =====
-- krn/ipc.cpp: messages between threads, page faults and exceptions as messages.
pub mod Messages
pub mod Faults
pub mod Send
pub mod Receive
pub mod Keeps
