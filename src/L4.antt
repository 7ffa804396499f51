-- ===== src/L4.antt =====
-- lib/l4/inc/l4_types.h: the words that programs and the kernel exchange, on a 32-bit machine.
mod Field
pub mod Thrid
pub mod MsgTag
pub mod Time
pub mod Fpage
