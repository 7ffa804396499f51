-- ===== src/Kernel/Syscalls/Frame.antt =====
-- lib/sys/sparc/sys_eframe.h, krn/thrid.h, lib/l4/inc/l4_types.h: what the system calls read and write of the
-- caller, and what they ask of its address space.
use wrmos.Base.{update, ℕ, ◌+◌, ◌*◌, ◌-◌, ◌^◌, Bool, ◌||◌, List, ◌==◌, Option}
use wrmos.L4.Thrid
use wrmos.Kernel.State.{Thread, Kernel, Call, set_thread}
use wrmos.Kernel.ThreadIds.{kip_thrid_user_base, thrid_roottask}
use wrmos.Kernel.Ipc.Messages.{syscall_i0}

-- `(word_t)-1`.
abbrev pub minus_one : ℕ
minus_one = 2 ^ 32 - 1

-- `syscall_frame.i[n]`.
abbrev pub reg : Thread → ℕ → ℕ
reg th n = th.frame (syscall_i0 + n)

abbrev pub set_reg : Thread → ℕ → ℕ → Thread
set_reg th n v = record th { frame = update th.frame (syscall_i0 + n) v }

-- `global_frame.g1`, `g4` and `g5`, and `proc_status_frame.psr`, `pc` and `npc`.
abbrev pub g1 : ℕ
g1 = 7 * 16 + 1

abbrev pub g4 : ℕ
g4 = 7 * 16 + 4

abbrev pub g5 : ℕ
g5 = 7 * 16 + 5

abbrev pub psr : ℕ
psr = 7 * 16 + 16

abbrev pub pc : ℕ
pc = 7 * 16 + 18

abbrev pub npc : ℕ
npc = 7 * 16 + 19

-- `eframe.scall_..._result(v)`, which is `i0` for each call.
abbrev pub set_result : Kernel → ℕ → ℕ → Kernel
set_result k cur v = set_thread k cur (set_reg (k.threads cur) 0 v)

-- `cur.uutcb()->error(code)`.
abbrev pub set_error : Kernel → ℕ → ℕ → Kernel
set_error k cur code = set_thread k cur (record (k.threads cur) { error = code })

abbrev pub thrid_sigma0 : ℕ
thrid_sigma0 = Thrid.create_global (kip_thrid_user_base + 0) Thrid.def_glob_ver

-- "check privileges"
abbrev pub is_privileged : ℕ → Bool
is_privileged id = id == thrid_sigma0 || id == thrid_roottask

-- What the calls read from the address spaces, which the calls that have been made decide: the physical
-- address of a page, 0 if none; the kernel's address of a UTCB; the attributes of a page, `none` if alien.
pub record Spaces : Type 0 where
  pub walk : List Call → ℕ → ℕ → ℕ → ℕ
  pub kmap_utcb : List Call → ℕ → ℕ
  pub attributes : List Call → ℕ → ℕ → Option ℕ
