-- ===== src/Kernel/Syscalls/Dispatch.antt =====
-- krn/kentry.cpp: `kentry_syscall`, up to `check_force_exception`.
pub mod Orders
use wrmos.Base.{
  ℕ, ◌/◌, ◌-◌, ◌%◌, ◌^◌, not, ◌==◌, if◌then◌else◌, Run, ok, panic, ◌>>=◌, ◌>>◌, wassert,
}
use wrmos.L4.Thrid
use wrmos.L4.Fpage
use wrmos.Kernel.State.{Kernel, set_thread}
use wrmos.Kernel.Switch.{timeslice_update}
use wrmos.Kernel.Ipc.Faults.{process_exception}
use wrmos.Kernel.Ipc.Send.{Env}
use wrmos.Kernel.Ipc.Receive.{Ipc, done, do_ipc}
use wrmos.Kernel.Syscalls.Frame.{reg, set_reg, set_result, g1, Spaces}
use wrmos.Kernel.Syscalls.Threads.{syscall_thread_control}
use wrmos.Kernel.Syscalls.Schedule.{syscall_thread_switch, syscall_schedule}
use wrmos.Kernel.Syscalls.Registers.{syscall_exchange_registers}
use wrmos.Kernel.Syscalls.Spaces.{syscall_space_control}
use wrmos.Kernel.Syscalls.Memory.{syscall_unmap, syscall_memory_control}

-- `L4_msgtag_t::System_exception`, -4.
abbrev pub system_exception : ℕ
system_exception = 2 ^ 32 - 4

-- What the dispatch asks of the parts of the kernel that are not modelled: the debugger's call, and the
-- timer's interrupt of the board.
pub record Board : Type 0 where
  pub env : Env
  pub spaces : Spaces
  pub kdb : Kernel → ℕ → Run Kernel
  pub timer_irq : ℕ

abbrev pub to_done : Run Kernel → Run Ipc
to_done r = r >>= λ (k : Kernel). ok (done k)

-- "put KIP virt addr to entry_frame"; a null task stops the model.
unfoldable pub syscall_kernel_interface : Kernel → ℕ → Run Kernel
syscall_kernel_interface k cur = do
  wassert (not ((k.threads cur).task == 0))
  ok (set_result k cur (Fpage.addr (k.tasks (k.threads cur).task).kip_area))

unfoldable pub syscall_system_clock : Kernel → ℕ → ℕ → Run Kernel
syscall_system_clock k now cur =
    let k₁ = set_result k cur (now % 2 ^ 32) in
    ok (set_thread k₁ cur (set_reg (k₁.threads cur) 1 ((now / 2 ^ 32) % 2 ^ 32)))

-- A number that names no call.
unfoldable pub unknown_syscall : Kernel → ℕ → ℕ → Run Kernel
unknown_syscall k now cur =
    if not (Thrid.is_nil (k.threads cur).exception_handler)
    then process_exception k now cur system_exception 0
    else panic

unfoldable pub kentry_syscall : Board → Kernel → ℕ → ℕ → Run Ipc
kentry_syscall b k now cur =
    let n = (k.threads cur).frame g1 in
    if n == 1
    then to_done (syscall_kernel_interface k cur)
    else if n == 2
    then to_done (syscall_exchange_registers k cur)
    else if n == 3
    then to_done (syscall_thread_control b.spaces b.timer_irq k cur)
    else if n == 4
    then to_done (syscall_system_clock k now cur)
    else if n == 5
    then to_done (syscall_thread_switch k now cur)
    else if n == 6
    then to_done (syscall_schedule k cur)
    else if n == 7
    then do_ipc b.env k now cur
    else if n == 8
    then panic
    else if n == 9
    then to_done (syscall_unmap b.spaces k cur)
    else if n == 10
    then to_done (syscall_space_control k cur)
    else if n == 11
    then panic
    else if n == 12
    then to_done (syscall_memory_control b.spaces k cur)
    else if n == 13
    then to_done (b.kdb (set_thread k cur (timeslice_update now (k.threads cur))) cur)
    else to_done (unknown_syscall k now cur)
