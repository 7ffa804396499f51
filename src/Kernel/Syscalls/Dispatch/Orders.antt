-- ===== src/Kernel/Syscalls/Dispatch/Orders.antt =====
-- krn/kentry.cpp: the lists of threads over any system call.
use wrmos.Base.{
  ℕ, ◌/◌, ◌%◌, ◌^◌, ◌≡◌, refl, Bool, not, ◌==◌, if◌then◌else◌, Run, ok, wassert, Ensures, returns,
  stops, Ensures-eq, Ensures-if, Ensures-bind, Ensures-ok,
}
use wrmos.L4.Thrid
use wrmos.L4.Fpage
use wrmos.Kernel.State.{Kernel}
use wrmos.Kernel.Switch.{timeslice_update}
use wrmos.Kernel.Transition.Well.{IsWell}
use wrmos.Kernel.Ipc.Faults.{process_exception}
use wrmos.Kernel.Ipc.Receive.{Ipc, done, do_ipc}
use wrmos.Kernel.Ipc.Keeps.{IsRunning}
use wrmos.Kernel.Ipc.Keeps.Faults.{process_exception-IsWell}
use wrmos.Kernel.Ipc.Keeps.Send.{IsOrderly}
use wrmos.Kernel.Ipc.Keeps.Calls.{IsInOrder, do_ipc-IsInOrder}
use wrmos.Kernel.Syscalls.Frame.{set_reg, set_result, g1}
use wrmos.Kernel.Syscalls.Dispatch.{
  system_exception, Board, to_done, syscall_kernel_interface, syscall_system_clock, unknown_syscall,
  kentry_syscall,
}
use wrmos.Kernel.Syscalls.Keeps.{KeepsWell, edit-IsWell, set_result-IsWell, after, both}
use wrmos.Kernel.Syscalls.Keeps.Threads.{syscall_thread_control-KeepsWell}
use wrmos.Kernel.Syscalls.Keeps.Schedule.{
  syscall_thread_switch-KeepsWell, syscall_schedule-KeepsWell,
}
use wrmos.Kernel.Syscalls.Keeps.Registers.{syscall_exchange_registers-KeepsWell}
use wrmos.Kernel.Syscalls.Keeps.Spaces.{
  syscall_space_control-KeepsWell, syscall_unmap-KeepsWell, syscall_memory_control-KeepsWell,
}

-- The parts of the kernel that are not modelled keep it in order: the typed words of a message, and the
-- debugger's call.
pub record IsTame (b : Board) : Type 0 where
  pub orderly : IsOrderly b.env
  pub kdb_keeps : (k : Kernel) (cur : ℕ) → IsWell k → KeepsWell (b.kdb k cur)

-- The outcome of a call is in order.
abbrev Orders : Run Ipc → Type 0
Orders r = Ensures IsInOrder r

to_done-Orders : (r : Run Kernel) → KeepsWell r → Orders (to_done r)
to_done-Orders r h = Ensures-bind IsWell IsInOrder r h λ k w. returns (done k) w

one_of : (b : Bool) {x y : Run Ipc} → Orders x → Orders y → Orders (if b then x else y)
one_of b h g = Ensures-if IsInOrder b h g

syscall_kernel_interface-KeepsWell :
    (k : Kernel) (cur : ℕ) → IsWell k → KeepsWell (syscall_kernel_interface k cur)
unfolding syscall_kernel_interface
syscall_kernel_interface-KeepsWell k cur w =
    after (wassert (not ((k.threads cur).task == 0)))
      λ _. returns _ (set_result-IsWell cur (Fpage.addr (k.tasks (k.threads cur).task).kip_area) w)

syscall_system_clock-KeepsWell :
    (k : Kernel) (now cur : ℕ) → IsWell k → KeepsWell (syscall_system_clock k now cur)
unfolding syscall_system_clock
syscall_system_clock-KeepsWell k now cur w =
    let k₁ = set_result k cur (now % 2 ^ 32) in
    returns _ (
      edit-IsWell {k = k₁} cur (set_reg (k₁.threads cur) 1 ((now / 2 ^ 32) % 2 ^ 32)) refl refl refl
        (set_result-IsWell cur (now % 2 ^ 32) w))

unknown_syscall-KeepsWell :
    (k : Kernel) (now cur : ℕ) → IsWell k → KeepsWell (unknown_syscall k now cur)
unfolding unknown_syscall
unknown_syscall-KeepsWell k now cur w =
    both (not (Thrid.is_nil (k.threads cur).exception_handler))
      (Ensures-eq IsWell (process_exception k now cur system_exception 0)
        (λ k' e. process_exception-IsWell k k' now cur system_exception 0 w e))
      stops

module _ (b : Board) (k : Kernel) (now cur : ℕ) (tame : IsTame b) (r : IsRunning k cur) where
  ordered : Orders (kentry_syscall b k now cur)
  unfolding kentry_syscall
  ordered =
      let n = (k.threads cur).frame g1 in
      one_of (n == 1) (to_done-Orders _ (syscall_kernel_interface-KeepsWell k cur r.well)) (
        one_of (n == 2) (to_done-Orders _ (syscall_exchange_registers-KeepsWell k cur r.well)) (
          one_of (n == 3)
            (to_done-Orders _ (syscall_thread_control-KeepsWell b.spaces b.timer_irq k cur r.well))
            (one_of (n == 4) (to_done-Orders _ (syscall_system_clock-KeepsWell k now cur r.well)) (
              one_of (n == 5) (to_done-Orders _ (syscall_thread_switch-KeepsWell k now cur r.well))
                (one_of (n == 6) (to_done-Orders _ (syscall_schedule-KeepsWell k cur r.well)) (
                  one_of (n == 7)
                    (Ensures-eq IsInOrder (do_ipc b.env k now cur)
                      (λ i e. do_ipc-IsInOrder b.env tame.orderly k now cur i r e))
                    (one_of (n == 8) stops (
                      one_of (n == 9)
                        (to_done-Orders _ (syscall_unmap-KeepsWell b.spaces k cur r.well))
                        (one_of (n == 10)
                          (to_done-Orders _ (syscall_space_control-KeepsWell k cur r.well))
                          (one_of (n == 11) stops (
                            one_of (n == 12)
                              (to_done-Orders _
                                (syscall_memory_control-KeepsWell b.spaces k cur r.well))
                              (one_of (n == 13)
                                (to_done-Orders _ (
                                  tame.kdb_keeps _ cur (
                                    edit-IsWell cur (timeslice_update now (k.threads cur)) refl refl
                                      refl r.well)))
                                (to_done-Orders _
                                  (unknown_syscall-KeepsWell k now cur r.well))))))))))))))

-- A system call of a thread that is ready, in a kernel whose lists agree with the threads' states and
-- priorities, leaves them in agreement, on every path that does not stop the kernel: where it returns,
-- and at the switch to another thread in a call for IPC. The processing of typed words and the
-- debugger's call are supposed to keep that agreement.
pub kentry_syscall-IsInOrder :
    (b : Board) (k : Kernel) (now cur : ℕ) (i : Ipc)
    → IsTame b
    → IsRunning k cur
    → kentry_syscall b k now cur ≡ ok i
    → IsInOrder i
kentry_syscall-IsInOrder b k now cur i tame r h =
    Ensures-ok IsInOrder (kentry_syscall b k now cur) (ordered b k now cur tame r) h
