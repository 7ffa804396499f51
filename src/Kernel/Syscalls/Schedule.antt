-- ===== src/Kernel/Syscalls/Schedule.antt =====
-- krn/syscalls.cpp: `syscall_thread_switch` and `syscall_schedule`.
pub mod Prios
use wrmos.Base.{
  update, ℕ, ◌%◌, ◌^◌, Bool, not, Option, none, some, ◌==◌, ltb, if◌then◌else◌, Run, ok, panic,
  ◌>>=◌, ◌>>◌, wassert,
}
use wrmos.L4.Thrid
use wrmos.Kernel.State.{
  State, idle, inactive, active, ready, send_ipc, send_pfault, send_exception, receive_ipc,
  receive_pfault, receive_exception, Kernel, set_thread, find,
}
use wrmos.Kernel.Transition.{set_prio}
use wrmos.Kernel.Switch.{switch_to_next}
use wrmos.Kernel.Syscalls.Frame.{minus_one, reg, set_reg, set_result, set_error}

unfoldable pub syscall_thread_switch : Kernel → ℕ → ℕ → Run Kernel
syscall_thread_switch k now cur =
    if Thrid.is_nil (reg (k.threads cur) 0) then switch_to_next k now else (do
      dst ← find k (reg (k.threads cur) 0)
      elim dst [ none ↦ switch_to_next k now | some d ↦ panic ])

-- The result of `syscall_schedule`.
abbrev pub state_result : State → Run ℕ
state_result idle = panic
state_result inactive = ok 2
state_result active = ok 3
state_result ready = ok 3
state_result send_ipc = ok 4
state_result send_pfault = ok 4
state_result send_exception = ok 4
state_result receive_ipc = ok 6
state_result receive_pfault = ok 6
state_result receive_exception = ok 6

-- The part of `syscall_schedule` behind the checks. `Thread_t::prio(v)` takes a `uint8_t`.
unfoldable pub schedule_thread : Kernel → ℕ → ℕ → ℕ → ℕ → ℕ → ℕ → Run Kernel
schedule_thread k cur dst time_ctl proc_ctl prio preempt_ctl = do
  wassert (time_ctl == minus_one)
  wassert (proc_ctl == minus_one)
  k₁ ← if not (prio == minus_one) then set_prio k dst (prio % 2 ^ 8) else ok k
  wassert (preempt_ctl == minus_one)
  result ← state_result (k₁.threads dst).state
  let k₂ = set_result k₁ cur result
  ok (set_thread k₂ cur (set_reg (k₂.threads cur) 1 minus_one))

unfoldable pub syscall_schedule : Kernel → ℕ → Run Kernel
syscall_schedule k cur = do
  let th = k.threads cur
  let k₁ = set_result k cur 0
  found ← find k₁ (reg th 0)
  elim found [
    | none ↦ ok (set_error k₁ cur 2)
    | some dst ↦
        if not ((k₁.threads dst).schedid == th.globid)
        then ok (set_error k₁ cur 1)
        else if ltb th.prio (reg th 3)
        then ok (set_error k₁ cur 5)
        else schedule_thread k₁ cur dst (reg th 1) (reg th 2) (reg th 3) (reg th 4)
  ]
