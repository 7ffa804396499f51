-- ===== src/Kernel/Syscalls/Keeps/Schedule.antt =====
-- krn/syscalls.cpp: the lists of threads over `syscall_thread_switch` and `syscall_schedule`.
use wrmos.Base.{
  ℕ, ◌%◌, ◌^◌, refl, not, Option, none, some, arith, ◌==◌, ltb, if◌then◌else◌, ok, panic, wassert,
  returns, stops, Ensures-eq,
}
use wrmos.L4.Thrid
use wrmos.Kernel.State.{Kernel, find}
use wrmos.Kernel.Transition.{set_prio}
use wrmos.Kernel.Transition.Well.{IsWell}
use wrmos.Kernel.Switch.{switch_to_next}
use wrmos.Kernel.Ipc.Keeps.{switch_to_next-IsWell}
use wrmos.Kernel.Syscalls.Frame.{minus_one, reg, set_reg, set_result, set_error}
use wrmos.Kernel.Syscalls.Schedule.{
  syscall_thread_switch, state_result, schedule_thread, syscall_schedule,
}
use wrmos.Kernel.Syscalls.Keeps.{
  KeepsWell, edit-IsWell, set_result-IsWell, set_error-IsWell, set_prio-KeepsWell, after, next,
  both,
}

switch_to_next-KeepsWell : (k : Kernel) (now : ℕ) → IsWell k → KeepsWell (switch_to_next k now)
switch_to_next-KeepsWell k now w =
    Ensures-eq IsWell (switch_to_next k now) (λ k' e. switch_to_next-IsWell now w e)

pub syscall_thread_switch-KeepsWell :
    (k : Kernel) (now cur : ℕ) → IsWell k → KeepsWell (syscall_thread_switch k now cur)
unfolding syscall_thread_switch
syscall_thread_switch-KeepsWell k now cur w =
    both (Thrid.is_nil (reg (k.threads cur) 0)) (switch_to_next-KeepsWell k now w)
      (after (find k (reg (k.threads cur) 0)) λ dst. go dst)
  where
    go : (dst : Option ℕ) → KeepsWell (elim dst [ none ↦ switch_to_next k now | some d ↦ panic ])
    go none = switch_to_next-KeepsWell k now w
    go (some d) = stops

schedule_thread-KeepsWell :
    (k : Kernel) (cur dst time_ctl proc_ctl prio preempt_ctl : ℕ)
    → IsWell k
    → KeepsWell (schedule_thread k cur dst time_ctl proc_ctl prio preempt_ctl)
unfolding schedule_thread
schedule_thread-KeepsWell k cur dst time_ctl proc_ctl prio preempt_ctl w =
    after (wassert (time_ctl == minus_one)) λ _. after (wassert (proc_ctl == minus_one)) λ _.
      next (if not (prio == minus_one) then set_prio k dst (prio % 2 ^ 8) else ok k)
        (both (not (prio == minus_one)) (set_prio-KeepsWell k dst (prio % 2 ^ 8) w (omega arith))
          (returns k w))
        λ k₁ w₁. after (wassert (preempt_ctl == minus_one)) λ _.
          after (state_result (k₁.threads dst).state) λ result. returns _ (
            edit-IsWell {k = set_result k₁ cur result} cur
              (set_reg ((set_result k₁ cur result).threads cur) 1 minus_one) refl refl refl
              (set_result-IsWell cur result w₁))

pub syscall_schedule-KeepsWell :
    (k : Kernel) (cur : ℕ) → IsWell k → KeepsWell (syscall_schedule k cur)
unfolding syscall_schedule
syscall_schedule-KeepsWell k cur w =
    let k₁ = set_result k cur 0 in
    after (find k₁ (reg (k.threads cur) 0)) λ found. go k₁ (set_result-IsWell cur 0 w) found
  where
    go :
        (k₁ : Kernel)
        → IsWell k₁
        → (found : Option ℕ)
        → KeepsWell (elim found [
          | none ↦ ok (set_error k₁ cur 2)
          | some dst ↦
              if not ((k₁.threads dst).schedid == (k.threads cur).globid)
              then ok (set_error k₁ cur 1)
              else if ltb (k.threads cur).prio (reg (k.threads cur) 3)
              then ok (set_error k₁ cur 5)
              else schedule_thread k₁ cur dst
                  (reg (k.threads cur) 1)
                  (reg (k.threads cur) 2)
                  (reg (k.threads cur) 3)
                  (reg (k.threads cur) 4)
        ])
    go k₁ w₁ none = returns _ (set_error-IsWell cur 2 w₁)
    go k₁ w₁ (some dst) =
        both (not ((k₁.threads dst).schedid == (k.threads cur).globid))
          (returns _ (set_error-IsWell cur 1 w₁))
          (both (ltb (k.threads cur).prio (reg (k.threads cur) 3))
            (returns _ (set_error-IsWell cur 5 w₁))
            (schedule_thread-KeepsWell k₁ cur dst (reg (k.threads cur) 1) (reg (k.threads cur) 2)
              (reg (k.threads cur) 3) (reg (k.threads cur) 4) w₁))
