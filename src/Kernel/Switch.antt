-- ===== src/Kernel/Switch.antt =====
-- krn/sched.h, krn/thread.h, krn/thread.cpp: the timeslices, and the switch to another thread.
use wrmos.Base.{ℕ, ◌+◌, ◌-◌, ◌%◌, ◌^◌, ◌==◌, min, if◌then◌else◌, Run, ok, ◌>>=◌}
use wrmos.Kernel.State.{Thread, Kernel, set_thread}
use wrmos.Kernel.Sched.{get_highest_prio_ready_thread}

-- `now - _update_timeslice_point` on 64 bits.
abbrev pub exec_time : ℕ → Thread → ℕ
exec_time now th = (now + 2 ^ 64 - th.timeslice_point) % 2 ^ 64

abbrev pub timeslice_start : ℕ → Thread → Thread
timeslice_start now th = record th { timeslice_point = now }

abbrev pub timeslice_stop : ℕ → Thread → Thread
timeslice_stop now th = record th {
  timeslice = th.timeslice - min (exec_time now th) th.timeslice;
  timeslice_point = 0;
}

abbrev pub timeslice_update : ℕ → Thread → Thread
timeslice_update now th = record th {
  timeslice = th.timeslice - min (exec_time now th) th.timeslice;
  timeslice_point = now;
}

-- `current(nxt)` and `Thread_t::context_switch`, up to the switch of the processor.
unfoldable pub context_switch : Kernel → ℕ → ℕ → Kernel
context_switch k now nxt =
    let k₁ = set_thread k k.current (timeslice_stop now (k.threads k.current)) in
    record (set_thread k₁ nxt (timeslice_start now (k₁.threads nxt))) { current = nxt }

-- `Sched_t::switch_to`.
unfoldable pub switch_to : Kernel → ℕ → ℕ → Kernel
switch_to k now nxt = if k.current == nxt then k else context_switch k now nxt

unfoldable pub switch_to_next : Kernel → ℕ → Run Kernel
switch_to_next k now = do (k₁, nxt) ← get_highest_prio_ready_thread k; ok (switch_to k₁ now nxt)
