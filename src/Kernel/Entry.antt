-- ===== src/Kernel/Entry.antt =====
-- krn/kentry.cpp: the timer's tick and the other interrupts. `now` is the system clock at the entry.
pub mod Keeps
pub mod Ticks
pub mod Routes
pub mod Tags
use wrmos.Base.{
  update, ℕ, Bool, true, false, not, ◌&&◌, ◌||◌, Option, none, some, ◌==◌, ltb, if◌then◌else◌, Run,
  ok, ◌>>=◌, ◌>>◌, wassert,
}
use wrmos.L4.Thrid
use wrmos.Kernel.State.{
  ready, receive_ipc, is, Thread, Kernel, clear_irq, mask_irq, eoi, ints_max, set_thread, find,
  not_null,
}
use wrmos.Kernel.Prio.{prio_max}
use wrmos.Kernel.Transition.{set_state}
use wrmos.Kernel.Sched.{timeslice_expired}
use wrmos.Kernel.Switch.{timeslice_update, switch_to}
use wrmos.Kernel.Timeouts.{check_ipc_timeouts}
use wrmos.Kernel.Ipc.Messages.{scall_ipc_from}
use wrmos.Kernel.Ipc.Send.{call}

-- "if (!cur->timeslice()) next2 = ..."
unfoldable pub same_prio_next : Kernel → ℕ → Run (Kernel × Option ℕ)
same_prio_next k cur =
    if (k.threads cur).timeslice == 0
    then (do (k₁, first) ← timeslice_expired k cur (k.threads cur).prio; ok (k₁, some first))
    else ok (k, none)

-- The end of the tick: to a woken thread of a higher priority, or else to the next one of the same.
unfoldable pub tick_switch : Kernel → ℕ → ℕ → Option ℕ → Option ℕ → Kernel
unfolding prio_max
tick_switch k now cur none none = k
tick_switch k now cur none (some next2) = switch_to k now next2
tick_switch k now cur (some next1) none =
    if ltb (prio_max (k.threads cur)) (prio_max (k.threads next1)) then switch_to k now next1 else k
tick_switch k now cur (some next1) (some next2) =
    if ltb (prio_max (k.threads cur)) (prio_max (k.threads next1))
    then switch_to k now next1
    else switch_to k now next2

unfoldable pub kern_timer_tick : Kernel → ℕ → Run Kernel
kern_timer_tick k now = do
  let cur = k.current
  let k₁ = set_thread k cur (timeslice_update now (k.threads cur))
  (k₂, next1) ← check_ipc_timeouts k₁ now
  (k₃, next2) ← same_prio_next k₂ cur
  ok (tick_switch k₃ now cur next1 next2)

-- `Thread_t::is_irq_acceptable`.
unfoldable pub is_irq_acceptable : Thread → ℕ → Run Bool
unfolding Thrid.create_irq
is_irq_acceptable th irq = do
  wassert (is th.state receive_ipc)
  wassert (not (th.ipc_from_spec == Thrid.nil))
  ok (Thrid.is_any th.ipc_from_spec || th.ipc_from_spec == Thrid.create_irq irq)

-- "dst->state() == Thread_t::Receive_ipc && dst->is_irq_acceptable(irq)"
unfoldable pub accepts_irq : Thread → ℕ → Run Bool
unfolding is_irq_acceptable
accepts_irq th irq = if is th.state receive_ipc then is_irq_acceptable th irq else ok false

-- `utcb->msgtag()` is a copy of the tag, so the four calls that set its fields leave the register alone.
unfoldable pub deliver_irq : Kernel → ℕ → ℕ → ℕ → Run Kernel
unfolding prio_max
deliver_irq k now irq dst = do
  k₁ ←
      set_state (set_thread k dst (scall_ipc_from (Thrid.create_irq irq) (k.threads dst))) dst ready
  ok (
      if ltb (prio_max (k₁.threads k₁.current)) (prio_max (k₁.threads dst))
      then switch_to k₁ now dst
      else k₁)

-- "route irq to waiting thread"
unfoldable pub route_irq : Kernel → ℕ → ℕ → Run Kernel
route_irq k now irq = do
  wassert (ltb irq ints_max)
  let h = (k.int_threads irq).handler
  wassert (not (Thrid.is_nil h))
  found ← find k h
  dst ← not_null found
  accepts ← accepts_irq (k.threads dst) irq
  if accepts
      then deliver_irq k now irq dst
      else ok (record k {
        int_threads = update k.int_threads irq (record (k.int_threads irq) { pending = true });
      })

-- `kentry_irq`, up to `check_force_exception`. The timer's interrupt is a parameter of the board.
unfoldable pub kentry_irq : Kernel → ℕ → ℕ → ℕ → Run Kernel
kentry_irq k now timer_irq irq =
    let k₁ = call k (clear_irq irq) in
    if irq == timer_irq
    then kern_timer_tick (call k₁ (eoi irq)) now
    else route_irq (call k₁ (mask_irq irq)) now irq
