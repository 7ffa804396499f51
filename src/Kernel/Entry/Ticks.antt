-- ===== src/Kernel/Entry/Ticks.antt =====
-- krn/kentry.cpp: when the tick of the timer ends, and what it leaves.
use wrmos.Base.{
  ℕ, ◌≡◌, refl, ap, ◌∙◌, subst, inl, inr, true, Option, none, some, arith, ◌==◌, if◌then◌else◌,
  if-both, Bool-cases, ok, ◌>>=◌, length, ◌<◌, ◌≤◌, Bool, false, ◌||◌,
}
use wrmos.L4.Thrid
use wrmos.Kernel.State.{ready, is, Thread, Kernel, set_thread, threads_max}
use wrmos.Kernel.Queues.Placed.{ready_at}
use wrmos.Kernel.Transition.Well.{IsWell, set_thread-IsWell}
use wrmos.Kernel.Sched.Rotate.{listed-ready, move_to_end_ok, timeslice_expired-Picks}
use wrmos.Kernel.Sched.Room.{ready-room}
use wrmos.Kernel.Switch.{timeslice_update}
use wrmos.Kernel.Timeouts.{check_ipc_timeouts}
use wrmos.Kernel.Timeouts.Wakes.{woken}
use wrmos.Kernel.Timeouts.Running.{check_ipc_timeouts-current}
use wrmos.Kernel.Timeouts.Timed.{IsTimely, set_thread-IsTimely}
use wrmos.Kernel.Timeouts.Expired.{is_expired, check_ipc_timeouts-WakesExpired}
use wrmos.Kernel.Entry.{same_prio_next, tick_switch, kern_timer_tick}
use wrmos.Kernel.Entry.Keeps.{
  IsLive, switch_to-IsLive, timeslice_expired-IsTimely, timeslice_expired-current,
}

-- A thread that is to be switched to is ready.
abbrev IsReady : Kernel → Option ℕ → Type 0
IsReady k none = Unit
IsReady k (some t) = (k.threads t).state ≡ ready

tick_switch-IsLive :
    (k : Kernel) (now : ℕ) (next1 next2 : Option ℕ)
    → IsLive k
    → IsReady k next1
    → IsReady k next2
    → IsLive (tick_switch k now k.current next1 next2)
unfolding tick_switch
tick_switch-IsLive k now none none l r s = l
tick_switch-IsLive k now none (some b) l r s = switch_to-IsLive k now b l.running.well l.timely s
tick_switch-IsLive k now (some a) none l r s =
    if-both IsLive _ (switch_to-IsLive k now a l.running.well l.timely r) l
tick_switch-IsLive k now (some a) (some b) l r s =
    if-both IsLive _ (switch_to-IsLive k now a l.running.well l.timely r)
      (switch_to-IsLive k now b l.running.well l.timely s)

-- The end of the timeslice finds the next thread of the same priority.
abbrev FindsNext : Kernel → ℕ → Type 0
FindsNext k cur =
    (k' : Kernel) × (next : Option ℕ) × (same_prio_next k cur ≡ ok (k', next))
    × IsWell k'
    × IsTimely k'
    × IsReady k' next
    × ((u : ℕ) → (k'.threads u).state ≡ (k.threads u).state)
    × (k'.current ≡ k.current)

same_prio_next-FindsNext :
    (k : Kernel) (cur : ℕ)
    → IsWell k
    → IsTimely k
    → (k.threads cur).state ≡ ready
    → ((prio : ℕ) → length (k.ready_threads prio) < threads_max)
    → FindsNext k cur
unfolding same_prio_next
same_prio_next-FindsNext k cur w y r room = elim (Bool-cases ((k.threads cur).timeslice == 0)) [
  | inl z ↦
      let (k', f, e, c, w', states) =
        timeslice_expired-Picks k cur (k.threads cur).prio w
          (ground (arith, w.placed.counts cur (ready_at (k.threads cur).prio))) (ground arith)
          (move_to_end_ok cur (k.ready_threads (k.threads cur).prio)
            (room (k.threads cur).prio)).1 in
      (
        k',
        some f,
        rw (z, e, ◌>>=◌),
        w',
        timeslice_expired-IsTimely k k' cur (k.threads cur).prio f y e,
        states f ∙ (listed-ready f (k.threads cur).prio w c).0,
        states,
        timeslice_expired-current k k' cur (k.threads cur).prio f e,
      )
  | inr z ↦ (k, none, rw z, w, y, tt, λ u. refl, refl)
]

-- A tick that is handled: the kernel is in order, and the thread that runs from then on is ready.
abbrev pub Ticks : Kernel → ℕ → Type 0
Ticks k now = (k' : Kernel) × (kern_timer_tick k now ≡ ok k') × IsLive k'

kern_timer_tick-eq :
    (k k₂ k₃ : Kernel) (now : ℕ) (next1 next2 : Option ℕ)
    → check_ipc_timeouts (set_thread k k.current (timeslice_update now (k.threads k.current))) now
      ≡ ok (k₂, next1)
    → same_prio_next k₂ k.current ≡ ok (k₃, next2)
    → kern_timer_tick k now ≡ ok (tick_switch k₃ now k.current next1 next2)
unfolding kern_timer_tick
kern_timer_tick-eq k k₂ k₃ now next1 next2 c s = rw (c, ◌>>=◌) (rw s)

-- A thread that is ready, or is to be woken.
abbrev pub may_run : ℕ → Thread → Bool
may_run now th = is th.state ready || is_expired now th

-- What the check of the timeouts leaves, before the end of the timeslice.
module _ (k k₂ : Kernel) (now : ℕ) (next1 : Option ℕ)
    (states : (u : ℕ)
      → k₂.threads u
        ≡ (if is_expired now (k.threads u) then woken (k.threads u) else k.threads u)) where
  next1-IsReady :
      ((u : ℕ) → next1 ≡ some u → is_expired now (k.threads u) ≡ true) → IsReady k₂ next1
  next1-IsReady some_expired = go next1 refl
    where
      go : (n : Option ℕ) → next1 ≡ n → IsReady k₂ n
      go none e = tt
      go (some u) e = ground (arith, states u, some_expired u e)

  still-unready :
      (u : ℕ) → may_run now (k.threads u) ≡ false → is (k₂.threads u).state ready ≡ false
  still-unready u m = ground (arith, states u)

  current-ready : (u : ℕ) → (k.threads u).state ≡ ready → (k₂.threads u).state ≡ ready
  current-ready u r = ground (arith, states u)

IsReady-same :
    (k k' : Kernel) (n : Option ℕ)
    → ((u : ℕ) → (k'.threads u).state ≡ (k.threads u).state)
    → IsReady k n
    → IsReady k' n
IsReady-same k k' none e r = tt
IsReady-same k k' (some u) e r = e u ∙ r

-- The end of the tick, on the kernels in between.
finish_tick :
    (k k₂ : Kernel) (now : ℕ) (next1 : Option ℕ)
    → check_ipc_timeouts (set_thread k k.current (timeslice_update now (k.threads k.current))) now
      ≡ ok (k₂, next1)
    → IsWell k₂
    → IsTimely k₂
    → IsReady k₂ next1
    → (k₂.threads k.current).state ≡ ready
    → ((prio : ℕ) → length (k₂.ready_threads prio) < threads_max)
    → k₂.current ≡ k.current
    → Ticks k now
finish_tick k k₂ now next1 c w₂ y₂ r₁ rc room cur₂ =
    let (k₃, next2, s, w₃, y₃, r₂, states, cur₃) =
      same_prio_next-FindsNext k₂ k.current w₂ y₂ rc room in
    let live : IsLive k₃ = record {
      running = record {
        well = w₃;
        is_ready = ap (λ (u : ℕ). (k₃.threads u).state) (cur₃ ∙ cur₂) ∙ states k.current ∙ rc;
      };
      timely = y₃;
    } in
    (
      tick_switch k₃ now k.current next1 next2,
      kern_timer_tick-eq k k₂ k₃ now next1 next2 c s,
      subst (λ (u : ℕ). IsLive (tick_switch k₃ now u next1 next2)) (cur₃ ∙ cur₂)
          (tick_switch-IsLive k₃ now next1 next2 live (IsReady-same k₂ k₃ next1 states r₁) r₂),
    )

-- A tick of the timer ends, where the threads whose wait has expired have lent their priority to nobody, and
-- where of the `threads_max` slots for threads one has a thread that is neither ready nor to be woken (and
-- nothing outside the slots is): no assert fails and no list overflows, the kernel is in order afterwards, its
-- lists of waiting threads are sorted, and the thread that runs after it is ready, if all this was so before.
pub kern_timer_tick-Ticks :
    (k : Kernel) (now v : ℕ)
    → IsLive k
    → v < threads_max
    → may_run now (k.threads v) ≡ false
    → ((u : ℕ) → threads_max ≤ u → may_run now (k.threads u) ≡ false)
    → ((u : ℕ) → is_expired now (k.threads u) ≡ true → (k.threads u).prio_heir ≡ Thrid.nil)
    → Ticks k now
kern_timer_tick-Ticks k now v l below idle beyond heirs =
    let k₁ = set_thread k k.current (timeslice_update now (k.threads k.current)) in
    let w₁ =
      set_thread-IsWell {k = k} k.current (timeslice_update now (k.threads k.current)) refl
        (l.running.well.prios k.current) l.running.well in
    let y₁ =
      set_thread-IsTimely {k = k} k.current (timeslice_update now (k.threads k.current)) refl
        l.timely in
    let (k₂, next1, c, th, _, sm, w₂, y₂) =
      check_ipc_timeouts-WakesExpired k₁ now w₁ y₁
        (λ u e. ground (arith, heirs u, ap k.threads {x = k.current} {y = u})) in
    let unready : (u : ℕ)
        → may_run now (k.threads u) ≡ false
        → is (k₂.threads u).state ready ≡ false =
      λ u m.
        still-unready k₁ k₂ now next1 th u (ground (arith, ap k.threads {x = k.current} {y = u})) in
    finish_tick k k₂ now next1 c w₂ y₂ (next1-IsReady k₁ k₂ now next1 th sm)
      (current-ready k₁ k₂ now next1 th k.current (ground (arith, l.running.is_ready)))
      (ready-room v w₂ below (unready v idle) λ u le. unready u (beyond u le))
      (check_ipc_timeouts-current k₁ k₂ now next1 c)
