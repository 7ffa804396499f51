-- ===== src/Kernel/Timeouts.antt =====
-- krn/threads.h: the check of the timeouts of waiting threads, on each tick and each entry of the kernel.
pub mod Sorted
pub mod Wakes
pub mod Running
pub mod Timed
pub mod Pass
pub mod Expired
use wrmos.Base.{
  ℕ, ◌||◌, Option, none, some, List, [], ◌∷◌, ltb, if◌then◌else◌, Run, ok, ◌>>=◌, ◌>>◌, wassert,
}
use wrmos.Kernel.State.{ready, send_ipc, receive_ipc, is, Thread, Kernel, set_thread}
use wrmos.Kernel.Prio.{prio_max, return_prio}
use wrmos.Kernel.Transition.{set_state}
use wrmos.Kernel.Ipc.Messages.{snd_phase, rcv_phase, ipc_timeout, fail_ipc}

-- The error that a thread finds whose operation has timed out.
abbrev pub timed_out : Thread → Thread
timed_out th =
    fail_ipc (th.mr 0) (if is th.state send_ipc then snd_phase else rcv_phase) ipc_timeout th

-- The first of the two, where there is one.
abbrev pub or_else : Option ℕ → ℕ → Option ℕ
or_else none t = some t
or_else (some n) t = some n

-- The loop of `check_ipc_timeouts(now, list)`. A thread that is woken leaves the list, and the loop
-- goes on at the next one. Its end is the code that `Thread_t::state` ends with too.
unfoldable pub expire_list : Kernel → ℕ → List ℕ → Option ℕ → Run (Kernel × Option ℕ)
expire_list k now [] next = ok (k, next)
expire_list k now (t ∷ ts) next = do
  wassert (is (k.threads t).state send_ipc || is (k.threads t).state receive_ipc)
  let rest = (do
    k₁ ← set_state (set_thread k t (timed_out (k.threads t))) t ready
    k₂ ← return_prio k₁ t
    expire_list k₂ now ts (or_else next t))
  if ltb now (k.threads t).timeout then ok (k, next) else rest

unfoldable pub pick_next : Kernel → Option ℕ → Option ℕ → Option ℕ
unfolding prio_max
pick_next k none next = next
pick_next k (some a) none = some a
pick_next k (some a) (some b) =
    some (if ltb (prio_max (k.threads b)) (prio_max (k.threads a)) then a else b)

-- `check_ipc_timeouts(now)`.
unfoldable pub check_ipc_timeouts : Kernel → ℕ → Run (Kernel × Option ℕ)
check_ipc_timeouts k now = do
  (k₁, next1) ← expire_list k now k.timeout_waiting_snd none
  (k₂, next2) ← expire_list k₁ now k₁.timeout_waiting_rcv none
  ok (k₂, pick_next k₂ next1 next2)
