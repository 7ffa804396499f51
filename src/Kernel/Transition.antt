-- ===== src/Kernel/Transition.antt =====
-- krn/thread.h: `Thread_t::state(s)` and `Thread_t::prio(v)`, which move a thread between the lists.
pub mod Well
pub mod Lending
pub mod Relink
pub mod Keeps
pub mod States
use wrmos.Base.{
  ℕ, Bool, true, false, not, ◌&&◌, ◌||◌, ◌==◌, if◌then◌else◌, Run, ok, ◌>>=◌, ◌>>◌, wassert,
}
use wrmos.L4.Thrid
use wrmos.Kernel.State.{
  State, ready, send_ipc, send_pfault, send_exception, receive_ipc, is, Thread, Kernel, never,
  set_thread, timeslice_usec,
}
use wrmos.Kernel.Prio.{return_prio}
use wrmos.Kernel.Queues.{
  add_ready, del_ready, add_send, del_send, add_rcv_timeout_waiting, add_snd_timeout_waiting,
  del_rcv_timeout_waiting, del_snd_timeout_waiting,
}

abbrev pub is_timed : Thread → Bool
is_timed th = not (th.timeout == never)

-- "delete from cur sched-list if need"
unfoldable pub leave : Kernel → ℕ → Run Kernel
leave k t =
    let th = k.threads t in
    if is th.state ready
    then del_ready k t
    else if is th.state send_ipc && is_timed th
    then del_snd_timeout_waiting k t
    else if is th.state send_ipc || is th.state send_pfault || is th.state send_exception
    then del_send k t
    else if is th.state receive_ipc && is_timed th
    then del_rcv_timeout_waiting k t
    else ok k

-- `_ipc.clear()`, `_pfault.clear()` and the new timeslice.
abbrev pub cleared : Thread → Thread
cleared th = record th {
  timeout = 0;
  ipc_to = Thrid.nil;
  ipc_from_spec = Thrid.nil;
  pf_addr = 0;
  pf_inst = 0;
  pf_access = 0;
  timeslice = timeslice_usec;
}

-- "add to sched-new list if need"
unfoldable pub enter : Kernel → ℕ → State → Run Kernel
enter k t s =
    if is s ready
    then add_ready (set_thread k t (cleared (k.threads t))) t
    else if is s send_ipc && is_timed (k.threads t)
    then add_snd_timeout_waiting k t
    else if is s send_ipc || is s send_pfault || is s send_exception
    then add_send k t
    else if is s receive_ipc && is_timed (k.threads t)
    then add_rcv_timeout_waiting k t
    else ok k

unfoldable pub set_state : Kernel → ℕ → State → Run Kernel
set_state k t s = do
  wassert (not (is (k.threads t).state s))
  k₁ ← leave k t
  k₂ ← enter (set_thread k₁ t (record (k₁.threads t) { state = s })) t s
  return_prio k₂ t

-- The value is cut to `uint8_t`.
unfoldable pub set_prio : Kernel → ℕ → ℕ → Run Kernel
set_prio k t v = do
  k₁ ← if is (k.threads t).state ready then del_ready k t else ok k
  let k₂ = set_thread k₁ t (record (k₁.threads t) { prio = v })
  if is (k₂.threads t).state ready then add_ready k₂ t else ok k₂
