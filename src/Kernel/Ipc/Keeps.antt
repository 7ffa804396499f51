-- ===== src/Kernel/Ipc/Keeps.antt =====
-- krn/ipc.cpp, krn/sched.h: the lists of threads and the state of the caller over the steps of a call.
pub mod Faults
pub mod Replies
pub mod Send
pub mod Receive
pub mod Calls
use wrmos.Base.{
  update, ℕ, ◌≤◌, ◌≡◌, refl, sym, ap, ◌∙◌, subst, inl, inr, Bool, true, false, not, arith, ◌==◌,
  ltb, if◌then◌else◌, Bool-cases, List, Run, ok, ok-eq, ◌>>=◌, >>=-eq-ok, wassert,
}
use wrmos.L4.Time
use wrmos.Kernel.State.{
  State, ready, send_ipc, receive_ipc, Thread, Kernel, Call, IntThread, set_thread, prio_max_value,
}
use wrmos.Kernel.Prio.{inherit_prio_add}
use wrmos.Kernel.Transition.{set_state}
use wrmos.Kernel.Transition.Well.{place_of, IsWell, set_thread-IsWell}
use wrmos.Kernel.Transition.Lending.{inherit_prio_add-IsWell}
use wrmos.Kernel.Transition.Keeps.{set_state-IsWell}
use wrmos.Kernel.Transition.States.{set_thread-state, inherit_prio_add-state, set_state-states}
use wrmos.Kernel.Sched.{get_highest_prio_ready_thread}
use wrmos.Kernel.Sched.Highest.{get_highest-IsWell}
use wrmos.Kernel.Queues.Placed.{Place, ready_at, queue}
use wrmos.Kernel.Switch.{timeslice_stop, context_switch, switch_to, switch_to_next}
use wrmos.Kernel.Ipc.Messages.{save_snd_phase, save_rcv_phase, copy_message, expires}

-- The kernel is in order while the thread runs.
pub record IsRunning (k : Kernel) (cur : ℕ) : Type 0 where
  pub well : IsWell k
  pub is_ready : (k.threads cur).state ≡ ready

pub edit-IsRunning :
    {k : Kernel} {cur : ℕ} (t : ℕ) (th : Thread)
    → place_of th ≡ place_of (k.threads t)
    → th.prio ≡ (k.threads t).prio
    → th.state ≡ (k.threads t).state
    → IsRunning k cur
    → IsRunning (set_thread k t th) cur
edit-IsRunning {k} {cur} t th place pr st r = record {
  well = set_thread-IsWell t th place (rw pr (r.well.prios t)) r.well;
  is_ready = set_thread-state k t th cur st ∙ r.is_ready;
}

elsewhere-queue :
    (k : Kernel) (ints : ℕ → IntThread) (calls : List Call) (c : ℕ) (q : Place)
    → queue (record k { int_threads = ints; calls = calls; current = c }) q ≡ queue k q
elsewhere-queue k ints calls c (ready_at p) = refl
elsewhere-queue k ints calls c q = refl

elsewhere-IsWell :
    {k : Kernel} (ints : ℕ → IntThread) (calls : List Call) (c : ℕ)
    → IsWell k
    → IsWell (record k { int_threads = ints; calls = calls; current = c })
elsewhere-IsWell {k} ints calls c w = record {
  placed = record {
    counts = λ u q. rw (elsewhere-queue k ints calls c q) (w.placed.counts u q);
    bits = w.placed.bits;
  };
  prios = w.prios;
}

-- The interrupt threads and the calls of the hardware have no part in it.
pub elsewhere-IsRunning :
    {k : Kernel} {cur : ℕ} (ints : ℕ → IntThread) (calls : List Call)
    → IsRunning k cur
    → IsRunning (record k { int_threads = ints; calls = calls }) cur
elsewhere-IsRunning {k} ints calls r = record {
  well = elsewhere-IsWell ints calls k.current r.well;
  is_ready = r.is_ready;
}

pub set_ready-IsRunning :
    {k k' : Kernel} {cur : ℕ} (t : ℕ)
    → IsRunning k cur
    → set_state k t ready ≡ ok k'
    → IsRunning k' cur
set_ready-IsRunning {k} {k'} {cur} t r h = record {
  well = set_state-IsWell k k' t ready r.well h;
  is_ready =
      set_state-states k k' t ready cur r.well h
      ∙ elim (Bool-cases (t == cur)) [ inl e ↦ rw e refl | inr e ↦ rw e r.is_ready ];
}

pub inherit_prio_add-IsRunning :
    {k k' : Kernel} {cur : ℕ} (t owner priority : ℕ)
    → IsRunning k cur
    → inherit_prio_add k t owner priority ≡ ok k'
    → IsRunning k' cur
inherit_prio_add-IsRunning {k} {k'} {cur} t owner priority r h = record {
  well = inherit_prio_add-IsWell t owner priority r.well h;
  is_ready = inherit_prio_add-state k t owner priority cur h ∙ r.is_ready;
}

pub copy_message-IsRunning :
    {k : Kernel} {cur : ℕ} (snd rcv : ℕ) (propagated use_local_id : Bool)
    → IsRunning k cur
    → IsRunning (copy_message k snd rcv propagated use_local_id) cur
unfolding copy_message
copy_message-IsRunning snd rcv true use_local_id r = edit-IsRunning rcv _ refl refl refl r
copy_message-IsRunning snd rcv false use_local_id r = edit-IsRunning rcv _ refl refl refl r

context_switch-IsWell : {k : Kernel} (now nxt : ℕ) → IsWell k → IsWell (context_switch k now nxt)
unfolding context_switch
context_switch-IsWell {k} now nxt w =
    let w₁ =
      set_thread-IsWell k.current (timeslice_stop now (k.threads k.current)) refl
        (w.prios k.current) w in
    elsewhere-IsWell k.int_threads k.calls nxt (set_thread-IsWell nxt _ refl (w₁.prios nxt) w₁)

pub switch_to-IsWell : {k : Kernel} (now nxt : ℕ) → IsWell k → IsWell (switch_to k now nxt)
unfolding switch_to
switch_to-IsWell {k} now nxt w = elim (Bool-cases (k.current == nxt)) [
  | inl e ↦ rw e w
  | inr e ↦ rw e (context_switch-IsWell now nxt w)
]

pub switch_to_next-IsWell :
    {k k' : Kernel} (now : ℕ) → IsWell k → switch_to_next k now ≡ ok k' → IsWell k'
unfolding switch_to_next
switch_to_next-IsWell {k} now w h =
    let ((k₁, nxt), g, e) = >>=-eq-ok (get_highest_prio_ready_thread k) _ h in
    subst IsWell (ok-eq e) (switch_to-IsWell now nxt (get_highest-IsWell k w g))

-- A ready thread may change its timeout: its list does not depend on it.
ready_place :
    (k : Kernel) (t timeout to from_spec : ℕ)
    → (k.threads t).state ≡ ready
    → place_of (record (k.threads t) { timeout = timeout; ipc_to = to; ipc_from_spec = from_spec })
      ≡ place_of (k.threads t)
ready_place k t timeout to from_spec e = rw e refl

pub save_snd_phase-IsWell :
    {k k' : Kernel} (t now timeout to : ℕ)
    → IsRunning k t
    → save_snd_phase k t now timeout to ≡ ok k'
    → IsWell k'
unfolding save_snd_phase
save_snd_phase-IsWell {k} {k'} t now timeout to r h =
    let (_, _, e) = >>=-eq-ok (wassert (Time.is_rel Time.big_endian timeout)) _ h in
    set_state-IsWell _ k' t send_ipc
      (set_thread-IsWell t _
        (ready_place k t (expires now timeout) to (k.threads t).ipc_from_spec r.is_ready)
        (r.well.prios t) r.well)
      e

pub save_rcv_phase-IsWell :
    {k k' : Kernel} (t now timeout from_spec : ℕ)
    → IsRunning k t
    → save_rcv_phase k t now timeout from_spec ≡ ok k'
    → IsWell k'
unfolding save_rcv_phase
save_rcv_phase-IsWell {k} {k'} t now timeout from_spec r h =
    let (_, _, e) = >>=-eq-ok (wassert (Time.is_rel Time.big_endian timeout)) _ h in
    set_state-IsWell _ k' t receive_ipc
      (set_thread-IsWell t _
        (ready_place k t (expires now timeout) (k.threads t).ipc_to from_spec r.is_ready)
        (r.well.prios t) r.well)
      e
