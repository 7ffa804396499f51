-- ===== src/Kernel/Transition/Well.antt =====
-- krn/thread.h, krn/threads.h: the kernel's main invariant, that the lists agree with the threads' states.
use wrmos.Base.{ℕ, ◌≤◌, ◌≡◌, refl, ap, subst, fun_ext, Bool, true, false, arith, ◌==◌}
use wrmos.Kernel.State.{
  State, ready, send_ipc, send_pfault, send_exception, receive_ipc, Thread, Kernel, never,
  set_thread, prio_max_value,
}
use wrmos.Kernel.Queues.Placed.{
  Place, ready_at, sending, timed_snd, timed_rcv, nowhere, queue, IsPlaced,
}

-- Where a thread belongs.
abbrev pub place_for : State → ℕ → Bool → Place
place_for ready p forever = ready_at p
place_for send_ipc p true = sending
place_for send_ipc p false = timed_snd
place_for send_pfault p forever = sending
place_for send_exception p forever = sending
place_for receive_ipc p false = timed_rcv
place_for _ p forever = nowhere

abbrev pub place_of : Thread → Place
place_of th = place_for th.state th.prio (th.timeout == never)

pub record IsWell (k : Kernel) : Type 0 where
  pub placed : IsPlaced k (λ u. place_of (k.threads u))
  pub prios : (u : ℕ) → (k.threads u).prio ≤ prio_max_value

queue-set_thread :
    (k : Kernel) (t : ℕ) (th : Thread) (q : Place) → queue (set_thread k t th) q ≡ queue k q
queue-set_thread k t th (ready_at p) = refl
queue-set_thread k t th q = refl

pub set_thread-IsPlaced :
    {k : Kernel} {place : ℕ → Place} (t : ℕ) (th : Thread)
    → IsPlaced k place
    → IsPlaced (set_thread k t th) place
set_thread-IsPlaced {k} t th h = record {
  counts = λ u q. rw (queue-set_thread k t th q) (h.counts u q);
  bits = h.bits;
}

pub IsPlaced-ext :
    {k : Kernel} {f g : ℕ → Place} → IsPlaced k f → ((u : ℕ) → f u ≡ g u) → IsPlaced k g
IsPlaced-ext {k} h e = subst (λ (p : ℕ → Place). IsPlaced k p) (fun_ext e) h

-- A change of a thread that leaves its place alone keeps the invariant.
pub set_thread-IsWell :
    {k : Kernel} (t : ℕ) (th : Thread)
    → place_of th ≡ place_of (k.threads t)
    → th.prio ≤ prio_max_value
    → IsWell k
    → IsWell (set_thread k t th)
set_thread-IsWell {k} t th e pr w = record {
  placed =
      IsPlaced-ext (set_thread-IsPlaced t th w.placed)
        (λ u. ground (arith, ap k.threads {x = t} {y = u}));
  prios = λ u. ground (arith, w.prios u);
}
