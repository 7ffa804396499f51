-- ===== src/Kernel/Entry/Routes.antt =====
-- krn/kentry.cpp: an interrupt goes to the thread that handles it.
use wrmos.Base.{
  ℕ, ◌≡◌, refl, ap, ◌∙◌, subst, inl, inr, not, arith, ltb, if-both, Bool-cases, ==_refl, ok, ok-eq,
  >>=-eq-ok, wassert,
}
use wrmos.L4.Thrid
use wrmos.Kernel.State.{ready, Thread, Kernel, ints_max, set_thread, find, not_null}
use wrmos.Kernel.Transition.{set_state}
use wrmos.Kernel.Transition.Well.{set_thread-IsWell}
use wrmos.Kernel.Transition.Keeps.{set_state-IsWell}
use wrmos.Kernel.Transition.States.{set_thread-state, set_state-states}
use wrmos.Kernel.Timeouts.Running.{set_state-current}
use wrmos.Kernel.Timeouts.Timed.{set_thread-IsTimely, set_state-IsTimely}
use wrmos.Kernel.Ipc.Messages.{scall_ipc_from}
use wrmos.Kernel.Ipc.Keeps.{elsewhere-IsRunning}
use wrmos.Kernel.Entry.{accepts_irq, deliver_irq, route_irq}
use wrmos.Kernel.Entry.Keeps.{IsLive, switch_to-IsLive}

-- A thread becomes ready while another runs.
set_ready-IsLive :
    (k k' : Kernel) (t : ℕ)
    → IsLive k
    → set_state k t ready ≡ ok k'
    → IsLive k' × ((k'.threads t).state ≡ ready)
set_ready-IsLive k k' t l h = (
  record {
    running = record {
      well = set_state-IsWell k k' t ready l.running.well h;
      is_ready =
          ap (λ (u : ℕ). (k'.threads u).state) (set_state-current k k' t ready h)
          ∙ set_state-states k k' t ready k.current l.running.well h
          ∙ ground (arith, l.running.is_ready);
    };
    timely = set_state-IsTimely k k' t ready l.running.well l.timely h;
  },
  set_state-states k k' t ready t l.running.well h ∙ rw (==_refl t),
)

pub set_thread-IsLive :
    (k : Kernel) (t : ℕ) (th : Thread)
    → th.state ≡ (k.threads t).state
    → th.timeout ≡ (k.threads t).timeout
    → th.prio ≡ (k.threads t).prio
    → IsLive k
    → IsLive (set_thread k t th)
set_thread-IsLive k t th s o p l = record {
  running = record {
    well =
        set_thread-IsWell t th (rw (s, o, p) refl) (rw p (l.running.well.prios t)) l.running.well;
    is_ready = set_thread-state k t th k.current s ∙ l.running.is_ready;
  };
  timely = set_thread-IsTimely t th o l.timely;
}

deliver_irq-IsLive :
    (k k' : Kernel) (now irq dst : ℕ) → IsLive k → deliver_irq k now irq dst ≡ ok k' → IsLive k'
unfolding deliver_irq
deliver_irq-IsLive k k' now irq dst l h =
    let (k₁, s, e) =
      >>=-eq-ok
        (set_state (set_thread k dst (scall_ipc_from (Thrid.create_irq irq) (k.threads dst))) dst
          ready)
        _ h in
    let (l₁, r) =
      set_ready-IsLive _ k₁ dst
        (set_thread-IsLive k dst (scall_ipc_from (Thrid.create_irq irq) (k.threads dst)) refl refl
          refl l)
        s in
    subst IsLive (ok-eq e)
      (if-both IsLive _ (switch_to-IsLive k₁ now dst l₁.running.well l₁.timely r) l₁)

-- An interrupt that is routed without a stop leaves the kernel in order, its lists of waiting threads
-- sorted, and a ready thread running.
pub route_irq-IsLive :
    (k k' : Kernel) (now irq : ℕ) → IsLive k → route_irq k now irq ≡ ok k' → IsLive k'
unfolding route_irq
route_irq-IsLive k k' now irq l h =
    let (_, _, h₁) = >>=-eq-ok (wassert (ltb irq ints_max)) _ h in
    let (_, _, h₂) = >>=-eq-ok (wassert (not (Thrid.is_nil (k.int_threads irq).handler))) _ h₁ in
    let (found, _, h₃) = >>=-eq-ok (find k (k.int_threads irq).handler) _ h₂ in
    let (dst, _, h₄) = >>=-eq-ok (not_null found) _ h₃ in
    let (accepts, _, h₅) = >>=-eq-ok (accepts_irq (k.threads dst) irq) _ h₄ in
    elim (Bool-cases accepts) [
      | inl e ↦ deliver_irq-IsLive k k' now irq dst l (rw e at h₅)
      | inr e ↦ subst IsLive (ok-eq (rw e at h₅)) (record {
        running = elsewhere-IsRunning _ k.calls l.running;
        timely = record { snd = l.timely.snd; rcv = l.timely.rcv };
      })
    ]
