-- ===== src/Kernel/Entry/Keeps.antt =====
-- krn/sched.h, krn/threads.h: a switch to a ready thread, and the order of the lists of waiting threads.
use wrmos.Base.{
  ℕ, ◌≡◌, refl, sym, ap, ◌∙◌, subst, inl, inr, arith, ◌==◌, Bool-cases, ok, ok-eq, >>=-eq-ok,
  wassert,
}
use wrmos.Kernel.State.{ready, is, Kernel, set_thread, timeslice_usec}
use wrmos.Kernel.Sched.{begin, move_to_end, timeslice_expired}
use wrmos.Kernel.Switch.{timeslice_stop, timeslice_start, context_switch, switch_to}
use wrmos.Kernel.Transition.Well.{IsWell}
use wrmos.Kernel.Timeouts.Timed.{IsTimely, set_thread-IsTimely}
use wrmos.Kernel.Ipc.Keeps.{IsRunning, switch_to-IsWell}

-- The thread that runs is ready, the lists agree with the states, and those of waiting threads are in
-- order.
pub record IsLive (k : Kernel) : Type 0 where
  pub running : IsRunning k k.current
  pub timely : IsTimely k

context_switch-state :
    (k : Kernel) (now nxt u : ℕ)
    → ((context_switch k now nxt).threads u).state ≡ (k.threads u).state
unfolding context_switch
context_switch-state k now nxt u = ground (
  arith,
  ap k.threads {x = k.current} {y = u},
  ap k.threads {x = nxt} {y = u},
  ap k.threads {x = k.current} {y = nxt},
)

context_switch-IsTimely :
    (k : Kernel) (now nxt : ℕ) → IsTimely k → IsTimely (context_switch k now nxt)
unfolding context_switch
context_switch-IsTimely k now nxt y =
    let k₁ = set_thread k k.current (timeslice_stop now (k.threads k.current)) in
    let y₁ =
      set_thread-IsTimely {k = k} k.current (timeslice_stop now (k.threads k.current)) refl y in
    let y₂ = set_thread-IsTimely {k = k₁} nxt (timeslice_start now (k₁.threads nxt)) refl y₁ in
    record { snd = y₂.snd; rcv = y₂.rcv }

context_switch-current : (k : Kernel) (now nxt : ℕ) → (context_switch k now nxt).current ≡ nxt
unfolding context_switch
context_switch-current k now nxt = refl

-- A ready thread takes over.
pub switch_to-IsLive :
    (k : Kernel) (now nxt : ℕ)
    → IsWell k
    → IsTimely k
    → (k.threads nxt).state ≡ ready
    → IsLive (switch_to k now nxt)
switch_to-IsLive k now nxt w y r = elim (Bool-cases (k.current == nxt)) [
  | inl e ↦ record {
    running = record {
      well = switch_to-IsWell now nxt w;
      is_ready = unfold switch_to in rw e (ground (arith, ap k.threads {x = k.current} {y = nxt}));
    };
    timely = unfold switch_to in rw e y;
  }
  | inr e ↦ record {
    running = record {
      well = switch_to-IsWell now nxt w;
      is_ready =
          unfold switch_to in
          rw e (
            ap (λ (c : ℕ). ((context_switch k now nxt).threads c).state)
              (context_switch-current k now nxt)
            ∙ context_switch-state k now nxt nxt
            ∙ r);
    };
    timely = unfold switch_to in rw e (context_switch-IsTimely k now nxt y);
  }
]

pub timeslice_expired-IsTimely :
    (k k' : Kernel) (t prio f : ℕ)
    → IsTimely k
    → timeslice_expired k t prio ≡ ok (k', f)
    → IsTimely k'
unfolding timeslice_expired
timeslice_expired-IsTimely k k' t prio f y h =
    let (_, _, h₁) = >>=-eq-ok (wassert ((k.threads t).timeslice == 0)) _ h in
    let (_, _, h₂) = >>=-eq-ok (wassert (is (k.threads t).state ready)) _ h₁ in
    let (que, _, h₃) = >>=-eq-ok (move_to_end t (k.ready_threads prio)) _ h₂ in
    let (_, _, h₄) = >>=-eq-ok (begin que) _ h₃ in
    let y₁ =
      set_thread-IsTimely {k = k} t (record (k.threads t) { timeslice = timeslice_usec }) refl y in
    subst (λ (x : Kernel × ℕ). IsTimely x.0) (ok-eq h₄) (record { snd = y₁.snd; rcv = y₁.rcv })

pub timeslice_expired-current :
    (k k' : Kernel) (t prio f : ℕ)
    → timeslice_expired k t prio ≡ ok (k', f)
    → k'.current ≡ k.current
unfolding timeslice_expired
timeslice_expired-current k k' t prio f h =
    let (_, _, h₁) = >>=-eq-ok (wassert ((k.threads t).timeslice == 0)) _ h in
    let (_, _, h₂) = >>=-eq-ok (wassert (is (k.threads t).state ready)) _ h₁ in
    let (que, _, h₃) = >>=-eq-ok (move_to_end t (k.ready_threads prio)) _ h₂ in
    let (_, _, h₄) = >>=-eq-ok (begin que) _ h₃ in
    ap (λ (x : Kernel × ℕ). x.0.current) (sym (ok-eq h₄))
