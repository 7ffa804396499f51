-- ===== src/Kernel/Entry/Tags.antt =====
-- krn/kentry.cpp: the message registers of the thread that takes an interrupt.
use wrmos.Base.{
  ℕ, ◌≡◌, refl, sym, ap, ◌∙◌, inl, inr, true, not, some, arith, ◌==◌, ltb, if-both, Bool-cases, ok,
  ok-eq, ◌>>=◌, >>=-eq-ok, wassert,
}
use wrmos.L4.Thrid
use wrmos.Kernel.State.{State, ready, is, Thread, Kernel, ints_max, set_thread, find, not_null}
use wrmos.Kernel.Prio.{prio_max, inherit_prio_del, return_prio}
use wrmos.Kernel.Transition.{set_state}
use wrmos.Kernel.Transition.Well.{IsWell, set_thread-IsWell}
use wrmos.Kernel.Transition.Lending.{inherit_prio_del-eq}
use wrmos.Kernel.Transition.Relink.{in_state, relink-Relinks}
use wrmos.Kernel.Transition.Keeps.{set_state-eq, stops}
use wrmos.Kernel.Switch.{timeslice_stop, timeslice_start, context_switch, switch_to}
use wrmos.Kernel.Ipc.Messages.{scall_ipc_from}
use wrmos.Kernel.Entry.{accepts_irq, deliver_irq, route_irq}

set_thread-mr :
    (k : Kernel) (t : ℕ) (th : Thread) (u : ℕ)
    → th.mr ≡ (k.threads t).mr
    → ((set_thread k t th).threads u).mr ≡ (k.threads u).mr
set_thread-mr k t th u e = elim (Bool-cases (t == u)) [
  | inl d ↦ rw d (e ∙ ground (arith, ap (λ (v : ℕ). (k.threads v).mr) {x = t} {y = u}))
  | inr d ↦ rw d
]

return_prio-mr :
    (k k' : Kernel) (t u : ℕ) → return_prio k t ≡ ok k' → (k'.threads u).mr ≡ (k.threads u).mr
unfolding return_prio
return_prio-mr k k' t u h = elim (Bool-cases (Thrid.is_nil (k.threads t).prio_heir)) [
  | inl e ↦ ap (λ (x : Kernel). (x.threads u).mr) (sym (ok-eq (rw e at h)))
  | inr e ↦
      let (thr, _, h₁) = >>=-eq-ok (find k (k.threads t).prio_heir) _ (rw e at h) in
      let (p, _, h₂) = >>=-eq-ok (not_null thr) _ h₁ in
      let (k₁, d, h₃) =
        >>=-eq-ok (inherit_prio_del k p (k.threads t).globid (prio_max (k.threads t))) _ h₂ in
      ap (λ (x : Kernel). (x.threads u).mr) (sym (ok-eq h₃))
      ∙ set_thread-mr k₁ t _ u refl
      ∙ ap (λ (x : Kernel). (x.threads u).mr)
          (inherit_prio_del-eq k p (k.threads t).globid (prio_max (k.threads t)) d)
      ∙ set_thread-mr k p _ u refl
]

mr-in_state : (s : State) (th : Thread) → (in_state s th).mr ≡ th.mr
mr-in_state ready th = refl
mr-in_state s th = refl

set_state-mr :
    (k k' : Kernel) (t : ℕ) (s : State) (u : ℕ)
    → IsWell k
    → set_state k t s ≡ ok k'
    → (k'.threads u).mr ≡ (k.threads u).mr
set_state-mr k k' t s u w h = elim (Bool-cases (is (k.threads t).state s)) [
  | inl e ↦ absurd (stops k k' t s e h)
  | inr e ↦
      let (k₂, r, th, _) = relink-Relinks k t s w in
      return_prio-mr k₂ k' t u (sym (set_state-eq k t s e r) ∙ h)
      ∙ ap (λ (f : ℕ → Thread). (f u).mr) th
      ∙ set_thread-mr k t (in_state s (k.threads t)) u (mr-in_state s (k.threads t))
]

context_switch-mr :
    (k : Kernel) (now nxt u : ℕ) → ((context_switch k now nxt).threads u).mr ≡ (k.threads u).mr
unfolding context_switch
context_switch-mr k now nxt u =
    let k₁ = set_thread k k.current (timeslice_stop now (k.threads k.current)) in
    set_thread-mr k₁ nxt (timeslice_start now (k₁.threads nxt)) u refl
    ∙ set_thread-mr k k.current (timeslice_stop now (k.threads k.current)) u refl

switch_to-mr :
    (k : Kernel) (now nxt u : ℕ) → ((switch_to k now nxt).threads u).mr ≡ (k.threads u).mr
unfolding switch_to
switch_to-mr k now nxt u = elim (Bool-cases (k.current == nxt)) [
  | inl e ↦ rw e
  | inr e ↦ rw e (context_switch-mr k now nxt u)
]

deliver_irq-mr :
    (k k' : Kernel) (now irq dst : ℕ)
    → IsWell k
    → deliver_irq k now irq dst ≡ ok k'
    → (k'.threads dst).mr ≡ (k.threads dst).mr
unfolding deliver_irq
deliver_irq-mr k k' now irq dst w h =
    let k₀ = set_thread k dst (scall_ipc_from (Thrid.create_irq irq) (k.threads dst)) in
    let (k₁, s, e) = >>=-eq-ok (set_state k₀ dst ready) _ h in
    ap (λ (x : Kernel). (x.threads dst).mr) (sym (ok-eq e))
    ∙ if-both (λ (x : Kernel). (x.threads dst).mr ≡ (k₁.threads dst).mr)
        (ltb (prio_max (k₁.threads k₁.current)) (prio_max (k₁.threads dst)))
        {x = switch_to k₁ now dst} {y = k₁} (switch_to-mr k₁ now dst dst) refl
    ∙ set_state-mr k₀ k₁ dst ready dst
        (set_thread-IsWell dst (scall_ipc_from (Thrid.create_irq irq) (k.threads dst)) refl
          (w.prios dst) w)
        s
    ∙ set_thread-mr k dst (scall_ipc_from (Thrid.create_irq irq) (k.threads dst)) dst refl

-- An interrupt that is delivered leaves the message registers of the thread that handles it as they
-- were, the tag included, in a kernel that is in order: the handler does not find the tag of an interrupt
-- message unless it was there before.
pub route_irq-mr :
    (k k' : Kernel) (now irq dst : ℕ)
    → IsWell k
    → find k (k.int_threads irq).handler ≡ ok (some dst)
    → accepts_irq (k.threads dst) irq ≡ ok true
    → route_irq k now irq ≡ ok k'
    → (k'.threads dst).mr ≡ (k.threads dst).mr
unfolding route_irq
route_irq-mr k k' now irq dst w f a h =
    let (_, _, h₁) = >>=-eq-ok (wassert (ltb irq ints_max)) _ h in
    let (_, _, h₂) = >>=-eq-ok (wassert (not (Thrid.is_nil (k.int_threads irq).handler))) _ h₁ in
    deliver_irq-mr k k' now irq dst w (rw (f, ◌>>=◌, a) at h₂)
