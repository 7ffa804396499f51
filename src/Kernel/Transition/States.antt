-- ===== src/Kernel/Transition/States.antt =====
-- krn/thread.h: what `Thread_t::state(s)` does to the states of the threads.
use wrmos.Base.{
  update, ℕ, ◌≡◌, refl, sym, ap, ◌∙◌, inl, inr, arith, ◌==◌, if◌then◌else◌, Bool-cases, ok, ok-eq,
  >>=-eq-ok,
}
use wrmos.L4.Thrid
use wrmos.Kernel.State.{State, ready, is, Thread, Kernel, set_thread, find, not_null}
use wrmos.Kernel.Prio.{prio_max, inherit_prio_add, inherit_prio_del, return_prio}
use wrmos.Kernel.Transition.{set_state}
use wrmos.Kernel.Transition.Well.{IsWell}
use wrmos.Kernel.Transition.Lending.{inherit_prio_add-eq, inherit_prio_del-eq}
use wrmos.Kernel.Transition.Relink.{in_state, relink-Relinks}
use wrmos.Kernel.Transition.Keeps.{set_state-eq, stops}

pub set_thread-state :
    (k : Kernel) (t : ℕ) (th : Thread) (u : ℕ)
    → th.state ≡ (k.threads t).state
    → ((set_thread k t th).threads u).state ≡ (k.threads u).state
set_thread-state k t th u e = ground (arith, ap k.threads {x = t} {y = u})

pub inherit_prio_add-state :
    (k : Kernel) {k' : Kernel} (t owner priority u : ℕ)
    → inherit_prio_add k t owner priority ≡ ok k'
    → (k'.threads u).state ≡ (k.threads u).state
inherit_prio_add-state k t owner priority u h =
    ap (λ (x : Kernel). (x.threads u).state) (inherit_prio_add-eq k t owner priority h)
    ∙ set_thread-state k t _ u refl

inherit_prio_del-state :
    (k : Kernel) {k' : Kernel} (t owner priority u : ℕ)
    → inherit_prio_del k t owner priority ≡ ok k'
    → (k'.threads u).state ≡ (k.threads u).state
inherit_prio_del-state k t owner priority u h =
    ap (λ (x : Kernel). (x.threads u).state) (inherit_prio_del-eq k t owner priority h)
    ∙ set_thread-state k t _ u refl

return_prio-state :
    (k k' : Kernel) (t u : ℕ) → return_prio k t ≡ ok k' → (k'.threads u).state ≡ (k.threads u).state
unfolding return_prio
return_prio-state k k' t u h = elim (Bool-cases (Thrid.is_nil (k.threads t).prio_heir)) [
  | inl e ↦ ground arith
  | inr e ↦
      let (thr, _, h₁) = >>=-eq-ok (find k (k.threads t).prio_heir) _ (rw e at h) in
      let (p, _, h₂) = >>=-eq-ok (not_null thr) _ h₁ in
      let (k₁, d, h₃) =
        >>=-eq-ok (inherit_prio_del k p (k.threads t).globid (prio_max (k.threads t))) _ h₂ in
      ap (λ (x : Kernel). (x.threads u).state) (sym (ok-eq h₃))
      ∙ set_thread-state k₁ t _ u refl
      ∙ inherit_prio_del-state k p (k.threads t).globid (prio_max (k.threads t)) u d
]

state-in_state : (s : State) (th : Thread) → (in_state s th).state ≡ s
state-in_state ready th = refl
state-in_state s th = refl

update-state :
    (k : Kernel) (t : ℕ) (s : State) (u : ℕ)
    → (update k.threads t (in_state s (k.threads t)) u).state
      ≡ (if t == u then s else (k.threads u).state)
update-state k t s u = elim (Bool-cases (t == u)) [
  | inl e ↦ rw e (state-in_state s (k.threads t))
  | inr e ↦ rw e
]

-- Only the state of the thread itself changes.
pub set_state-states :
    (k k' : Kernel) (t : ℕ) (s : State) (u : ℕ)
    → IsWell k
    → set_state k t s ≡ ok k'
    → (k'.threads u).state ≡ (if t == u then s else (k.threads u).state)
set_state-states k k' t s u w h = elim (Bool-cases (is (k.threads t).state s)) [
  | inl e ↦ absurd (stops k k' t s e h)
  | inr e ↦
      let (k₂, r, th, _) = relink-Relinks k t s w in
      return_prio-state k₂ k' t u (sym (set_state-eq k t s e r) ∙ h)
      ∙ ap (λ (f : ℕ → Thread). (f u).state) th
      ∙ update-state k t s u
]
