-- ===== src/Kernel/Timeouts/Running.antt =====
-- krn/thread.h, krn/threads.h: which thread runs is decided by a switch alone.
use wrmos.Base.{
  ℕ, ◌≡◌, sym, ap, ◌∙◌, inl, inr, not, ◌||◌, Option, none, List, [], ◌∷◌, arith, ltb, Bool-cases,
  ok, ok-eq, >>=-eq-ok, wassert,
}
use wrmos.L4.Thrid
use wrmos.Kernel.State.{State, ready, send_ipc, receive_ipc, is, Kernel, set_thread, find, not_null}
use wrmos.Kernel.Prio.{prio_max, inherit_prio_del, return_prio}
use wrmos.Kernel.Queues.{
  add_ready, del_ready, add_send, del_send, add_timeout_waiting, del_timeout_waiting,
  add_rcv_timeout_waiting, add_snd_timeout_waiting, del_rcv_timeout_waiting,
  del_snd_timeout_waiting,
}
use wrmos.Kernel.Transition.{leave, enter, set_state}
use wrmos.Kernel.Transition.Lending.{inherit_prio_del-eq}
use wrmos.Kernel.Timeouts.{timed_out, or_else, expire_list, check_ipc_timeouts}

leave-current : (k k' : Kernel) (t : ℕ) → leave k t ≡ ok k' → k'.current ≡ k.current
unfolding leave del_ready del_send del_snd_timeout_waiting del_rcv_timeout_waiting
    del_timeout_waiting
leave-current k k' t h = ground arith

enter-current : (k k' : Kernel) (t : ℕ) (s : State) → enter k t s ≡ ok k' → k'.current ≡ k.current
unfolding enter add_ready add_send add_snd_timeout_waiting add_rcv_timeout_waiting
    add_timeout_waiting
enter-current k k' t s h = ground arith

return_prio-current : (k k' : Kernel) (t : ℕ) → return_prio k t ≡ ok k' → k'.current ≡ k.current
unfolding return_prio
return_prio-current k k' t h = elim (Bool-cases (Thrid.is_nil (k.threads t).prio_heir)) [
  | inl e ↦ ground arith
  | inr e ↦
      let (thr, _, h₁) = >>=-eq-ok (find k (k.threads t).prio_heir) _ (rw e at h) in
      let (p, _, h₂) = >>=-eq-ok (not_null thr) _ h₁ in
      let (k₁, d, h₃) =
        >>=-eq-ok (inherit_prio_del k p (k.threads t).globid (prio_max (k.threads t))) _ h₂ in
      ap (λ (x : Kernel). x.current) (sym (ok-eq h₃))
      ∙ ap (λ (x : Kernel). x.current)
          (inherit_prio_del-eq k p (k.threads t).globid (prio_max (k.threads t)) d)
]

pub set_state-current :
    (k k' : Kernel) (t : ℕ) (s : State) → set_state k t s ≡ ok k' → k'.current ≡ k.current
unfolding set_state
set_state-current k k' t s h =
    let (_, _, h₁) = >>=-eq-ok (wassert (not (is (k.threads t).state s))) _ h in
    let (k₁, l, h₂) = >>=-eq-ok (leave k t) _ h₁ in
    let (k₂, n, r) =
      >>=-eq-ok (enter (set_thread k₁ t (record (k₁.threads t) { state = s })) t s) _ h₂ in
    return_prio-current k₂ k' t r ∙ enter-current _ k₂ t s n ∙ leave-current k k₁ t l

expire_list-current :
    (k k' : Kernel) (now : ℕ) (l : List ℕ) (next next' : Option ℕ)
    → expire_list k now l next ≡ ok (k', next')
    → k'.current ≡ k.current
unfolding expire_list
expire_list-current k k' now [] next next' h = ground arith
expire_list-current k k' now (t ∷ ts) next next' h =
    let (_, _, h₁) =
      >>=-eq-ok (wassert (is (k.threads t).state send_ipc || is (k.threads t).state receive_ipc)) _
        h in
    elim (Bool-cases (ltb now (k.threads t).timeout)) [
      | inl e ↦ sym (ap (λ (x : Kernel × Option ℕ). x.0.current) (ok-eq (rw e at h₁)))
      | inr e ↦
          let (k₁, s, h₂) =
            >>=-eq-ok (set_state (set_thread k t (timed_out (k.threads t))) t ready) _
              (rw e at h₁) in
          let (k₂, r, h₃) = >>=-eq-ok (return_prio k₁ t) _ h₂ in
          expire_list-current k₂ k' now ts (or_else next t) next' h₃
          ∙ return_prio-current k₁ k₂ t r
          ∙ set_state-current _ k₁ t ready s
    ]

pub check_ipc_timeouts-current :
    (k k' : Kernel) (now : ℕ) (next : Option ℕ)
    → check_ipc_timeouts k now ≡ ok (k', next)
    → k'.current ≡ k.current
unfolding check_ipc_timeouts
check_ipc_timeouts-current k k' now next h =
    let ((k₁, a), e, h₁) = >>=-eq-ok (expire_list k now k.timeout_waiting_snd none) _ h in
    let ((k₂, b), f, h₂) = >>=-eq-ok (expire_list k₁ now k₁.timeout_waiting_rcv none) _ h₁ in
    ap (λ (x : Kernel × Option ℕ). x.0.current) (sym (ok-eq h₂))
    ∙ expire_list-current k₁ k₂ now k₁.timeout_waiting_rcv none b f
    ∙ expire_list-current k k₁ now k.timeout_waiting_snd none a e
