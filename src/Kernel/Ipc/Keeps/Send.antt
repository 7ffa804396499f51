-- ===== src/Kernel/Ipc/Keeps/Send.antt =====
-- krn/ipc.cpp: the lists of threads over the send phase, and the state of the sender.
use wrmos.Base.{
  ℕ, ◌≡◌, refl, subst, inl, inr, Bool, false, not, ◌&&◌, ◌||◌, ◌==◌, ltb, if◌then◌else◌, Bool-cases,
  Option-cases, ok, ok-eq, ◌>>=◌, >>=-eq-ok, wassert,
}
use wrmos.L4.Thrid
use wrmos.L4.MsgTag
use wrmos.L4.Time
use wrmos.Kernel.State.{
  inactive, active, ready, receive_ipc, receive_pfault, receive_exception, is, Kernel, set_thread,
  find,
}
use wrmos.Kernel.Prio.{prio_max, inherit_prio_add}
use wrmos.Kernel.Transition.{set_state}
use wrmos.Kernel.ThreadIds.{thrid_is_int}
use wrmos.Kernel.Switch.{switch_to_next}
use wrmos.Kernel.Ipc.Messages.{save_snd_phase, is_good_sender}
use wrmos.Kernel.Ipc.Send.{
  Env, Sent, start, do_normal_ipc, propagate, wait_send, deliver, send_normal, send_to, send_phase,
  sw_irq_label,
}
use wrmos.Kernel.Ipc.Keeps.{
  IsRunning, edit-IsRunning, set_ready-IsRunning, inherit_prio_add-IsRunning,
  copy_message-IsRunning, switch_to_next-IsWell, save_snd_phase-IsWell,
}
use wrmos.Kernel.Ipc.Keeps.Replies.{
  IsSent, not_panic, resume-IsSent, start-IsRunning, trigger_sw_irq-IsSent,
  reenable_interrupt-IsSent, pf_reply-IsSent,
}

-- The processing of the typed words of a message keeps the kernel in order and a running thread ready.
pub record IsOrderly (env : Env) : Type 0 where
  pub keeps :
      (k k' : Kernel) (snd rcv rc cur : ℕ)
      → IsRunning k cur
      → env.typed_words k snd rcv ≡ ok (k', rc)
      → IsRunning k' cur

wait_send-IsSent :
    {k : Kernel} {cur : ℕ} (now dst timeout to : ℕ) {s : Sent}
    → IsRunning k cur
    → wait_send k now cur dst timeout to ≡ ok s
    → IsSent cur s
unfolding wait_send
wait_send-IsSent {k} {cur} now dst timeout to r h =
    let (k₁, e₁, h₁) = >>=-eq-ok _ _ h in
    let (k₂, e₂, h₂) = >>=-eq-ok (save_snd_phase k₁ cur now timeout to) _ h₁ in
    let (k₃, e₃, h₃) = >>=-eq-ok (switch_to_next k₂ now) _ h₂ in
    subst (IsSent cur) (ok-eq h₃)
      (switch_to_next-IsWell now (save_snd_phase-IsWell cur now timeout to (lent e₁) e₂) e₃)
  where
    lent :
        {k₁ : Kernel}
        → (if not (dst == cur) && ltb (k.threads dst).prio (prio_max (k.threads cur))
            then (inherit_prio_add k dst (k.threads cur).globid (prio_max (k.threads cur))
                >>= λ (k' : Kernel). ok (
                    set_thread k' cur
                      (record (k'.threads cur) { prio_heir = (k'.threads dst).globid })))
            else ok k)
          ≡ ok k₁
        → IsRunning k₁ cur
    lent g =
        elim (Bool-cases
          (not (dst == cur) && ltb (k.threads dst).prio (prio_max (k.threads cur)))) [
            | inl e ↦
                let (k', e', h') =
                  >>=-eq-ok
                    (inherit_prio_add k dst (k.threads cur).globid (prio_max (k.threads cur))) _
                    (rw e at g) in
                subst (λ (x : Kernel). IsRunning x cur) (ok-eq h')
                  (edit-IsRunning cur _ refl refl refl (
                    inherit_prio_add-IsRunning dst (k.threads cur).globid (prio_max (k.threads cur))
                      r e'))
            | inr e ↦ subst (λ (x : Kernel). IsRunning x cur) (ok-eq (rw e at g)) r
          ]

module _ (env : Env) (o : IsOrderly env) where
  pub do_normal_ipc-IsRunning :
      {k k' : Kernel} {cur rc : ℕ} (snd rcv : ℕ) (propagated use_local_id : Bool)
      → IsRunning k cur
      → do_normal_ipc env k snd rcv propagated use_local_id ≡ ok (k', rc)
      → IsRunning k' cur
  unfolding do_normal_ipc
  do_normal_ipc-IsRunning {k} {k'} {cur} {rc} snd rcv propagated use_local_id r h =
      let (_, _, h₁) = >>=-eq-ok (wassert (not (snd == rcv))) _ h in
      let r₁ = copy_message-IsRunning snd rcv propagated use_local_id r in
      elim (Bool-cases (MsgTag.typed ((k.threads snd).mr 0) == 0)) [
        | inl e ↦ subst (λ (x : Kernel × ℕ). IsRunning x.0 cur) (ok-eq (rw e at h₁)) r₁
        | inr e ↦ o.keeps _ k' snd rcv rc cur r₁ (rw e at h₁)
      ]

  deliver-IsSent :
      {k : Kernel} {cur : ℕ} (dst : ℕ) (propagated use_local_id : Bool) {s : Sent}
      → IsRunning k cur
      → deliver env k cur dst propagated use_local_id ≡ ok s
      → IsSent cur s
  unfolding deliver
  deliver-IsSent {k} {cur} dst propagated use_local_id r h =
      let ((k₁, rc), e₁, h₁) =
        >>=-eq-ok (do_normal_ipc env k cur dst propagated use_local_id) _ h in
      let r₁ = do_normal_ipc-IsRunning cur dst propagated use_local_id r e₁ in
      let (_, _, h₂) = >>=-eq-ok (wassert (rc == 0)) _ h₁ in
      let (k₂, e₂, h₃) =
        >>=-eq-ok (if is (k₁.threads dst).state ready then ok k₁ else set_state k₁ dst ready) _
          h₂ in
      subst (IsSent cur) (ok-eq h₃) (elim (Bool-cases (is (k₁.threads dst).state ready)) [
        | inl e ↦ subst (λ (x : Kernel). IsRunning x cur) (ok-eq (rw e at e₂)) r₁
        | inr e ↦ set_ready-IsRunning dst r₁ (rw e at e₂)
      ])

  send_normal-IsSent :
      {k : Kernel} {cur : ℕ} (now dst tag timeout to : ℕ) {s : Sent}
      → IsRunning k cur
      → send_normal env k now cur dst tag timeout to ≡ ok s
      → IsSent cur s
  unfolding send_normal
  send_normal-IsSent {k} {cur} now dst tag timeout to r h =
      let ((sender, propagated), _, h₁) = >>=-eq-ok (propagate k cur dst tag) _ h in
      let ((good, use_local_id), _, h₂) =
        >>=-eq-ok
          (if is (k.threads dst).state receive_ipc
            then is_good_sender k dst sender
            else ok (false, false))
          _ h₁ in
      elim (Bool-cases good) [
        | inl e ↦ deliver-IsSent dst propagated use_local_id r (rw e at h₂)
        | inr e ↦ elim (Bool-cases (Time.is_zero timeout)) [
          | inl z ↦
              subst (IsSent cur) (ok-eq (rw (e, z) at h₂)) (edit-IsRunning cur _ refl refl refl r)
          | inr z ↦ wait_send-IsSent now dst timeout to r (rw (e, z) at h₂)
        ]
      ]

  send_to-IsSent :
      {k : Kernel} {cur : ℕ} (now dst tag timeout to : ℕ) {s : Sent}
      → IsRunning k cur
      → send_to env k now cur dst tag timeout to ≡ ok s
      → IsSent cur s
  unfolding send_to
  send_to-IsSent {k} {cur} now dst tag timeout to r h =
      elim (Bool-cases (is (k.threads dst).state active && MsgTag.is_thread_start tag)) [
        | inl a ↦
            let (k₁, e₁, h₁) =
              >>=-eq-ok (start k dst ((k.threads cur).mr 1) ((k.threads cur).mr 2)) _ (rw a at h) in
            subst (IsSent cur) (ok-eq h₁) (start-IsRunning dst _ _ r e₁)
        | inr a ↦ elim (Bool-cases (MsgTag.is_pf_request tag || MsgTag.is_io_pf_request tag)) [
          | inl b ↦ absurd (not_panic (rw (a, b) at h))
          | inr b ↦
              elim (Bool-cases
                (is (k.threads dst).state receive_pfault && MsgTag.is_pf_reply tag)) [
                  | inl c ↦ pf_reply-IsSent env now dst r (rw (a, b, c) at h)
                  | inr c ↦
                      elim (Bool-cases
                        (is (k.threads dst).state receive_exception && MsgTag.is_exc_reply tag)) [
                          | inl d ↦
                              resume-IsSent dst (edit-IsRunning dst _ refl refl refl r)
                                (rw (a, b, c, d) at h)
                          | inr d ↦ elim (Bool-cases (MsgTag.ipc_label tag == sw_irq_label)) [
                            | inl e ↦ trigger_sw_irq-IsSent dst r (rw (a, b, c, d, e) at h)
                            | inr e ↦
                                send_normal-IsSent now dst tag timeout to r
                                  (rw (a, b, c, d, e) at h)
                          ]
                        ]
                ]
        ]
      ]

  -- The send phase of a ready thread leaves the lists in agreement with the states on every path that
  -- does not stop the kernel; and where it does not switch to another thread, the sender is ready still.
  pub send_phase-IsSent :
      (k : Kernel) (now cur tag timeout to : ℕ) (s : Sent)
      → IsRunning k cur
      → send_phase env k now cur tag timeout to ≡ ok s
      → IsSent cur s
  unfolding send_phase
  send_phase-IsSent k now cur tag timeout to s r h = elim (Bool-cases (Thrid.is_nil to)) [
    | inl n ↦ subst (IsSent cur) (ok-eq (rw n at h)) r
    | inr n ↦ elim (Bool-cases (thrid_is_int to && MsgTag.untyped tag == 1)) [
      | inl i ↦ subst (IsSent cur) (ok-eq (rw (n, i) at h)) (reenable_interrupt-IsSent env tag to r)
      | inr i ↦
          let (found, _, h₁) = >>=-eq-ok (find k to) _ (rw (n, i) at h) in
          elim (Option-cases found) [
            | inl e ↦
                subst (IsSent cur) (ok-eq (rw e at h₁)) (edit-IsRunning cur _ refl refl refl r)
            | inr (dst, e) ↦ elim (Bool-cases (is (k.threads dst).state inactive)) [
              | inl q ↦
                  subst (IsSent cur) (ok-eq (rw (e, q) at h₁))
                    (edit-IsRunning cur _ refl refl refl r)
              | inr q ↦ send_to-IsSent now dst tag timeout to r (rw (e, q) at h₁)
            ]
          ]
    ]
  ]
