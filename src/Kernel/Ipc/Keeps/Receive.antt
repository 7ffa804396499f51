-- ===== src/Kernel/Ipc/Keeps/Receive.antt =====
-- krn/ipc.cpp: the lists of threads over the receive phase.
use wrmos.Base.{
  ℕ, ◌≡◌, refl, ◌∙◌, subst, inl, inr, Bool, true, false, not, ◌&&◌, ◌||◌, ◌==◌, ltb, if◌then◌else◌,
  Bool-cases, eq-cases, Option-cases, ok, ok-eq, >>=-eq-ok, wassert,
}
use wrmos.L4.Thrid
use wrmos.L4.MsgTag
use wrmos.L4.Time
use wrmos.Kernel.State.{
  State, ready, send_ipc, send_pfault, send_exception, receive_pfault, receive_exception, is,
  Kernel, find, not_null,
}
use wrmos.Kernel.Prio.{prio_max, inherit_prio_add}
use wrmos.Kernel.Sender.{find_sender}
use wrmos.Kernel.Transition.{set_state}
use wrmos.Kernel.Transition.Well.{IsWell}
use wrmos.Kernel.Transition.Keeps.{set_state-IsWell}
use wrmos.Kernel.Transition.States.{set_state-states}
use wrmos.Kernel.ThreadIds.{thrid_is_int}
use wrmos.Kernel.Switch.{switch_to_next}
use wrmos.Kernel.Ipc.Messages.{save_rcv_phase, do_pfault_ipc, do_exc_ipc}
use wrmos.Kernel.Ipc.Send.{Env, do_normal_ipc, sw_irq_label}
use wrmos.Kernel.Ipc.Receive.{
  Received, received, waiting, wait_receive, receive_sw_irq, find_int_sender, receive_interrupt,
  receive_from, lend_to_sender, receive_regular, receive_phase,
}
use wrmos.Kernel.Ipc.Keeps.{
  IsRunning, edit-IsRunning, elsewhere-IsRunning, set_ready-IsRunning, inherit_prio_add-IsRunning,
  switch_to_next-IsWell, save_rcv_phase-IsWell,
}
use wrmos.Kernel.Ipc.Keeps.Faults.{do_pfault_ipc-IsRunning, do_exc_ipc-IsRunning}
use wrmos.Kernel.Ipc.Keeps.Replies.{not_panic}
use wrmos.Kernel.Ipc.Keeps.Send.{IsOrderly, do_normal_ipc-IsRunning}

-- How the receive phase may end for the receiver `cur`.
abbrev pub IsReceived : ℕ → Received → Type 0
IsReceived cur (received k partner) = IsRunning k cur
IsReceived cur (waiting k) = IsWell k

wait_receive-IsReceived :
    {k : Kernel} {cur : ℕ} (now timeout from_spec : ℕ) {g : Received}
    → IsRunning k cur
    → wait_receive k now cur timeout from_spec ≡ ok g
    → IsReceived cur g
unfolding wait_receive
wait_receive-IsReceived {k} {cur} now timeout from_spec r h =
    let (k₁, e₁, h₁) = >>=-eq-ok (save_rcv_phase k cur now timeout from_spec) _ h in
    let (k₂, e₂, h₂) = >>=-eq-ok (switch_to_next k₁ now) _ h₁ in
    subst (IsReceived cur) (ok-eq h₂)
      (switch_to_next-IsWell now (save_rcv_phase-IsWell cur now timeout from_spec r e₁) e₂)

receive_sw_irq-IsReceived :
    {k : Kernel} {cur : ℕ} (now tag timeout from_spec : ℕ) {g : Received}
    → IsRunning k cur
    → receive_sw_irq k now cur tag timeout from_spec ≡ ok g
    → IsReceived cur g
unfolding receive_sw_irq
receive_sw_irq-IsReceived {k} {cur} now tag timeout from_spec r h =
    elim (Bool-cases (k.threads cur).signal_pending) [
      | inl e ↦ subst (IsReceived cur) (ok-eq (rw e at h)) (edit-IsRunning cur _ refl refl refl r)
      | inr e ↦ elim (Bool-cases (Time.is_zero timeout)) [
        | inl z ↦
            subst (IsReceived cur) (ok-eq (rw (e, z) at h)) (edit-IsRunning cur _ refl refl refl r)
        | inr z ↦ wait_receive-IsReceived now timeout from_spec r (rw (e, z) at h)
      ]
    ]

receive_interrupt-IsReceived :
    {k : Kernel} {cur : ℕ} (now tag timeout from_spec : ℕ) {g : Received}
    → IsRunning k cur
    → receive_interrupt k now cur tag timeout from_spec ≡ ok g
    → IsReceived cur g
unfolding receive_interrupt
receive_interrupt-IsReceived {k} {cur} now tag timeout from_spec r h =
    let (pending, _, h₁) = >>=-eq-ok (find_int_sender k cur from_spec) _ h in
    elim (Bool-cases pending) [
      | inl e ↦
          subst (IsReceived cur) (ok-eq (rw e at h₁))
            (elsewhere-IsRunning _ k.calls (edit-IsRunning cur _ refl refl refl r))
      | inr e ↦ wait_receive-IsReceived now timeout from_spec r (rw e at h₁)
    ]

-- A thread in another state than the running one is another thread.
other_thread :
    (k : Kernel) (cur snd : ℕ) (s : State)
    → (k.threads cur).state ≡ ready
    → is (k.threads snd).state s ≡ true
    → is ready s ≡ false
    → (snd == cur) ≡ false
other_thread k cur snd s r e d = elim (eq-cases snd cur) [
  | inl same ↦ absurd (contradiction ((rw same at e), d, r))
  | inr differs ↦ differs
]
  where
    contradiction :
        (is (k.threads cur).state s ≡ true) × (is ready s ≡ false) × ((k.threads cur).state ≡ ready)
        → ⊥
    contradiction (a, b, c) = cc (rw c at a, b)

set_sender-IsRunning :
    {k k' : Kernel} {cur : ℕ} (snd : ℕ) (s : State)
    → IsRunning k cur
    → (snd == cur) ≡ false
    → set_state k snd s ≡ ok k'
    → IsRunning k' cur
set_sender-IsRunning {k} {k'} {cur} snd s r d h = record {
  well = set_state-IsWell k k' snd s r.well h;
  is_ready = set_state-states k k' snd s cur r.well h ∙ rw d r.is_ready;
}

lend_to_sender-IsRunning :
    {k k' : Kernel} {cur : ℕ} (from_spec : ℕ)
    → IsRunning k cur
    → lend_to_sender k cur from_spec ≡ ok k'
    → IsRunning k' cur
unfolding lend_to_sender
lend_to_sender-IsRunning {k} {k'} {cur} from_spec r h =
    elim (Bool-cases (Thrid.is_single from_spec && not (from_spec == (k.threads cur).globid))) [
      | inl e ↦
          let (found, _, h₁) = >>=-eq-ok (find k from_spec) _ (rw e at h) in
          let (sender, _, h₂) = >>=-eq-ok (not_null found) _ h₁ in
          elim (Bool-cases (ltb (k.threads sender).prio (prio_max (k.threads cur)))) [
            | inl l ↦
                let (k₁, e₁, h₃) =
                  >>=-eq-ok
                    (inherit_prio_add k sender (k.threads cur).globid (prio_max (k.threads cur))) _
                    (rw l at h₂) in
                subst (λ (x : Kernel). IsRunning x cur) (ok-eq h₃)
                  (edit-IsRunning cur _ refl refl refl (
                    inherit_prio_add-IsRunning sender (k.threads cur).globid
                      (prio_max (k.threads cur)) r e₁))
            | inr l ↦ subst (λ (x : Kernel). IsRunning x cur) (ok-eq (rw l at h₂)) r
          ]
      | inr e ↦ subst (λ (x : Kernel). IsRunning x cur) (ok-eq (rw e at h)) r
    ]

module _ (env : Env) (o : IsOrderly env) where
  receive_from-IsReceived :
      {k : Kernel} {cur : ℕ} (now snd : ℕ) (propagated use_local_id : Bool) {g : Received}
      → IsRunning k cur
      → receive_from env k cur snd propagated use_local_id ≡ ok g
      → IsReceived cur g
  unfolding receive_from
  receive_from-IsReceived {k} {cur} now snd propagated use_local_id r h =
      elim (Bool-cases (is (k.threads snd).state send_pfault)) [
        | inl a ↦
            let t = k.threads snd in
            let (k₁, e₁, h₁) =
              >>=-eq-ok (do_pfault_ipc k snd cur t.pf_addr t.pf_access t.pf_inst) _ (rw a at h) in
            let (k₂, e₂, h₂) = >>=-eq-ok (set_state k₁ snd receive_pfault) _ h₁ in
            let r₁ = do_pfault_ipc-IsRunning snd cur t.pf_addr t.pf_access t.pf_inst r e₁ in
            subst (IsReceived cur) (ok-eq h₂) (
              set_sender-IsRunning snd receive_pfault r₁
                (other_thread k cur snd send_pfault r.is_ready a refl) e₂)
        | inr a ↦ elim (Bool-cases (is (k.threads snd).state send_exception)) [
          | inl b ↦
              let t = k.threads snd in
              let (k₁, e₁, h₁) =
                >>=-eq-ok (do_exc_ipc k snd cur t.exc_type t.exc_pf) _ (rw (a, b) at h) in
              let (k₂, e₂, h₂) = >>=-eq-ok (set_state k₁ snd receive_exception) _ h₁ in
              let r₁ = do_exc_ipc-IsRunning snd cur t.exc_type t.exc_pf r e₁ in
              subst (IsReceived cur) (ok-eq h₂) (
                set_sender-IsRunning snd receive_exception r₁
                  (other_thread k cur snd send_exception r.is_ready b refl) e₂)
          | inr b ↦ elim (Bool-cases (is (k.threads snd).state send_ipc)) [
            | inl c ↦
                let ((k₁, rc), e₁, h₁) =
                  >>=-eq-ok (do_normal_ipc env k snd cur propagated use_local_id) _
                    (rw (a, b, c) at h) in
                let r₁ = do_normal_ipc-IsRunning env o snd cur propagated use_local_id r e₁ in
                let (_, _, h₂) = >>=-eq-ok (wassert (rc == 0)) _ h₁ in
                let (k₂, e₂, h₃) =
                  >>=-eq-ok
                    (if is (k₁.threads snd).state ready then ok k₁ else set_state k₁ snd ready) _
                    h₂ in
                subst (IsReceived cur) (ok-eq h₃)
                  (elim (Bool-cases (is (k₁.threads snd).state ready)) [
                    | inl e ↦ subst (λ (x : Kernel). IsRunning x cur) (ok-eq (rw e at e₂)) r₁
                    | inr e ↦ set_ready-IsRunning snd r₁ (rw e at e₂)
                  ])
            | inr c ↦ absurd (not_panic (rw (a, b, c) at h))
          ]
        ]
      ]

  receive_regular-IsReceived :
      {k : Kernel} {cur : ℕ} (now tag timeout from_spec : ℕ) {g : Received}
      → IsRunning k cur
      → receive_regular env k now cur tag timeout from_spec ≡ ok g
      → IsReceived cur g
  unfolding receive_regular
  receive_regular-IsReceived {k} {cur} now tag timeout from_spec r h =
      let ((found, flags), _, h₁) = >>=-eq-ok (find_sender k cur from_spec) _ h in
      elim (Option-cases found) [
        | inl e ↦ elim (Bool-cases (Time.is_zero timeout)) [
          | inl z ↦
              subst (IsReceived cur) (ok-eq (rw (e, z) at h₁))
                (edit-IsRunning cur _ refl refl refl r)
          | inr z ↦
              let (k₁, e₁, h₂) = >>=-eq-ok (lend_to_sender k cur from_spec) _ (rw (e, z) at h₁) in
              wait_receive-IsReceived now timeout from_spec
                (lend_to_sender-IsRunning from_spec r e₁) h₂
        ]
        | inr (snd, e) ↦
            receive_from-IsReceived now snd flags.propagated flags.use_local_id r (rw e at h₁)
      ]

  pub receive_phase-IsReceived :
      {k : Kernel} {cur : ℕ} (now tag timeout from_spec : ℕ) {g : Received}
      → IsRunning k cur
      → receive_phase env k now cur tag timeout from_spec ≡ ok g
      → IsReceived cur g
  unfolding receive_phase
  receive_phase-IsReceived {k} {cur} now tag timeout from_spec r h =
      elim (Bool-cases (Thrid.is_nil from_spec || MsgTag.ipc_is_failed ((k.threads cur).mr 0))) [
        | inl a ↦ subst (IsReceived cur) (ok-eq (rw a at h)) r
        | inr a ↦
            elim (Bool-cases
              (from_spec == (k.threads cur).globid && MsgTag.ipc_label tag == sw_irq_label)) [
                | inl b ↦ receive_sw_irq-IsReceived now tag timeout from_spec r (rw (a, b) at h)
                | inr b ↦ elim (Bool-cases (thrid_is_int from_spec)) [
                  | inl c ↦
                      receive_interrupt-IsReceived now tag timeout from_spec r (rw (a, b, c) at h)
                  | inr c ↦
                      receive_regular-IsReceived now tag timeout from_spec r (rw (a, b, c) at h)
                ]
              ]
      ]
