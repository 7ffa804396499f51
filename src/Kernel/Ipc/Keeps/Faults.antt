-- ===== src/Kernel/Ipc/Keeps/Faults.antt =====
-- krn/ipc.cpp: the lists of threads over a page fault and an exception.
use wrmos.Base.{ℕ, ◌≡◌, refl, subst, inl, inr, not, ◌==◌, Bool-cases, ok, ok-eq, >>=-eq-ok, wassert}
use wrmos.Kernel.State.{
  ready, send_pfault, send_exception, receive_ipc, receive_pfault, receive_exception, is, Kernel,
  not_null,
}
use wrmos.Kernel.Transition.{set_state}
use wrmos.Kernel.Transition.Well.{IsWell, set_thread-IsWell}
use wrmos.Kernel.Transition.Keeps.{set_state-IsWell}
use wrmos.Kernel.Ipc.Messages.{do_pfault_ipc, do_exc_ipc}
use wrmos.Kernel.Ipc.Faults.{process_pfault, find_exc_handler, process_exception}
use wrmos.Kernel.Ipc.Keeps.{IsRunning, edit-IsRunning, switch_to-IsWell, switch_to_next-IsWell}

do_pfault_ipc-IsWell :
    {k k' : Kernel} (snd rcv addr acc inst : ℕ)
    → IsWell k
    → do_pfault_ipc k snd rcv addr acc inst ≡ ok k'
    → IsWell k'
unfolding do_pfault_ipc
do_pfault_ipc-IsWell {k} snd rcv addr acc inst w h =
    let (_, _, e) = >>=-eq-ok (wassert (not (snd == rcv))) _ h in
    subst IsWell (ok-eq e) (set_thread-IsWell rcv _ refl (w.prios rcv) w)

do_exc_ipc-IsWell :
    {k k' : Kernel} (snd rcv type pf : ℕ)
    → IsWell k
    → do_exc_ipc k snd rcv type pf ≡ ok k'
    → IsWell k'
unfolding do_exc_ipc
do_exc_ipc-IsWell {k} snd rcv type pf w h =
    let (_, _, e) = >>=-eq-ok (wassert (not (snd == rcv))) _ h in
    subst IsWell (ok-eq e) (set_thread-IsWell rcv _ refl (w.prios rcv) w)

pub do_pfault_ipc-IsRunning :
    {k k' : Kernel} {cur : ℕ} (snd rcv addr acc inst : ℕ)
    → IsRunning k cur
    → do_pfault_ipc k snd rcv addr acc inst ≡ ok k'
    → IsRunning k' cur
unfolding do_pfault_ipc
do_pfault_ipc-IsRunning {k} {k'} {cur} snd rcv addr acc inst r h =
    let (_, _, e) = >>=-eq-ok (wassert (not (snd == rcv))) _ h in
    subst (λ (x : Kernel). IsRunning x cur) (ok-eq e) (edit-IsRunning rcv _ refl refl refl r)

pub do_exc_ipc-IsRunning :
    {k k' : Kernel} {cur : ℕ} (snd rcv type pf : ℕ)
    → IsRunning k cur
    → do_exc_ipc k snd rcv type pf ≡ ok k'
    → IsRunning k' cur
unfolding do_exc_ipc
do_exc_ipc-IsRunning {k} {k'} {cur} snd rcv type pf r h =
    let (_, _, e) = >>=-eq-ok (wassert (not (snd == rcv))) _ h in
    subst (λ (x : Kernel). IsRunning x cur) (ok-eq e) (edit-IsRunning rcv _ refl refl refl r)

-- A page fault of a thread leaves the lists in agreement with the states, whether its pager takes the
-- message at once or has to be waited for, if the kernel does not stop.
pub process_pfault-IsWell :
    (k k' : Kernel) (now t addr acc inst : ℕ)
    → IsWell k
    → process_pfault k now t addr acc inst ≡ ok k'
    → IsWell k'
unfolding process_pfault
process_pfault-IsWell k k' now t addr acc inst w h =
    let (pgr, _, h₁) = >>=-eq-ok (not_null (k.threads t).pager) _ h in
    elim (Bool-cases (is (k.threads pgr).state receive_ipc)) [
      | inl e ↦
          let (k₁, e₁, h₂) = >>=-eq-ok (do_pfault_ipc k t pgr addr acc inst) _ (rw e at h₁) in
          let w₁ = do_pfault_ipc-IsWell t pgr addr acc inst w e₁ in
          let (k₂, e₂, h₃) = >>=-eq-ok (set_state k₁ pgr ready) _ h₂ in
          let w₂ = set_state-IsWell k₁ k₂ pgr ready w₁ e₂ in
          let (k₄, e₄, h₅) = >>=-eq-ok (set_state _ t receive_pfault) _ h₃ in
          subst IsWell (ok-eq h₅) (
            switch_to-IsWell now pgr (
              set_state-IsWell _ k₄ t receive_pfault (set_thread-IsWell t _ refl (w₂.prios t) w₂)
                e₄))
      | inr e ↦
          let (k₂, e₂, h₃) = >>=-eq-ok (set_state _ t send_pfault) _ (rw e at h₁) in
          switch_to_next-IsWell now
            (set_state-IsWell _ k₂ t send_pfault (set_thread-IsWell t _ refl (w.prios t) w) e₂) h₃
    ]

-- An exception of a thread leaves the lists in agreement with the states, whichever thread handles it
-- and whether it takes the message at once or has to be waited for, if the kernel does not stop.
pub process_exception-IsWell :
    (k k' : Kernel) (now t type pf : ℕ)
    → IsWell k
    → process_exception k now t type pf ≡ ok k'
    → IsWell k'
unfolding process_exception
process_exception-IsWell k k' now t type pf w h =
    let (exh, _, h₁) = >>=-eq-ok (find_exc_handler k t) _ h in
    elim (Bool-cases (is (k.threads exh).state receive_ipc)) [
      | inl e ↦
          let (k₁, e₁, h₂) = >>=-eq-ok (do_exc_ipc k t exh type pf) _ (rw e at h₁) in
          let w₁ = do_exc_ipc-IsWell t exh type pf w e₁ in
          let (k₂, e₂, h₃) = >>=-eq-ok (set_state k₁ exh ready) _ h₂ in
          let w₂ = set_state-IsWell k₁ k₂ exh ready w₁ e₂ in
          let (k₄, e₄, h₅) = >>=-eq-ok (set_state _ t receive_exception) _ h₃ in
          subst IsWell (ok-eq h₅) (
            switch_to-IsWell now exh (
              set_state-IsWell _ k₄ t receive_exception (set_thread-IsWell t _ refl (w₂.prios t) w₂)
                e₄))
      | inr e ↦
          let (k₂, e₂, h₃) = >>=-eq-ok (set_state _ t send_exception) _ (rw e at h₁) in
          switch_to_next-IsWell now
            (set_state-IsWell _ k₂ t send_exception (set_thread-IsWell t _ refl (w.prios t) w) e₂)
            h₃
    ]
