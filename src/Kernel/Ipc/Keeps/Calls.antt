-- ===== src/Kernel/Ipc/Keeps/Calls.antt =====
-- krn/ipc.cpp: the lists of threads over a whole call, up to its end or to a switch.
use wrmos.Base.{
  update, ℕ, ◌≡◌, refl, subst, ◌==◌, ltb, leb, max, if-both, Option, none, some, ok, ok-eq, ◌>>=◌,
  >>=-eq-ok, wassert,
}
use wrmos.Kernel.State.{ready, is, Kernel}
use wrmos.Kernel.Prio.{prio_max}
use wrmos.Kernel.Transition.Well.{IsWell}
use wrmos.Kernel.Ipc.Send.{
  Env, Resume, to_receive, to_mapping, Sent, returned, proceeds, switched, send_phase,
  map_reply_again,
}
use wrmos.Kernel.Ipc.Receive.{
  Received, received, waiting, receive_phase, partner_prio, switch_to_partner, finish, Ipc, done,
  in_send, in_receive, Args, ipc_args, receive_and_finish, after_send, do_ipc, resume_send,
}
use wrmos.Kernel.Ipc.Keeps.{IsRunning, edit-IsRunning, switch_to-IsWell}
use wrmos.Kernel.Ipc.Keeps.Replies.{IsSent, map_reply_again-IsSent}
use wrmos.Kernel.Ipc.Keeps.Send.{IsOrderly, send_phase-IsSent}
use wrmos.Kernel.Ipc.Keeps.Receive.{IsReceived, receive_phase-IsReceived}

finish-IsWell :
    {k k' : Kernel} (now cur : ℕ) (s p : Option ℕ)
    → IsWell k
    → finish k now cur s p ≡ ok k'
    → IsWell k'
unfolding finish
finish-IsWell {k} {k'} now cur s p w h =
    let (_, _, h₁) = >>=-eq-ok (wassert (is (k.threads cur).state ready)) _ h in
    let (_, _, h₂) = >>=-eq-ok (wassert ((k.threads cur).prio == prio_max (k.threads cur))) _ h₁ in
    subst IsWell (ok-eq h₂) (
      if-both IsWell (ltb (prio_max (k.threads cur)) (max (partner_prio k s) (partner_prio k p)))
        (if-both IsWell (leb (partner_prio k p) (partner_prio k s)) (to_partner s) (to_partner p))
        w)
  where
    to_partner : (o : Option ℕ) → IsWell (switch_to_partner k now o)
    to_partner none = w
    to_partner (some t) = switch_to-IsWell now t w

-- How a call may end, or stop at a switch.
abbrev pub IsInOrder : Ipc → Type 0
IsInOrder (done k) = IsWell k
IsInOrder (in_send k point) = IsWell k
IsInOrder (in_receive k) = IsWell k

module _ (env : Env) (o : IsOrderly env) where
  receive_and_finish-IsInOrder :
      {k : Kernel} {cur : ℕ} (now : ℕ) (a : Args) (p : Option ℕ) {i : Ipc}
      → IsRunning k cur
      → receive_and_finish env k now cur a p ≡ ok i
      → IsInOrder i
  unfolding receive_and_finish
  receive_and_finish-IsInOrder {k} {cur} now a p {i} r h =
      let (got, e₁, h₁) =
        >>=-eq-ok (receive_phase env k now cur a.tag a.rcv_timeout a.from_spec) _ h in
      ends got (receive_phase-IsReceived env o now a.tag a.rcv_timeout a.from_spec r e₁) h₁
    where
      ends :
          (got : Received)
          → IsReceived cur got
          → elim got [
            | received k₁ q ↦ finish k₁ now cur p q >>= λ (k₂ : Kernel). ok (done k₂)
            | waiting k₁ ↦ ok (in_receive k₁)
          ]
            ≡ ok i
          → IsInOrder i
      ends (received k₁ q) r₁ g =
          let (k₂, e, g₁) = >>=-eq-ok (finish k₁ now cur p q) _ g in
          subst IsInOrder (ok-eq g₁) (finish-IsWell now cur p q r₁.well e)
      ends (waiting k₁) w g = subst IsInOrder (ok-eq g) w

  after_send-IsInOrder :
      (s : Sent) (now cur : ℕ) (a : Args) {i : Ipc}
      → IsSent cur s
      → after_send env s now cur a ≡ ok i
      → IsInOrder i
  unfolding after_send
  after_send-IsInOrder (returned k) now cur a r h = subst IsInOrder (ok-eq h) r.well
  after_send-IsInOrder (proceeds k p) now cur a r h = receive_and_finish-IsInOrder now a p r h
  after_send-IsInOrder (switched k point) now cur a w h = subst IsInOrder (ok-eq h) w

  -- A call for IPC of a thread that is ready, in a kernel whose lists agree with the threads' states and
  -- priorities, leaves them in agreement where it returns and at the switch to another thread, on every
  -- path that does not stop the kernel, if the processing of typed words keeps that agreement and
  -- keeps a ready thread ready.
  pub do_ipc-IsInOrder :
      (k : Kernel) (now cur : ℕ) (i : Ipc)
      → IsRunning k cur
      → do_ipc env k now cur ≡ ok i
      → IsInOrder i
  unfolding do_ipc
  do_ipc-IsInOrder k now cur i r h =
      let a = ipc_args (k.threads cur) in
      let r₁ =
        edit-IsRunning cur (record (k.threads cur) { mr = update (k.threads cur).mr 0 a.tag }) refl
          refl refl r in
      let (s, e₁, h₁) = >>=-eq-ok (send_phase env _ now cur a.tag a.snd_timeout a.to) _ h in
      after_send-IsInOrder s now cur a
        (send_phase-IsSent env o _ now cur a.tag a.snd_timeout a.to s r₁ e₁) h₁

  -- The rest of a call that has switched to another thread in its send phase, from the point where it
  -- goes on once its thread is ready again, leaves the lists of threads in agreement with their states
  -- and priorities, on every path that does not stop the kernel, under the same condition on the
  -- processing of typed words: it keeps that agreement and keeps a ready thread ready.
  pub resume_send-IsInOrder :
      (k : Kernel) (now cur : ℕ) (point : Resume) (a : Args) (i : Ipc)
      → IsRunning k cur
      → resume_send env k point now cur a ≡ ok i
      → IsInOrder i
  unfolding resume_send
  resume_send-IsInOrder k now cur to_receive a i r h = receive_and_finish-IsInOrder now a none r h
  resume_send-IsInOrder k now cur (to_mapping dst fpage) a i r h =
      let (s, e₁, h₁) = >>=-eq-ok (map_reply_again env k cur dst fpage) _ h in
      after_send-IsInOrder s now cur a (map_reply_again-IsSent env dst fpage r e₁) h₁
