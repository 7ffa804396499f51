-- ===== src/Kernel/Ipc/Receive.antt =====
-- krn/ipc.cpp: the receive phase of `do_ipc`, its end, and the whole call. A call that switches to another
-- thread stops in the model there; `resume_call` is the rest, from where the code goes on.
use wrmos.Base.{
  update, ℕ, ◌+◌, ◌-◌, ◌/◌, ◌%◌, ◌^◌, Bool, false, not, ◌&&◌, ◌||◌, Option, none, some, ◌==◌, ltb,
  leb, max, if◌then◌else◌, Run, ok, panic, ◌>>=◌, ◌>>◌, wassert,
}
use wrmos.L4.Thrid
use wrmos.L4.MsgTag
use wrmos.L4.Time
use wrmos.Kernel.State.{
  ready, send_ipc, send_pfault, send_exception, receive_pfault, receive_exception, is, Thread,
  Kernel, ints_max, set_thread, find, not_null,
}
use wrmos.Kernel.Prio.{prio_max, inherit_prio_add}
use wrmos.Kernel.Sender.{find_sender}
use wrmos.Kernel.Transition.{set_state}
use wrmos.Kernel.ThreadIds.{thrid_is_int}
use wrmos.Kernel.Switch.{switch_to, switch_to_next}
use wrmos.Kernel.Ipc.Messages.{
  rcv_phase, ipc_timeout, syscall_i0, scall_ipc_from, fail_ipc, save_rcv_phase, do_pfault_ipc,
  do_exc_ipc,
}
use wrmos.Kernel.Ipc.Send.{
  Env, Resume, to_receive, to_mapping, Sent, returned, proceeds, switched, do_normal_ipc,
  sw_irq_label, send_phase, map_reply_again,
}

-- The receiver has got a message, perhaps from a thread, or has failed; or it waits, at a switch.
pub data Received : Type 0 where
  received : Kernel → Option ℕ → Received
  waiting : Kernel → Received

-- `cur.save_rcv_phase(...); Sched_t::switch_to_next();`
unfoldable pub wait_receive : Kernel → ℕ → ℕ → ℕ → ℕ → Run Received
wait_receive k now cur timeout from_spec = do
  k₁ ← save_rcv_phase k cur now timeout from_spec
  k₂ ← switch_to_next k₁ now
  ok (waiting k₂)

abbrev pub fail_receive : Kernel → ℕ → ℕ → Received
fail_receive k cur tag =
    received (set_thread k cur (fail_ipc tag rcv_phase ipc_timeout (k.threads cur))) none

-- "extention - receive software irq"
unfoldable pub receive_sw_irq : Kernel → ℕ → ℕ → ℕ → ℕ → ℕ → Run Received
receive_sw_irq k now cur tag timeout from_spec =
    if (k.threads cur).signal_pending
    then ok (
        received
          (set_thread k cur (record (scall_ipc_from (k.threads cur).globid (k.threads cur)) {
            signal_pending = false;
          }))
          none)
    else if Time.is_zero timeout
    then ok (fail_receive k cur tag)
    else wait_receive k now cur timeout from_spec

-- `find_int_sender`, for an identifier of an interrupt.
unfoldable pub find_int_sender : Kernel → ℕ → ℕ → Run Bool
find_int_sender k rcv from_spec = do
  wassert (thrid_is_int from_spec)
  wassert (ltb (Thrid.number from_spec) ints_max)
  let ithr = k.int_threads (Thrid.number from_spec)
  ok (not (Thrid.is_nil ithr.handler) && ithr.pending && ithr.handler == (k.threads rcv).globid)

abbrev pub interrupt : ℕ
interrupt = 2 ^ 10 - 1

-- `proto_label(Interrupt)`, `proto_nulls()`, `untyped(0)` and `typed(0)`: the same fields as `set_proto`.
unfoldable pub receive_interrupt : Kernel → ℕ → ℕ → ℕ → ℕ → ℕ → Run Received
receive_interrupt k now cur tag timeout from_spec = do
  pending ← find_int_sender k cur from_spec
  if pending
      then (let irq = Thrid.number from_spec in
          let th = k.threads cur in
          let k₁ = set_thread k cur (
            scall_ipc_from (Thrid.create_irq irq)
              (record th { mr = update th.mr 0 (MsgTag.set_proto tag interrupt 0 0) })) in
          ok (
            received
              (record k₁ {
                int_threads =
                    update k.int_threads irq (record (k.int_threads irq) { pending = false });
              })
              none))
      else wait_receive k now cur timeout from_spec

-- "sender was found": its page fault, its exception or its message is taken.
unfoldable pub receive_from : Env → Kernel → ℕ → ℕ → Bool → Bool → Run Received
receive_from env k cur snd propagated use_local_id =
    if is (k.threads snd).state send_pfault
    then (do
      k₁ ←
          do_pfault_ipc k snd cur (k.threads snd).pf_addr (k.threads snd).pf_access
            (k.threads snd).pf_inst
      k₂ ← set_state k₁ snd receive_pfault
      ok (received k₂ (some snd)))
    else if is (k.threads snd).state send_exception
    then (do
      k₁ ← do_exc_ipc k snd cur (k.threads snd).exc_type (k.threads snd).exc_pf
      k₂ ← set_state k₁ snd receive_exception
      ok (received k₂ (some snd)))
    else if is (k.threads snd).state send_ipc
    then (do
      (k₁, rc) ← do_normal_ipc env k snd cur propagated use_local_id
      wassert (rc == 0)
      k₂ ← if is (k₁.threads snd).state ready then ok k₁ else set_state k₁ snd ready
      ok (received k₂ (some snd)))
    else panic

-- "inherit prio if need": the receiver that waits for one thread lends it its priority.
unfoldable pub lend_to_sender : Kernel → ℕ → ℕ → Run Kernel
lend_to_sender k cur from_spec =
    if Thrid.is_single from_spec && not (from_spec == (k.threads cur).globid)
    then (do
      found ← find k from_spec
      sender ← not_null found
      if ltb (k.threads sender).prio (prio_max (k.threads cur))
          then (do
            k₁ ← inherit_prio_add k sender (k.threads cur).globid (prio_max (k.threads cur))
            ok (
                set_thread k₁ cur
                  (record (k₁.threads cur) { prio_heir = (k₁.threads sender).globid })))
          else ok k)
    else ok k

-- "check regular threads"
unfoldable pub receive_regular : Env → Kernel → ℕ → ℕ → ℕ → ℕ → ℕ → Run Received
receive_regular env k now cur tag timeout from_spec = do
  (found, flags) ← find_sender k cur from_spec
  elim found [
    | some snd ↦ receive_from env k cur snd flags.propagated flags.use_local_id
    | none ↦
        if Time.is_zero timeout
        then ok (fail_receive k cur tag)
        else (do k₁ ← lend_to_sender k cur from_spec; wait_receive k₁ now cur timeout from_spec)
  ]

unfoldable pub receive_phase : Env → Kernel → ℕ → ℕ → ℕ → ℕ → ℕ → Run Received
receive_phase env k now cur tag timeout from_spec =
    if Thrid.is_nil from_spec || MsgTag.ipc_is_failed ((k.threads cur).mr 0)
    then ok (received k none)
    else if from_spec == (k.threads cur).globid && MsgTag.ipc_label tag == sw_irq_label
    then receive_sw_irq k now cur tag timeout from_spec
    else if thrid_is_int from_spec
    then receive_interrupt k now cur tag timeout from_spec
    else receive_regular env k now cur tag timeout from_spec

abbrev pub partner_prio : Kernel → Option ℕ → ℕ
partner_prio k none = 0
partner_prio k (some t) = prio_max (k.threads t)

abbrev pub switch_to_partner : Kernel → ℕ → Option ℕ → Kernel
switch_to_partner k now none = k
switch_to_partner k now (some t) = switch_to k now t

-- The end of `do_ipc`: the two asserts, and the switch to a partner of a higher priority.
unfoldable pub finish : Kernel → ℕ → ℕ → Option ℕ → Option ℕ → Run Kernel
finish k now cur snd_partner rcv_partner = do
  wassert (is (k.threads cur).state ready)
  wassert ((k.threads cur).prio == prio_max (k.threads cur))
  let s = partner_prio k snd_partner
  let r = partner_prio k rcv_partner
  ok (
      if ltb (prio_max (k.threads cur)) (max s r)
      then (if leb r s
          then switch_to_partner k now snd_partner
          else switch_to_partner k now rcv_partner)
      else k)

-- The call has come to its end, or it is at a switch: in the send phase, or in the receive phase.
pub data Ipc : Type 0 where
  done : Kernel → Ipc
  in_send : Kernel → Resume → Ipc
  in_receive : Kernel → Ipc

-- The arguments of the call, which it reads once: the tag, the source and the two timeouts.
pub record Args : Type 0 where
  pub tag : ℕ
  pub to : ℕ
  pub from_spec : ℕ
  pub snd_timeout : ℕ
  pub rcv_timeout : ℕ

unfoldable pub ipc_args : Thread → Args
ipc_args th = record {
  tag = MsgTag.ipc_set_ok (th.mr 0);
  to = th.frame syscall_i0;
  from_spec = th.frame (syscall_i0 + 1);
  snd_timeout = (th.frame (syscall_i0 + 2) / 2 ^ 16) % 2 ^ 16;
  rcv_timeout = th.frame (syscall_i0 + 2) % 2 ^ 16;
}

unfoldable pub receive_and_finish : Env → Kernel → ℕ → ℕ → Args → Option ℕ → Run Ipc
receive_and_finish env k now cur a snd_partner = do
  got ← receive_phase env k now cur a.tag a.rcv_timeout a.from_spec
  elim got [
    | received k₁ rcv_partner ↦ do k₂ ← finish k₁ now cur snd_partner rcv_partner; ok (done k₂)
    | waiting k₁ ↦ ok (in_receive k₁)
  ]

unfoldable pub after_send : Env → Sent → ℕ → ℕ → Args → Run Ipc
after_send env (returned k) now cur a = ok (done k)
after_send env (proceeds k partner) now cur a = receive_and_finish env k now cur a partner
after_send env (switched k point) now cur a = ok (in_send k point)

unfoldable pub do_ipc : Env → Kernel → ℕ → ℕ → Run Ipc
do_ipc env k now cur = do
  let a = ipc_args (k.threads cur)
  let k₁ = set_thread k cur (record (k.threads cur) { mr = update (k.threads cur).mr 0 a.tag })
  sent ← send_phase env k₁ now cur a.tag a.snd_timeout a.to
  after_send env sent now cur a

-- The rest of a call, once its thread runs again.
unfoldable pub resume_send : Env → Kernel → Resume → ℕ → ℕ → Args → Run Ipc
resume_send env k to_receive now cur a = receive_and_finish env k now cur a none
resume_send env k (to_mapping dst fpage) now cur a = do
  sent ← map_reply_again env k cur dst fpage
  after_send env sent now cur a

unfoldable pub resume_receive : Kernel → ℕ → ℕ → Run Ipc
resume_receive k now cur = do k₁ ← finish k now cur none none; ok (done k₁)
