-- ===== src/Kernel/Ipc/Send.antt =====
-- krn/ipc.cpp: the send phase of `do_ipc`. Where the code switches to another thread and goes on when the
-- sender is resumed, the phase ends with the kernel at the switch and the point where it goes on.
use wrmos.Base.{
  update, ℕ, ◌+◌, ◌-◌, ◌/◌, ◌%◌, ◌^◌, Bool, true, false, not, ◌&&◌, ◌||◌, Option, none, some, List,
  ◌∷◌, ◌==◌, ltb, if◌then◌else◌, Run, ok, panic, ◌>>=◌, ◌>>◌, wassert,
}
use wrmos.L4.Thrid
use wrmos.L4.MsgTag
use wrmos.L4.Time
use wrmos.L4.Fpage
use wrmos.Kernel.State.{
  inactive, active, ready, receive_ipc, receive_pfault, receive_exception, is, Kernel, Call, eoi,
  clear_irq, unmask_irq, map_page, unmap_page, set_ioperm, initial_frame, ints_max, set_thread,
  find, not_null,
}
use wrmos.Kernel.Prio.{prio_max, inherit_prio_add}
use wrmos.Kernel.Transition.{set_state}
use wrmos.Kernel.ThreadIds.{thrid_is_int}
use wrmos.Kernel.Switch.{switch_to_next}
use wrmos.Kernel.Ipc.Messages.{
  snd_phase, ipc_timeout, ipc_no_partner, frame_words, scall_ipc_from, fail_ipc, save_snd_phase,
  is_good_sender, copy_message,
}
use wrmos.Kernel.Ipc.Faults.{process_pfault, process_exception}

-- What the kernel reads from the interrupt controller and from the tasks, which the calls that it has
-- made decide, and the processing of the typed words of a message.
pub record Env : Type 0 where
  pub is_pending : List Call → ℕ → Bool
  pub is_ioperm : List Call → ℕ → ℕ → ℕ → Bool
  pub is_inside_acc : List Call → ℕ → ℕ → Bool
  pub walk : List Call → ℕ → ℕ → ℕ → ℕ
  pub typed_words : Kernel → ℕ → ℕ → Run (Kernel × ℕ)

-- Where the sender goes on after a switch: at the receive phase, or at the mapping of a page
-- for the fault of a thread.
pub data Resume : Type 0 where
  to_receive : Resume
  to_mapping : ℕ → ℕ → Resume

pub data Sent : Type 0 where
  returned : Kernel → Sent
  proceeds : Kernel → Option ℕ → Sent
  switched : Kernel → Resume → Sent

abbrev pub call : Kernel → Call → Kernel
call k c = record k { calls = c ∷ k.calls }

-- "interrupt re-enable message"
unfoldable pub reenable_interrupt : Env → Kernel → ℕ → ℕ → ℕ → Sent
reenable_interrupt env k cur tag to =
    let irq = Thrid.number to in
    if not (ltb irq ints_max) || not ((k.threads cur).globid == (k.int_threads irq).handler)
    then returned (set_thread k cur (fail_ipc tag snd_phase ipc_no_partner (k.threads cur)))
    else let k₁ = call k (eoi irq) in
      let k₂ = if (k.threads cur).mr 1 % 2 == 1 then call k₁ (clear_irq irq) else k₁ in
      if env.is_pending k₂.calls irq
      then proceeds
          (record (call k₂ (clear_irq irq)) {
            int_threads =
                update k₂.int_threads irq (record (k₂.int_threads irq) { pending = true });
          })
          none
      else proceeds (call k₂ (unmask_irq irq)) none

-- "define pager, scheduler"
unfoldable pub define_pager : Kernel → ℕ → Run Kernel
define_pager k t = do
  wassert (not (Thrid.is_nil (k.threads t).pagerid))
  wassert (not (Thrid.is_nil (k.threads t).schedid))
  p ← find k (k.threads t).pagerid
  s ← find k (k.threads t).schedid
  pager ← not_null p
  sched ← not_null s
  ok (
      set_thread k t (record (k.threads t) {
        pager = some pager;
        sched = some sched;
        utcb_global_id = (k.threads t).globid;
      }))

-- `Thread_t::start`, with the asserts of `set_initial_stack_frame`; that on the kernel stack is of the entry
-- code. Thread 1 is sigma0.
unfoldable pub start : Kernel → ℕ → ℕ → ℕ → Run Kernel
start k t entry_ip sp = do
  wassert (is (k.threads t).state active)
  k₁ ← if t == 1 then ok k else define_pager k t
  wassert (not ((k₁.threads t).localid == 0))
  wassert (not (entry_ip == 0))
  set_state (call k₁ (initial_frame t entry_ip sp)) t ready

-- "dst->state(Thread_t::Ready); snd_partner = dst; assert(dst->prio_heir().is_nil())"
unfoldable pub resume : Kernel → ℕ → Run Sent
resume k dst = do
  k₁ ← set_state k dst ready
  wassert (Thrid.is_nil (k₁.threads dst).prio_heir)
  ok (proceeds k₁ (some dst))

-- The type of an item is in three bits above its lowest bit: 4 for map, 5 for grant.
abbrev pub item_type : ℕ → ℕ
item_type word0 = (word0 / 2) % 2 ^ 3

-- The mapping for the fault of `dst`, once the page is known to be the sender's. The page is the local copy,
-- the type of the item is read again.
unfoldable pub map_reply : Env → Kernel → ℕ → ℕ → ℕ → Run Sent
map_reply env k cur dst fpage = do
  let pa = env.walk k.calls (k.threads cur).task (Fpage.addr fpage) (Fpage.size fpage)
  wassert (not (pa == 0))
  wassert (not (cur == 1) || pa == Fpage.addr fpage)
  let va = (k.threads dst).pf_addr - (k.threads dst).pf_addr % 4096
  let k₁ = call k (map_page (k.threads dst).task va pa (Fpage.size fpage) (Fpage.access fpage))
  resume
      (if item_type ((k.threads cur).mr 1) == 5
        then call k₁ (unmap_page (k.threads dst).task (Fpage.addr fpage) (Fpage.size fpage))
        else k₁)
      dst

-- The second test, after the sender's own fault has been served.
unfoldable pub map_reply_again : Env → Kernel → ℕ → ℕ → ℕ → Run Sent
map_reply_again env k cur dst fpage =
    if env.is_inside_acc k.calls (k.threads cur).task fpage
    then map_reply env k cur dst fpage
    else panic

abbrev pub mmu_exception : ℕ
mmu_exception = 2 ^ 10 - 7

abbrev pub bit_or : ℕ → ℕ → ℕ
bit_or a b = a + b - Fpage.bit_and 32 a b

-- The reply of a pager to the fault of `dst`.
unfoldable pub pf_reply : Env → Kernel → ℕ → ℕ → ℕ → Run Sent
pf_reply env k now cur dst = do
  let item = item_type ((k.threads cur).mr 1)
  let fpage = (k.threads cur).mr 2
  wassert (item == 4 || item == 5)
  if Fpage.is_complete fpage
      then (do
        k₁ ←
            process_exception k now dst mmu_exception
              (bit_or (k.threads dst).pf_addr (k.threads dst).pf_access)
        ok (switched k₁ to_receive))
      else if Fpage.is_io fpage
      then (do
        wassert
            (env.is_ioperm k.calls (k.threads cur).task (Fpage.io_port fpage) (Fpage.io_size fpage))
        let k₁ =
            call k
              (set_ioperm (k.threads dst).task (Fpage.io_port fpage) (Fpage.io_size fpage) true)
        resume
            (if item == 5
              then call k₁ (
                  set_ioperm (k.threads cur).task (Fpage.io_port fpage) (Fpage.io_size fpage) false)
              else k₁)
            dst)
      else if not (fpage == Fpage.nil)
      then (if env.is_inside_acc k.calls (k.threads cur).task fpage
          then map_reply env k cur dst fpage
          else (do
            k₁ ← process_pfault k now cur (Fpage.addr fpage) (Fpage.access fpage) (Fpage.addr fpage)
            ok (switched k₁ (to_mapping dst fpage))))
      else resume k dst

-- The label of the message that triggers a software interrupt.
abbrev pub sw_irq_label : ℕ
sw_irq_label = 0x202

unfoldable pub trigger_sw_irq : Kernel → ℕ → ℕ → Run Sent
trigger_sw_irq k cur dst = do
  wassert (not (cur == dst))
  if is (k.threads dst).state receive_ipc && (k.threads dst).ipc_from_spec == (k.threads dst).globid
      then (do
        k₁ ←
            set_state (set_thread k dst (scall_ipc_from (k.threads dst).globid (k.threads dst))) dst
              ready
        ok (proceeds k₁ (some dst)))
      else ok (proceeds (set_thread k dst (record (k.threads dst) { signal_pending = true })) none)

unfoldable pub do_normal_ipc : Env → Kernel → ℕ → ℕ → Bool → Bool → Run (Kernel × ℕ)
do_normal_ipc env k snd rcv propagated use_local_id = do
  wassert (not (snd == rcv))
  let k₁ = copy_message k snd rcv propagated use_local_id
  if MsgTag.typed ((k.threads snd).mr 0) == 0 then ok (k₁, 0) else env.typed_words k₁ snd rcv

-- The thread that the message is said to come from, and whether it is propagated.
unfoldable pub propagate : Kernel → ℕ → ℕ → ℕ → Run (ℕ × Bool)
propagate k cur dst tag =
    if MsgTag.propagated tag
    then (do
      v ← find k (k.threads cur).sender
      virt ← not_null v
      wassert (
          (k.threads cur).task == (k.threads virt).task
          || (k.threads cur).task == (k.threads dst).task)
      ok (virt, true))
    else ok (cur, false)

-- "receiver is not ready for ipc, wait": the sender lends its priority and lets another thread run.
unfoldable pub wait_send : Kernel → ℕ → ℕ → ℕ → ℕ → ℕ → Run Sent
wait_send k now cur dst timeout to = do
  k₁ ←
      if not (dst == cur) && ltb (k.threads dst).prio (prio_max (k.threads cur))
      then (do
        k' ← inherit_prio_add k dst (k.threads cur).globid (prio_max (k.threads cur))
        ok (set_thread k' cur (record (k'.threads cur) { prio_heir = (k'.threads dst).globid })))
      else ok k
  k₂ ← save_snd_phase k₁ cur now timeout to
  k₃ ← switch_to_next k₂ now
  ok (switched k₃ to_receive)

-- "receiver is ready for ipc": the message is delivered, and the receiver runs again.
unfoldable pub deliver : Env → Kernel → ℕ → ℕ → Bool → Bool → Run Sent
deliver env k cur dst propagated use_local_id = do
  (k₁, rc) ← do_normal_ipc env k cur dst propagated use_local_id
  wassert (rc == 0)
  k₂ ← if is (k₁.threads dst).state ready then ok k₁ else set_state k₁ dst ready
  ok (proceeds k₂ (some dst))

unfoldable pub send_normal : Env → Kernel → ℕ → ℕ → ℕ → ℕ → ℕ → ℕ → Run Sent
send_normal env k now cur dst tag timeout to = do
  (sender, propagated) ← propagate k cur dst tag
  (good, use_local_id) ←
      if is (k.threads dst).state receive_ipc
      then is_good_sender k dst sender
      else ok (false, false)
  if good
      then deliver env k cur dst propagated use_local_id
      else if Time.is_zero timeout
      then ok (returned (set_thread k cur (fail_ipc tag snd_phase ipc_timeout (k.threads cur))))
      else wait_send k now cur dst timeout to

-- The rest of the send phase, for a destination that exists and is active.
unfoldable pub send_to : Env → Kernel → ℕ → ℕ → ℕ → ℕ → ℕ → ℕ → Run Sent
send_to env k now cur dst tag timeout to =
    if is (k.threads dst).state active && MsgTag.is_thread_start tag
    then (do
      k₁ ← start k dst ((k.threads cur).mr 1) ((k.threads cur).mr 2)
      ok (proceeds k₁ (some dst)))
    else if MsgTag.is_pf_request tag || MsgTag.is_io_pf_request tag
    then panic
    else if is (k.threads dst).state receive_pfault && MsgTag.is_pf_reply tag
    then pf_reply env k now cur dst
    else if is (k.threads dst).state receive_exception && MsgTag.is_exc_reply tag
    then resume
        (set_thread k dst (record (k.threads dst) {
          frame = λ i.
              if ltb i frame_words then (k.threads cur).mr (i + 2) else (k.threads dst).frame i;
        }))
        dst
    else if MsgTag.ipc_label tag == sw_irq_label
    then trigger_sw_irq k cur dst
    else send_normal env k now cur dst tag timeout to

-- The send phase of the thread `cur`, whose tag is marked as good already.
unfoldable pub send_phase : Env → Kernel → ℕ → ℕ → ℕ → ℕ → ℕ → Run Sent
send_phase env k now cur tag timeout to =
    if Thrid.is_nil to
    then ok (proceeds k none)
    else if thrid_is_int to && MsgTag.untyped tag == 1
    then ok (reenable_interrupt env k cur tag to)
    else (do
      found ← find k to
      elim found [
        | some dst ↦
            if is (k.threads dst).state inactive
            then ok (
                returned (set_thread k cur (fail_ipc tag snd_phase ipc_no_partner (k.threads cur))))
            else send_to env k now cur dst tag timeout to
        | none ↦
            ok (returned (set_thread k cur (fail_ipc tag snd_phase ipc_no_partner (k.threads cur))))
      ])
