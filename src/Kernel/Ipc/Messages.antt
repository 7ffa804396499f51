-- ===== src/Kernel/Ipc/Messages.antt =====
-- krn/ipc.cpp, krn/thread.h: what a message leaves in the receiver, and how a thread starts to wait.
pub mod Delivery
use wrmos.Base.{
  update, ℕ, zero, suc, ◌+◌, ◌-◌, ◌*◌, ◌^◌, ◌%◌, Bool, true, false, not, ◌&&◌, ◌||◌, ◌==◌, ltb,
  if◌then◌else◌, Run, ok, ◌>>=◌, ◌>>◌, wassert,
}
use wrmos.L4.Thrid
use wrmos.L4.MsgTag
use wrmos.L4.Time
use wrmos.L4.Fpage
use wrmos.Kernel.State.{send_ipc, receive_ipc, is, Thread, Kernel, never, set_thread}
use wrmos.Kernel.Transition.{set_state}

-- lib/l4/inc/l4_ipcerr.h and `L4_ipcerr_t`: the phase is the lowest bit, the error the next three.
abbrev pub snd_phase : ℕ
snd_phase = 0

abbrev pub rcv_phase : ℕ
rcv_phase = 1

abbrev pub ipc_timeout : ℕ
ipc_timeout = 1

abbrev pub ipc_no_partner : ℕ
ipc_no_partner = 2

unfoldable pub ipcerr : ℕ → ℕ → ℕ → ℕ
ipcerr phase error offset = (offset * 2 ^ 4 + (error % 2 ^ 3) * 2 + phase % 2) % 2 ^ 32

-- `Entry_frame_t` of SPARC has 132 words; the words `i0` to `i2` of its system call follow the seven
-- register windows and the global registers.
abbrev pub frame_words : ℕ
frame_words = 132

abbrev pub syscall_i0 : ℕ
syscall_i0 = 7 * 16 + 8

abbrev pub scall_ipc_from : ℕ → Thread → Thread
scall_ipc_from id th = record th { frame = update th.frame syscall_i0 id }

-- The error code of the operation, and the tag with its mark of failure.
abbrev pub fail_ipc : ℕ → ℕ → ℕ → Thread → Thread
fail_ipc tag phase error th = record th {
  error = ipcerr phase error 0;
  mr = update th.mr 0 (MsgTag.ipc_set_failed tag);
}

-- `save_snd_phase` and `save_rcv_phase` at the time `now`.
abbrev pub expires : ℕ → ℕ → ℕ
expires now timeout =
    if Time.is_never timeout then never else (now + Time.rel_usec Time.big_endian timeout) % 2 ^ 64

unfoldable pub save_snd_phase : Kernel → ℕ → ℕ → ℕ → ℕ → Run Kernel
save_snd_phase k t now timeout to = do
  wassert (Time.is_rel Time.big_endian timeout)
  set_state (set_thread k t (record (k.threads t) { timeout = expires now timeout; ipc_to = to })) t
      send_ipc

unfoldable pub save_rcv_phase : Kernel → ℕ → ℕ → ℕ → ℕ → Run Kernel
save_rcv_phase k t now timeout from_spec = do
  wassert (Time.is_rel Time.big_endian timeout)
  set_state
      (set_thread k t
        (record (k.threads t) { timeout = expires now timeout; ipc_from_spec = from_spec }))
      t receive_ipc

-- `Thread_t::is_good_sender` of the waiting receiver `rcv`, with the flag that it sets.
unfoldable pub is_good_sender : Kernel → ℕ → ℕ → Run (Bool × Bool)
is_good_sender k rcv snd = do
  let r = k.threads rcv
  let s = k.threads snd
  let local = r.task == s.task
  wassert (is r.state receive_ipc)
  wassert (not (r.ipc_from_spec == Thrid.nil))
  ok (
      if Thrid.is_any r.ipc_from_spec
        || (local && Thrid.is_any_local r.ipc_from_spec)
        || (local && r.ipc_from_spec == s.localid)
        || r.ipc_from_spec == s.globid
      then (true, false)
      else (false, local && (Thrid.is_any_local r.ipc_from_spec || r.ipc_from_spec == s.localid)))

-- The loop that copies the untyped words: the words from 1 to `n`.
unfoldable pub copy_words : (ℕ → ℕ) → (ℕ → ℕ) → ℕ → ℕ → ℕ
copy_words src dst zero = dst
copy_words src dst (suc n) = update (copy_words src dst n) (suc n) (src (suc n))

-- The part of `do_normal_ipc` before the typed words.
unfoldable pub copy_message : Kernel → ℕ → ℕ → Bool → Bool → Kernel
copy_message k snd rcv propagated use_local_id =
    let s = k.threads snd in
    let r = k.threads rcv in
    let real_sender = if use_local_id then s.localid else s.globid in
    let r₁ = record r { mr = update r.mr 0 (s.mr 0) } in
    let r₂ =
      if propagated
      then record (scall_ipc_from s.sender r₁) { sender = real_sender }
      else scall_ipc_from real_sender r₁ in
    set_thread k rcv (record r₂ { mr = copy_words s.mr r₂.mr (MsgTag.untyped (s.mr 0)) })

unfoldable pub do_pfault_ipc : Kernel → ℕ → ℕ → ℕ → ℕ → ℕ → Run Kernel
do_pfault_ipc k snd rcv fault_addr fault_access fault_inst = do
  wassert (not (snd == rcv))
  let r = k.threads rcv
  let io = fault_access == 2 ^ 3
  let tag =
      if io
      then MsgTag.set_proto_pf 0 MsgTag.io_pagefault 6 2 0
      else MsgTag.set_proto_pf 0 MsgTag.pagefault fault_access 2 0
  let word1 = if io then Fpage.set_io 0 fault_addr 1 else fault_addr
  ok (
      set_thread k rcv (
        scall_ipc_from (k.threads snd).globid
          (record r { mr = update (update (update r.mr 0 tag) 1 word1) 2 fault_inst })))

-- `memcpy` of the frame's words to the message registers from the register 2 on.
abbrev pub copy_frame : (ℕ → ℕ) → (ℕ → ℕ) → ℕ → ℕ
copy_frame frame mr i =
    if ltb i 2 then mr i else if ltb (i - 2) frame_words then frame (i - 2) else mr i

unfoldable pub do_exc_ipc : Kernel → ℕ → ℕ → ℕ → ℕ → Run Kernel
do_exc_ipc k snd rcv exc_type pfault_addr_and_acc = do
  wassert (not (snd == rcv))
  let r = k.threads rcv
  let tag = MsgTag.set_proto 0 exc_type (1 + frame_words) 0
  ok (
      set_thread k rcv (
        scall_ipc_from (k.threads snd).globid (record r {
          mr = copy_frame (k.threads snd).frame (update (update r.mr 0 tag) 1 pfault_addr_and_acc);
        })))
