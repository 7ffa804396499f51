-- ===== src/Tests/IpcTests.antt =====
-- krn/ipc.cpp, krn/threads.h: tests and examples of messages between threads.
use wrmos.Base.{
  update, ℕ, ◌≡◌, refl, false, List, [], ◌∷◌, some, arith, count, contains, remove, Run, ok, panic,
  subst, ok-eq,
}
use wrmos.L4.Thrid
use wrmos.L4.MsgTag
use wrmos.Kernel.State.{ready, send_ipc, receive_ipc, Kernel, never, find, find_number}
use wrmos.Kernel.Prio.{prio_max, return_prio}
use wrmos.Kernel.Queues.{add_ready, del_ready}
use wrmos.Kernel.Queues.Placed.{ready_at}
use wrmos.Kernel.Transition.{set_state, leave, enter}
use wrmos.Kernel.Transition.Well.{IsWell}
use wrmos.Kernel.ThreadIds.{thrid_is_int}
use wrmos.Kernel.Switch.{switch_to, context_switch}
use wrmos.Kernel.Ipc.Messages.{copy_message, copy_words, is_good_sender, syscall_i0}
use wrmos.Kernel.Ipc.Send.{Env, send_phase, send_to, send_normal, propagate, deliver, do_normal_ipc}
use wrmos.L4.Time
use wrmos.Kernel.Sender.{
  find_sender, find_highest_prio_sender, find_highest_from, choose, is_good_sender_for,
  is_addressed, virtual_sender, is_accepted, is_better, is_known_locally,
}
use wrmos.Kernel.Sender.Best.{Reaches}
use wrmos.Kernel.Sender.Found.{find_sender-best}
use wrmos.Kernel.Ipc.Messages.{do_pfault_ipc, do_exc_ipc}
use wrmos.Kernel.Ipc.Messages.Delivery.{copy_message-delivers}
use wrmos.Kernel.Ipc.Faults.{process_pfault, process_exception, find_exc_handler}
use wrmos.Kernel.Ipc.Keeps.Faults.{process_pfault-IsWell, process_exception-IsWell}
use wrmos.Kernel.Ipc.Send.{to_receive}
use wrmos.Kernel.Ipc.Receive.{
  Args, resume_send, receive_regular, Ipc, done, do_ipc, ipc_args, after_send, receive_and_finish,
  receive_phase, finish,
}
use wrmos.Kernel.Ipc.Keeps.{IsRunning}
use wrmos.Kernel.Ipc.Keeps.Send.{IsOrderly}
use wrmos.Kernel.Ipc.Keeps.Calls.{IsInOrder, do_ipc-IsInOrder, resume_send-IsInOrder}
use wrmos.Tests.KernelTests.{sleeper, busy}

-- No interrupt is raised, the tasks have no page and no port, and typed words are ignored.
abbrev pub plain : Env
plain = record {
  is_pending = λ _ _. false;
  is_ioperm = λ _ _ _ _. false;
  is_inside_acc = λ _ _ _. false;
  walk = λ _ _ _ _. 0;
  typed_words = λ k _ _. ok (k, 0);
}

pub plain-IsOrderly : IsOrderly plain
plain-IsOrderly = record {
  keeps = λ k k' snd rcv rc cur r h. subst (λ (x : Kernel × ℕ). IsRunning x.0 cur) (ok-eq h) r;
}

-- Thread 3 runs, and calls to send two words to thread 4, which waits for any message.
abbrev pub meeting : Kernel
meeting = record busy {
  threads =
      update
        (update sleeper 4
          (record (sleeper 4) { state = receive_ipc; timeout = never; ipc_from_spec = Thrid.any }))
        3
        (record (sleeper 3) {
          state = ready;
          mr = update (update (update (λ _. 0) 0 (MsgTag.set_ipc 7 2 0)) 1 11) 2 12;
          frame = update (λ _. 0) syscall_i0 (Thrid.create_global 132 2);
        });
  current = 3;
}

pub meeting-IsRunning : IsRunning meeting 3
unfolding count
meeting-IsRunning = record {
  well = record {
    placed = record {
      counts = λ u. elim [ ready_at p ↦ ground arith | q ↦ ground arith ];
      bits = λ p. ground arith;
    };
    prios = λ u. ground arith;
  };
  is_ready = refl;
}

abbrev pub outcome : Run Ipc → Ipc
outcome (ok i) = i
outcome panic = done busy

-- Thread 4 has the words, and is ready.
abbrev after_meeting : Kernel → ℕ × ℕ × ℕ × List ℕ
after_meeting k =
    ((k.threads 4).mr 1, (k.threads 4).mr 2, (k.threads 4).frame syscall_i0, k.ready_threads 10)

abbrev kernel_of : Ipc → Kernel
kernel_of (done k) = k
kernel_of _ = busy

delivers_words :
    after_meeting (kernel_of (outcome (do_ipc plain meeting 100 3)))
    ≡ (11, 12, Thrid.create_global 131 2, 3 ∷ 4 ∷ [])
unfolding do_ipc ipc_args send_phase find find_number thrid_is_int send_to send_normal propagate
    is_good_sender deliver do_normal_ipc copy_message copy_words set_state leave enter return_prio
    add_ready contains after_send receive_and_finish receive_phase finish prio_max switch_to
    context_switch Thrid.is_global Thrid.is_single Thrid.number Thrid.create_global MsgTag.set_ipc
    MsgTag.ipc_set_ok MsgTag.is_thread_start MsgTag.is_pf_request MsgTag.is_io_pf_request
    MsgTag.is_pf_reply MsgTag.ipc_label MsgTag.proto_label MsgTag.typed MsgTag.untyped
    MsgTag.propagated MsgTag.ipc_is_failed Thrid.version
delivers_words = refl

do_ipc-IsInOrder_example : IsInOrder (outcome (do_ipc plain meeting 100 3))
unfolding do_ipc ipc_args send_phase find find_number thrid_is_int send_to send_normal propagate
    is_good_sender deliver do_normal_ipc copy_message copy_words set_state leave enter return_prio
    add_ready contains after_send receive_and_finish receive_phase finish prio_max switch_to
    context_switch Thrid.is_global Thrid.is_single Thrid.number Thrid.create_global MsgTag.set_ipc
    MsgTag.ipc_set_ok MsgTag.is_thread_start MsgTag.is_pf_request MsgTag.is_io_pf_request
    MsgTag.is_pf_reply MsgTag.ipc_label MsgTag.proto_label MsgTag.typed MsgTag.untyped
    MsgTag.propagated MsgTag.ipc_is_failed Thrid.version
do_ipc-IsInOrder_example =
    do_ipc-IsInOrder plain plain-IsOrderly meeting 100 3 _ meeting-IsRunning refl

-- The sender's own receive phase, with a timeout of no time and no sender.
abbrev polling : Args
polling = record {
  tag = 0;
  to = 0;
  from_spec = Thrid.any;
  snd_timeout = 0;
  rcv_timeout = Time.zero_time;
}

resume_send-IsInOrder_example :
    IsInOrder (outcome (resume_send plain meeting to_receive 100 3 polling))
unfolding resume_send receive_regular find_sender find_highest_prio_sender find_highest_from choose
    do_ipc ipc_args send_phase find find_number thrid_is_int send_to send_normal propagate
    is_good_sender deliver do_normal_ipc copy_message copy_words set_state leave enter return_prio
    add_ready contains after_send receive_and_finish receive_phase finish prio_max switch_to
    context_switch Thrid.is_global Thrid.is_single Thrid.number Thrid.create_global MsgTag.set_ipc
    MsgTag.ipc_set_ok MsgTag.is_thread_start MsgTag.is_pf_request MsgTag.is_io_pf_request
    MsgTag.is_pf_reply MsgTag.ipc_label MsgTag.proto_label MsgTag.typed MsgTag.untyped
    MsgTag.propagated MsgTag.ipc_is_failed Thrid.version Thrid.is_local
resume_send-IsInOrder_example =
    resume_send-IsInOrder plain plain-IsOrderly meeting 100 3 to_receive polling _ meeting-IsRunning
      refl

-- Thread 3 has a fault, and thread 4, its pager, waits.
abbrev faulting : Kernel
faulting = record meeting {
  threads = update meeting.threads 3 (record (meeting.threads 3) {
    pager = some 4;
    exception_handler = Thrid.create_global 132 2;
  });
}

faulting-IsWell : IsWell faulting
unfolding count
faulting-IsWell = record {
  placed = record {
    counts = λ u. elim [ ready_at p ↦ ground arith | q ↦ ground arith ];
    bits = λ p. ground arith;
  };
  prios = λ u. ground arith;
}

abbrev reached : Run Kernel → Kernel
reached (ok k) = k
reached panic = busy

process_pfault-IsWell_example : IsWell (reached (process_pfault faulting 100 3 0x4000 2 0x1234))
unfolding process_pfault do_pfault_ipc set_state leave enter return_prio add_ready del_ready
    contains remove switch_to context_switch
process_pfault-IsWell_example =
    process_pfault-IsWell faulting _ 100 3 0x4000 2 0x1234 faulting-IsWell refl

process_exception-IsWell_example : IsWell (reached (process_exception faulting 100 3 1020 0))
unfolding process_exception find_exc_handler do_exc_ipc set_state leave enter return_prio add_ready
    del_ready contains remove switch_to context_switch find find_number Thrid.is_global
    Thrid.is_single Thrid.number Thrid.create_global
process_exception-IsWell_example =
    process_exception-IsWell faulting _ 100 3 1020 0 faulting-IsWell refl

-- Thread 5 waits to send to thread 4.
abbrev posted : Kernel
posted = record busy {
  threads = update busy.threads 5 (record (sleeper 5) {
    state = send_ipc;
    timeout = never;
    ipc_to = Thrid.create_global 132 2;
  });
  send_threads = 5 ∷ [];
}

find_sender-best_example : Reaches posted 4 Thrid.any (some 5) (prio_max (posted.threads 5))
unfolding find_sender find_highest_prio_sender find_highest_from choose is_good_sender_for
    is_addressed virtual_sender is_accepted is_better is_known_locally find contains prio_max
    Thrid.is_global Thrid.is_local Thrid.is_single MsgTag.propagated Thrid.create_global
find_sender-best_example =
    find_sender-best posted 4 Thrid.any 5 refl refl refl (refl, (5, false), refl, refl)

copy_message-delivers_example :
    (((copy_message meeting 3 4 false false).threads 4).mr 1 ≡ 11)
    × (((copy_message meeting 3 4 false false).threads 4).frame syscall_i0
        ≡ Thrid.create_global 131 2)
    × (((copy_message meeting 3 4 false false).threads 4).sender ≡ Thrid.nil)
    × ((copy_message meeting 3 4 false false).threads 9 ≡ sleeper 9)
unfolding MsgTag.untyped MsgTag.set_ipc
copy_message-delivers_example = copy_message-delivers meeting 3 4 9 1 false false (omega arith)
