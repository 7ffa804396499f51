-- ===== src/Tests/KernelTests.antt =====
-- krn/: tests and examples.
use wrmos.Base.{
  update, ℕ, ◌+◌, ◌*◌, ◌≡◌, refl, true, false, [], ◌∷◌, some, arith, count, contains, ok,
}
use wrmos.L4.Thrid
use wrmos.Containers.Bitmap.{new_bitmap}
use wrmos.Kernel.State.{inactive, ready, receive_ipc, Thread, Kernel, timeslice_usec}
use wrmos.Kernel.Queues.{add_rcv_timeout_waiting, add_timeout_waiting, insert_by_timeout}
use wrmos.Kernel.Prio.{return_prio}
use wrmos.Kernel.Queues.Placed.{ready_at}
use wrmos.Kernel.Transition.{set_state, leave, enter}
use wrmos.Kernel.Transition.Well.{IsWell}
use wrmos.Kernel.Transition.Keeps.{
  set_state-IsWell, Arrives, set_state_total, Reprioritises, set_prio_total,
}
use wrmos.Kernel.Sched.{
  get_highest_prio_ready_thread, find_word, find_bit, any_bit, pick_from, timeslice_expired,
  move_to_end,
}
use wrmos.Kernel.Sched.Highest.{FindsReady, get_highest-FindsReady}

abbrev pub sleeper : ℕ → Thread
sleeper u = record {
  globid = Thrid.create_global (u + 128) 2;
  localid = 0x1000 + 0x200 * u;
  task = 1;
  pagerid = Thrid.create_global 129 2;
  schedid = Thrid.create_global 129 2;
  pager = some 1;
  sched = some 1;
  utcb_global_id = 0;
  state = inactive;
  timeout = 0;
  ipc_to = Thrid.nil;
  ipc_from_spec = Thrid.nil;
  pf_addr = 0;
  pf_inst = 0;
  pf_access = 0;
  exc_type = 0;
  exc_pf = 0;
  mr = λ _. 0;
  br = λ _. 0;
  error = 0;
  sender = Thrid.nil;
  exception_handler = Thrid.nil;
  user_defined_handle = 0;
  flags = 0;
  fpu_in_use = false;
  entry_type = 1;
  utcb_kva = 0xa000 + 0x1000 * u;
  utcb_pa = 0x40000 + 0x1000 * u;
  frame = λ _. 0;
  prio = 10;
  inherited_prios = [];
  prio_heir = Thrid.nil;
  signal_pending = false;
  timeslice_point = 0;
  timeslice = 0;
}

-- Nobody is ready.
abbrev pub quiet : Kernel
quiet = record {
  int_threads = λ _. record { handler = Thrid.nil; pending = false };
  calls = [];
  threads = sleeper;
  ready_bits = λ _ _. false;
  ready_threads = λ _. [];
  send_threads = [];
  timeout_waiting_snd = [];
  timeout_waiting_rcv = [];
  current = 0;
  tasks = λ _. record {
    kip_area = 0;
    utcb_area = 0;
    utcbs_bitmap = new_bitmap;
    redirector = Thrid.nil;
  };
  used_tasks = 1 ∷ [];
  free_tasks = 2 ∷ 3 ∷ [];
}

-- Thread 3 is ready, at the priority 10.
abbrev pub busy : Kernel
busy = record quiet {
  threads = update sleeper 3 (record (sleeper 3) { state = ready });
  ready_bits = update (λ _ _. false) 0 (update (λ _. false) 10 true);
  ready_threads = update (λ _. []) 10 (3 ∷ []);
}

pub quiet-IsWell : IsWell quiet
unfolding count
quiet-IsWell = record {
  placed = record { counts = λ u. elim [ ready_at p ↦ refl | q ↦ refl ]; bits = λ p. refl };
  prios = λ u. omega arith;
}

busy-IsWell : IsWell busy
unfolding count
busy-IsWell = record {
  placed = record {
    counts = λ u. elim [ ready_at p ↦ ground arith | q ↦ ground arith ];
    bits = λ p. ground arith;
  };
  prios = λ u. ground arith;
}

-- Thread 3 is scheduled, with a new timeslice.
schedules_busy :
    get_highest_prio_ready_thread busy
    ≡ ok (
      record busy {
        threads = update busy.threads 3 (record (busy.threads 3) { timeslice = timeslice_usec });
        ready_threads = update busy.ready_threads 10 (3 ∷ []);
      },
      3,
    )
unfolding get_highest_prio_ready_thread find_word find_bit any_bit pick_from timeslice_expired
    move_to_end
schedules_busy = refl

set_state_total_example : Arrives quiet 4 ready
set_state_total_example = set_state_total quiet 4 ready quiet-IsWell refl refl

set_state-IsWell_example : IsWell (record quiet {
  threads = update sleeper 4 (record (sleeper 4) { state = receive_ipc });
  timeout_waiting_rcv = 4 ∷ [];
})
unfolding set_state leave enter return_prio add_rcv_timeout_waiting add_timeout_waiting
    insert_by_timeout contains
set_state-IsWell_example = set_state-IsWell quiet _ 4 receive_ipc quiet-IsWell refl

set_prio_total_example : Reprioritises busy 3 77
set_prio_total_example = set_prio_total busy 3 77 busy-IsWell (omega arith)

get_highest-FindsReady_example : FindsReady busy 10
get_highest-FindsReady_example =
    get_highest-FindsReady busy 3 busy-IsWell (λ prio. ground arith) refl
