-- ===== src/Tests/TimeoutTests.antt =====
-- krn/threads.h: tests and examples of the timeouts.
use wrmos.Base.{
  update, ℕ, ◌≡◌, refl, [], ◌∷◌, Option, some, none, arith, count, contains, remove, Run, ok, panic,
}
use wrmos.L4.Thrid
use wrmos.Kernel.State.{send_ipc, receive_ipc, Kernel}
use wrmos.Kernel.Queues.{
  add_ready, del_rcv_timeout_waiting, del_snd_timeout_waiting, del_timeout_waiting,
  add_rcv_timeout_waiting, add_timeout_waiting, insert_by_timeout,
}
use wrmos.Kernel.Queues.Placed.{ready_at}
use wrmos.Kernel.Prio.{return_prio}
use wrmos.Kernel.Transition.{set_state, leave, enter}
use wrmos.Kernel.Transition.Well.{IsWell}
use wrmos.Kernel.Timeouts.{check_ipc_timeouts, expire_list, pick_next}
use wrmos.Kernel.Timeouts.Timed.{IsTimely, set_state-IsTimely}
use wrmos.Kernel.Timeouts.Expired.{WakesExpired, check_ipc_timeouts-WakesExpired}
use wrmos.Tests.KernelTests.{sleeper, quiet}

-- Thread 3 waits for a message till 100, thread 4 for a receiver till 500.
abbrev pub dozing : Kernel
dozing = record quiet {
  threads =
      update
        (update sleeper 3 (record (sleeper 3) {
          state = receive_ipc;
          timeout = 100;
          ipc_from_spec = Thrid.create_global 132 2;
        }))
        4
        (record (sleeper 4) {
          state = send_ipc;
          timeout = 500;
          ipc_to = Thrid.create_global 140 2;
        });
  timeout_waiting_rcv = 3 ∷ [];
  timeout_waiting_snd = 4 ∷ [];
}

dozing-IsWell : IsWell dozing
unfolding count
dozing-IsWell = record {
  placed = record {
    counts = λ u. elim [ ready_at p ↦ ground arith | q ↦ ground arith ];
    bits = λ p. ground arith;
  };
  prios = λ u. ground arith;
}

dozing-IsTimely : IsTimely dozing
dozing-IsTimely = record { snd = (tt, tt); rcv = (tt, tt) }

-- At 200 thread 3 is the one that is woken.
check_ipc_timeouts-WakesExpired_example : WakesExpired dozing 200
check_ipc_timeouts-WakesExpired_example =
    check_ipc_timeouts-WakesExpired dozing 200 dozing-IsWell dozing-IsTimely (λ u e. ground arith)

abbrev woken_next : Run (Kernel × Option ℕ) → Option ℕ
woken_next (ok (k, next)) = next
woken_next panic = none

wakes_three : woken_next (check_ipc_timeouts dozing 200) ≡ some 3
unfolding check_ipc_timeouts expire_list pick_next set_state leave enter return_prio
    del_rcv_timeout_waiting del_timeout_waiting add_ready contains remove
wakes_three = refl

-- Thread 4 takes its message after all, and leaves the list.
set_state-IsTimely_example : IsTimely (record dozing {
  threads = update dozing.threads 4 (record (dozing.threads 4) { state = receive_ipc });
  timeout_waiting_snd = [];
  timeout_waiting_rcv = 3 ∷ 4 ∷ [];
})
unfolding set_state leave enter return_prio add_rcv_timeout_waiting del_snd_timeout_waiting
    del_timeout_waiting add_timeout_waiting insert_by_timeout contains remove
set_state-IsTimely_example =
    set_state-IsTimely dozing _ 4 receive_ipc dozing-IsWell dozing-IsTimely refl
