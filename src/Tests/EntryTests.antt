-- ===== src/Tests/EntryTests.antt =====
-- krn/kentry.cpp: tests and examples of the interrupts.
use wrmos.Base.{
  update, ◌≡◌, refl, true, false, [], ◌∷◌, arith, count, contains, remove, Run, ok, panic,
}
use wrmos.L4.Thrid
use wrmos.Kernel.State.{ready, Kernel, find, find_number}
use wrmos.Kernel.Queues.{add_ready, del_rcv_timeout_waiting, del_timeout_waiting}
use wrmos.Kernel.Queues.Placed.{ready_at}
use wrmos.Kernel.Prio.{prio_max, return_prio}
use wrmos.Kernel.Transition.{set_state, leave, enter}
use wrmos.Kernel.Entry.{route_irq, deliver_irq, accepts_irq, is_irq_acceptable}
use wrmos.Kernel.Entry.Keeps.{IsLive}
use wrmos.Kernel.Entry.Ticks.{Ticks, kern_timer_tick-Ticks}
use wrmos.Kernel.Entry.Routes.{route_irq-IsLive}
use wrmos.Kernel.Entry.Tags.{route_irq-mr}
use wrmos.Tests.KernelTests.{sleeper}
use wrmos.Tests.TimeoutTests.{dozing}

-- Thread 5 runs at the end of its timeslice, thread 3 handles the interrupt 9 and waits till 100 for anything.
abbrev tended : Kernel
tended = record dozing {
  int_threads =
      update dozing.int_threads 9 (record { handler = Thrid.create_global 131 2; pending = false });
  threads =
      update (update dozing.threads 5 (record (sleeper 5) { state = ready })) 3
        (record (dozing.threads 3) { ipc_from_spec = Thrid.any });
  ready_bits = update (λ _ _. false) 0 (update (λ _. false) 10 true);
  ready_threads = update (λ _. []) 10 (5 ∷ []);
  current = 5;
}

tended-IsLive : IsLive tended
unfolding count
tended-IsLive = record {
  running = record {
    well = record {
      placed = record {
        counts = λ u. elim [ ready_at p ↦ ground arith | q ↦ ground arith ];
        bits = λ p. ground arith;
      };
      prios = λ u. ground arith;
    };
    is_ready = refl;
  };
  timely = record { snd = (tt, tt); rcv = (tt, tt) };
}

-- At 200 thread 3 is woken, and thread 7 is not in use.
kern_timer_tick-Ticks_example : Ticks tended 200
kern_timer_tick-Ticks_example =
    kern_timer_tick-Ticks tended 200 7 tended-IsLive (omega arith) refl (λ u le. ground arith)
      (λ u e. ground arith)

abbrev kernel_of : Run Kernel → Kernel → Kernel
kernel_of (ok k) other = k
kernel_of panic other = other

wakes_handler : ((kernel_of (route_irq tended 50 9) tended).threads 3).state ≡ ready
unfolding route_irq find find_number deliver_irq accepts_irq is_irq_acceptable set_state leave enter
    return_prio del_rcv_timeout_waiting del_timeout_waiting add_ready contains remove prio_max
    Thrid.is_global Thrid.number Thrid.create_global
wakes_handler = refl

route_irq-IsLive_example : IsLive (kernel_of (route_irq tended 50 9) tended)
unfolding route_irq find find_number deliver_irq accepts_irq is_irq_acceptable set_state leave enter
    return_prio del_rcv_timeout_waiting del_timeout_waiting add_ready contains remove prio_max
    Thrid.is_global Thrid.number Thrid.create_global
route_irq-IsLive_example =
    route_irq-IsLive tended (kernel_of (route_irq tended 50 9) tended) 50 9 tended-IsLive refl

route_irq-mr_example :
    ((kernel_of (route_irq tended 50 9) tended).threads 3).mr ≡ (tended.threads 3).mr
unfolding route_irq find find_number deliver_irq accepts_irq is_irq_acceptable set_state leave enter
    return_prio del_rcv_timeout_waiting del_timeout_waiting add_ready contains remove prio_max
    Thrid.is_global Thrid.number Thrid.create_global
route_irq-mr_example =
    route_irq-mr tended (kernel_of (route_irq tended 50 9) tended) 50 9 3 tended-IsLive.running.well
      refl refl refl
