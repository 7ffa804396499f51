-- ===== src/Tests/SchedTests.antt =====
-- krn/threads.h: a ready list that holds all threads.
use wrmos.Base.{
  update, ℕ, zero, suc, ◌≤◌, ◌≡◌, ◌↔◌, refl, true, false, List, [], ◌∷◌, arith, count, length, ltb,
  if◌then◌else◌, panic,
}
use wrmos.Kernel.State.{ready, inactive, Kernel, threads_max}
use wrmos.Kernel.Queues.Placed.{ready_at}
use wrmos.Kernel.Transition.Well.{IsWell}
use wrmos.Kernel.Sched.{timeslice_expired}
use wrmos.Kernel.Sched.Full.{timeslice_expired-stops_iff}
use wrmos.Tests.KernelTests.{sleeper, quiet}

-- The numbers below `n`.
abbrev below : ℕ → List ℕ
below zero = []
below (suc n) = n ∷ below n

count-below : (u n : ℕ) → count u (below n) ≡ (if ltb u n then 1 else 0)
unfolding count
count-below u zero = ground arith
count-below u (suc n) = ground (arith, count-below u n)

-- The threads of all slots are ready, at the priority 10, at the end of their timeslices.
abbrev crowded : Kernel
crowded = record quiet {
  threads = λ u. record (sleeper u) { state = if ltb u threads_max then ready else inactive };
  ready_bits = update (λ _ _. false) 0 (update (λ _. false) 10 true);
  ready_threads = update (λ _. []) 10 (below threads_max);
}

crowded-IsWell : IsWell crowded
unfolding count
crowded-IsWell = record {
  placed = record {
    counts =
        λ u. elim [ ready_at p ↦ ground (arith, count-below u threads_max) | q ↦ ground arith ];
    bits = λ p. ground arith;
  };
  prios = λ u. omega arith;
}

timeslice_expired-stops_iff_example :
    (timeslice_expired crowded 3 10 ≡ panic) ↔ (threads_max ≤ length (crowded.ready_threads 10))
unfolding count
timeslice_expired-stops_iff_example =
    timeslice_expired-stops_iff crowded 3 10 crowded-IsWell (omega arith) refl
