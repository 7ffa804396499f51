-- ===== src/Kernel/Sched/Full.antt =====
-- krn/threads.h, lib/containers/list.h: the end of a timeslice in a ready list that has no free item.
use wrmos.Base.{
  ℕ, ◌≤◌, ◌<◌, ◌≡◌, refl, ◌↔◌, inl, inr, true, false, List, arith, Bool-cases, count, length, ltb,
  Run, ok, panic,
}
use wrmos.Kernel.State.{Kernel, threads_max}
use wrmos.Kernel.Transition.Well.{IsWell}
use wrmos.Kernel.Sched.{move_to_end, timeslice_expired}
use wrmos.Kernel.Sched.Rotate.{listed-ready, move_to_end_ok, timeslice_expired-Picks}

move_to_end-panic : (t : ℕ) (l : List ℕ) → threads_max ≤ length l → move_to_end t l ≡ panic
unfolding move_to_end
move_to_end-panic t l h =
    let more : ltb 1 (length l) ≡ true = ground arith in
    let full : ltb (length l) threads_max ≡ false = ground arith in rw (more, full) refl

returned : {r : Kernel × ℕ} {x : Run (Kernel × ℕ)} → x ≡ ok r → x ≡ panic → ⊥
returned e p = cc

-- In a kernel that is in order, the end of the timeslice of a thread of a ready list stops the kernel just
-- where the list holds as many threads as it has items: the new item is taken before the old one is given
-- back.
pub timeslice_expired-stops_iff :
    (k : Kernel) (t prio : ℕ)
    → IsWell k
    → 0 < count t (k.ready_threads prio)
    → (k.threads t).timeslice ≡ 0
    → (timeslice_expired k t prio ≡ panic) ↔ (threads_max ≤ length (k.ready_threads prio))
timeslice_expired-stops_iff k t prio w c z = (stops_full, full_stops)
  where
    stops_full : timeslice_expired k t prio ≡ panic → threads_max ≤ length (k.ready_threads prio)
    stops_full p = elim (Bool-cases (ltb (length (k.ready_threads prio)) threads_max)) [
      | inl room ↦
          let (l, m) = move_to_end_ok t (k.ready_threads prio) (ground arith) in
          let (k', f, e, _, _, _) = timeslice_expired-Picks k t prio w c z m in
          absurd (returned e p)
      | inr full ↦ ground arith
    ]

    full_stops : threads_max ≤ length (k.ready_threads prio) → timeslice_expired k t prio ≡ panic
    full_stops h =
        let (s, _) = listed-ready t prio w c in
        unfold timeslice_expired in rw (z, s, move_to_end-panic t (k.ready_threads prio) h) refl
