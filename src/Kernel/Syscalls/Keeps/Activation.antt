-- ===== src/Kernel/Syscalls/Keeps/Activation.antt =====
-- krn/syscalls.cpp: the lists of threads while a thread is made and activated.
use wrmos.Base.{
  ℕ, ◌≤◌, ◌-◌, ◌+◌, ◌*◌, ◌%◌, ◌^◌, leb, refl, not, ◌&&◌, Option, none, some, ◌==◌, ok, wassert,
  Ensures, returns, Ensures-bind, Ensures-skip,
}
use wrmos.L4.Thrid
use wrmos.L4.Fpage
use wrmos.Kernel.State.{
  is, idle, inactive, active, Kernel, set_thread, prio_max_value, map_utcb, kmap_utcb,
  thread_number_min, thread_number_max,
}
use wrmos.Kernel.Transition.{set_state, set_prio}
use wrmos.Kernel.Transition.Well.{IsWell}
use wrmos.Kernel.Ipc.Send.{call}
use wrmos.Containers.Bitmap.{getfree}
use wrmos.Kernel.Task.{page_sz, is_configured, set_task, alloc_utcb_uspace}
use wrmos.Kernel.Syscalls.Frame.{Spaces, minus_one}
use wrmos.Kernel.Syscalls.Threads.{
  is_active, create_thread, set_utcb_location, utcb_if_need, activate,
}
use wrmos.Kernel.Syscalls.Keeps.{
  KeepsWell, edit-IsWell, set_state-KeepsWell, set_prio-KeepsWell, after, next_pair, both, PairWell,
  call-IsWell, set_task-IsWell,
}

pub create_thread-PairWell :
    (k : Kernel) (globid sched pager tsk prio : ℕ)
    → IsWell k
    → prio ≤ prio_max_value
    → Ensures (PairWell {A = ℕ}) (create_thread k globid sched pager tsk prio)
unfolding create_thread
create_thread-PairWell k globid sched pager tsk prio w small =
    let t = Thrid.number globid - thread_number_min in
    let k₁ =
      set_thread k t
        (record (k.threads t) { task = tsk; globid = globid; schedid = sched; pagerid = pager }) in
    Ensures-skip PairWell
      (wassert (
        leb thread_number_min (Thrid.number globid) && leb (Thrid.number globid) thread_number_max))
      λ _ _. Ensures-skip PairWell (wassert (is (k.threads t).state idle)) λ _ _.
        Ensures-bind IsWell PairWell (set_prio k₁ t prio)
          (set_prio-KeepsWell k₁ t prio (edit-IsWell t _ refl refl refl w) small)
          λ k₂ w₂.
            Ensures-bind IsWell PairWell (set_state k₂ t inactive)
              (set_state-KeepsWell k₂ t inactive w₂) λ k₃ w₃. returns (k₃, t) w₃

set_utcb_location-KeepsWell :
    (sp : Spaces) (k : Kernel) (cur t utcb : ℕ)
    → IsWell k
    → KeepsWell (set_utcb_location sp k cur t utcb)
unfolding set_utcb_location
set_utcb_location-KeepsWell sp k cur t utcb w =
    let pa = sp.walk k.calls (k.threads cur).task utcb page_sz in
    let th = record (k.threads t) { utcb_pa = pa; utcb_kva = sp.kmap_utcb k.calls pa } in
    after (wassert (not (pa == 0))) λ _. after (wassert (not (is_active (k.threads t)))) λ _.
      after (wassert (not (sp.kmap_utcb k.calls pa == 0))) λ _.
        returns _
          (call-IsWell {k = set_thread k t th} (kmap_utcb pa) (edit-IsWell t th refl refl refl w))

pub utcb_if_need-KeepsWell :
    (sp : Spaces) (k : Kernel) (cur t utcb : ℕ)
    → IsWell k
    → KeepsWell (utcb_if_need sp k cur t utcb)
utcb_if_need-KeepsWell sp k cur t utcb w =
    both (not (utcb == minus_one)) (set_utcb_location-KeepsWell sp k cur t utcb w) (returns k w)

allocated-PairWell :
    (k : Kernel) (base : ℕ) (rc : Option ℕ)
    → IsWell k
    → Ensures
        (PairWell {A = ℕ})
        (elim rc [ none ↦ ok (k, 0) | some pos ↦ ok (k, (base + pos * page_sz) % 2 ^ 32) ])
allocated-PairWell k base none w = returns (k, 0) w
allocated-PairWell k base (some pos) w = returns (k, (base + pos * page_sz) % 2 ^ 32) w

alloc-PairWell :
    (k : Kernel) (t : ℕ) → IsWell k → Ensures (PairWell {A = ℕ}) (alloc_utcb_uspace k t)
unfolding alloc_utcb_uspace
alloc-PairWell k t w =
    let task = k.tasks t in
    let k₁ = set_task k t (record task { utcbs_bitmap = (getfree task.utcbs_bitmap).0 }) in
    Ensures-skip PairWell
      (wassert (not (Fpage.addr task.utcb_area == 0) && not (Fpage.size task.utcb_area == 0)))
      λ _ _.
        allocated-PairWell k₁ (Fpage.addr task.utcb_area) (getfree task.utcbs_bitmap).1
          (set_task-IsWell k₁.tasks w)

pub activate-KeepsWell : (k : Kernel) (t : ℕ) → IsWell k → KeepsWell (activate k t)
unfolding activate
activate-KeepsWell k t w = after (wassert (not (is_active (k.threads t)))) λ _.
    after (wassert (not ((k.threads t).utcb_pa == 0))) λ _.
      after (wassert (not ((k.threads t).task == 0))) λ _.
        after (wassert (is_configured (k.tasks (k.threads t).task))) λ _.
          next_pair (alloc_utcb_uspace k (k.threads t).task) (alloc-PairWell k (k.threads t).task w)
            λ x w₁. after (wassert (not (x.1 == 0))) λ _.
              let k₂ = call x.0 (map_utcb (k.threads t).task x.1 (k.threads t).utcb_pa) in
              set_state-KeepsWell (set_thread k₂ t (record (k₂.threads t) { localid = x.1 })) t
                active
                (edit-IsWell {k = k₂} t _ refl refl refl
                  (call-IsWell (map_utcb (k.threads t).task x.1 (k.threads t).utcb_pa) w₁))
