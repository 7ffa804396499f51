-- ===== src/Kernel/Syscalls/Keeps/Threads.antt =====
-- krn/syscalls.cpp: the lists of threads over `syscall_thread_control`.
use wrmos.Base.{
  ◌/◌, ◌++◌, contains, remove, ltb, update, ℕ, ◌-◌, ◌^◌, leb, refl, false, not, ◌&&◌, ◌||◌, Option,
  none, some, ◌∷◌, ◌==◌, if◌then◌else◌, ok, panic, wassert, Ensures, returns, stops, if-both, List,
  [],
}
use wrmos.L4.Thrid
use wrmos.L4.Fpage
use wrmos.Kernel.State.{
  idle, Kernel, set_thread, find_number, find, kunmap_utcb, mask_irq, thread_number_min,
  thread_number_max, new_task, ints_max,
}
use wrmos.Kernel.Transition.Well.{IsWell}
use wrmos.Kernel.Ipc.Send.{call}
use wrmos.Kernel.ThreadIds.{thrid_is_int, thrid_is_global_user}
use wrmos.Containers.Bitmap.{clear}
use wrmos.Kernel.Task.{
  page_sz, is_configured, is_full, is_empty, set_task, free_utcb_uspace, create_task, remove_task,
  fresh_task,
}
use wrmos.Kernel.Syscalls.Frame.{Spaces, minus_one, set_result, is_privileged}
use wrmos.Kernel.Syscalls.Threads.{
  is_active, create_thread, utcb_if_need, activate, task_of, Args, create_in, control_create,
  modify_thread, control_modify, free_utcb_kspace, remove_thread, control_delete, set_int_handler,
  control_thread, thread_control_args, syscall_thread_control,
}
use wrmos.Kernel.Syscalls.Keeps.{
  KeepsWell, aside-IsWell, edit-IsWell, set_result-IsWell, set_error-IsWell, set_state-KeepsWell,
  after, next, next_pair, both, PairWell, call-IsWell, set_task-IsWell,
}
use wrmos.Kernel.Syscalls.Keeps.Activation.{
  create_thread-PairWell, utcb_if_need-KeepsWell, activate-KeepsWell,
}

create_in-KeepsWell :
    (sp : Spaces) (k : Kernel) (cur : ℕ) (a : Args) (tsk : ℕ)
    → IsWell k
    → KeepsWell (create_in sp k cur a tsk)
unfolding create_in
create_in-KeepsWell sp k cur a tsk w =
    next_pair (create_thread k a.dst a.sched a.pager tsk (k.threads cur).prio)
      (create_thread-PairWell k a.dst a.sched a.pager tsk (k.threads cur).prio w (w.prios cur))
      λ x w₁.
        next (utcb_if_need sp x.0 cur x.1 a.utcb) (utcb_if_need-KeepsWell sp x.0 cur x.1 a.utcb w₁)
          λ k₂ w₂.
            next (if not (Thrid.is_nil a.pager) then activate k₂ x.1 else ok k₂)
              (both (not (Thrid.is_nil a.pager)) (activate-KeepsWell k₂ x.1 w₂) (returns k₂ w₂))
              λ k₃ w₃. returns _ (set_result-IsWell cur 1 w₃)

create_task-PairWell : (k : Kernel) → IsWell k → Ensures (PairWell {A = ℕ}) (create_task k)
unfolding create_task
create_task-PairWell k w = go k.free_tasks
  where
    go :
        (l : List ℕ)
        → Ensures (PairWell {A = ℕ}) (elim l [
          | [] ↦ panic
          | t ∷ rest ↦ ok (
            record (set_task k t fresh_task) {
              used_tasks = k.used_tasks ++ t ∷ [];
              free_tasks = rest;
              calls = new_task t ∷ k.calls;
            },
            t,
          )
        ])
    go [] = stops
    go (t ∷ rest) = returns _ (
        aside-IsWell k.int_threads (new_task t ∷ k.calls) (update k.tasks t fresh_task)
          (k.used_tasks ++ t ∷ []) rest w)

control_create-KeepsWell :
    (sp : Spaces) (k : Kernel) (cur : ℕ) (a : Args)
    → IsWell k
    → KeepsWell (control_create sp k cur a)
unfolding control_create
control_create-KeepsWell sp k cur a w =
    both (Thrid.is_nil a.sched) (returns _ (set_error-IsWell cur 4 w)) (
      both (a.dst == a.space && not (Thrid.is_nil a.pager)) (returns _ (set_error-IsWell cur 3 w)) (
        both (a.dst == a.space)
          (next_pair (create_task k) (create_task-PairWell k w)
            λ x w₁. create_in-KeepsWell sp x.0 cur a x.1 w₁)
          (after (find k a.space) λ space_thr.
            both
              (not (Thrid.is_nil a.pager)
                && (task_of k space_thr == 0
                    || not (is_configured (k.tasks (task_of k space_thr)))
                    || is_full (k.tasks (task_of k space_thr))))
              (returns _ (set_error-IsWell cur 3 w))
              (create_in-KeepsWell sp k cur a (task_of k space_thr) w))))

modify_thread-KeepsWell :
    (sp : Spaces) (k : Kernel) (cur : ℕ) (a : Args) (t tsk : ℕ)
    → IsWell k
    → KeepsWell (modify_thread sp k cur a t tsk)
unfolding modify_thread
modify_thread-KeepsWell sp k cur a t tsk w =
    let k₁ = set_thread k t (record (k.threads t) {
      globid = a.dst;
      schedid = if not (Thrid.is_nil a.sched) then a.sched else (k.threads t).schedid;
    }) in
    next (utcb_if_need sp k₁ cur t a.utcb)
      (utcb_if_need-KeepsWell sp k₁ cur t a.utcb (edit-IsWell t _ refl refl refl w))
      λ k₂ w₂.
        let k₃ = set_thread k₂ t (record (k₂.threads t) { task = tsk }) in
        let w₃ : IsWell k₃ = edit-IsWell t _ refl refl refl w₂ in
        let k' = set_thread k₃ t (record (k₃.threads t) { pagerid = a.pager }) in
        let w' : IsWell k' = edit-IsWell t _ refl refl refl w₃ in
        next
          (if not (Thrid.is_nil a.pager)
            then (if not (is_active (k'.threads t)) then activate k' t else ok k')
            else ok k₃)
          (both (not (Thrid.is_nil a.pager))
            (both (not (is_active (k'.threads t))) (activate-KeepsWell k' t w') (returns k' w'))
            (returns k₃ w₃))
          λ k₄ w₄. returns _ (set_result-IsWell cur 1 w₄)

control_modify-KeepsWell :
    (sp : Spaces) (k : Kernel) (cur : ℕ) (a : Args) (t : ℕ)
    → IsWell k
    → KeepsWell (control_modify sp k cur a t)
unfolding control_modify
control_modify-KeepsWell sp k cur a t w = after (find k a.space) λ space_thr.
    both
      (not (Thrid.is_nil a.pager)
        && not (is_active (k.threads t))
        && (task_of k space_thr == 0 || not (is_configured (k.tasks (task_of k space_thr)))))
      (returns _ (set_error-IsWell cur 3 w))
      (both (not (a.utcb == minus_one) && is_active (k.threads t))
        (returns _ (set_error-IsWell cur 6 w))
        (modify_thread-KeepsWell sp k cur a t (task_of k space_thr) w))

free_utcb_kspace-IsWell : (k : Kernel) (t : ℕ) → IsWell k → IsWell (free_utcb_kspace k t)
unfolding free_utcb_kspace
free_utcb_kspace-IsWell k t w =
    let th = record (k.threads t) { utcb_pa = 2 ^ 64 - 1; utcb_kva = minus_one } in
    if-both IsWell (not ((k.threads t).utcb_kva == 0))
      (call-IsWell {k = set_thread k t th} (kunmap_utcb (k.threads t).utcb_kva)
        (edit-IsWell t th refl refl refl w))
      w

free_utcb_uspace-KeepsWell :
    (k : Kernel) (t utcb : ℕ) → IsWell k → KeepsWell (free_utcb_uspace k t utcb)
unfolding free_utcb_uspace
free_utcb_uspace-KeepsWell k t utcb w =
    let task = k.tasks t in
    after (wassert (not (Fpage.addr task.utcb_area == 0) && not (Fpage.size task.utcb_area == 0)))
      λ _. after (wassert (leb (Fpage.addr task.utcb_area) utcb)) λ _.
        after (wassert (clear task.utcbs_bitmap ((utcb - Fpage.addr task.utcb_area) / page_sz)).1)
          λ _. returns _ (set_task-IsWell _ w)

remove_task-KeepsWell : (k : Kernel) (t : ℕ) → IsWell k → KeepsWell (remove_task k t)
unfolding remove_task
remove_task-KeepsWell k t w =
    both (contains t k.used_tasks)
      (returns _
        (aside-IsWell k.int_threads k.calls k.tasks (remove t k.used_tasks) (t ∷ k.free_tasks) w))
      stops

control_delete-KeepsWell :
    (k : Kernel) (cur dst t : ℕ) → IsWell k → KeepsWell (control_delete k cur dst t)
unfolding control_delete remove_thread
control_delete-KeepsWell k cur dst t w =
    let k₁ = free_utcb_kspace k t in
    let tsk = (k₁.threads t).task in
    after (wassert (not (tsk == 0))) λ _.
      next (free_utcb_uspace k₁ tsk (k₁.threads t).localid)
        (free_utcb_uspace-KeepsWell k₁ tsk (k₁.threads t).localid (free_utcb_kspace-IsWell k t w))
        λ k₂ w₂.
          next (remove_thread k₂ dst)
            (after
              (wassert (
                leb thread_number_min (Thrid.number dst)
                && leb (Thrid.number dst) thread_number_max))
              λ _. set_state-KeepsWell k₂ (Thrid.number dst - thread_number_min) idle w₂)
            λ k₃ w₃.
              next (if is_empty (k₃.tasks tsk) then remove_task k₃ tsk else ok k₃)
                (both (is_empty (k₃.tasks tsk)) (remove_task-KeepsWell k₃ tsk w₃) (returns k₃ w₃))
                λ k₄ w₄. returns _ (set_result-IsWell cur 1 w₄)

set_int_handler-KeepsWell :
    (k : Kernel) (cur irq h : ℕ) → IsWell k → KeepsWell (set_int_handler k cur irq h)
unfolding set_int_handler
set_int_handler-KeepsWell k cur irq h w =
    let k₁ = record k {
      int_threads = update k.int_threads irq (record { handler = h; pending = false });
    } in
    let w₁ : IsWell k₁ = aside-IsWell k₁.int_threads k.calls k.tasks k.used_tasks k.free_tasks w in
    after (wassert (ltb irq ints_max)) λ _.
      after (wassert (Thrid.is_nil h || thrid_is_global_user h)) λ _. returns _ (
        set_result-IsWell cur 1 (
          if-both IsWell (Thrid.is_nil h) {x = call k₁ (mask_irq irq)} {y = k₁}
            (call-IsWell (mask_irq irq) w₁) w₁))

control_thread-KeepsWell :
    (sp : Spaces) (k : Kernel) (cur : ℕ) (a : Args) (dst_thr : Option ℕ)
    → IsWell k
    → KeepsWell (control_thread sp k cur a dst_thr)
unfolding control_thread
control_thread-KeepsWell sp k cur a none w =
    both (not (Thrid.is_nil a.space)) (control_create-KeepsWell sp k cur a w)
      (returns _ (set_error-IsWell cur 2 w))
control_thread-KeepsWell sp k cur a (some t) w =
    both (not (Thrid.is_nil a.space)) (control_modify-KeepsWell sp k cur a t w)
      (control_delete-KeepsWell k cur a.dst t w)

-- A call that makes, changes or removes a thread, or sets the handler of an interrupt, leaves the lists
-- of threads in agreement with their states, on every path that returns.
pub syscall_thread_control-KeepsWell :
    (sp : Spaces) (timer_irq : ℕ) (k : Kernel) (cur : ℕ)
    → IsWell k
    → KeepsWell (syscall_thread_control sp timer_irq k cur)
unfolding syscall_thread_control
syscall_thread_control-KeepsWell sp timer_irq k cur w =
    let a = thread_control_args (k.threads cur) in
    let k₁ = set_result k cur 0 in
    let w₁ : IsWell k₁ = set_result-IsWell cur 0 w in
    both (not (is_privileged (k.threads cur).globid)) (returns _ (set_error-IsWell cur 1 w₁)) (
      both (thrid_is_int a.dst && not (Thrid.number a.dst == timer_irq))
        (set_int_handler-KeepsWell k₁ cur (Thrid.number a.dst) a.pager w₁)
        (both (not (thrid_is_global_user a.dst)) (returns _ (set_error-IsWell cur 2 w₁))
          (control_thread-KeepsWell sp k₁ cur a (find_number k₁ (Thrid.number a.dst)) w₁)))
