-- ===== src/Kernel/Syscalls/Threads/Deletes.antt =====
-- krn/syscalls.cpp: what `syscall_thread_control` does to a thread whose local id is still the -1 that the
-- constructor of its slot gave it, and to one whose new space does not exist.
use wrmos.Base.{
  ℕ, ◌-◌, ◌/◌, ◌≤◌, ◌≡◌, refl, ap, ◌∙◌, inl, inr, true, false, not, ◌&&◌, none, some, arith, ◌==◌,
  leb, if◌then◌else◌, Bool-cases, ==_refl, Run, ok, panic, ◌>>=◌, wassert,
}
use wrmos.L4.Thrid
use wrmos.L4.Fpage
use wrmos.Containers.Bitmap.{clear}
use wrmos.Kernel.State.{Kernel, set_thread, find_number, find}
use wrmos.Kernel.ThreadIds.{thrid_is_int, thrid_is_global_user}
use wrmos.Kernel.Task.{page_sz, free_utcb_uspace}
use wrmos.Kernel.Syscalls.Frame.{minus_one, reg, set_result, is_privileged, Spaces}
use wrmos.Kernel.Syscalls.Threads.{
  is_active, activate, Args, modify_thread, control_modify, free_utcb_kspace, control_delete,
  control_thread, thread_control_args, syscall_thread_control,
}

-- A privileged caller names the thread `t`.
pub record Names (k : Kernel) (cur t : ℕ) : Type 0 where
  pub privileged : is_privileged (k.threads cur).globid ≡ true
  pub no_int : thrid_is_int (reg (k.threads cur) 0) ≡ false
  pub user : thrid_is_global_user (reg (k.threads cur) 0) ≡ true
  pub there : find_number (set_result k cur 0) (Thrid.number (reg (k.threads cur) 0)) ≡ some t

thread_control-eq :
    (sp : Spaces) (timer_irq : ℕ) (k : Kernel) (cur t : ℕ)
    → Names k cur t
    → syscall_thread_control sp timer_irq k cur
      ≡ control_thread sp (set_result k cur 0) cur (thread_control_args (k.threads cur)) (some t)
unfolding syscall_thread_control thread_control_args
thread_control-eq sp timer_irq k cur t n = rw (n.privileged, n.no_int, n.user, n.there) refl

-- The slot behind the UTCB area that the local id -1 stands for.
abbrev pub nowhere : Kernel → ℕ → ℕ
nowhere k tsk = (minus_one - Fpage.addr (k.tasks tsk).utcb_area) / page_sz

stuck {ℓ} :
    {A : Type ℓ} (m : Run A) {f : A → Run Kernel} → ((a : A) → f a ≡ panic) → (m >>= f) ≡ panic
stuck (ok a) h = h a
stuck panic h = refl

free_utcb_uspace-panic :
    (k : Kernel) (tsk : ℕ)
    → (k.tasks tsk).utcbs_bitmap.capacity ≤ nowhere k tsk
    → free_utcb_uspace k tsk minus_one ≡ panic
unfolding free_utcb_uspace clear
free_utcb_uspace-panic k tsk h =
    let past : leb (k.tasks tsk).utcbs_bitmap.capacity (nowhere k tsk) ≡ true = ground arith in
    stuck
      (wassert (
        not (Fpage.addr (k.tasks tsk).utcb_area == 0)
        && not (Fpage.size (k.tasks tsk).utcb_area == 0)))
      λ _. stuck (wassert (leb (Fpage.addr (k.tasks tsk).utcb_area) minus_one)) λ _. rw past refl

free_utcb_kspace-same :
    (k : Kernel) (t : ℕ)
    → ((free_utcb_kspace k t).tasks ≡ k.tasks)
      × (((free_utcb_kspace k t).threads t).task ≡ (k.threads t).task)
      × (((free_utcb_kspace k t).threads t).localid ≡ (k.threads t).localid)
unfolding free_utcb_kspace
free_utcb_kspace-same k t = elim (Bool-cases ((k.threads t).utcb_kva == 0)) [
  | inl e ↦ rw e (refl, refl, refl)
  | inr e ↦ rw e (refl, rw (==_refl t) refl, rw (==_refl t) refl)
]

control_delete-panic :
    (k : Kernel) (cur dst t : ℕ)
    → (k.threads t).localid ≡ minus_one
    → (k.tasks (k.threads t).task).utcbs_bitmap.capacity ≤ nowhere k (k.threads t).task
    → control_delete k cur dst t ≡ panic
unfolding control_delete
control_delete-panic k cur dst t e h =
    let k₁ = free_utcb_kspace k t in
    let (ts, tk, lid) = free_utcb_kspace-same k t in
    stuck (wassert (not ((k₁.threads t).task == 0)))
      λ _. rw (lid ∙ e, free_utcb_uspace-panic k₁ (k₁.threads t).task (rw (ts, tk) h)) refl

set_result-same :
    (k : Kernel) (cur v t : ℕ)
    → (((set_result k cur v).threads t).task ≡ (k.threads t).task)
      × (((set_result k cur v).threads t).localid ≡ (k.threads t).localid)
      × (((set_result k cur v).threads t).state ≡ (k.threads t).state)
set_result-same k cur v t = elim (Bool-cases (cur == t)) [
  | inl e ↦ rw e (
    ground (arith, ap k.threads {x = cur} {y = t}),
    ground (arith, ap k.threads {x = cur} {y = t}),
    ground (arith, ap k.threads {x = cur} {y = t}),
  )
  | inr e ↦ rw e (refl, refl, refl)
]

-- A privileged call that deletes a thread whose local id is -1 stops the kernel, where the UTCB area of the
-- thread's task has no slot for that id: the check that a slot has been freed, or one before it, fails.
pub delete_unmapped-panic :
    (sp : Spaces) (timer_irq : ℕ) (k : Kernel) (cur t : ℕ)
    → Names k cur t
    → Thrid.is_nil (reg (k.threads cur) 1) ≡ true
    → (k.threads t).localid ≡ minus_one
    → (k.tasks (k.threads t).task).utcbs_bitmap.capacity ≤ nowhere k (k.threads t).task
    → syscall_thread_control sp timer_irq k cur ≡ panic
unfolding control_thread thread_control_args
delete_unmapped-panic sp timer_irq k cur t n z e h =
    let k₁ = set_result k cur 0 in
    let (tk, lid, _) = set_result-same k cur 0 t in
    thread_control-eq sp timer_irq k cur t n
    ∙ rw z (control_delete-panic k₁ cur (reg (k.threads cur) 0) t (lid ∙ e) (rw tk h))

-- The thread has no task, and the caller is told that all went well.
abbrev pub LosesTask : Spaces → ℕ → Kernel → ℕ → ℕ → Type 0
LosesTask sp timer_irq k cur t =
    (k' : Kernel) × (syscall_thread_control sp timer_irq k cur ≡ ok k')
    × ((k'.threads t).task ≡ 0)
    × (reg (k'.threads cur) 0 ≡ 1)

-- The kernel that `modify_thread` leaves, before the result.
abbrev unlinked : Kernel → Args → ℕ → Kernel
unlinked k a t =
    let th = k.threads t in
    let k₁ = set_thread k t (record th {
      globid = a.dst;
      schedid = if not (Thrid.is_nil a.sched) then a.sched else th.schedid;
    }) in
    set_thread k₁ t (record (k₁.threads t) { task = 0 })

unlinked-task : (k : Kernel) (a : Args) (t : ℕ) → ((unlinked k a t).threads t).task ≡ 0
unlinked-task k a t = rw (==_refl t) refl

unlinked-active :
    (k : Kernel) (a : Args) (t : ℕ)
    → is_active (k.threads t) ≡ true
    → is_active ((unlinked k a t).threads t) ≡ true
unlinked-active k a t act = rw (==_refl t) act

abbrev with_pager : Kernel → Args → ℕ → Kernel
with_pager k a t = set_thread k t (record (k.threads t) { pagerid = a.pager })

with_pager-task :
    (k : Kernel) (a : Args) (t : ℕ)
    → (k.threads t).task ≡ 0
    → ((with_pager k a t).threads t).task ≡ 0
with_pager-task k a t z = rw (==_refl t) z

with_pager-active :
    (k : Kernel) (a : Args) (t : ℕ)
    → is_active (k.threads t) ≡ true
    → is_active ((with_pager k a t).threads t) ≡ true
with_pager-active k a t act = rw (==_refl t) act

result_after :
    (k : Kernel) (cur t : ℕ)
    → (k.threads t).task ≡ 0
    → (((set_result k cur 1).threads t).task ≡ 0) × (reg ((set_result k cur 1).threads cur) 0 ≡ 1)
result_after k cur t z =
    (let (tk, _, _) = set_result-same k cur 1 t in tk ∙ z, rw (==_refl cur) refl)

-- The last steps of `modify_thread`.
pager_then : Kernel → ℕ → Args → ℕ → Run Kernel
pager_then k cur a t =
    (if not (Thrid.is_nil a.pager)
      then (let k' = with_pager k a t in
          if not (is_active (k'.threads t)) then activate k' t else ok k')
      else ok k)
    >>= λ k₄. ok (set_result k₄ cur 1)

pager_then-ok :
    (k : Kernel) (cur : ℕ) (a : Args) (t : ℕ)
    → is_active (k.threads t) ≡ true
    → (k.threads t).task ≡ 0
    → (k' : Kernel) × (pager_then k cur a t ≡ ok k')
      × ((k'.threads t).task ≡ 0)
      × (reg (k'.threads cur) 0 ≡ 1)
unfolding pager_then
pager_then-ok k cur a t act z = elim (Bool-cases (Thrid.is_nil a.pager)) [
  | inl e ↦ let (tk, r) = result_after k cur t z in (set_result k cur 1, rw e refl, tk, r)
  | inr e ↦
      let (tk, r) = result_after (with_pager k a t) cur t (with_pager-task k a t z) in
      (set_result (with_pager k a t) cur 1, rw e (rw (with_pager-active k a t act) refl), tk, r)
]

modify_thread-eq :
    (sp : Spaces) (k : Kernel) (cur : ℕ) (a : Args) (t : ℕ)
    → a.utcb ≡ minus_one
    → modify_thread sp k cur a t 0 ≡ pager_then (unlinked k a t) cur a t
unfolding modify_thread pager_then
modify_thread-eq sp k cur a t u = rw u refl

modified :
    (sp : Spaces) (k : Kernel) (cur : ℕ) (a : Args) (t : ℕ)
    → is_active (k.threads t) ≡ true
    → a.utcb ≡ minus_one
    → (k' : Kernel) × (modify_thread sp k cur a t 0 ≡ ok k')
      × ((k'.threads t).task ≡ 0)
      × (reg (k'.threads cur) 0 ≡ 1)
modified sp k cur a t act u =
    let (k', e, z, r) =
      pager_then-ok (unlinked k a t) cur a t (unlinked-active k a t act) (unlinked-task k a t) in
    (k', modify_thread-eq sp k cur a t u ∙ e, z, r)

control_modify-eq :
    (sp : Spaces) (k : Kernel) (cur : ℕ) (a : Args) (t : ℕ)
    → find k a.space ≡ ok none
    → is_active (k.threads t) ≡ true
    → a.utcb ≡ minus_one
    → control_modify sp k cur a t ≡ modify_thread sp k cur a t 0
unfolding control_modify
control_modify-eq sp k cur a t f act u = elim (Bool-cases (Thrid.is_nil a.pager)) [
  | inl e ↦ rw (f, ◌>>=◌, e) (rw (act, u) refl)
  | inr e ↦ rw (f, ◌>>=◌, e) (rw (act, u) refl)
]

-- A privileged call that names an active thread and a space that does not exist, and leaves the UTCB where it
-- is, does not fail: the thread is left without a task, and the result says success.
pub modify_unknown-LosesTask :
    (sp : Spaces) (timer_irq : ℕ) (k : Kernel) (cur t : ℕ)
    → Names k cur t
    → Thrid.is_nil (reg (k.threads cur) 1) ≡ false
    → find (set_result k cur 0) (reg (k.threads cur) 1) ≡ ok none
    → reg (k.threads cur) 4 ≡ minus_one
    → is_active (k.threads t) ≡ true
    → LosesTask sp timer_irq k cur t
unfolding control_thread thread_control_args
modify_unknown-LosesTask sp timer_irq k cur t n z f u act =
    let k₁ = set_result k cur 0 in
    let a = thread_control_args (k.threads cur) in
    let (_, _, st) = set_result-same k cur 0 t in
    let (k', e, no_task, one) = modified sp k₁ cur a t (rw st act) u in
    (
      k',
      thread_control-eq sp timer_irq k cur t n
          ∙ rw z (control_modify-eq sp k₁ cur a t f (rw st act) u)
          ∙ e,
      no_task,
      one,
    )
