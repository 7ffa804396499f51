-- ===== src/Kernel/Syscalls/Threads.antt =====
-- krn/syscalls.cpp, krn/threads.h, krn/thread.h: `syscall_thread_control`, and how a thread is made, activated and
-- removed.
pub mod Deletes
use wrmos.Base.{
  update, ℕ, ◌-◌, ◌%◌, ◌^◌, Bool, true, false, not, ◌&&◌, ◌||◌, Option, none, some, ◌∷◌, ◌==◌, ltb,
  leb, if◌then◌else◌, Run, ok, panic, ◌>>=◌, ◌>>◌, wassert,
}
use wrmos.L4.Thrid
use wrmos.Kernel.State.{
  State, idle, inactive, active, is, Thread, Task, IntThread, Kernel, mask_irq, map_utcb, kmap_utcb,
  kunmap_utcb, thread_number_min, thread_number_max, ints_max, set_thread, find_number, find,
}
use wrmos.Kernel.Transition.{set_state, set_prio}
use wrmos.Kernel.ThreadIds.{thrid_is_int, thrid_is_global_user}
use wrmos.Kernel.Task.{
  is_configured, is_full, is_empty, page_sz, alloc_utcb_uspace, free_utcb_uspace, create_task,
  remove_task,
}
use wrmos.Kernel.Ipc.Send.{call}
use wrmos.Kernel.Syscalls.Frame.{minus_one, reg, set_result, set_error, is_privileged, Spaces}

-- `Thread_t::is_active`.
abbrev pub is_active : Thread → Bool
is_active th = not (is th.state inactive)

-- `Threads_t::create`.
unfoldable pub create_thread : Kernel → ℕ → ℕ → ℕ → ℕ → ℕ → Run (Kernel × ℕ)
create_thread k globid sched pager tsk prio = do
  wassert
      (leb thread_number_min (Thrid.number globid) && leb (Thrid.number globid) thread_number_max)
  let t = Thrid.number globid - thread_number_min
  wassert (is (k.threads t).state idle)
  let k₁ =
      set_thread k t
        (record (k.threads t) { task = tsk; globid = globid; schedid = sched; pagerid = pager })
  k₂ ← set_prio k₁ t prio
  k₃ ← set_state k₂ t inactive
  ok (k₃, t)

-- `utcb_location(pa)`, after the walk that finds the physical address.
unfoldable pub set_utcb_location : Spaces → Kernel → ℕ → ℕ → ℕ → Run Kernel
set_utcb_location sp k cur t utcb = do
  let pa = sp.walk k.calls (k.threads cur).task utcb page_sz
  wassert (not (pa == 0))
  wassert (not (is_active (k.threads t)))
  let kva = sp.kmap_utcb k.calls pa
  wassert (not (kva == 0))
  ok (call (set_thread k t (record (k.threads t) { utcb_pa = pa; utcb_kva = kva })) (kmap_utcb pa))

-- "set utcb_location if need"
abbrev pub utcb_if_need : Spaces → Kernel → ℕ → ℕ → ℕ → Run Kernel
utcb_if_need sp k cur t utcb =
    if not (utcb == minus_one) then set_utcb_location sp k cur t utcb else ok k

-- `Thread_t::activate`. A null task stops the model, where the code reads through the pointer.
unfoldable pub activate : Kernel → ℕ → Run Kernel
activate k t = do
  wassert (not (is_active (k.threads t)))
  wassert (not ((k.threads t).utcb_pa == 0))
  wassert (not ((k.threads t).task == 0))
  wassert (is_configured (k.tasks (k.threads t).task))
  (k₁, utcb_uva) ← alloc_utcb_uspace k (k.threads t).task
  wassert (not (utcb_uva == 0))
  let k₂ = call k₁ (map_utcb (k.threads t).task utcb_uva (k.threads t).utcb_pa)
  set_state (set_thread k₂ t (record (k₂.threads t) { localid = utcb_uva })) t active

-- The task of a thread, or null if there is no such thread.
abbrev pub task_of : Kernel → Option ℕ → ℕ
task_of k none = 0
task_of k (some t) = (k.threads t).task

-- The five arguments of the call.
pub record Args : Type 0 where
  pub dst : ℕ
  pub space : ℕ
  pub sched : ℕ
  pub pager : ℕ
  pub utcb : ℕ

-- The end of "thread creation", once the task is known.
unfoldable pub create_in : Spaces → Kernel → ℕ → Args → ℕ → Run Kernel
create_in sp k cur a tsk = do
  (k₁, t) ← create_thread k a.dst a.sched a.pager tsk (k.threads cur).prio
  k₂ ← utcb_if_need sp k₁ cur t a.utcb
  k₃ ← if not (Thrid.is_nil a.pager) then activate k₂ t else ok k₂
  ok (set_result k₃ cur 1)

-- "thread creation"
unfoldable pub control_create : Spaces → Kernel → ℕ → Args → Run Kernel
control_create sp k cur a =
    if Thrid.is_nil a.sched
    then ok (set_error k cur 4)
    else if a.dst == a.space && not (Thrid.is_nil a.pager)
    then ok (set_error k cur 3)
    else if a.dst == a.space
    then (do (k₁, tsk) ← create_task k; create_in sp k₁ cur a tsk)
    else (do
      space_thr ← find k a.space
      let tsk = task_of k space_thr
      if not (Thrid.is_nil a.pager)
            && (tsk == 0 || not (is_configured (k.tasks tsk)) || is_full (k.tasks tsk))
          then ok (set_error k cur 3)
          else create_in sp k cur a tsk)

-- The end of "thread modification", behind its checks.
unfoldable pub modify_thread : Spaces → Kernel → ℕ → Args → ℕ → ℕ → Run Kernel
modify_thread sp k cur a t tsk = do
  let th = k.threads t
  let k₁ = set_thread k t (record th {
    globid = a.dst;
    schedid = if not (Thrid.is_nil a.sched) then a.sched else th.schedid;
  })
  k₂ ← utcb_if_need sp k₁ cur t a.utcb
  let k₃ = set_thread k₂ t (record (k₂.threads t) { task = tsk })
  k₄ ←
      if not (Thrid.is_nil a.pager)
      then (let k' = set_thread k₃ t (record (k₃.threads t) { pagerid = a.pager }) in
          if not (is_active (k'.threads t)) then activate k' t else ok k')
      else ok k₃
  ok (set_result k₄ cur 1)

-- "thread modification"
unfoldable pub control_modify : Spaces → Kernel → ℕ → Args → ℕ → Run Kernel
control_modify sp k cur a t = do
  space_thr ← find k a.space
  let tsk = task_of k space_thr
  if not (Thrid.is_nil a.pager)
        && not (is_active (k.threads t))
        && (tsk == 0 || not (is_configured (k.tasks tsk)))
      then ok (set_error k cur 3)
      else if not (a.utcb == minus_one) && is_active (k.threads t)
      then ok (set_error k cur 6)
      else modify_thread sp k cur a t tsk

-- `Thread_t::free_utcb_kspace`.
unfoldable pub free_utcb_kspace : Kernel → ℕ → Kernel
free_utcb_kspace k t =
    if not ((k.threads t).utcb_kva == 0)
    then call (set_thread k t (record (k.threads t) { utcb_pa = 2 ^ 64 - 1; utcb_kva = minus_one }))
        (kunmap_utcb (k.threads t).utcb_kva)
    else k

-- `Threads_t::remove`.
unfoldable pub remove_thread : Kernel → ℕ → Run Kernel
remove_thread k globid = do
  wassert
      (leb thread_number_min (Thrid.number globid) && leb (Thrid.number globid) thread_number_max)
  set_state k (Thrid.number globid - thread_number_min) idle

-- "thread deletion"
unfoldable pub control_delete : Kernel → ℕ → ℕ → ℕ → Run Kernel
control_delete k cur dst t = do
  let k₁ = free_utcb_kspace k t
  let tsk = (k₁.threads t).task
  wassert (not (tsk == 0))
  k₂ ← free_utcb_uspace k₁ tsk (k₁.threads t).localid
  k₃ ← remove_thread k₂ dst
  k₄ ← if is_empty (k₃.tasks tsk) then remove_task k₃ tsk else ok k₃
  ok (set_result k₄ cur 1)

-- `Int_thread_t::handler(h)`, for the interrupt that `dst` names.
unfoldable pub set_int_handler : Kernel → ℕ → ℕ → ℕ → Run Kernel
set_int_handler k cur irq h = do
  wassert (ltb irq ints_max)
  wassert (Thrid.is_nil h || thrid_is_global_user h)
  let k₁ = record k {
    int_threads = update k.int_threads irq (record { handler = h; pending = false });
  }
  ok (set_result (if Thrid.is_nil h then call k₁ (mask_irq irq) else k₁) cur 1)

-- What is to be done: the thread exists or not, and the space is nil or not.
unfoldable pub control_thread : Spaces → Kernel → ℕ → Args → Option ℕ → Run Kernel
control_thread sp k cur a none =
    if not (Thrid.is_nil a.space) then control_create sp k cur a else ok (set_error k cur 2)
control_thread sp k cur a (some t) =
    if not (Thrid.is_nil a.space) then control_modify sp k cur a t else control_delete k cur a.dst t

unfoldable pub thread_control_args : Thread → Args
thread_control_args th = record {
  dst = reg th 0;
  space = reg th 1;
  sched = reg th 2;
  pager = reg th 3;
  utcb = reg th 4;
}

-- `timer_irq` is `Cfg_krn_timer_irq`, a parameter of the board.
unfoldable pub syscall_thread_control : Spaces → ℕ → Kernel → ℕ → Run Kernel
syscall_thread_control sp timer_irq k cur = do
  let a = thread_control_args (k.threads cur)
  let k₁ = set_result k cur 0
  if not (is_privileged (k.threads cur).globid)
      then ok (set_error k₁ cur 1)
      else if thrid_is_int a.dst && not (Thrid.number a.dst == timer_irq)
      then set_int_handler k₁ cur (Thrid.number a.dst) a.pager
      else if not (thrid_is_global_user a.dst)
      then ok (set_error k₁ cur 2)
      else control_thread sp k₁ cur a (find_number k₁ (Thrid.number a.dst))
