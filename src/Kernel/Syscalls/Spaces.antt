-- ===== src/Kernel/Syscalls/Spaces.antt =====
-- krn/syscalls.cpp: `syscall_space_control`.
pub mod Areas
use wrmos.Base.{
  ℕ, Bool, true, false, not, ◌&&◌, ◌||◌, Option, none, some, ◌==◌, if◌then◌else◌, Run, ok, ◌>>=◌,
  ◌>>◌,
}
use wrmos.L4.Thrid
use wrmos.L4.Fpage
use wrmos.Kernel.State.{Thread, Task, Kernel, find}
use wrmos.Kernel.ThreadIds.{thrid_is_global_user}
use wrmos.Kernel.Task.{page_sz, set_task, active_threads, set_kip_area, set_utcb_area}
use wrmos.Kernel.Syscalls.Frame.{reg, set_result, set_error, is_privileged}

abbrev pub acc_rw : ℕ
acc_rw = 6

abbrev pub acc_rx : ℕ
acc_rx = 5

-- "find space"
unfoldable pub find_space : Kernel → ℕ → ℕ → Run (Option ℕ)
unfolding thrid_is_global_user Thrid.is_local
find_space k cur space =
    if thrid_is_global_user space
    then find k space
    else if Thrid.is_local space
    then ok (some cur)
    else ok none

-- "unavailable UTCB area"
unfoldable pub is_bad_utcb_area : ℕ → Bool
is_bad_utcb_area area =
    not (Fpage.is_aligned (Fpage.addr area) page_sz)
    || not (Fpage.is_aligned (Fpage.size area) page_sz)
    || not (Fpage.bit_and 32 (Fpage.access area) acc_rw == acc_rw)

-- "unavailable KIP area"
unfoldable pub is_bad_kip_area : ℕ → ℕ → Bool
is_bad_kip_area kip utcb =
    not (Fpage.is_aligned (Fpage.addr kip) page_sz)
    || not (Fpage.size kip == page_sz)
    || not (Fpage.access kip == acc_rx)
    || Fpage.is_cross kip utcb

-- The redirector, where one is given, and the mark of success.
unfoldable pub set_redirector : Kernel → ℕ → ℕ → ℕ → Kernel
set_redirector k cur tsk redirector =
    let k₁ =
      if not (Thrid.is_nil redirector)
      then set_task k tsk (record (k.tasks tsk) { redirector = redirector })
      else k in
    set_result k₁ cur 1

-- The part of `syscall_space_control` behind the search for the task.
unfoldable pub configure_space : Kernel → ℕ → ℕ → ℕ → ℕ → ℕ → Run Kernel
configure_space k cur tsk kip utcb redirector =
    if active_threads (k.tasks tsk)
    then ok (set_redirector k cur tsk redirector)
    else if is_bad_utcb_area utcb
    then ok (set_error k cur 6)
    else if is_bad_kip_area kip utcb
    then ok (set_error k cur 7)
    else (do
      k₁ ← set_kip_area k tsk kip
      k₂ ← set_utcb_area k₁ tsk utcb
      ok (set_redirector k₂ cur tsk redirector))

unfoldable pub syscall_space_control : Kernel → ℕ → Run Kernel
syscall_space_control k cur = do
  let th = k.threads cur
  let k₁ = set_result k cur 0
  if not (is_privileged th.globid) then ok (set_error k₁ cur 1) else (do
    thr ← find_space k₁ cur (reg th 0)
    elim thr [
      | none ↦ ok (set_error k₁ cur 3)
      | some t ↦
          if (k₁.threads t).task == 0
          then ok (set_error k₁ cur 3)
          else configure_space k₁ cur (k₁.threads t).task (reg th 2) (reg th 3) (reg th 4)
    ])
