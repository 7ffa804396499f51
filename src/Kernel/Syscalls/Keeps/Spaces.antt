-- ===== src/Kernel/Syscalls/Keeps/Spaces.antt =====
-- krn/syscalls.cpp: the lists of threads over `syscall_space_control`, `syscall_unmap` and `syscall_memory_control`.
use wrmos.Base.{
  ℕ, zero, suc, ◌+◌, ◌%◌, ◌^◌, not, ◌&&◌, Option, none, some, ◌==◌, if◌then◌else◌, ok, wassert,
  Ensures, returns, stops, if-both, Ensures-skip, Ensures-bind,
}
use wrmos.L4.Thrid
use wrmos.L4.Fpage
use wrmos.Kernel.State.{Thread, Kernel, unmap_page, map_utcb, set_attributes, threads_max}
use wrmos.Kernel.Transition.Well.{IsWell}
use wrmos.Kernel.Ipc.Send.{call}
use wrmos.Kernel.Task.{page_sz, set_task, is_empty, active_threads, set_kip_area, set_utcb_area}
use wrmos.Kernel.Syscalls.Frame.{Spaces, reg, set_result, set_error, is_privileged}
use wrmos.Kernel.Syscalls.Spaces.{
  find_space, is_bad_utcb_area, is_bad_kip_area, set_redirector, configure_space,
  syscall_space_control,
}
use wrmos.Kernel.Syscalls.Memory.{
  attr, remap_user_utcb, unmap_fpage, unmap_fpages, syscall_unmap, control_fpage, control_fpages,
  fpages_num, is_bad_control, syscall_memory_control,
}
use wrmos.Kernel.Syscalls.Keeps.{
  KeepsWell, set_result-IsWell, set_error-IsWell, after, next, both, call-IsWell, set_task-IsWell,
  aside-IsWell,
}

set_redirector-IsWell :
    (k : Kernel) (cur tsk redirector : ℕ) → IsWell k → IsWell (set_redirector k cur tsk redirector)
unfolding set_redirector
set_redirector-IsWell k cur tsk redirector w = set_result-IsWell cur 1 (
    if-both IsWell (not (Thrid.is_nil redirector))
      {x = set_task k tsk (record (k.tasks tsk) { redirector = redirector })} {y = k}
      (set_task-IsWell _ w) w)

set_kip_area-KeepsWell : (k : Kernel) (t fpage : ℕ) → IsWell k → KeepsWell (set_kip_area k t fpage)
unfolding set_kip_area
set_kip_area-KeepsWell k t fpage w =
    after (wassert (is_empty (k.tasks t)))
      λ _. after (wassert (not (fpage == Fpage.nil))) λ _. returns _ (set_task-IsWell _ w)

set_utcb_area-KeepsWell :
    (k : Kernel) (t fpage : ℕ) → IsWell k → KeepsWell (set_utcb_area k t fpage)
unfolding set_utcb_area
set_utcb_area-KeepsWell k t fpage w =
    after (wassert (is_empty (k.tasks t)))
      λ _. returns _ (aside-IsWell k.int_threads _ _ k.used_tasks k.free_tasks w)

configure_space-KeepsWell :
    (k : Kernel) (cur tsk kip utcb redirector : ℕ)
    → IsWell k
    → KeepsWell (configure_space k cur tsk kip utcb redirector)
unfolding configure_space
configure_space-KeepsWell k cur tsk kip utcb redirector w =
    both (active_threads (k.tasks tsk)) (returns _ (set_redirector-IsWell k cur tsk redirector w)) (
      both (is_bad_utcb_area utcb) (returns _ (set_error-IsWell cur 6 w)) (
        both (is_bad_kip_area kip utcb) (returns _ (set_error-IsWell cur 7 w)) (
          next (set_kip_area k tsk kip) (set_kip_area-KeepsWell k tsk kip w) λ k₁ w₁.
            next (set_utcb_area k₁ tsk utcb) (set_utcb_area-KeepsWell k₁ tsk utcb w₁)
              λ k₂ w₂. returns _ (set_redirector-IsWell k₂ cur tsk redirector w₂))))

pub syscall_space_control-KeepsWell :
    (k : Kernel) (cur : ℕ) → IsWell k → KeepsWell (syscall_space_control k cur)
unfolding syscall_space_control
syscall_space_control-KeepsWell k cur w =
    let k₁ = set_result k cur 0 in
    let w₁ : IsWell k₁ = set_result-IsWell cur 0 w in
    both (not (is_privileged (k.threads cur).globid)) (returns _ (set_error-IsWell cur 1 w₁))
      (after (find_space k₁ cur (reg (k.threads cur) 0)) λ thr. go k₁ w₁ (k.threads cur) thr)
  where
    go :
        (k₁ : Kernel)
        → IsWell k₁
        → (th : Thread) (thr : Option ℕ)
        → KeepsWell (elim thr [
          | none ↦ ok (set_error k₁ cur 3)
          | some t ↦
              if (k₁.threads t).task == 0
              then ok (set_error k₁ cur 3)
              else configure_space k₁ cur (k₁.threads t).task (reg th 2) (reg th 3) (reg th 4)
        ])
    go k₁ w₁ th none = returns _ (set_error-IsWell cur 3 w₁)
    go k₁ w₁ th (some t) =
        both ((k₁.threads t).task == 0) (returns _ (set_error-IsWell cur 3 w₁))
          (configure_space-KeepsWell k₁ cur (k₁.threads t).task (reg th 2) (reg th 3) (reg th 4) w₁)

remap-IsWell :
    (sp : Spaces) (k : Kernel) (tsk n i : ℕ) → IsWell k → IsWell (remap_user_utcb sp k tsk n i)
unfolding remap_user_utcb
remap-IsWell sp k tsk zero i w = w
remap-IsWell sp k tsk (suc n) i w =
    let c =
      map_utcb tsk (k.threads i).localid (sp.walk k.calls tsk (k.threads i).utcb_kva page_sz) in
    remap-IsWell sp (if (k.threads i).task == tsk then call k c else k) tsk n (i + 1)
      (if-both IsWell ((k.threads i).task == tsk) {x = call k c} {y = k} (call-IsWell c w) w)

unmap_fpage-KeepsWell :
    (sp : Spaces) (k : Kernel) (tsk fpage : ℕ) → IsWell k → KeepsWell (unmap_fpage sp k tsk fpage)
unfolding unmap_fpage
unmap_fpage-KeepsWell sp k tsk fpage w = both (Fpage.is_io fpage) stops (
    both (Fpage.is_complete fpage)
      (returns _ (
        remap-IsWell sp (call k (unmap_page tsk 0 0xf0000000)) tsk threads_max 0
          (call-IsWell (unmap_page tsk 0 0xf0000000) w)))
      (both (not (fpage == Fpage.nil))
        (returns _ (call-IsWell (unmap_page tsk (Fpage.addr fpage) (Fpage.size fpage)) w))
        (returns k w)))

unmap_fpages-KeepsWell :
    (sp : Spaces) (k : Kernel) (cur n i : ℕ) → IsWell k → KeepsWell (unmap_fpages sp k cur n i)
unfolding unmap_fpages
unmap_fpages-KeepsWell sp k cur zero i w = returns k w
unmap_fpages-KeepsWell sp k cur (suc n) i w =
    next (unmap_fpage sp k (k.threads cur).task ((k.threads cur).mr i))
      (unmap_fpage-KeepsWell sp k (k.threads cur).task ((k.threads cur).mr i) w)
      λ k₁ w₁. unmap_fpages-KeepsWell sp k₁ cur n (i + 1) w₁

pub syscall_unmap-KeepsWell :
    (sp : Spaces) (k : Kernel) (cur : ℕ) → IsWell k → KeepsWell (syscall_unmap sp k cur)
unfolding syscall_unmap
syscall_unmap-KeepsWell sp k cur w =
    unmap_fpages-KeepsWell sp k cur (reg (k.threads cur) 0 % 2 ^ 8 + 1) 0 w

abbrev IsWellIf : Option Kernel → Type 0
IsWellIf none = Unit
IsWellIf (some k) = IsWell k

control_fpage-IsWellIf :
    (sp : Spaces) (k : Kernel) (cur : ℕ) (args : Thread) (fp : ℕ)
    → IsWell k
    → Ensures IsWellIf (control_fpage sp k cur args fp)
unfolding control_fpage
control_fpage-IsWellIf sp k cur args fp w =
    Ensures-skip IsWellIf (wassert (not (Fpage.is_io fp))) λ _ _.
      Ensures-skip IsWellIf (wassert (not (Fpage.is_complete fp) && not (fp == Fpage.nil)))
        λ _ _. returns _ (go (sp.attributes k.calls (k.threads cur).task fp))
  where
    go :
        (old : Option ℕ)
        → IsWellIf (elim old [
          | none ↦ none
          | some old ↦ some (
              call k (
                set_attributes
                  (k.threads cur).task
                  (Fpage.addr fp)
                  (Fpage.size fp)
                  (not (attr args (fp % 2 ^ 2) == 1))))
        ])
    go none = tt
    go (some old) =
        call-IsWell
          (set_attributes (k.threads cur).task (Fpage.addr fp) (Fpage.size fp)
            (not (attr args (fp % 2 ^ 2) == 1)))
          w

control_fpages-KeepsWell :
    (sp : Spaces) (k : Kernel) (cur : ℕ) (args : Thread) (n i : ℕ)
    → IsWell k
    → KeepsWell (control_fpages sp k cur args n i)
unfolding control_fpages
control_fpages-KeepsWell sp k cur args zero i w = returns _ (set_result-IsWell cur 1 w)
control_fpages-KeepsWell sp k cur args (suc n) i w =
    Ensures-bind IsWellIf IsWell (control_fpage sp k cur args ((k.threads cur).mr i))
      (control_fpage-IsWellIf sp k cur args ((k.threads cur).mr i) w)
      λ r p. go r p (λ k₁ w₁. control_fpages-KeepsWell sp k₁ cur args n (i + 1) w₁)
  where
    go :
        (r : Option Kernel)
        → IsWellIf r
        → ((k₁ : Kernel) → IsWell k₁ → KeepsWell (control_fpages sp k₁ cur args n (i + 1)))
        → KeepsWell (elim r [
          | none ↦ ok (set_error k cur 5)
          | some k₁ ↦ control_fpages sp k₁ cur args n (i + 1)
        ])
    go none p h = returns _ (set_error-IsWell cur 5 w)
    go (some k₁) p h = h k₁ p

pub syscall_memory_control-KeepsWell :
    (sp : Spaces) (k : Kernel) (cur : ℕ) → IsWell k → KeepsWell (syscall_memory_control sp k cur)
unfolding syscall_memory_control
syscall_memory_control-KeepsWell sp k cur w =
    let k₁ = set_result k cur 0 in
    let w₁ : IsWell k₁ = set_result-IsWell cur 0 w in
    both (not (is_privileged (k.threads cur).globid)) (returns _ (set_error-IsWell cur 1 w₁)) (
      both (is_bad_control (k.threads cur)) (returns _ (set_error-IsWell cur 5 w₁)) (
        control_fpages-KeepsWell sp k₁ cur (k.threads cur) (fpages_num (reg (k.threads cur) 0)) 0
          w₁))
