-- ===== src/Kernel/Syscalls/Memory.antt =====
-- krn/syscalls.cpp: `syscall_unmap` and `syscall_memory_control`.
pub mod OnePage
use wrmos.Base.{
  ℕ, zero, suc, ◌+◌, ◌-◌, ◌%◌, ◌^◌, Bool, true, false, not, ◌&&◌, ◌||◌, Option, none, some, ◌∷◌,
  ◌==◌, ltb, if◌then◌else◌, Run, ok, panic, ◌>>=◌, ◌>>◌, wassert,
}
use wrmos.L4.Fpage
use wrmos.Kernel.State.{Thread, Kernel, Call, unmap_page, map_utcb, set_attributes, threads_max}
use wrmos.Kernel.Task.{page_sz}
use wrmos.Kernel.Ipc.Send.{call}
use wrmos.Kernel.Syscalls.Frame.{reg, set_result, set_error, is_privileged, Spaces}

-- `Threads_t::remap_user_utcb`: the slots from `i` on, `n` of them.
unfoldable pub remap_user_utcb : Spaces → Kernel → ℕ → ℕ → ℕ → Kernel
remap_user_utcb sp k tsk zero i = k
remap_user_utcb sp k tsk (suc n) i =
    let th = k.threads i in
    remap_user_utcb sp
      (if th.task == tsk
        then call k (map_utcb tsk th.localid (sp.walk k.calls tsk th.utcb_kva page_sz))
        else k)
      tsk n (i + 1)

-- One round of the loop of `syscall_unmap`.
unfoldable pub unmap_fpage : Spaces → Kernel → ℕ → ℕ → Run Kernel
unfolding remap_user_utcb
unmap_fpage sp k tsk fpage =
    if Fpage.is_io fpage
    then panic
    else if Fpage.is_complete fpage
    then ok (remap_user_utcb sp (call k (unmap_page tsk 0 0xf0000000)) tsk threads_max 0)
    else if not (fpage == Fpage.nil)
    then ok (call k (unmap_page tsk (Fpage.addr fpage) (Fpage.size fpage)))
    else ok k

-- The loop: the message registers from `i` on, `n` of them.
unfoldable pub unmap_fpages : Spaces → Kernel → ℕ → ℕ → ℕ → Run Kernel
unmap_fpages sp k cur zero i = ok k
unmap_fpages sp k cur (suc n) i = do
  k₁ ← unmap_fpage sp k (k.threads cur).task ((k.threads cur).mr i)
  unmap_fpages sp k₁ cur n (i + 1)

unfoldable pub syscall_unmap : Spaces → Kernel → ℕ → Run Kernel
syscall_unmap sp k cur = unmap_fpages sp k cur (reg (k.threads cur) 0 % 2 ^ 8 + 1) 0

abbrev pub fpages_max : ℕ
fpages_max = 64

-- `(control & ~0x3f) + 1` on 32 bits.
abbrev pub fpages_num : ℕ → ℕ
fpages_num control = (control - control % 2 ^ 6 + 1) % 2 ^ 32

-- `attr[attr_index]`, an attribute of the four.
abbrev pub attr : Thread → ℕ → ℕ
attr th n = reg th (n + 1)

-- One round of the loop of `syscall_memory_control`; `none` is the early return.
unfoldable pub control_fpage : Spaces → Kernel → ℕ → Thread → ℕ → Run (Option Kernel)
control_fpage sp k cur args fp = do
  wassert (not (Fpage.is_io fp))
  wassert (not (Fpage.is_complete fp) && not (fp == Fpage.nil))
  ok (elim (sp.attributes k.calls (k.threads cur).task fp) [
    | none ↦ none
    | some old ↦ some (
        call k (
          set_attributes (k.threads cur).task (Fpage.addr fp) (Fpage.size fp)
            (not (attr args (fp % 2 ^ 2) == 1))))
  ])

unfoldable pub control_fpages : Spaces → Kernel → ℕ → Thread → ℕ → ℕ → Run Kernel
control_fpages sp k cur args zero i = ok (set_result k cur 1)
control_fpages sp k cur args (suc n) i = do
  done ← control_fpage sp k cur args ((k.threads cur).mr i)
  elim done [ none ↦ ok (set_error k cur 5) | some k₁ ↦ control_fpages sp k₁ cur args n (i + 1) ]

-- "check params"
unfoldable pub is_bad_control : Thread → Bool
is_bad_control args =
    ltb fpages_max (fpages_num (reg args 0))
    || ltb 1 (attr args 0)
    || ltb 1 (attr args 1)
    || ltb 1 (attr args 2)
    || ltb 1 (attr args 3)

unfoldable pub syscall_memory_control : Spaces → Kernel → ℕ → Run Kernel
syscall_memory_control sp k cur =
    let args = k.threads cur in
    let k₁ = set_result k cur 0 in
    if not (is_privileged args.globid)
    then ok (set_error k₁ cur 1)
    else if is_bad_control args
    then ok (set_error k₁ cur 5)
    else control_fpages sp k₁ cur args (fpages_num (reg args 0)) 0
