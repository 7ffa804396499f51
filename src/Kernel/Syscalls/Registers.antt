-- ===== src/Kernel/Syscalls/Registers.antt =====
-- krn/syscalls.cpp: `syscall_exchange_registers`, on SPARC.
pub mod Isolation
use wrmos.Base.{
  update, ℕ, ◌+◌, ◌-◌, ◌*◌, ◌/◌, ◌%◌, ◌^◌, Bool, true, false, not, ◌&&◌, ◌||◌, Option, none, some,
  ◌==◌, if◌then◌else◌, Run, ok, panic, ◌>>=◌, ◌>>◌, wassert,
}
use wrmos.L4.Thrid
use wrmos.Kernel.State.{Thread, Kernel, set_thread, find}
use wrmos.Kernel.Syscalls.Frame.{reg, set_reg, set_result, set_error, g4, g5, psr, pc, npc}

-- lib/sys/sys_eframe.h: how the kernel was entered.
abbrev pub entry_type_syscall : ℕ
entry_type_syscall = 1

abbrev pub entry_type_pfault : ℕ
entry_type_pfault = 2

abbrev pub entry_type_irq : ℕ
entry_type_irq = 4

abbrev pub entry_type_exc : ℕ
entry_type_exc = 5

-- The flag of the control word at the bit `n`.
abbrev pub ctl : ℕ → ℕ → Bool
ctl control n = (control / 2 ^ n) % 2 == 1

unfoldable pub exit_pc : ℕ → (ℕ → ℕ) → ℕ
exit_pc etype frame =
    if etype == entry_type_syscall
    then frame npc
    else if etype == entry_type_pfault || etype == entry_type_irq
    then frame pc
    else 0

unfoldable pub exit_pc2 : ℕ → (ℕ → ℕ) → ℕ
exit_pc2 etype frame =
    if etype == entry_type_syscall
    then (frame npc + 4) % 2 ^ 32
    else if etype == entry_type_pfault || etype == entry_type_irq
    then frame npc
    else 0

-- `exit_pc(entry_type, v1, v2)`.
unfoldable pub set_exit_pc : ℕ → ℕ → ℕ → (ℕ → ℕ) → ℕ → ℕ
set_exit_pc etype v1 v2 frame =
    if etype == entry_type_syscall
    then (let f = if (v1 + 4) % 2 ^ 32 == v2 then frame else update (update frame npc 0) pc 0 in
        update f npc ((v2 + 2 ^ 32 - 4) % 2 ^ 32))
    else if etype == entry_type_pfault || etype == entry_type_irq || etype == entry_type_exc
    then update (update frame pc v1) npc v2
    else update frame pc 0

-- `psr &= ~(1 << 12)`.
abbrev pub disable_fpu : (ℕ → ℕ) → ℕ → ℕ
disable_fpu frame = update frame psr (frame psr - ((frame psr / 2 ^ 12) % 2) * 2 ^ 12)

-- `Thread_t::flags(f)`; `L4_flags_fpu` is the lowest bit.
unfoldable pub set_flags : ℕ → Thread → Thread
set_flags f th =
    let th₁ =
      if th.flags % 2 == 1 && f % 2 == 0
      then record th { fpu_in_use = false; frame = disable_fpu th.frame }
      else th in
    record th₁ { flags = f }

-- "deliver": the values of `dst` for the caller.
unfoldable pub deliver_registers : Kernel → ℕ → ℕ → Kernel
deliver_registers k cur dst =
    let d = k.threads dst in
    let th₁ = set_reg (k.threads cur) 3 (exit_pc d.entry_type d.frame) in
    let th₂ = record th₁ { frame = update th₁.frame g5 (exit_pc2 d.entry_type d.frame) } in
    let th₃ = record th₂ { frame = update th₂.frame g4 d.flags } in
    set_thread k cur (set_reg th₃ 5 d.user_defined_handle)

-- The arguments of the call, which it reads once.
pub record Exreg : Type 0 where
  pub dest : ℕ
  pub control : ℕ
  pub ip : ℕ
  pub ip2 : ℕ
  pub pager : ℕ
  pub uhandle : ℕ
  pub new_flags : ℕ

unfoldable pub exreg_args : Thread → Exreg
exreg_args th = record {
  dest = reg th 0;
  control = reg th 1;
  ip = reg th 3;
  ip2 = th.frame g5;
  pager = reg th 4;
  uhandle = reg th 5;
  new_flags = th.frame g4;
}

-- The registers of `dst` that the flags u, f and i name.
unfoldable pub change_registers : Exreg → Thread → Run Thread
change_registers a th = do
  let th₁ = if ctl a.control 6 then record th { user_defined_handle = a.uhandle } else th
  let th₂ = if ctl a.control 5 then set_flags a.new_flags th₁ else th₁
  if ctl a.control 4
      then (do
        wassert (
            th.entry_type == entry_type_syscall
            || th.entry_type == entry_type_pfault
            || th.entry_type == entry_type_irq
            || th.entry_type == entry_type_exc)
        ok (record th₂ { frame = set_exit_pc th.entry_type a.ip a.ip2 th₂.frame }))
      else ok th₂

-- From the flag u to the end. The flags s, S, R and H are not implemented.
unfoldable pub finish_exchange : Kernel → ℕ → ℕ → Exreg → Run Kernel
finish_exchange k cur dst a = do
  th ← change_registers a (k.threads dst)
  wassert (
      not (ctl a.control 3)
      && not (ctl a.control 2)
      && not (ctl a.control 1)
      && not (ctl a.control 0))
  let k₁ = set_thread k dst th
  ok (
      set_result k₁ cur
        (if Thrid.is_local a.dest then (k₁.threads dst).globid else (k₁.threads dst).localid))

-- The part behind the check of the task.
unfoldable pub exchange_with : Kernel → ℕ → ℕ → Exreg → Run Kernel
exchange_with k cur dst a = do
  let k₁ = if ctl a.control 9 then deliver_registers k cur dst else k
  wassert (not (ctl a.control 8))
  if ctl a.control 7
      then (do
        pgr_thr ← find k₁ a.pager
        elim pgr_thr [
          | none ↦ ok (set_error k₁ cur 2)
          | some p ↦
              finish_exchange
                (set_thread k₁ dst (record (k₁.threads dst) { pagerid = a.pager; pager = some p }))
                cur dst a
        ])
      else finish_exchange k₁ cur dst a

unfoldable pub syscall_exchange_registers : Kernel → ℕ → Run Kernel
syscall_exchange_registers k cur = do
  let a = exreg_args (k.threads cur)
  let k₁ = set_result k cur Thrid.nil
  found ← find k₁ a.dest
  elim found [
    | none ↦ ok (set_error k₁ cur 2)
    | some dst ↦
        if not ((k₁.threads dst).task == (k₁.threads cur).task)
        then ok (set_error k₁ cur 2)
        else exchange_with k₁ cur dst a
  ]
