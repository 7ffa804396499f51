-- ===== src/Kernel/Ipc/Faults.antt =====
-- krn/ipc.cpp: page faults and exceptions go as messages to the pager and to the exception handler.
-- Each operation ends with a switch to another thread, and the model with the kernel at that switch.
use wrmos.Base.{ℕ, not, none, some, if◌then◌else◌, Run, ok, ◌>>=◌}
use wrmos.Kernel.State.{
  inactive, ready, send_pfault, send_exception, receive_ipc, receive_pfault, receive_exception, is,
  Kernel, set_thread, find, not_null,
}
use wrmos.Kernel.Transition.{set_state}
use wrmos.Kernel.ThreadIds.{thrid_roottask}
use wrmos.Kernel.Switch.{switch_to, switch_to_next}
use wrmos.Kernel.Ipc.Messages.{do_pfault_ipc, do_exc_ipc}

unfoldable pub process_pfault : Kernel → ℕ → ℕ → ℕ → ℕ → ℕ → Run Kernel
process_pfault k now fault_thr fault_addr fault_access fault_inst = do
  pgr ← not_null (k.threads fault_thr).pager
  let saved = record (k.threads fault_thr) {
    pf_addr = fault_addr;
    pf_access = fault_access;
    pf_inst = fault_inst;
  }
  if is (k.threads pgr).state receive_ipc
      then (do
        k₁ ← do_pfault_ipc k fault_thr pgr fault_addr fault_access fault_inst
        k₂ ← set_state k₁ pgr ready
        let k₃ = set_thread k₂ fault_thr (record (k₂.threads fault_thr) {
          pf_addr = fault_addr;
          pf_access = fault_access;
          pf_inst = fault_inst;
          ipc_from_spec = (k₂.threads pgr).globid;
        })
        k₄ ← set_state k₃ fault_thr receive_pfault
        ok (switch_to k₄ now pgr))
      else (do
        let k₁ = set_thread k fault_thr (record saved { ipc_to = (k.threads pgr).globid })
        k₂ ← set_state k₁ fault_thr send_pfault
        switch_to_next k₂ now)

-- The exception handler of a thread, or else the root task.
unfoldable pub find_exc_handler : Kernel → ℕ → Run ℕ
find_exc_handler k fault_thr = do
  exh ← find k (k.threads fault_thr).exception_handler
  elim exh [
    | some h ↦
        if not (is (k.threads h).state inactive)
        then ok h
        else (do root ← find k thrid_roottask; not_null root)
    | none ↦ do root ← find k thrid_roottask; not_null root
  ]

unfoldable pub process_exception : Kernel → ℕ → ℕ → ℕ → ℕ → Run Kernel
process_exception k now fault_thr exc_type pfault_addr_and_acc = do
  exh ← find_exc_handler k fault_thr
  if is (k.threads exh).state receive_ipc
      then (do
        k₁ ← do_exc_ipc k fault_thr exh exc_type pfault_addr_and_acc
        k₂ ← set_state k₁ exh ready
        let k₃ =
            set_thread k₂ fault_thr
              (record (k₂.threads fault_thr) { ipc_from_spec = (k₂.threads exh).globid })
        k₄ ← set_state k₃ fault_thr receive_exception
        ok (switch_to k₄ now exh))
      else (do
        let k₁ = set_thread k fault_thr (record (k.threads fault_thr) {
          exc_type = exc_type;
          exc_pf = pfault_addr_and_acc;
          ipc_to = (k.threads exh).globid;
        })
        k₂ ← set_state k₁ fault_thr send_exception
        switch_to_next k₂ now)
