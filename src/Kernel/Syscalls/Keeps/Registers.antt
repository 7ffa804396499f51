-- ===== src/Kernel/Syscalls/Keeps/Registers.antt =====
-- krn/syscalls.cpp: the lists of threads over `syscall_exchange_registers`.
use wrmos.Base.{
  ℕ, ◌≡◌, refl, not, ◌&&◌, ◌||◌, Option, none, some, ◌==◌, if◌then◌else◌, ok, wassert, Ensures,
  returns, if-both, Ensures-if, Ensures-skip, Ensures-bind, ◌∙◌,
}
use wrmos.L4.Thrid
use wrmos.Kernel.State.{Thread, Kernel, set_thread, find}
use wrmos.Kernel.Transition.Well.{IsWell}
use wrmos.Kernel.Syscalls.Frame.{set_result, set_error}
use wrmos.Kernel.Syscalls.Registers.{
  entry_type_syscall, entry_type_pfault, entry_type_irq, entry_type_exc, set_flags,
  deliver_registers, Exreg, exreg_args, ctl, change_registers, finish_exchange, exchange_with,
  syscall_exchange_registers,
}
use wrmos.Kernel.Syscalls.Keeps.{
  KeepsWell, edit-IsWell, set_result-IsWell, set_error-IsWell, after, both,
}

-- The registers of a thread have nothing to do with its list.
abbrev SamePlace : Thread → Thread → Type 0
SamePlace th th' = (th'.state ≡ th.state) × (th'.timeout ≡ th.timeout) × (th'.prio ≡ th.prio)

set_flags-SamePlace : (f : ℕ) (th : Thread) → SamePlace th (set_flags f th)
unfolding set_flags
set_flags-SamePlace f th = if-both (SamePlace th) _ (refl, refl, refl) (refl, refl, refl)

set_flags-SamePlace_of : (a b : Thread) (f : ℕ) → SamePlace a b → SamePlace a (set_flags f b)
set_flags-SamePlace_of a b f (s, o, p) =
    let (s', o', p') = set_flags-SamePlace f b in (s' ∙ s, o' ∙ o, p' ∙ p)

change_registers-SamePlace :
    (a : Exreg) (th : Thread) → Ensures (SamePlace th) (change_registers a th)
unfolding change_registers
change_registers-SamePlace a th =
    let th₁ = if ctl a.control 6 then record th { user_defined_handle = a.uhandle } else th in
    let s₁ : SamePlace th th₁ =
      if-both (SamePlace th) (ctl a.control 6) (refl, refl, refl) (refl, refl, refl) in
    let th₂ = if ctl a.control 5 then set_flags a.new_flags th₁ else th₁ in
    let s₂ : SamePlace th th₂ =
      if-both (SamePlace th) (ctl a.control 5) (set_flags-SamePlace_of th th₁ a.new_flags s₁) s₁ in
    Ensures-if (SamePlace th) (ctl a.control 4)
      (Ensures-skip (SamePlace th)
        (wassert (
          th.entry_type == entry_type_syscall
          || th.entry_type == entry_type_pfault
          || th.entry_type == entry_type_irq
          || th.entry_type == entry_type_exc))
        λ _ _. returns _ s₂)
      (returns th₂ s₂)

deliver_registers-IsWell :
    (k : Kernel) (cur dst : ℕ) → IsWell k → IsWell (deliver_registers k cur dst)
unfolding deliver_registers
deliver_registers-IsWell k cur dst w = edit-IsWell cur _ refl refl refl w

finish_exchange-KeepsWell :
    (k : Kernel) (cur dst : ℕ) (a : Exreg) → IsWell k → KeepsWell (finish_exchange k cur dst a)
unfolding finish_exchange
finish_exchange-KeepsWell k cur dst a w =
    Ensures-bind (SamePlace (k.threads dst)) IsWell (change_registers a (k.threads dst))
      (change_registers-SamePlace a (k.threads dst))
      λ th same.
        after
          (wassert (
            not (ctl a.control 3)
            && not (ctl a.control 2)
            && not (ctl a.control 1)
            && not (ctl a.control 0)))
          λ _. returns _ (set_result-IsWell cur _ (edit-IsWell dst th same.0 same.1 same.2 w))

exchange_with-KeepsWell :
    (k : Kernel) (cur dst : ℕ) (a : Exreg) → IsWell k → KeepsWell (exchange_with k cur dst a)
unfolding exchange_with
exchange_with-KeepsWell k cur dst a w =
    let k₁ = if ctl a.control 9 then deliver_registers k cur dst else k in
    let w₁ : IsWell k₁ =
      if-both IsWell (ctl a.control 9) (deliver_registers-IsWell k cur dst w) w in
    after (wassert (not (ctl a.control 8))) λ _.
      both (ctl a.control 7) (after (find k₁ a.pager) λ pgr_thr. go k₁ w₁ pgr_thr)
        (finish_exchange-KeepsWell k₁ cur dst a w₁)
  where
    go :
        (k₁ : Kernel)
        → IsWell k₁
        → (pgr_thr : Option ℕ)
        → KeepsWell (elim pgr_thr [
          | none ↦ ok (set_error k₁ cur 2)
          | some p ↦
              finish_exchange
                (set_thread k₁ dst (record (k₁.threads dst) { pagerid = a.pager; pager = some p }))
                cur
                dst
                a
        ])
    go k₁ w₁ none = returns _ (set_error-IsWell cur 2 w₁)
    go k₁ w₁ (some p) = finish_exchange-KeepsWell _ cur dst a (edit-IsWell dst _ refl refl refl w₁)

pub syscall_exchange_registers-KeepsWell :
    (k : Kernel) (cur : ℕ) → IsWell k → KeepsWell (syscall_exchange_registers k cur)
unfolding syscall_exchange_registers
syscall_exchange_registers-KeepsWell k cur w =
    let a = exreg_args (k.threads cur) in
    let k₁ = set_result k cur Thrid.nil in
    after (find k₁ a.dest) λ found. go k₁ (set_result-IsWell cur Thrid.nil w) a found
  where
    go :
        (k₁ : Kernel)
        → IsWell k₁
        → (a : Exreg) (found : Option ℕ)
        → KeepsWell (elim found [
          | none ↦ ok (set_error k₁ cur 2)
          | some dst ↦
              if not ((k₁.threads dst).task == (k₁.threads cur).task)
              then ok (set_error k₁ cur 2)
              else exchange_with k₁ cur dst a
        ])
    go k₁ w₁ a none = returns _ (set_error-IsWell cur 2 w₁)
    go k₁ w₁ a (some dst) =
        both (not ((k₁.threads dst).task == (k₁.threads cur).task))
          (returns _ (set_error-IsWell cur 2 w₁)) (exchange_with-KeepsWell k₁ cur dst a w₁)
