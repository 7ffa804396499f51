-- ===== src/Kernel/Syscalls/Memory/OnePage.antt =====
-- krn/syscalls.cpp: how many pages a call of `syscall_memory_control` reaches.
use wrmos.Base.{
  ℕ, ◌%◌, ◌^◌, ◌<◌, ◌≡◌, refl, ◌⊎◌, inl, inr, Bool, true, false, not, ◌&&◌, Option, none, some, ◌∷◌,
  arith, ◌==◌, ==_refl, ltb, if◌then◌else◌, Run, ok, wassert, Bool-cases, Ensures, returns,
  Ensures-if, Ensures-skip, Ensures-bind, Ensures-ok, sym, subst,
}
use wrmos.L4.Fpage
use wrmos.Kernel.State.{Thread, Kernel, Call, set_attributes}
use wrmos.Kernel.Ipc.Send.{call}
use wrmos.Kernel.Syscalls.Frame.{reg, set_result, set_error, is_privileged, Spaces}
use wrmos.Kernel.Syscalls.Memory.{
  fpages_max, fpages_num, attr, control_fpage, control_fpages, is_bad_control,
  syscall_memory_control,
}

-- The call of the address space for the page `fp` of a task, with the attribute of the arguments `args` that
-- the lowest two bits of the page choose.
abbrev pub page_call : Thread → ℕ → ℕ → Call
page_call args tsk fp =
    set_attributes tsk (Fpage.addr fp) (Fpage.size fp) (not (attr args (fp % 2 ^ 2) == 1))

-- The page of the first message register is set, and of no other, and the result is 1; or none is set, and the
-- result is 0.
abbrev pub OnePage : Kernel → ℕ → Kernel → Type 0
OnePage k cur k' =
    let th = k.threads cur in
    ((reg (k'.threads cur) 0 ≡ 1)
      × (reg th 0 < 64)
      × (k'.calls ≡ page_call th th.task (th.mr 0) ∷ k.calls))
    ⊎ ((reg (k'.threads cur) 0 ≡ 0) × (k'.calls ≡ k.calls))

-- A round that does not return has made the call for its page.
abbrev IsPageSet : Kernel → ℕ → Thread → ℕ → Option Kernel → Type 0
IsPageSet k cur args fp none = Unit
IsPageSet k cur args fp (some k') = k' ≡ call k (page_call args (k.threads cur).task fp)

control_fpage-IsPageSet :
    (sp : Spaces) (k : Kernel) (cur : ℕ) (args : Thread) (fp : ℕ)
    → Ensures (IsPageSet k cur args fp) (control_fpage sp k cur args fp)
unfolding control_fpage
control_fpage-IsPageSet sp k cur args fp =
    Ensures-skip (IsPageSet k cur args fp) (wassert (not (Fpage.is_io fp))) λ _ _.
      Ensures-skip (IsPageSet k cur args fp)
        (wassert (not (Fpage.is_complete fp) && not (fp == Fpage.nil)))
        λ _ _. returns _ (go (sp.attributes k.calls (k.threads cur).task fp))
  where
    go :
        (old : Option ℕ)
        → IsPageSet k cur args fp (elim old [
          | none ↦ none
          | some old ↦ some (
              call k (
                set_attributes
                  (k.threads cur).task
                  (Fpage.addr fp)
                  (Fpage.size fp)
                  (not (attr args (fp % 2 ^ 2) == 1))))
        ])
    go none = tt
    go (some old) = refl

refused-OnePage :
    (k : Kernel) (cur code : ℕ) → OnePage k cur (set_error (set_result k cur 0) cur code)
refused-OnePage k cur code = inr (rw (==_refl cur) refl, refl)

set-OnePage :
    (k : Kernel) (cur : ℕ)
    → reg (k.threads cur) 0 < 64
    → let k₁ = set_result k cur 0 in
      OnePage k cur (
        set_result
          (call k₁ (page_call (k.threads cur) (k₁.threads cur).task ((k₁.threads cur).mr 0)))
          cur
          1)
set-OnePage k cur small = inl (rw (==_refl cur) refl, small, rw (==_refl cur) refl)

one_round :
    (sp : Spaces) (k : Kernel) (cur : ℕ)
    → reg (k.threads cur) 0 < 64
    → Ensures (OnePage k cur) (control_fpages sp (set_result k cur 0) cur (k.threads cur) 1 0)
unfolding control_fpages
one_round sp k cur small =
    let k₁ = set_result k cur 0 in
    Ensures-bind (IsPageSet k₁ cur (k.threads cur) ((k₁.threads cur).mr 0)) (OnePage k cur)
      (control_fpage sp k₁ cur (k.threads cur) ((k₁.threads cur).mr 0))
      (control_fpage-IsPageSet sp k₁ cur (k.threads cur) ((k₁.threads cur).mr 0)) λ r p. go r p
  where
    go :
        (r : Option Kernel)
        → IsPageSet
            (set_result k cur 0)
            cur
            (k.threads cur)
            (((set_result k cur 0).threads cur).mr 0)
            r
        → Ensures (OnePage k cur) (elim r [
          | none ↦ ok (set_error (set_result k cur 0) cur 5)
          | some k₁ ↦ ok (set_result k₁ cur 1)
        ])
    go none p = returns _ (refused-OnePage k cur 5)
    go (some k₁) e = returns _ (
        subst (λ (x : Kernel). OnePage k cur (set_result x cur 1)) (sym e)
          (set-OnePage k cur small))

-- The control word names one page, or more than the call allows.
num-cases :
    (control : ℕ) → control < 2 ^ 32 → (control < 64) ⊎ (ltb fpages_max (fpages_num control) ≡ true)
num-cases control h = if-small (Bool-cases (ltb fpages_max (fpages_num control)))
  where
    if-small :
        (ltb fpages_max (fpages_num control) ≡ true) ⊎ (ltb fpages_max (fpages_num control) ≡ false)
        → (control < 64) ⊎ (ltb fpages_max (fpages_num control) ≡ true)
    if-small (inl e) = inr e
    if-small (inr e) = inl (ground arith)

fpages_num-one : (control : ℕ) → control < 64 → fpages_num control ≡ 1
fpages_num-one control h = omega arith

is_bad_control-true :
    (args : Thread) → ltb fpages_max (fpages_num (reg args 0)) ≡ true → is_bad_control args ≡ true
unfolding is_bad_control
is_bad_control-true args e = rw e refl

rounds :
    (sp : Spaces) (k : Kernel) (cur : ℕ)
    → reg (k.threads cur) 0 < 64
    → Ensures (OnePage k cur) (
        control_fpages sp
          (set_result k cur 0)
          cur
          (k.threads cur)
          (fpages_num (reg (k.threads cur) 0))
          0)
rounds sp k cur small =
    subst
      (λ n.
        Ensures (OnePage k cur) (control_fpages sp (set_result k cur 0) cur (k.threads cur) n 0))
      (sym (fpages_num-one (reg (k.threads cur) 0) small)) (one_round sp k cur small)

if-bad :
    {P : Kernel → Type 0} (b : Bool) {x : Run Kernel} (y : Run Kernel)
    → b ≡ true
    → Ensures P x
    → Ensures P (if b then x else y)
if-bad true y e p = p
if-bad false y e p = cc

-- A call of `syscall_memory_control` that does not stop the kernel has set the attributes of one page, that of
-- its first message register, and returns 1, and its control word is below 64; or it has set none, and returns
-- 0. The control word is of 32 bits, and whatever it says, no call sets a second page.
pub memory_control-OnePage :
    (sp : Spaces) (k k' : Kernel) (cur : ℕ)
    → reg (k.threads cur) 0 < 2 ^ 32
    → syscall_memory_control sp k cur ≡ ok k'
    → OnePage k cur k'
unfolding syscall_memory_control
memory_control-OnePage sp k k' cur word h =
    Ensures-ok (OnePage k cur) (syscall_memory_control sp k cur)
      (go (num-cases (reg (k.threads cur) 0) word)) h
  where
    go :
        (reg (k.threads cur) 0 < 64) ⊎ (ltb fpages_max (fpages_num (reg (k.threads cur) 0)) ≡ true)
        → Ensures (OnePage k cur) (syscall_memory_control sp k cur)
    go (inl small) =
        Ensures-if (OnePage k cur) (not (is_privileged (k.threads cur).globid))
          (returns _ (refused-OnePage k cur 1))
          (Ensures-if (OnePage k cur) (is_bad_control (k.threads cur))
            (returns _ (refused-OnePage k cur 5)) (rounds sp k cur small))
    go (inr e) =
        Ensures-if (OnePage k cur) (not (is_privileged (k.threads cur).globid))
          (returns _ (refused-OnePage k cur 1))
          (if-bad {P = OnePage k cur} (is_bad_control (k.threads cur)) _
            (is_bad_control-true (k.threads cur) e) (returns _ (refused-OnePage k cur 5)))
