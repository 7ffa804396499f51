-- ===== src/Kernel/Syscalls/Registers/Isolation.antt =====
-- krn/syscalls.cpp: whose registers `syscall_exchange_registers` changes.
use wrmos.Base.{
  ℕ, ◌≡◌, refl, ap, inl, inr, Bool, true, false, not, ◌&&◌, Option, none, some, arith, ◌==◌,
  if◌then◌else◌, Bool-cases, Run, ok, ◌>>=◌, ◌>>◌, wassert, Ensures, returns, Ensures-if,
  Ensures-skip, Ensures-ok,
}
use wrmos.L4.Thrid
use wrmos.Kernel.State.{Thread, Kernel, set_thread, find}
use wrmos.Kernel.Syscalls.Frame.{set_result, set_error}
use wrmos.Kernel.Syscalls.Registers.{
  deliver_registers, Exreg, exreg_args, ctl, change_registers, finish_exchange, exchange_with,
  syscall_exchange_registers,
}

-- The threads of other tasks are as they were.
abbrev pub OthersSame : Kernel → ℕ → Kernel → Type 0
OthersSame k tsk k' = (u : ℕ) → ((k.threads u).task == tsk) ≡ false → k'.threads u ≡ k.threads u

edit-OthersSame :
    (k k₁ : Kernel) (tsk t : ℕ) (th : Thread)
    → (k.threads t).task ≡ tsk
    → OthersSame k tsk k₁
    → OthersSame k tsk (set_thread k₁ t th)
edit-OthersSame k k₁ tsk t th e s u d =
    let apart : (t == u) ≡ false =
      ground (arith, ap (λ (v : ℕ). (k.threads v).task) {x = t} {y = u}) in
    rw apart (s u d)

module _ (k : Kernel) (cur dst : ℕ) (together : (k.threads dst).task ≡ (k.threads cur).task) where
  abbrev Keeps : Run Kernel → Type 0
  Keeps r = Ensures (OthersSame k (k.threads cur).task) r

  finish-Keeps :
      (k₁ : Kernel) (a : Exreg)
      → OthersSame k (k.threads cur).task k₁
      → Keeps (finish_exchange k₁ cur dst a)
  unfolding finish_exchange
  finish-Keeps k₁ a s =
      Ensures-skip (OthersSame k (k.threads cur).task) (change_registers a (k₁.threads dst)) λ th _.
        Ensures-skip (OthersSame k (k.threads cur).task)
          (wassert (
            not (ctl a.control 3)
            && not (ctl a.control 2)
            && not (ctl a.control 1)
            && not (ctl a.control 0)))
          λ _ _.
            let k₂ = set_thread k₁ dst th in
            returns _ (
              edit-OthersSame k k₂ (k.threads cur).task cur _ refl
                (edit-OthersSame k k₁ (k.threads cur).task dst th together s))

  deliver-OthersSame :
      (k₁ : Kernel)
      → OthersSame k (k.threads cur).task k₁
      → OthersSame k (k.threads cur).task (deliver_registers k₁ cur dst)
  unfolding deliver_registers
  deliver-OthersSame k₁ s = edit-OthersSame k k₁ (k.threads cur).task cur _ refl s

  pager-Keeps :
      (k₁ : Kernel) (a : Exreg) (p : Option ℕ)
      → OthersSame k (k.threads cur).task k₁
      → Keeps (elim p [
        | none ↦ ok (set_error k₁ cur 2)
        | some p ↦
            finish_exchange
              (set_thread k₁ dst (record (k₁.threads dst) { pagerid = a.pager; pager = some p }))
              cur
              dst
              a
      ])
  pager-Keeps k₁ a none s = returns _ (edit-OthersSame k k₁ (k.threads cur).task cur _ refl s)
  pager-Keeps k₁ a (some p) s =
      finish-Keeps _ a (edit-OthersSame k k₁ (k.threads cur).task dst _ together s)

  rest-Keeps :
      (k₁ : Kernel) (a : Exreg)
      → OthersSame k (k.threads cur).task k₁
      → Keeps (
          if ctl a.control 7
          then (find k₁ a.pager >>= λ p. elim p [
            | none ↦ ok (set_error k₁ cur 2)
            | some p ↦
                finish_exchange
                  (set_thread k₁ dst
                    (record (k₁.threads dst) { pagerid = a.pager; pager = some p }))
                  cur
                  dst
                  a
          ])
          else finish_exchange k₁ cur dst a)
  rest-Keeps k₁ a s =
      Ensures-if (OthersSame k (k.threads cur).task) (ctl a.control 7)
        (Ensures-skip (OthersSame k (k.threads cur).task) (find k₁ a.pager)
          (λ p _. pager-Keeps k₁ a p s))
        (finish-Keeps k₁ a s)

  exchange-Keeps :
      (k₁ : Kernel) (a : Exreg)
      → OthersSame k (k.threads cur).task k₁
      → Keeps (exchange_with k₁ cur dst a)
  unfolding exchange_with
  exchange-Keeps k₁ a s = go (ctl a.control 9)
    where
      go :
          (b : Bool)
          → Keeps (
              let k₂ = if b then deliver_registers k₁ cur dst else k₁ in
              wassert (not (ctl a.control 8))
              >> (if ctl a.control 7
                  then (find k₂ a.pager >>= λ p. elim p [
                    | none ↦ ok (set_error k₂ cur 2)
                    | some p ↦
                        finish_exchange
                          (set_thread k₂ dst
                            (record (k₂.threads dst) { pagerid = a.pager; pager = some p }))
                          cur
                          dst
                          a
                  ])
                  else finish_exchange k₂ cur dst a))
      go true =
          Ensures-skip (OthersSame k (k.threads cur).task) (wassert (not (ctl a.control 8)))
            (λ _ _. rest-Keeps (deliver_registers k₁ cur dst) a (deliver-OthersSame k₁ s))
      go false =
          Ensures-skip (OthersSame k (k.threads cur).task) (wassert (not (ctl a.control 8)))
            (λ _ _. rest-Keeps k₁ a s)

set_result-task :
    (k : Kernel) (cur v t : ℕ) → ((set_result k cur v).threads t).task ≡ (k.threads t).task
set_result-task k cur v t = ground (arith, ap k.threads {x = cur} {y = t})

-- A call of `syscall_exchange_registers`, if it returns, changes no thread of another task than the
-- caller's, whatever thread it names and whatever it asks for.
pub exchange_registers-OthersSame :
    (k k' : Kernel) (cur : ℕ)
    → syscall_exchange_registers k cur ≡ ok k'
    → OthersSame k (k.threads cur).task k'
unfolding syscall_exchange_registers
exchange_registers-OthersSame k k' cur h =
    Ensures-ok (OthersSame k (k.threads cur).task) (syscall_exchange_registers k cur) whole h
  where
    s : OthersSame k (k.threads cur).task (set_result k cur Thrid.nil)
    s = edit-OthersSame k k (k.threads cur).task cur _ refl (λ u _. refl)

    go :
        (found : Option ℕ)
        → Ensures (OthersSame k (k.threads cur).task) (elim found [
          | none ↦ ok (set_error (set_result k cur Thrid.nil) cur 2)
          | some dst ↦
              if not (
                ((set_result k cur Thrid.nil).threads dst).task
                == ((set_result k cur Thrid.nil).threads cur).task)
              then ok (set_error (set_result k cur Thrid.nil) cur 2)
              else exchange_with (set_result k cur Thrid.nil) cur dst (exreg_args (k.threads cur))
        ])
    go none =
        returns _ (edit-OthersSame k (set_result k cur Thrid.nil) (k.threads cur).task cur _ refl s)
    go (some dst) =
        elim (Bool-cases (
          ((set_result k cur Thrid.nil).threads dst).task
          == ((set_result k cur Thrid.nil).threads cur).task)) [
            | inl e ↦ rw e (
                exchange-Keeps k cur dst
                  (ground (
                    arith,
                    set_result-task k cur Thrid.nil dst,
                    set_result-task k cur Thrid.nil cur,
                  ))
                  (set_result k cur Thrid.nil) (exreg_args (k.threads cur)) s)
            | inr e ↦ rw e (
                returns _ (
                  edit-OthersSame k (set_result k cur Thrid.nil) (k.threads cur).task cur _ refl s))
          ]

    whole : Ensures (OthersSame k (k.threads cur).task) (syscall_exchange_registers k cur)
    whole =
        Ensures-skip (OthersSame k (k.threads cur).task)
          (find (set_result k cur Thrid.nil) (exreg_args (k.threads cur)).dest)
          (λ found _. go found)
