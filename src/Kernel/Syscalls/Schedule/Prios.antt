-- ===== src/Kernel/Syscalls/Schedule/Prios.antt =====
-- krn/syscalls.cpp: the priorities that `syscall_schedule` gives and refuses.
use wrmos.Base.{
  update, ℕ, ◌%◌, ◌^◌, ◌≤◌, ◌≡◌, refl, ap, ◌∙◌, true, false, some, arith, ◌==◌, ltb, if◌then◌else◌,
  ==_refl, ok, ◌>>=◌,
}
use wrmos.Kernel.State.{Thread, Kernel, set_thread, find}
use wrmos.Kernel.Transition.{set_prio}
use wrmos.Kernel.Transition.Well.{IsWell}
use wrmos.Kernel.Transition.Keeps.{set_prio_total}
use wrmos.Kernel.Syscalls.Frame.{minus_one, reg, set_reg, set_result, set_error}
use wrmos.Kernel.Syscalls.Schedule.{state_result, schedule_thread, syscall_schedule}
use wrmos.Kernel.Syscalls.Keeps.{edit-IsWell, set_result-IsWell}

-- The caller schedules `dst`.
pub record Owns (k : Kernel) (cur dst : ℕ) : Type 0 where
  pub found : find (set_result k cur 0) (reg (k.threads cur) 0) ≡ ok (some dst)
  pub scheduler : (k.threads dst).schedid ≡ (k.threads cur).globid

-- Only the priority is to change.
pub record AsksPrio (k : Kernel) (cur : ℕ) : Type 0 where
  pub no_time : reg (k.threads cur) 1 ≡ minus_one
  pub no_proc : reg (k.threads cur) 2 ≡ minus_one
  pub no_preempt : reg (k.threads cur) 4 ≡ minus_one

set_result-schedid :
    (k : Kernel) (cur v t : ℕ) → ((set_result k cur v).threads t).schedid ≡ (k.threads t).schedid
set_result-schedid k cur v t = ground (arith, ap k.threads {x = cur} {y = t})

set_result-state :
    (k : Kernel) (cur v t : ℕ) → ((set_result k cur v).threads t).state ≡ (k.threads t).state
set_result-state k cur v t = ground (arith, ap k.threads {x = cur} {y = t})

set_result-prio :
    (k : Kernel) (cur v t : ℕ) → ((set_result k cur v).threads t).prio ≡ (k.threads t).prio
set_result-prio k cur v t = ground (arith, ap k.threads {x = cur} {y = t})

owned :
    (k : Kernel) (cur dst : ℕ)
    → Owns k cur dst
    → syscall_schedule k cur ≡ (
        if ltb (k.threads cur).prio (reg (k.threads cur) 3)
        then ok (set_error (set_result k cur 0) cur 5)
        else schedule_thread
            (set_result k cur 0)
            cur
            dst
            (reg (k.threads cur) 1)
            (reg (k.threads cur) 2)
            (reg (k.threads cur) 3)
            (reg (k.threads cur) 4))
unfolding syscall_schedule
owned k cur dst o =
    rw (o.found, ◌>>=◌)
      (rw (set_result-schedid k cur 0 dst ∙ o.scheduler, ==_refl (k.threads cur).globid) refl)

-- The argument -1 asks to keep the priority. It is compared with the caller's priority like any other, and
-- the call is refused with the error 5, in a kernel whose priorities are in range.
pub keep_prio-refused :
    (k : Kernel) (cur dst : ℕ)
    → IsWell k
    → Owns k cur dst
    → reg (k.threads cur) 3 ≡ minus_one
    → syscall_schedule k cur ≡ ok (set_error (set_result k cur 0) cur 5)
keep_prio-refused k cur dst w o e =
    let above : ltb (k.threads cur).prio (reg (k.threads cur) 3) ≡ true =
      ground (arith, w.prios cur) in
    owned k cur dst o ∙ rw above refl

-- The kernel after the two results are written.
abbrev answered : Kernel → ℕ → ℕ → Kernel
answered k cur n =
    let k₂ = set_result k cur n in set_thread k₂ cur (set_reg (k₂.threads cur) 1 minus_one)

schedule_thread-eq :
    (k k₁ : Kernel) (cur dst prio n : ℕ)
    → (prio == minus_one) ≡ false
    → set_prio k dst (prio % 2 ^ 8) ≡ ok k₁
    → state_result (k₁.threads dst).state ≡ ok n
    → schedule_thread k cur dst minus_one minus_one prio minus_one ≡ ok (answered k₁ cur n)
unfolding schedule_thread
schedule_thread-eq k k₁ cur dst prio n e s r = rw (e, s, ◌>>=◌, r) refl

-- The priority has been given, and the answer is the state of the thread.
abbrev pub GivesPrio : Kernel → ℕ → ℕ → ℕ → Type 0
GivesPrio k cur dst n =
    (k' : Kernel) × (syscall_schedule k cur ≡ ok k')
    × IsWell k'
    × (reg (k'.threads cur) 0 ≡ n)
    × ((u : ℕ)
        → (k'.threads u).prio ≡ (if dst == u then reg (k.threads cur) 3 else (k.threads u).prio))
    × ((u : ℕ) → (k'.threads u).state ≡ (k.threads u).state)

answered-IsWell : (k : Kernel) (cur n : ℕ) → IsWell k → IsWell (answered k cur n)
answered-IsWell k cur n w =
    edit-IsWell {k = set_result k cur n} cur
      (set_reg ((set_result k cur n).threads cur) 1 minus_one) refl refl refl
      (set_result-IsWell cur n w)

answered-reg : (k : Kernel) (cur n : ℕ) → reg ((answered k cur n).threads cur) 0 ≡ n
answered-reg k cur n = rw (==_refl cur) refl

answered-prio :
    (k : Kernel) (cur n u : ℕ) → ((answered k cur n).threads u).prio ≡ (k.threads u).prio
answered-prio k cur n u = ground (arith, ap k.threads {x = cur} {y = u})

answered-state :
    (k : Kernel) (cur n u : ℕ) → ((answered k cur n).threads u).state ≡ (k.threads u).state
answered-state k cur n u = ground (arith, ap k.threads {x = cur} {y = u})

reprioritised-prio :
    (k k' : Kernel) (t v u : ℕ)
    → k'.threads ≡ update k.threads t (record (k.threads t) { prio = v })
    → (k'.threads u).prio ≡ (if t == u then v else (k.threads u).prio)
reprioritised-prio k k' t v u th = ap (λ (f : ℕ → Thread). (f u).prio) th ∙ ground arith

reprioritised-state :
    (k k' : Kernel) (t v u : ℕ)
    → k'.threads ≡ update k.threads t (record (k.threads t) { prio = v })
    → (k'.threads u).state ≡ (k.threads u).state
reprioritised-state k k' t v u th =
    ap (λ (f : ℕ → Thread). (f u).state) th ∙ ground (arith, ap k.threads {x = t} {y = u})

-- A thread that schedules another gives it any priority up to its own: the call returns, the thread has that
-- priority, no other priority and no state changes, the lists agree with the states, and the result tells the
-- state of the thread. The other arguments have to be -1.
pub schedule-GivesPrio :
    (k : Kernel) (cur dst n : ℕ)
    → IsWell k
    → Owns k cur dst
    → AsksPrio k cur
    → reg (k.threads cur) 3 ≤ (k.threads cur).prio
    → state_result (k.threads dst).state ≡ ok n
    → GivesPrio k cur dst n
schedule-GivesPrio k cur dst n w o a small r =
    let v = reg (k.threads cur) 3 in
    let k₁ = set_result k cur 0 in
    let cut : v % 2 ^ 8 ≡ v = omega (arith, w.prios cur) in
    let given : (v == minus_one) ≡ false = ground (arith, w.prios cur) in
    let fits : ltb (k.threads cur).prio v ≡ false = ground arith in
    let (k₂, e, th, w₂) =
      set_prio_total k₁ dst v (set_result-IsWell cur 0 w) (omega (arith, w.prios cur)) in
    let same : (k₂.threads dst).state ≡ (k.threads dst).state =
      reprioritised-state k₁ k₂ dst v dst th ∙ set_result-state k cur 0 dst in
    (
      answered k₂ cur n,
      owned k cur dst o
          ∙ rw (fits, a.no_time, a.no_proc, a.no_preempt)
              (schedule_thread-eq k₁ k₂ cur dst v n given (rw cut e) (rw same r)),
      answered-IsWell k₂ cur n w₂,
      answered-reg k₂ cur n,
      (λ u.
          answered-prio k₂ cur n u
          ∙ reprioritised-prio k₁ k₂ dst v u th
          ∙ rw (set_result-prio k cur 0 u) refl),
      (λ u.
          answered-state k₂ cur n u
          ∙ reprioritised-state k₁ k₂ dst v u th
          ∙ set_result-state k cur 0 u),
    )
