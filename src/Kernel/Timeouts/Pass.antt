-- ===== src/Kernel/Timeouts/Pass.antt =====
-- krn/threads.h: one pass of the check of the timeouts over a list of waiting threads.
use wrmos.Base.{
  update, ℕ, ◌≡◌, refl, sym, ap, ◌∙◌, fun_ext, inl, inr, true, false, ◌||◌, Option, none, some,
  List, [], ◌∷◌, arith, ◌==◌, ltb, leb, if◌then◌else◌, Bool-cases, ==_refl, contains, ok, ◌>>=◌,
}
use wrmos.L4.Thrid
use wrmos.Kernel.State.{ready, send_ipc, receive_ipc, is, Thread, Kernel, set_thread}
use wrmos.Kernel.Prio.{return_prio}
use wrmos.Kernel.Transition.{set_state}
use wrmos.Kernel.Transition.Well.{IsWell, set_thread-IsWell}
use wrmos.Kernel.Transition.Lending.{return_prio-nil}
use wrmos.Kernel.Transition.Keeps.{set_state_total}
use wrmos.Kernel.Timeouts.{timed_out, or_else, expire_list}
use wrmos.Kernel.Timeouts.Wakes.{woken, wake_all, IsOnce, IsOnce-out, IsOnce-tail}
use wrmos.Kernel.Timeouts.Timed.{IsTimely, set_thread-IsTimely, set_state-IsTimely}

-- The thread waits with a timeout, and its priority is its own when the time has come.
abbrev pub Waits : ℕ → Thread → Type 0
Waits now th =
    ((is th.state send_ipc || is th.state receive_ipc) ≡ true)
    × (leb th.timeout now ≡ true → th.prio_heir ≡ Thrid.nil)

-- One thread is woken.
abbrev IsWoken : Kernel → ℕ → Type 0
IsWoken k t =
    (k' : Kernel) × (set_state (set_thread k t (timed_out (k.threads t))) t ready ≡ ok k')
    × (return_prio k' t ≡ ok k')
    × (k'.threads ≡ update k.threads t (woken (k.threads t)))
    × IsWell k'
    × IsTimely k'

wake :
    (k : Kernel) (now t : ℕ)
    → IsWell k
    → IsTimely k
    → Waits now (k.threads t)
    → leb (k.threads t).timeout now ≡ true
    → IsWoken k t
wake k now t w y (waits, heir) due =
    let k₀ = set_thread k t (timed_out (k.threads t)) in
    let w₀ = set_thread-IsWell {k = k} t (timed_out (k.threads t)) refl (w.prios t) w in
    let at : k₀.threads t ≡ timed_out (k.threads t) = rw (==_refl t) in
    let (k', e, th, w') = set_state_total k₀ t ready w₀ (rw at (ground arith)) (rw at (heir due)) in
    (
      k',
      e,
      return_prio-nil k' t
          (ap (λ (f : ℕ → Thread). (f t).prio_heir) th ∙ rw (==_refl t) (heir due)),
      th ∙ fun_ext (λ u. ground (arith, at, ap k.threads {x = t} {y = u})),
      w',
      set_state-IsTimely k₀ k' t ready w₀
          (set_thread-IsTimely {k = k} t (timed_out (k.threads t)) refl y) e,
    )

-- One round of the loop.
module _ (k : Kernel) (now t : ℕ) (ts : List ℕ) (next : Option ℕ)
    (waits : (is (k.threads t).state send_ipc || is (k.threads t).state receive_ipc) ≡ true) where
  expire_list-later :
      ltb now (k.threads t).timeout ≡ true → expire_list k now (t ∷ ts) next ≡ ok (k, next)
  unfolding expire_list
  expire_list-later e = rw (waits, e)

  expire_list-due :
      (k₁ : Kernel)
      → ltb now (k.threads t).timeout ≡ false
      → set_state (set_thread k t (timed_out (k.threads t))) t ready ≡ ok k₁
      → return_prio k₁ t ≡ ok k₁
      → expire_list k now (t ∷ ts) next ≡ expire_list k₁ now ts (or_else next t)
  unfolding expire_list
  expire_list-due k₁ e s r = rw (waits, e, s, ◌>>=◌) (rw r)

-- The thread that the loop gives back.
abbrev pub first_due : ℕ → (ℕ → Thread) → List ℕ → Option ℕ → Option ℕ
first_due now th [] next = next
first_due now th (t ∷ ts) next = if ltb now (th t).timeout then next else or_else next t

first_due-or_else :
    (now : ℕ) (th : ℕ → Thread) (l : List ℕ) (next : Option ℕ) (t : ℕ)
    → first_due now th l (or_else next t) ≡ or_else next t
first_due-or_else now th [] next t = refl
first_due-or_else now th (u ∷ l) none t = ground arith
first_due-or_else now th (u ∷ l) (some n) t = ground arith

abbrev pub Expires : Kernel → ℕ → List ℕ → Option ℕ → Type 0
Expires k now l next =
    (k' : Kernel) × (expire_list k now l next ≡ ok (k', first_due now k.threads l next))
    × (k'.threads ≡ wake_all now l k.threads)
    × IsWell k'
    × IsTimely k'

wake_all-later :
    (now t : ℕ) (ts : List ℕ) (th : ℕ → Thread)
    → ltb now (th t).timeout ≡ true
    → wake_all now (t ∷ ts) th ≡ th
unfolding wake_all
wake_all-later now t ts th e = rw e

wake_all-due :
    (now t : ℕ) (ts : List ℕ) (th : ℕ → Thread)
    → ltb now (th t).timeout ≡ false
    → wake_all now (t ∷ ts) th ≡ wake_all now ts (update th t (woken (th t)))
unfolding wake_all
wake_all-due now t ts th e = rw e

others-Waits :
    (now : ℕ) (th : ℕ → Thread) (t u : ℕ) (ts : List ℕ)
    → contains t ts ≡ false
    → contains u ts ≡ true
    → Waits now (th u)
    → Waits now (update th t (woken (th t)) u)
others-Waits now th t u ts out h ws = elim (Bool-cases (t == u)) [
  | inl d ↦ absurd (ground (arith, ap (λ (v : ℕ). contains v ts) {x = t} {y = u}))
  | inr d ↦ rw d ws
]

pub expire_list-Expires :
    (k : Kernel) (now : ℕ) (l : List ℕ) (next : Option ℕ)
    → IsWell k
    → IsTimely k
    → IsOnce l
    → ((u : ℕ) → contains u l ≡ true → Waits now (k.threads u))
    → Expires k now l next
unfolding contains
expire_list-Expires k now [] next w y once ws =
    (k, unfold expire_list in refl, unfold wake_all in refl, w, y)
expire_list-Expires k now (t ∷ ts) next w y once ws =
    let wt = ws t (rw (==_refl t)) in
    elim (Bool-cases (ltb now (k.threads t).timeout)) [
      | inl e ↦ (
        k,
        expire_list-later k now t ts next wt.0 e ∙ rw e,
        sym (wake_all-later now t ts k.threads e),
        w,
        y,
      )
      | inr e ↦
          let (k₁, s, r, th, w₁, y₁) = wake k now t w y wt (ground arith) in
          let out = IsOnce-out now k.threads t ts once in
          let (k₂, x, th₂, w₂, y₂) =
            expire_list-Expires k₁ now ts (or_else next t) w₁ y₁
              (IsOnce-tail now k.threads t ts once)
              (λ u h. rw th (others-Waits now k.threads t u ts out h (ws u (ground arith)))) in
          (
            k₂,
            expire_list-due k now t ts next wt.0 k₁ e s (r)
                ∙ x
                ∙ ap (λ (n : Option ℕ). ok (k₂, n))
                    (first_due-or_else now k₁.threads ts next t ∙ rw e),
            th₂ ∙ ap (wake_all now ts) th ∙ sym (wake_all-due now t ts k.threads e),
            w₂,
            y₂,
          )
    ]
