-- ===== src/Kernel/TimeAccount/Spans.antt =====
-- krn/tmaccount.h, class Time_account_t: the span of execution over the events of a thread.
use wrmos.Base.{
  ℕ, ◌+◌, ◌*◌, ◌/◌, ◌%◌, ◌^◌, ◌<◌, ◌≡◌, refl, ◌∙◌, subst, inl, inr, Bool, true, false, not, ◌||◌,
  Option, none, some, List, [], ◌∷◌, ◌==◌, ltb, if◌then◌else◌, Bool-cases, ==_refl, All, arith, ok,
  ok-eq, >>=-eq-ok, wassert,
}
use wrmos.Kernel.TimeAccount.{
  Account, tp_resume, tp_kexit_start, tp_kentry_end, tp_suspend, ts_execution, ts_kwork, plus,
  minus, tmspan_exec, add_span, set_prev, tmevent_kexit_start, tmevent_suspend, tmevent_kwork_s,
  tmevent_kwork_e, account_kexit, account_kentry, tmevent_kentry_end, Event, kexit_start, suspend,
  kentry_end, kwork_1s, kwork_2s, kwork_3s, kwork_1e, kwork_2e, kwork_3e, on_event, run_events,
}

-- The time of the point that is accounted up to.
abbrev pub last : Account → ℕ
last a = a.points a.prev_point

-- The times are those of the clock.
pub record IsClocked (a : Account) : Type 0 where
  pub last_fits : last a < 2 ^ 64
  pub exec_fits : tmspan_exec a < 2 ^ 64

-- The span of execution has grown by the time between the points, on the clock.
pub record Grows (a a' : Account) : Type 0 where
  pub grown : tmspan_exec a' ≡ plus (tmspan_exec a) (minus (last a') (last a))
  pub clocked : IsClocked a'

Grows-refl : (a : Account) → IsClocked a → Grows a a
Grows-refl a c = record { grown = omega (arith, c.last_fits, c.exec_fits); clocked = c }

Grows-trans : {a b c : Account} → IsClocked a → Grows a b → Grows b c → Grows a c
Grows-trans {a} {b} {c} k g h = record {
  grown =
      omega (
        arith, k.last_fits, k.exec_fits, g.grown, g.clocked.last_fits, h.grown, h.clocked.last_fits,
      );
  clocked = h.clocked;
}

-- Two accounts that agree on the point and on the span of execution.
Grows-same :
    {a b c : Account} → Grows a b → last c ≡ last b → tmspan_exec c ≡ tmspan_exec b → Grows a c
Grows-same g l e = record {
  grown = omega (arith, g.grown, l, e);
  clocked = record {
    last_fits = omega (arith, g.clocked.last_fits, l);
    exec_fits = omega (arith, g.clocked.exec_fits, e);
  };
}

-- An event that accounts the execution up to `now`.
accounts :
    (a : Account) (now tp : ℕ)
    → IsClocked a
    → now < 2 ^ 64
    → Grows a (set_prev tp now (add_span ts_execution now a.prev_point a))
unfolding set_prev add_span tmspan_exec
accounts a now tp c h = record {
  grown = rw (==_refl tp) refl;
  clocked = record { last_fits = rw (==_refl tp) h; exec_fits = omega arith };
}

wassert-true : (b : Bool) {u : Unit {0}} → wassert b ≡ ok u → b ≡ true
wassert-true true e = refl
wassert-true false e = cc

-- The kernel's own span, accounted at the same time, leaves that of the execution alone.
accounts_kwork :
    (a : Account) (now tp : ℕ)
    → IsClocked a
    → now < 2 ^ 64
    → Grows a (
        set_prev tp now
          (add_span ts_kwork now a.prev_point (add_span ts_execution now a.prev_point a)))
unfolding set_prev add_span tmspan_exec
accounts_kwork a now tp c h = Grows-same (accounts a now tp c h) refl refl

kexit_start-Grows :
    (a a' : Account) (now : ℕ)
    → IsClocked a
    → now < 2 ^ 64
    → tmevent_kexit_start a now ≡ ok a'
    → Grows a a'
unfolding tmevent_kexit_start
kexit_start-Grows a a' now c h e =
    let (_, _, e₁) =
      >>=-eq-ok
        (wassert (
          a.prev_point == tp_kentry_end
          || a.prev_point == tp_resume
          || a.prev_point == tp_kexit_start))
        _ e in
    subst (Grows a) (ok-eq e₁) (accounts_kwork a now tp_kexit_start c h)

suspend-Grows :
    (a a' : Account) (now : ℕ)
    → IsClocked a
    → now < 2 ^ 64
    → tmevent_suspend a now ≡ ok a'
    → Grows a a'
unfolding tmevent_suspend
suspend-Grows a a' now c h e =
    let (_, _, e₁) =
      >>=-eq-ok (wassert (a.prev_point == tp_kentry_end || a.prev_point == tp_resume)) _ e in
    subst (Grows a) (ok-eq e₁) (accounts_kwork a now tp_suspend c h)

kwork_s-Grows :
    (n : ℕ) (a a' : Account) (now : ℕ) → IsClocked a → tmevent_kwork_s n a now ≡ ok a' → Grows a a'
unfolding tmevent_kwork_s tmspan_exec
kwork_s-Grows n a a' now c e =
    let (_, w, e₁) =
      >>=-eq-ok (wassert (a.prev_point == tp_kentry_end || a.prev_point == tp_resume)) _ e in
    let other : ((5 + n) == a.prev_point) ≡ false = ground (arith, wassert-true _ w) in
    subst (Grows a) (ok-eq e₁) (Grows-same (Grows-refl a c) (rw other refl) refl)

kwork_e-Grows :
    (n : ℕ) (a a' : Account) (now : ℕ) → IsClocked a → tmevent_kwork_e n a now ≡ ok a' → Grows a a'
unfolding tmevent_kwork_e add_span tmspan_exec
kwork_e-Grows n a a' now c e =
    let (_, _, e₁) =
      >>=-eq-ok (wassert (a.prev_point == tp_kentry_end || a.prev_point == tp_resume)) _ e in
    subst (Grows a) (ok-eq e₁) (Grows-same (Grows-refl a c) refl (ground arith))

-- What the accounting of the entry and of the exit keeps.
abbrev Keeps : Account → Account → Type 0
Keeps a b = (b.prev_point ≡ a.prev_point) × (last b ≡ last a) × (tmspan_exec b ≡ tmspan_exec a)

module _ (tick : ℕ) (usec : ℕ → ℕ) where
  account_kexit-Keeps :
      (o : Option ℕ) (a b : Account)
      → a.prev_point ≡ tp_kentry_end
      → account_kexit tick usec o a ≡ ok b
      → Keeps a b
  unfolding account_kexit tmspan_exec
  account_kexit-Keeps none a b p e = subst (Keeps a) (ok-eq e) (refl, refl, refl)
  account_kexit-Keeps (some raw) a b p e =
      let start : ℕ = a.points tp_kexit_start in
      let end₀ : ℕ = plus (usec raw) (((start / tick) * tick) % 2 ^ 64) in
      let end : ℕ = plus end₀ (if ltb end₀ start then tick else 0) in
      elim (Bool-cases (start == 0)) [
        | inl z ↦ subst (Keeps a) (ok-eq (rw z at e)) (refl, refl, refl)
        | inr z ↦
            let (_, _, e₁) = >>=-eq-ok (wassert (not (ltb end start))) _ (rw z at e) in
            let (_, _, e₂) = >>=-eq-ok (wassert (ltb (minus end start) 500)) _ e₁ in
            subst (Keeps a) (ok-eq e₂) (refl, rw p refl, refl)
      ]

  account_kentry-Keeps :
      (o : Option ℕ) (a b : Account)
      → a.prev_point ≡ tp_kentry_end
      → account_kentry tick usec o a ≡ ok b
      → Keeps a b
  unfolding account_kentry tmspan_exec
  account_kentry-Keeps none a b p e = subst (Keeps a) (ok-eq e) (refl, refl, refl)
  account_kentry-Keeps (some raw) a b p e =
      let end : ℕ = a.points tp_kentry_end in
      let start₀ : ℕ = plus (usec raw) (((end / tick) * tick) % 2 ^ 64) in
      let start : ℕ = minus start₀ (if ltb tick (minus end start₀) then tick else 0) in
      let (_, _, e₁) = >>=-eq-ok (wassert (ltb (minus end start) tick)) _ e in
      let (_, _, e₂) = >>=-eq-ok (wassert (ltb (minus end start) 500)) _ e₁ in
      subst (Keeps a) (ok-eq e₂) (refl, rw p refl, refl)

  kentry_end-Grows :
      (x s : Option ℕ) (a a' : Account) (now : ℕ)
      → IsClocked a
      → now < 2 ^ 64
      → tmevent_kentry_end tick usec x s a now ≡ ok a'
      → Grows a a'
  unfolding tmevent_kentry_end set_prev
  kentry_end-Grows x s a a' now c h e =
      let a₀ : Account = set_prev tp_kentry_end now (add_span ts_execution now a.prev_point a) in
      let (_, _, e₀) =
        >>=-eq-ok
          (wassert (
            a.prev_point == tp_kexit_start
            || a.prev_point == tp_resume
            || a.prev_point == tp_kentry_end))
          _ e in
      let (a₁, e₁, e₂) = >>=-eq-ok (account_kexit tick usec x a₀) _ e₀ in
      let (p₁, l₁, s₁) = account_kexit-Keeps x a₀ a₁ refl e₁ in
      let (_, l₂, s₂) = account_kentry-Keeps s a₁ a' p₁ e₂ in
      Grows-same (accounts a now tp_kentry_end c h) (l₂ ∙ l₁) (s₂ ∙ s₁)

  on_event-Grows :
      (ev : Event) (a a' : Account) (now : ℕ)
      → IsClocked a
      → now < 2 ^ 64
      → on_event tick usec ev a now ≡ ok a'
      → Grows a a'
  unfolding on_event
  on_event-Grows kexit_start a a' now c h e = kexit_start-Grows a a' now c h e
  on_event-Grows suspend a a' now c h e = suspend-Grows a a' now c h e
  on_event-Grows (kentry_end x s) a a' now c h e = kentry_end-Grows x s a a' now c h e
  on_event-Grows kwork_1s a a' now c h e = kwork_s-Grows 1 a a' now c e
  on_event-Grows kwork_2s a a' now c h e = kwork_s-Grows 2 a a' now c e
  on_event-Grows kwork_3s a a' now c h e = kwork_s-Grows 3 a a' now c e
  on_event-Grows kwork_1e a a' now c h e = kwork_e-Grows 1 a a' now c e
  on_event-Grows kwork_2e a a' now c h e = kwork_e-Grows 2 a a' now c e
  on_event-Grows kwork_3e a a' now c h e = kwork_e-Grows 3 a a' now c e

  -- Over any sequence of events of a running thread that no assert refuses, at any times of the 64-bit
  -- clock, the span of execution grows, on that clock, by the time from the last point that was
  -- accounted before the events to the last one that is accounted after them: no time between two
  -- events is lost or counted twice. The span and that last point stay below the clock's end.
  pub run_events-Grows :
      (es : List (ℕ × Event)) (a a' : Account)
      → IsClocked a
      → All (λ (x : ℕ × Event). x.0 < 2 ^ 64) es
      → run_events tick usec es a ≡ ok a'
      → Grows a a'
  unfolding run_events
  run_events-Grows [] a a' c h e = subst (Grows a) (ok-eq e) (Grows-refl a c)
  run_events-Grows ((now, ev) ∷ es) a a' c (l, h) e =
      let (a₁, e₁, e₂) = >>=-eq-ok (on_event tick usec ev a now) _ e in
      let g = on_event-Grows ev a a₁ now c l e₁ in
      Grows-trans c g (run_events-Grows es a₁ a' g.clocked h e₂)
