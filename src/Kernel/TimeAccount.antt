-- ===== src/Kernel/TimeAccount.antt =====
-- krn/tmaccount.h, class Time_account_t: the points and the spans of a thread's time, on 64 bits.
pub mod Spans
use wrmos.Base.{
  update, ℕ, ◌+◌, ◌-◌, ◌*◌, ◌/◌, ◌%◌, ◌^◌, Bool, true, false, not, ◌&&◌, ◌||◌, Option, none, some,
  List, [], ◌∷◌, ◌==◌, ltb, if◌then◌else◌, Run, ok, ◌>>=◌, ◌>>◌, wassert,
}

abbrev pub tp_resume : ℕ
tp_resume = 0

abbrev pub tp_kexit_start : ℕ
tp_kexit_start = 1

abbrev pub tp_kexit_end : ℕ
tp_kexit_end = 2

abbrev pub tp_kentry_start : ℕ
tp_kentry_start = 3

abbrev pub tp_kentry_end : ℕ
tp_kentry_end = 4

abbrev pub tp_suspend : ℕ
tp_suspend = 5

-- `Tp_kwork_1s` to `Tp_kwork_3s` are the numbers 1 to 3 after.
abbrev pub tp_kwork_s : ℕ → ℕ
tp_kwork_s n = 5 + n

abbrev pub ts_execution : ℕ
ts_execution = 0

abbrev pub ts_kentry : ℕ
ts_kentry = 1

abbrev pub ts_kwork : ℕ
ts_kwork = 2

abbrev pub ts_kexit : ℕ
ts_kexit = 3

abbrev pub ts_kwork_n : ℕ → ℕ
ts_kwork_n n = 3 + n

pub record Account : Type 0 where
  pub points : ℕ → ℕ
  pub spans : ℕ → ℕ
  pub prev_point : ℕ

-- `L4_clock_t` has 64 bits.
abbrev pub plus : ℕ → ℕ → ℕ
plus a b = (a + b) % 2 ^ 64

abbrev pub minus : ℕ → ℕ → ℕ
minus a b = (a + 2 ^ 64 - b) % 2 ^ 64

unfoldable pub new_account : Account
new_account = record { points = λ _. 0; spans = λ _. 0; prev_point = tp_suspend }

unfoldable pub tmspan_exec : Account → ℕ
tmspan_exec a = a.spans ts_execution

unfoldable pub tmspan_kexec : Account → ℕ
tmspan_kexec a = plus (plus (a.spans ts_kentry) (a.spans ts_kwork)) (a.spans ts_kexit)

unfoldable pub tmspan_uexec : Account → ℕ
unfolding tmspan_exec tmspan_kexec
tmspan_uexec a = minus (tmspan_exec a) (tmspan_kexec a)

unfoldable pub tmpoint_suspend : Account → ℕ
tmpoint_suspend a = a.points tp_suspend

-- `spans[ts] += now - points[tp]`.
unfoldable pub add_span : ℕ → ℕ → ℕ → Account → Account
add_span ts now tp a = record a {
  spans = update a.spans ts (plus (a.spans ts) (minus now (a.points tp)));
}

-- `prev_point = tp; points[prev_point] = now`.
unfoldable pub set_prev : ℕ → ℕ → Account → Account
set_prev tp now a = record a { prev_point = tp; points = update a.points tp now }

unfoldable pub tmevent_resume : Account → ℕ → Run Account
tmevent_resume a now = do wassert (a.prev_point == tp_suspend); ok (set_prev tp_resume now a)

unfoldable pub tmevent_kexit_start : Account → ℕ → Run Account
tmevent_kexit_start a now = do
  wassert
      (a.prev_point == tp_kentry_end || a.prev_point == tp_resume || a.prev_point == tp_kexit_start)
  ok (
      set_prev tp_kexit_start now
        (add_span ts_kwork now a.prev_point (add_span ts_execution now a.prev_point a)))

unfoldable pub tmevent_suspend : Account → ℕ → Run Account
tmevent_suspend a now = do
  wassert (a.prev_point == tp_kentry_end || a.prev_point == tp_resume)
  ok (
      set_prev tp_suspend now
        (add_span ts_kwork now a.prev_point (add_span ts_execution now a.prev_point a)))

-- The profiler's spans, for the numbers 1 to 3.
unfoldable pub tmevent_kwork_s : ℕ → Account → ℕ → Run Account
tmevent_kwork_s n a now = do
  wassert (a.prev_point == tp_kentry_end || a.prev_point == tp_resume)
  ok (record a { points = update a.points (tp_kwork_s n) now })

unfoldable pub tmevent_kwork_e : ℕ → Account → ℕ → Run Account
tmevent_kwork_e n a now = do
  wassert (a.prev_point == tp_kentry_end || a.prev_point == tp_resume)
  ok (add_span (ts_kwork_n n) now (tp_kwork_s n) a)

-- What may happen to a running thread, at a time.
pub data Event : Type 0 where
  kexit_start suspend : Event
  kentry_end : Option ℕ → Option ℕ → Event
  kwork_1s kwork_2s kwork_3s kwork_1e kwork_2e kwork_3e : Event

-- `Cfg_krn_tick_usec`, and `Timer::usec_from_raw_value` of the machine's timer.
module _ (krn_tick_usec : ℕ) (usec_from_raw_value : ℕ → ℕ) where
  -- "account kexit timespan": `cur_kexit_end`, which may be -1, and the first entry has no start.
  unfoldable pub account_kexit : Option ℕ → Account → Run Account
  account_kexit none a = ok a
  account_kexit (some raw) a =
      let start = a.points tp_kexit_start in
      if start == 0 then ok a else (do
        let end₀ =
            plus (usec_from_raw_value raw) (((start / krn_tick_usec) * krn_tick_usec) % 2 ^ 64)
        let end = plus end₀ (if ltb end₀ start then krn_tick_usec else 0)
        wassert (not (ltb end start))
        wassert (ltb (minus end start) 500)
        ok (record a {
          points = update a.points tp_kexit_end end;
          spans = update a.spans ts_kexit (plus (a.spans ts_kexit) (minus end start));
        }))

  -- "account kentry timespan": `cur_kentry_start`, which may be -1.
  unfoldable pub account_kentry : Option ℕ → Account → Run Account
  account_kentry none a = ok a
  account_kentry (some raw) a = do
    let end = a.points tp_kentry_end
    let start₀ = plus (usec_from_raw_value raw) (((end / krn_tick_usec) * krn_tick_usec) % 2 ^ 64)
    let start = minus start₀ (if ltb krn_tick_usec (minus end start₀) then krn_tick_usec else 0)
    wassert (ltb (minus end start) krn_tick_usec)
    wassert (ltb (minus end start) 500)
    ok (record a {
      points = update a.points tp_kentry_start start;
      spans = update a.spans ts_kentry (plus (a.spans ts_kentry) (minus end start));
    })

  unfoldable pub tmevent_kentry_end : Option ℕ → Option ℕ → Account → ℕ → Run Account
  tmevent_kentry_end kexit_end kentry_start a now = do
    wassert (
        a.prev_point == tp_kexit_start
        || a.prev_point == tp_resume
        || a.prev_point == tp_kentry_end)
    a₁ ←
        account_kexit kexit_end
          (set_prev tp_kentry_end now (add_span ts_execution now a.prev_point a))
    account_kentry kentry_start a₁

  unfoldable pub on_event : Event → Account → ℕ → Run Account
  on_event kexit_start = tmevent_kexit_start
  on_event suspend = tmevent_suspend
  on_event (kentry_end x s) = tmevent_kentry_end x s
  on_event kwork_1s = tmevent_kwork_s 1
  on_event kwork_2s = tmevent_kwork_s 2
  on_event kwork_3s = tmevent_kwork_s 3
  on_event kwork_1e = tmevent_kwork_e 1
  on_event kwork_2e = tmevent_kwork_e 2
  on_event kwork_3e = tmevent_kwork_e 3

  unfoldable pub run_events : List (ℕ × Event) → Account → Run Account
  run_events [] a = ok a
  run_events ((now, e) ∷ es) a = do a₁ ← on_event e a now; run_events es a₁
