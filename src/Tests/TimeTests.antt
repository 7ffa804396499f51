-- ===== src/Tests/TimeTests.antt =====
-- krn/tmaccount.h: tests and examples.
use wrmos.Base.{ℕ, ◌≡◌, refl, some, List, [], ◌∷◌, Run, ok, panic, arith}
use wrmos.Kernel.TimeAccount.{
  Account, new_account, set_prev, tp_resume, tmspan_exec, Event, kexit_start, kentry_end, kwork_1s,
  kwork_1e, suspend, run_events, on_event, add_span, tmevent_kexit_start, tmevent_kentry_end,
  tmevent_kwork_s, tmevent_kwork_e, tmevent_suspend, account_kexit, account_kentry,
}
use wrmos.Kernel.TimeAccount.Spans.{IsClocked, Grows, run_events-Grows}

-- A thread that is resumed at the time 20000.
abbrev resumed : Account
resumed = set_prev tp_resume 20000 new_account

resumed-IsClocked : IsClocked resumed
unfolding set_prev new_account tmspan_exec
resumed-IsClocked = record { last_fits = omega arith; exec_fits = omega arith }

abbrev a_turn : List (ℕ × Event)
a_turn =
    (20050, kexit_start)
    ∷ (20300, kentry_end (some 70) (some 280))
    ∷ (20310, kwork_1s)
    ∷ (20320, kwork_1e)
    ∷ (20330, suspend)
    ∷ []

abbrev after : Run Account → Account
after (ok a) = a
after panic = new_account

run_turn : tmspan_exec (after (run_events 10000 (λ r. r) a_turn resumed)) ≡ 330
unfolding run_events on_event add_span set_prev new_account tmspan_exec tmevent_kexit_start
    tmevent_kentry_end tmevent_kwork_s tmevent_kwork_e tmevent_suspend account_kexit account_kentry
run_turn = refl

run_events-Grows_example : Grows resumed (after (run_events 10000 (λ r. r) a_turn resumed))
unfolding run_events on_event add_span set_prev new_account tmevent_kexit_start tmevent_kentry_end
    tmevent_kwork_s tmevent_kwork_e tmevent_suspend account_kexit account_kentry
run_events-Grows_example =
    run_events-Grows 10000 (λ r. r) a_turn resumed _ resumed-IsClocked
      (omega arith, (omega arith, (omega arith, (omega arith, (omega arith, tt))))) refl
