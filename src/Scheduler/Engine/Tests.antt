-- ===== src/Scheduler/Engine/Tests.antt =====
-- Rounds of the engine with concrete surroundings, and the theorems about them.
use mathlib.Core.List.{List, [], ◌∷◌}
use mimi_agent.Base.{
  ◌+◌, ◌/◌, ◌%◌, ◌≤◌, ◌<◌, ◌≡◌, refl, true, none, some, ◌++◌, map, keep, All, contains, string_eq,
  nat_eq, option_eq,
}
use mimi_agent.Base.Dict.{lookup, insert}
use mimi_agent.Base.Exec.{Result, ok, ◌>>=◌}
use mimi_agent.Scheduler.Number.{pos}
use mimi_agent.Scheduler.Calendar.{
  micros_per_minute, minute_of, clock_minute, clock_hour, day_of_week, month_of, day_of, date_of,
}
use mimi_agent.Scheduler.Cron.{CronSchedule, matches}
use mimi_agent.Scheduler.Engine.{
  succeeded, skipped, JobRunResult, JobSpec, Attempt, Event, attempted, notified, Surroundings,
  Engine, State, max_attempts, terminal, attempt_error, attempt_loop, dispatch, fire,
  run_job_safely, notify, run_jobs, run_pending, sleep_time, wake,
}
use mimi_agent.Scheduler.Engine.Laws.Retry.{Retried, dispatch-Retried}
use mimi_agent.Scheduler.Engine.Laws.Minute.{HasCron, run_pending-again}
use mimi_agent.Scheduler.Engine.Laws.Notify.{
  notified_in, due, run_pending-notified, run_pending-names,
}
use mimi_agent.Scheduler.Engine.Laws.Clock.{sleep_time_bounds, minute_of-wake}

abbrev first_minute : CronSchedule
first_minute = record {
  minute = 0 ∷ [];
  hour = 0 ∷ [];
  dom = 1 ∷ [];
  mon = 1 ∷ [];
  dow = 1 ∷ [];
  dom_restricted = true;
  dow_restricted = true;
  expr = "0 0 1 1 1";
}

abbrev digest : JobSpec
digest = record {
  name = "digest";
  role = "researcher";
  cron_expr = "0 0 1 1 1";
  enabled = true;
  concurrency_policy = "forbid";
  backoff_limit = pos 1;
  active_deadline_seconds = some 1;
}

-- An executor whose first attempt passes its deadline and whose second one returns.
abbrev attempt_of : List Event → JobSpec → Attempt
attempt_of [] job = record { elapsed = 1500; error = none }
attempt_of (event ∷ log) job = record { elapsed = 10; error = none }

abbrev surroundings : Surroundings
surroundings = record {
  attempt = attempt_of;
  monotonic = λ log. 7;
  notifier = some (λ log result. none);
}

abbrev engine : Engine
engine = record {
  jobs = digest ∷ [];
  crons = ("digest", first_minute) ∷ [];
  executors = "digest" ∷ [];
}

abbrev fresh : State
fresh = record { last_fired = []; log = [] }

abbrev result : JobRunResult
result = record {
  job_name = "digest";
  status = succeeded;
  reason = none;
  duration_seconds = some 0;
  attempts = some 2;
}

abbrev done : State
done = record {
  last_fired = ("digest", 0) ∷ [];
  log = notified result ∷ attempted "digest" ∷ attempted "digest" ∷ [];
}

first_round :
    ◌≡◌ {A = Result (List JobRunResult) × State}
      (run_pending surroundings engine 5 fresh)
      (ok (result ∷ []), done)
unfolding run_pending run_jobs run_job_safely fire dispatch notify attempt_loop attempt_error
    max_attempts terminal matches clock_minute clock_hour day_of_week month_of day_of date_of
    minute_of lookup insert ◌>>=◌ string_eq nat_eq option_eq
first_round = refl

registered : contains engine.executors "digest" ≡ true
unfolding string_eq
registered = refl

dispatch-Retried_example :
    Retried surroundings digest fresh
      (dispatch surroundings engine digest fresh).0
      (dispatch surroundings engine digest fresh).1
dispatch-Retried_example = dispatch-Retried surroundings engine digest fresh registered

has_cron : HasCron surroundings engine (minute_of 5) digest
unfolding lookup string_eq
has_cron = (first_minute, refl)

run_pending-again_example :
    (rs : List JobRunResult) × (run_pending surroundings engine 59999999 done ≡ (ok rs, done))
    × All (λ (r : JobRunResult). r.status ≡ skipped) rs
run_pending-again_example =
    run_pending-again surroundings engine 5 59999999 fresh (has_cron, tt) (refl, tt)
      (unfold minute_of in refl) first_round

run_pending-notified_example :
    notified_in done.log
    ≡ notified_in [] ++ keep (λ (r : JobRunResult). terminal r.status) (result ∷ [])
run_pending-notified_example = run_pending-notified surroundings engine 5 fresh refl first_round

run_pending-names_example :
    map (λ (r : JobRunResult). r.job_name) (result ∷ [])
    ≡ map (λ (job : JobSpec). job.name) (keep (due surroundings engine (minute_of 5)) (digest ∷ []))
run_pending-names_example = run_pending-names surroundings engine 5 fresh first_round

sleep_time_bounds_example :
    (0 < sleep_time 61000000)
    × (sleep_time 61000000 ≤ micros_per_minute)
    × ((61000000 + sleep_time 61000000) % micros_per_minute ≡ 0)
    × (wake 61000000 90000000 ≡ 61000000 + sleep_time 61000000 + 90000000)
sleep_time_bounds_example = sleep_time_bounds 61000000 90000000

minute_of-wake_example :
    minute_of (wake 61000000 90000000) ≡ minute_of 61000000 + 1 + 90000000 / micros_per_minute
minute_of-wake_example = minute_of-wake 61000000 90000000
