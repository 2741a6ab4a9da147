-- ===== src/Scheduler/Engine.antt =====
-- scheduler/engine.py: the engine that fires, retries and reports the jobs of one minute. What the
-- executors, the clock and the notifier do is a parameter: a function of all that happened before.
pub mod Laws
mod Tests
use mathlib.Core.List
use mathlib.Core.List.{[], ◌∷◌}
use mathlib.Core.Option.{get_or}
use mimi_agent.Base.{
  ℕ, zero, suc, ◌+◌, ◌-◌, ◌*◌, String, ◌<>◌, Bool, true, false, not, ◌&&◌, ◌||◌, Option, none, some,
  List, map, ltb, contains, ◌==◌, string_eq, nat_eq, option_eq, if◌then◌else◌,
}
use mimi_agent.Base.Dict.{Dict, lookup, insert}
use mimi_agent.Base.Exec.{
  Error, Result, ok, err, Exec, pure, raise, lift, gets, ◌>>=◌, ◌>>◌, modify,
}
use mimi_agent.Scheduler.Number.{ℤ, pos, negsuc}
use mimi_agent.Scheduler.Calendar.{Moment, micros_per_minute, minute_of}
use mimi_agent.Scheduler.Field
use mimi_agent.Scheduler.Cron.{CronSchedule, parse, matches}

pub data Status : Type 0 where
  succeeded failed skipped : Status

pub record JobRunResult : Type 0 where
  pub job_name : String
  pub status : Status
  pub reason : Option String
  pub duration_seconds : Option ℕ
  pub attempts : Option ℕ

-- A job of the schedules file, and the defaults of that file.
pub record RawJob : Type 0 where
  pub name : String
  pub role : Option String
  pub cron : String
  pub enabled : Option Bool
  pub concurrency_policy : Option String
  pub backoff_limit : Option ℤ
  pub active_deadline_seconds : Option ℕ

pub record Defaults : Type 0 where
  pub timezone : Option String
  pub enabled : Option Bool
  pub concurrency_policy : Option String
  pub backoff_limit : Option ℤ

pub record JobSpec : Type 0 where
  pub name : String
  pub role : String
  pub cron_expr : String
  pub enabled : Bool
  pub concurrency_policy : String
  pub backoff_limit : ℤ
  pub active_deadline_seconds : Option ℕ

-- `raw.get(key, defaults.get(key, fallback))`
abbrev or_default {ℓ} : {A : Type ℓ} → Option A → Option A → A → A
or_default (some a) d fallback = a
or_default none (some a) fallback = a
or_default none none fallback = fallback

job_spec : Defaults → RawJob → JobSpec
job_spec d raw = record {
  name = raw.name;
  role = or_default raw.role none "";
  cron_expr = raw.cron;
  enabled = or_default raw.enabled d.enabled true;
  concurrency_policy = or_default raw.concurrency_policy d.concurrency_policy "forbid";
  backoff_limit = or_default raw.backoff_limit d.backoff_limit (pos 1);
  active_deadline_seconds = raw.active_deadline_seconds;
}

enabled_jobs : Defaults → List RawJob → List JobSpec
enabled_jobs d [] = []
enabled_jobs d (raw ∷ raws) =
    let rest = enabled_jobs d raws in
    if or_default raw.enabled d.enabled true then job_spec d raw ∷ rest else rest

value_error : String → Error
value_error message = record { kind = "ValueError"; message = message }

unfoldable pub load_jobs : Defaults → List RawJob → Result (List JobSpec)
unfolding enabled_jobs job_spec value_error
load_jobs d raws =
    if or_default d.timezone none "Asia/Tokyo" == "Asia/Tokyo"
    then ok (enabled_jobs d raws)
    else err (value_error "unsupported schedules timezone")

-- What one call of an executor does: how long it takes, in milliseconds, and whether it raises.
pub record Attempt : Type 0 where
  pub elapsed : ℕ
  pub error : Option String

-- What the engine does to its surroundings, the latest first.
pub data Event : Type 0 where
  attempted : String → Event
  notified : JobRunResult → Event

pub record Surroundings : Type 0 where
  pub attempt : List Event → JobSpec → Attempt
  pub monotonic : List Event → ℕ
  pub notifier : Option (List Event → JobRunResult → Option Error)

pub record Engine : Type 0 where
  pub jobs : List JobSpec
  pub crons : Dict String CronSchedule
  pub executors : List String

pub record State : Type 0 where
  pub last_fired : Dict String ℕ
  pub log : List Event

-- `{job.name: CronSchedule.parse(job.cron_expr) for job in jobs}`: of two jobs of one name the later
-- one decides.
unfoldable pub parse_crons :
    List JobSpec → Dict String CronSchedule → Field.Parsed (Dict String CronSchedule)
parse_crons [] crons = Field.ok crons
parse_crons (job ∷ jobs) crons = elim (parse job.cron_expr) [
  | Field.fail e ↦ Field.fail e
  | Field.ok c ↦ parse_crons jobs (insert job.name c crons)
]

cron_error : Error
cron_error = record { kind = "ValueError"; message = "invalid cron expression" }

build_crons : List String → List JobSpec → Field.Parsed (Dict String CronSchedule) → Result Engine
build_crons executors jobs (Field.fail e) = err cron_error
build_crons executors jobs (Field.ok crons) =
    ok (record { jobs = jobs; crons = crons; executors = executors })

-- `SchedulerEngine(...)`: it raises if the timezone or a cron expression is refused.
unfoldable pub build : Defaults → List RawJob → List String → Result Engine
unfolding load_jobs build_crons cron_error
build d raws executors = elim (load_jobs d raws) [
  | err e ↦ err e
  | ok jobs ↦ build_crons executors jobs (parse_crons jobs [])
]

-- `max(1, backoff_limit + 1)`
unfoldable pub max_attempts : ℤ → ℕ
max_attempts (pos n) = n + 1
max_attempts (negsuc n) = 1

-- A notification, or none: a failing notifier raises.
raise_if : Option Error → Exec State (Unit {0})
raise_if none = pure tt
raise_if (some e) = raise e

unfoldable pub terminal : Status → Bool
terminal succeeded = true
terminal failed = true
terminal skipped = false

module _ (w : Surroundings) where
  open w use {attempt, monotonic, notifier}

  -- The error of one attempt: the deadline's if it passes first, else what the executor raised. A
  -- deadline of 0 is none.
  unfoldable pub attempt_error : JobSpec → Attempt → Option String
  attempt_error job a = elim job.active_deadline_seconds [
    | none ↦ a.error
    | some zero ↦ a.error
    | some (suc d) ↦ if ltb ((d + 1) * 1000) a.elapsed then some "deadline exceeded" else a.error
  ]

  -- The retry loop, with the attempts that are left, those made and the last error. An attempt that
  -- returns breaks it.
  unfoldable pub attempt_loop :
      ℕ → JobSpec → ℕ → Option String → State → (Option String × ℕ) × State
  attempt_loop zero job attempts last_error s = ((last_error, attempts), s)
  attempt_loop (suc remaining) job attempts last_error s =
      let s' : State = record s { log = attempted job.name ∷ s.log } in
      elim (attempt_error job (attempt s.log job)) [
        | none ↦ ((none, attempts + 1), s')
        | some message ↦ attempt_loop remaining job (attempts + 1) (some message) s'
      ]

  attempt_result : JobSpec → ℕ → Option String → ℕ → JobRunResult
  attempt_result job attempts none duration = record {
    job_name = job.name;
    status = succeeded;
    reason = none;
    duration_seconds = some duration;
    attempts = some attempts;
  }
  attempt_result job attempts (some message) duration = record {
    job_name = job.name;
    status = failed;
    reason = some message;
    duration_seconds = some duration;
    attempts = some attempts;
  }

  skip : JobSpec → String → JobRunResult
  skip job why = record {
    job_name = job.name;
    status = skipped;
    reason = some why;
    duration_seconds = none;
    attempts = none;
  }

  unfoldable pub dispatch : Engine → JobSpec → State → JobRunResult × State
  unfolding attempt_result skip
  dispatch e job s =
      let started_at = monotonic s.log in
      let ((last_error, attempts), s') =
        attempt_loop (max_attempts job.backoff_limit) job 0 none s in
      if not (contains e.executors job.name)
      then (skip job "no executor", s)
      else (attempt_result job attempts last_error (monotonic s'.log - started_at), s')

  -- What is done with a job whose cron expression matches the minute.
  unfoldable pub fire : Engine → JobSpec → ℕ → State → JobRunResult × State
  unfolding skip
  fire e job minute s =
      if job.concurrency_policy == "forbid" && lookup job.name s.last_fired == some minute
      then (skip job "already fired this minute", s)
      else dispatch e job (record s { last_fired = insert job.name minute s.last_fired })

  -- A job with no cron schedule would be a `KeyError`, which the handler turns into a failed result.
  run_job_safely_of :
      Option CronSchedule → Engine → JobSpec → ℕ → State → Option JobRunResult × State
  run_job_safely_of none e job minute s = (
    some (record {
      job_name = job.name;
      status = failed;
      reason = some ("'" <> (job.name <> "'"));
      duration_seconds = none;
      attempts = none;
    }),
    s,
  )
  run_job_safely_of (some c) e job minute s =
      let (result, s') = fire e job minute s in
      if not (matches c minute) then (none, s) else (some result, s')

  unfoldable pub run_job_safely : Engine → JobSpec → ℕ → State → Option JobRunResult × State
  unfolding run_job_safely_of
  run_job_safely e job minute s = run_job_safely_of (lookup job.name e.crons) e job minute s

  call_notifier :
      Option (List Event → JobRunResult → Option Error) → JobRunResult → Exec State (Unit {0})
  call_notifier none result s = (ok tt, s)
  call_notifier (some f) result s =
      raise_if (f s.log result) (record s { log = notified result ∷ s.log })

  unfoldable pub notify : JobRunResult → Exec State (Unit {0})
  unfolding call_notifier raise_if pure raise
  notify result s =
      if not (terminal result.status) then (ok tt, s) else call_notifier notifier result s

  -- The loop of `run_pending`. An exception of the notifier ends it.
  unfoldable pub run_jobs : Engine → List JobSpec → ℕ → Exec State (List JobRunResult)
  run_jobs e [] minute s = (ok [], s)
  run_jobs e (job ∷ jobs) minute s =
      let (found, s') = run_job_safely e job minute s in
      elim found [
        | none ↦ run_jobs e jobs minute s'
        | some result ↦
            (do notify result; results ← run_jobs e jobs minute; pure (result ∷ results)) s'
      ]

  unfoldable pub run_pending : Engine → Moment → Exec State (List JobRunResult)
  unfolding run_jobs
  run_pending e at = run_jobs e e.jobs (minute_of at)

  -- One round of `run_forever`: an exception is dropped.
  unfoldable pub tick : Engine → Moment → State → State
  tick e now s = (run_pending e now s).1

-- How long a round of `run_forever` sleeps, by the clock that was read before its jobs ran.
unfoldable pub sleep_time : Moment → ℕ
sleep_time now = (minute_of now + 1) * micros_per_minute - now

-- The moment of the next round, if the jobs took so long.
unfoldable pub wake : Moment → ℕ → Moment
wake now took = now + took + sleep_time now
