-- ===== src/Scheduler/Engine/Laws/Minute.antt =====
-- The guard against firing a job twice in one minute.
use mathlib.Core.List.{[], ◌∷◌}
use mimi_agent.Base.{
  ℕ, zero, suc, ◌+◌, ◌≡◌, ◌∙◌, sym, ap, refl, String, true, Option, none, some, List, All, arith,
  Option-cases, inl, inr, string_eq, option_eq, nat_eq,
}
use mimi_agent.Base.Dict.{lookup, insert, lookup-insert}
use mimi_agent.Base.Exec.Keeps.{Keeps, Keeps-bind, Keeps-pure}
use mimi_agent.Base.Exec.{ok, Exec, ◌>>=◌}
use mimi_agent.Scheduler.Calendar.{Moment, minute_of}
use mimi_agent.Scheduler.Cron.{CronSchedule, matches}
use mathlib.Core.Path.{subst}
use mimi_agent.Scheduler.Engine.Laws.Loop
use mimi_agent.Scheduler.Engine.{
  skipped, terminal, JobRunResult, JobSpec, Surroundings, Engine, State, attempt_error,
  attempt_loop, max_attempts, dispatch, fire, run_job_safely, notify, run_jobs, run_pending,
}

module _ (w : Surroundings) (e : Engine) (minute : ℕ) where
  last_fired-attempt_loop :
      (n : ℕ) (job : JobSpec) (made : ℕ) (error : Option String) (s : State)
      → (attempt_loop w n job made error s).1.last_fired ≡ s.last_fired
  unfolding attempt_loop
  last_fired-attempt_loop zero job made error s = refl
  last_fired-attempt_loop (suc n) job made error s =
      elim (Option-cases (attempt_error w job (w.attempt s.log job))) [
        | inl done ↦ rw (done, attempt_loop)
        | inr (message, raised) ↦
            rw (raised, attempt_loop) (last_fired-attempt_loop n job (made + 1) (some message) _)
      ]

  last_fired-dispatch :
      (job : JobSpec) (s : State) → (dispatch w e job s).1.last_fired ≡ s.last_fired
  unfolding dispatch
  last_fired-dispatch job s =
      ground (arith, last_fired-attempt_loop (max_attempts job.backoff_limit) job 0 none s)

  -- Firing a job records the minute, and forgets no job that was recorded with it.
  lookup-fire :
      (job : JobSpec) (s : State)
      → lookup job.name (fire w e job minute s).1.last_fired ≡ some minute
  unfolding fire
  lookup-fire job s = ground (
    arith,
    last_fired-dispatch job (record s { last_fired = insert job.name minute s.last_fired }),
    lookup-insert job.name job.name minute s.last_fired,
  )

  lookup-fire_keep :
      (name : String) (job : JobSpec) (s : State)
      → lookup name s.last_fired ≡ some minute
      → lookup name (fire w e job minute s).1.last_fired ≡ some minute
  unfolding fire
  lookup-fire_keep name job s h = ground (
    arith,
    last_fired-dispatch job (record s { last_fired = insert job.name minute s.last_fired }),
    lookup-insert name job.name minute s.last_fired,
  )

  last_fired-notify : (r : JobRunResult) (s : State) → (notify w r s).1.last_fired ≡ s.last_fired
  unfolding notify
  last_fired-notify r s = ground arith

  abbrev FiredNow : String → State → Type 0
  FiredNow name s = lookup name s.last_fired ≡ some minute

  run_job_safely-keep :
      (name : String) (job : JobSpec) (s : State)
      → FiredNow name s
      → FiredNow name (run_job_safely w e job minute s).1
  unfolding run_job_safely
  run_job_safely-keep name job s h = ground (arith, lookup-fire_keep name job s)

  abbrev report : Option JobRunResult → List JobSpec → Exec State (List JobRunResult)
  report = Loop.report w e minute

  report-Keeps :
      (name : String) (found : Option JobRunResult) (jobs : List JobSpec)
      → Keeps (FiredNow name) (run_jobs w e jobs minute)
      → Keeps (FiredNow name) (report found jobs)
  report-Keeps name none jobs ih = ih
  report-Keeps name (some result) jobs ih =
      Keeps-bind _ _ (record { after = λ s h. rw last_fired-notify h })
        (λ _. Keeps-bind _ _ ih (λ rs. Keeps-pure (result ∷ rs)))

  run_jobs-Keeps :
      (name : String) (jobs : List JobSpec) → Keeps (FiredNow name) (run_jobs w e jobs minute)
  run_jobs-Keeps name [] = record { after = λ s h. unfold run_jobs in h }
  run_jobs-Keeps name (job ∷ jobs) = record {
    after = λ s h. rw (Loop.run_jobs-cons w e minute) (
        (report-Keeps name _ jobs (run_jobs-Keeps name jobs)).after _
          (run_job_safely-keep name job s h));
  }

  -- The job matches the minute, and the engine has recorded that it fired.
  abbrev pub HasCron : JobSpec → Type 0
  HasCron job = (c : CronSchedule) × (lookup job.name e.crons ≡ some c)

  abbrev Recorded : State → JobSpec → Type 0
  Recorded s job =
      (c : CronSchedule)
      → lookup job.name e.crons ≡ some c
      → matches c minute ≡ true
      → FiredNow job.name s

  run_job_safely-Recorded :
      (job : JobSpec) (s : State) → Recorded (run_job_safely w e job minute s).1 job
  unfolding run_job_safely
  run_job_safely-Recorded job s c found hit = rw (found, hit) (lookup-fire job s)

  -- After a round that returned, every job that matches is recorded.
  run_jobs-Recorded :
      (jobs : List JobSpec) (s : State) {rs : List JobRunResult} {s' : State}
      → run_jobs w e jobs minute s ≡ (ok rs, s')
      → All (Recorded s') jobs
  run_jobs-Recorded [] s h = tt
  run_jobs-Recorded (job ∷ jobs) s {s' = s'} h =
      let h' = sym (Loop.run_jobs-cons w e minute job jobs s) ∙ h in
      let first = (run_job_safely w e job minute s).0 in
      let s1 = (run_job_safely w e job minute s).1 in
      let after = Loop.report-eq-ok w e minute first jobs s1 h' in
      (
        λ c found hit.
            let kept =
              (report-Keeps job.name first jobs (run_jobs-Keeps job.name jobs)).after s1
                (run_job_safely-Recorded job s c found hit) in
            subst (λ (t : State). FiredNow job.name t) (ap (λ x. x.1) h') kept,
        run_jobs-Recorded jobs after.from after.ran,
      )

  -- A job that is recorded and forbids a second start leaves all as it is.
  abbrev pub IsForbid : JobSpec → Type 0
  IsForbid job = job.concurrency_policy ≡ "forbid"

  run_job_safely-again :
      (job : JobSpec) (s : State)
      → HasCron job
      → IsForbid job
      → Recorded s job
      → ((run_job_safely w e job minute s).1 ≡ s)
        × ((r : JobRunResult) → (run_job_safely w e job minute s).0 ≡ some r → r.status ≡ skipped)
  unfolding run_job_safely fire
  run_job_safely-again job s (c, found) forbid recorded =
      rw found (ground (arith, recorded c found))

  abbrev AllSkipped : List JobRunResult → Type 0
  AllSkipped = All (λ (r : JobRunResult). r.status ≡ skipped)

  notify-skipped : (r : JobRunResult) (s : State) → r.status ≡ skipped → notify w r s ≡ (ok tt, s)
  unfolding notify
  notify-skipped r s h = unfold terminal in rw (h, notify)

  report-again :
      (found : Option JobRunResult) (jobs : List JobSpec) (s : State) (rs : List JobRunResult)
      → ((r : JobRunResult) → found ≡ some r → r.status ≡ skipped)
      → run_jobs w e jobs minute s ≡ (ok rs, s)
      → AllSkipped rs
      → (rs' : List JobRunResult) × (report found jobs s ≡ (ok rs', s)) × AllSkipped rs'
  report-again none jobs s rs skips ran all = (rs, ran, all)
  report-again (some r) jobs s rs skips ran all =
      (r ∷ rs, unfold ◌>>=◌ in rw (notify-skipped r s (skips r refl), ran), (skips r refl, all))

  run_jobs-again :
      (jobs : List JobSpec) (s : State)
      → All HasCron jobs
      → All IsForbid jobs
      → All (Recorded s) jobs
      → (rs : List JobRunResult) × (run_jobs w e jobs minute s ≡ (ok rs, s)) × AllSkipped rs
  run_jobs-again [] s c f r = ([], unfold run_jobs in refl, tt)
  run_jobs-again (job ∷ jobs) s c f r =
      let (same, skips) = run_job_safely-again job s c.0 f.0 r.0 in
      let (rs, ran, all) = run_jobs-again jobs s c.1 f.1 r.1 in
      let (rs', ran', all') =
        report-again (run_job_safely w e job minute s).0 jobs s rs skips ran all in
      (rs', Loop.run_jobs-cons w e minute job jobs s ∙ rw same ran', all')

-- If every job forbids a second start, a second round in the minute of a round that returned finds
-- every matching job fired: its results are all skipped, no executor runs, no notification is sent
-- and the engine's state stays as it is.
pub run_pending-again :
    (w : Surroundings) (e : Engine) (at again : Moment) (s : State) {rs : List JobRunResult}
    {s' : State}
    → All (HasCron w e (minute_of at)) e.jobs
    → All (IsForbid w e (minute_of at)) e.jobs
    → minute_of again ≡ minute_of at
    → run_pending w e at s ≡ (ok rs, s')
    → (rs' : List JobRunResult) × (run_pending w e again s' ≡ (ok rs', s'))
      × All (λ (r : JobRunResult). r.status ≡ skipped) rs'
unfolding run_pending
run_pending-again w e at again s {s' = s'} crons forbid same ran = rw same (
    run_jobs-again w e (minute_of at) e.jobs s' crons forbid
      (run_jobs-Recorded w e (minute_of at) e.jobs s ran))
