-- ===== src/Scheduler/Engine/Laws/Notify.antt =====
-- Which results are reported to the notifier, and which jobs have a result.
use mathlib.Core.List.{[], ◌∷◌, append-nil, append_assoc}
use mimi_agent.Base.{
  ℕ, zero, suc, ◌+◌, ◌≡◌, ◌∙◌, sym, ap, refl, String, Bool, true, false, Option, none, some, List,
  ◌++◌, map, keep, arith, Option-cases, inl, inr, string_eq,
}
use mimi_agent.Base.Dict.{lookup, insert}
use mimi_agent.Base.Exec.{Error, Result, ok}
use mimi_agent.Scheduler.Calendar.{Moment, minute_of}
use mimi_agent.Scheduler.Cron.{matches}
use mimi_agent.Scheduler.Engine.Laws.Loop
use mimi_agent.Scheduler.Engine.{
  JobRunResult, JobSpec, Event, attempted, notified, Surroundings, Engine, State, terminal,
  attempt_error, attempt_loop, max_attempts, dispatch, fire, run_job_safely, notify, run_jobs,
  run_pending,
}

-- The results that the notifier was called with, in order.
abbrev pub notified_in : List Event → List JobRunResult
notified_in [] = []
notified_in (attempted name ∷ log) = notified_in log
notified_in (notified r ∷ log) = notified_in log ++ (r ∷ [])

abbrev is_terminal : JobRunResult → Bool
is_terminal r = terminal r.status

keep-cons :
    (r : JobRunResult) (rs : List JobRunResult)
    → keep is_terminal (r ∷ []) ++ keep is_terminal rs ≡ keep is_terminal (r ∷ rs)
keep-cons r rs = ground arith

none_ran :
    (s : State) {rs : List JobRunResult} {s' : State}
    → ◌≡◌ {A = Result (List JobRunResult) × State} (ok [], s) (ok rs, s')
    → notified_in s'.log ≡ notified_in s.log ++ keep is_terminal rs
none_ran s h = ground (arith, append-nil (notified_in s.log))

module _ (w : Surroundings) (e : Engine) (minute : ℕ) where
  notified_in-attempt_loop :
      (n : ℕ) (job : JobSpec) (made : ℕ) (error : Option String) (s : State)
      → notified_in (attempt_loop w n job made error s).1.log ≡ notified_in s.log
  unfolding attempt_loop
  notified_in-attempt_loop zero job made error s = refl
  notified_in-attempt_loop (suc n) job made error s =
      elim (Option-cases (attempt_error w job (w.attempt s.log job))) [
        | inl done ↦ rw (done, attempt_loop)
        | inr (message, raised) ↦
            rw (raised, attempt_loop)
              (notified_in-attempt_loop n job (made + 1) (some message)
                (record s { log = attempted job.name ∷ s.log }))
      ]

  notified_in-dispatch :
      (job : JobSpec) (s : State) → notified_in (dispatch w e job s).1.log ≡ notified_in s.log
  unfolding dispatch
  notified_in-dispatch job s =
      ground (arith, notified_in-attempt_loop (max_attempts job.backoff_limit) job 0 none s)

  notified_in-run_job_safely :
      (job : JobSpec) (s : State)
      → notified_in (run_job_safely w e job minute s).1.log ≡ notified_in s.log
  unfolding run_job_safely fire
  notified_in-run_job_safely job s = ground (
    arith,
    notified_in-dispatch job (record s { last_fired = insert job.name minute s.last_fired }),
  )

  -- A notification that did not raise.
  notified_in-notify :
      (f : List Event → JobRunResult → Option Error) (r : JobRunResult) (s : State)
      → w.notifier ≡ some f
      → notified_in (notify w r s).1.log ≡ notified_in s.log ++ keep is_terminal (r ∷ [])
  unfolding notify
  notified_in-notify f r s told = ground (arith, append-nil (notified_in s.log))

  notified_in-report :
      (f : List Event → JobRunResult → Option Error) (found : Option JobRunResult)
      (jobs : List JobSpec) (s : State) {rs : List JobRunResult} {s' : State}
      → w.notifier ≡ some f
      → (rest : Loop.Rest w e minute found jobs s rs s')
      → notified_in s'.log ≡ notified_in rest.from.log ++ keep is_terminal rest.results
      → notified_in s'.log ≡ notified_in s.log ++ keep is_terminal rs
  notified_in-report f none jobs s told rest ih = rw rest.results_eq (rw rest.from_eq at ih)
  notified_in-report f (some r) jobs s told rest ih =
      ih
      ∙ ap (λ (t : State). notified_in t.log ++ keep is_terminal rest.results) rest.from_eq
      ∙ ap (λ (l : List JobRunResult). l ++ keep is_terminal rest.results)
          (notified_in-notify f r s told)
      ∙ append_assoc (notified_in s.log) (keep is_terminal (r ∷ [])) (keep is_terminal rest.results)
      ∙ ap (λ (l : List JobRunResult). notified_in s.log ++ l) (keep-cons r rest.results)
      ∙ ap (λ (l : List JobRunResult). notified_in s.log ++ keep is_terminal l)
          (sym rest.results_eq)

  run_jobs-notified :
      (f : List Event → JobRunResult → Option Error) (jobs : List JobSpec) (s : State)
      {rs : List JobRunResult} {s' : State}
      → w.notifier ≡ some f
      → run_jobs w e jobs minute s ≡ (ok rs, s')
      → notified_in s'.log ≡ notified_in s.log ++ keep is_terminal rs
  run_jobs-notified f [] s told h = unfold run_jobs in none_ran s h
  run_jobs-notified f (job ∷ jobs) s {rs} told h =
      let h' = sym (Loop.run_jobs-cons w e minute job jobs s) ∙ h in
      let (found, s1) = run_job_safely w e job minute s in
      let rest = Loop.report-eq-ok w e minute found jobs s1 h' in
      notified_in-report f found jobs s1 told rest
        (run_jobs-notified f jobs rest.from told rest.ran)
      ∙ ap (λ (l : List JobRunResult). l ++ keep is_terminal rs) (notified_in-run_job_safely job s)

  -- The job has a result in this minute: its cron expression matches.
  abbrev pub due : JobSpec → Bool
  due job = elim (lookup job.name e.crons) [ none ↦ true | some c ↦ matches c minute ]

  abbrev NamedAfter : JobSpec → Option JobRunResult → Type 0
  NamedAfter job none = due job ≡ false
  NamedAfter job (some r) = (due job ≡ true) × (r.job_name ≡ job.name)

  job_name-dispatch : (job : JobSpec) (s : State) → (dispatch w e job s).0.job_name ≡ job.name
  unfolding dispatch
  job_name-dispatch job s = ground arith

  run_job_safely-NamedAfter :
      (job : JobSpec) (s : State) → NamedAfter job (run_job_safely w e job minute s).0
  unfolding run_job_safely fire
  run_job_safely-NamedAfter job s =
      ground (
        arith,
        job_name-dispatch job (record s { last_fired = insert job.name minute s.last_fired }),
      )

  abbrev names : List JobRunResult → List String
  names = map (λ (r : JobRunResult). r.job_name)

  abbrev due_names : List JobSpec → List String
  due_names jobs = map (λ (job : JobSpec). job.name) (keep due jobs)

  names-report :
      (found : Option JobRunResult) (job : JobSpec) (jobs : List JobSpec)
      (rs rest : List JobRunResult)
      → NamedAfter job found
      → rs ≡ elim found [ none ↦ rest | some r ↦ r ∷ rest ]
      → names rest ≡ due_names jobs
      → names rs ≡ due_names (job ∷ jobs)
  names-report none job jobs rs rest named e ih = ground arith
  names-report (some r) job jobs rs rest named e ih = ground arith

  run_jobs-names :
      (jobs : List JobSpec) (s : State) {rs : List JobRunResult} {s' : State}
      → run_jobs w e jobs minute s ≡ (ok rs, s')
      → names rs ≡ due_names jobs
  run_jobs-names [] s h = unfold run_jobs in ground arith
  run_jobs-names (job ∷ jobs) s {rs} h =
      let h' = sym (Loop.run_jobs-cons w e minute job jobs s) ∙ h in
      let (found, s1) = run_job_safely w e job minute s in
      let rest = Loop.report-eq-ok w e minute found jobs s1 h' in
      names-report found job jobs rs rest.results (run_job_safely-NamedAfter job s) rest.results_eq
        (run_jobs-names jobs rest.from rest.ran)

-- A round that returns has called the notifier, if there is one, once for each result that is no
-- skip, in the order of the results, and for nothing else.
pub run_pending-notified :
    (w : Surroundings) (e : Engine) (at : Moment) (s : State)
    {f : List Event → JobRunResult → Option Error} {rs : List JobRunResult} {s' : State}
    → w.notifier ≡ some f
    → run_pending w e at s ≡ (ok rs, s')
    → notified_in s'.log ≡ notified_in s.log ++ keep (λ (r : JobRunResult). terminal r.status) rs
unfolding run_pending
run_pending-notified w e at s {f} told h = run_jobs-notified w e (minute_of at) f e.jobs s told h

-- A round that returns has one result for each job whose cron expression matches the minute, in the
-- order of the jobs, and no other.
pub run_pending-names :
    (w : Surroundings) (e : Engine) (at : Moment) (s : State) {rs : List JobRunResult} {s' : State}
    → run_pending w e at s ≡ (ok rs, s')
    → map (λ (r : JobRunResult). r.job_name) rs
      ≡ map (λ (job : JobSpec). job.name) (keep (due w e (minute_of at)) e.jobs)
unfolding run_pending
run_pending-names w e at s h = run_jobs-names w e (minute_of at) e.jobs s h
