-- ===== src/Scheduler/Engine/Laws/Loop.antt =====
-- The loop of `run_pending`, taken apart at its first job.
use mathlib.Core.List.{◌∷◌}
use mimi_agent.Base.{ℕ, ◌≡◌, refl, ap, Option, none, some, List, arith}
use mimi_agent.Base.Exec.{>>=-eq-ok, ok, Exec, ◌>>=◌, ◌>>◌, pure}
use mimi_agent.Scheduler.Engine.{
  JobRunResult, JobSpec, Surroundings, Engine, State, run_job_safely, notify, run_jobs,
}

module _ (w : Surroundings) (e : Engine) (minute : ℕ) where
  -- What is left of the loop once a job has its result.
  abbrev pub report : Option JobRunResult → List JobSpec → Exec State (List JobRunResult)
  report none jobs = run_jobs w e jobs minute
  report (some result) jobs = do
    notify w result
    results ← run_jobs w e jobs minute
    pure (result ∷ results)

  pub run_jobs-cons :
      (job : JobSpec) (jobs : List JobSpec) (s : State)
      → run_jobs w e (job ∷ jobs) minute s
        ≡ report (run_job_safely w e job minute s).0 jobs (run_job_safely w e job minute s).1
  unfolding run_jobs
  run_jobs-cons job jobs s = ground arith

  -- What a round that returned did after its first job.
  pub record Rest (found : Option JobRunResult) (jobs : List JobSpec) (s : State)
      (rs : List JobRunResult) (s' : State) : Type 0 where
    pub from : State
    pub results : List JobRunResult
    pub ran : run_jobs w e jobs minute from ≡ (ok results, s')
    pub from_eq : from ≡ elim found [ none ↦ s | some r ↦ (notify w r s).1 ]
    pub results_eq : rs ≡ elim found [ none ↦ results | some r ↦ r ∷ results ]

  pub report-eq-ok :
      (found : Option JobRunResult) (jobs : List JobSpec) (s : State) {rs : List JobRunResult}
      {s' : State}
      → report found jobs s ≡ (ok rs, s')
      → Rest found jobs s rs s'
  report-eq-ok none jobs s {rs} h = record {
    from = s;
    results = rs;
    ran = h;
    from_eq = refl;
    results_eq = refl;
  }
  report-eq-ok (some result) jobs s {rs} {s'} h =
      let (a, told, h') = >>=-eq-ok (notify w result) _ s h in
      let (rs', ran, h'') = >>=-eq-ok (run_jobs w e jobs minute) _ (notify w result s).1 h' in
      record {
        from = (notify w result s).1;
        results = rs';
        ran = λ i. (ran i, ended rs' h'' i);
        from_eq = refl;
        results_eq = unfold pure in ok-injective (ap (λ x. x.0) h'');
      }
    where
      ok-injective : {a b : List JobRunResult} → ok b ≡ ok a → a ≡ b
      ok-injective p = cc

      ended :
          (rs' : List JobRunResult)
          → pure {S = State} (result ∷ rs') (run_jobs w e jobs minute (notify w result s).1).1
            ≡ (ok rs, s')
          → (run_jobs w e jobs minute (notify w result s).1).1 ≡ s'
      ended rs' p = unfold pure in ap (λ x. x.1) p
