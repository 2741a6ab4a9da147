-- ===== src/Kubernetes/TaskRun/Laws.antt =====
-- The run of a task ends, and its result is what the Job wrote.
use mimi_agent.Base.{
  ◌<◌, ◌≡◌, ◌≢◌, refl, String, Bool, true, false, Option, none, some, inl, inr, Bool-cases,
}
use mimi_agent.Base.Exec.{
  Error, Result, ok, err, recover, pure, raise, lift, ◌>>=◌, try_else, >>=-eq-ok,
}
use mathlib.Core.List.{◌∷◌}
use mimi_agent.System.{tested_path, System, IsMonotonic, read_text, path_exists}
use mimi_agent.System.JsonValue.{Value, text, get}
use mimi_agent.Kubernetes.ApiClient.{Client, outside, is_runtime_error, wait_for_completion}
use mimi_agent.Kubernetes.ApiClient.Waiting.{
  Succeeded, wait_for_completion_sound, wait_for_completion_ends,
}
use mimi_agent.Kubernetes.RunnerJob.{RunnerTask, KubernetesRunnerOptions}
use mimi_agent.Kubernetes.Backend.{RunnerExecutionResult, job_name}
use mimi_agent.Kubernetes.TaskRun.{
  value_or, result_of, result_path, read_result, collect_result, raise_augmented, after_wait,
  await_job, run_task,
}

module _ (x : System) (root : String) (options : KubernetesRunnerOptions) where
  -- A failure stays one.
  raise_augmented_lem :
      (task : RunnerTask) (e : Error) (c t : Client) (r : Option RunnerExecutionResult)
      → raise_augmented x root options task e c ≢ (ok r, t)
  unfolding raise_augmented raise
  raise_augmented_lem task e c t r h = elim (Bool-cases (is_runtime_error e)) [
    | inl caught ↦ let (message, read, h1) = >>=-eq-ok _ _ c (rw caught at h) in cc h1
    | inr other ↦ cc (rw other at h)
  ]

  -- The value of a wait that went well, and what it was followed by.
  recover_lem :
      (outcome : Result Bool) (task : RunnerTask) (c t : Client) (r : Option RunnerExecutionResult)
      → recover outcome (after_wait x root options task) (raise_augmented x root options task) c
        ≡ (ok r, t)
      → (done : Bool) × (outcome ≡ ok done) × (after_wait x root options task done c ≡ (ok r, t))
  recover_lem (ok done) task c t r h = (done, refl, h)
  recover_lem (err e) task c t r h = absurd (raise_augmented_lem task e c t r h)

  await_job_lem :
      (task : RunnerTask) (ns : String) (c t : Client) (r : Option RunnerExecutionResult)
      → await_job x root options task ns c ≡ (ok r, t)
      → (done : Bool) × (waited : Client) × (wait_for_completion x options.client ns
            (job_name x options task)
            none
            c
          ≡ (ok done, waited))
        × (after_wait x root options task done waited ≡ (ok r, t))
  unfolding await_job try_else
  await_job_lem task ns c t r h =
      let waited = wait_for_completion x options.client ns (job_name x options task) none c in
      let (done, e, h1) = recover_lem waited.0 task waited.1 t r h in (done, waited.1, cc e, h1)

  -- What a run is made of.
  record Ran (task : RunnerTask) (r : Option RunnerExecutionResult) (t : Client) : Type 0 where
    ns : String
    created : Client
    waited : Client
    done : Bool
    waits :
        wait_for_completion x options.client ns (job_name x options task) none created
        ≡ (ok done, waited)
    ends : after_wait x root options task done waited ≡ (ok r, t)

  run_task_lem :
      (task : RunnerTask) (c t : Client) (r : Option RunnerExecutionResult)
      → run_task x root options task c ≡ (ok r, t)
      → Ran task r t
  unfolding run_task
  run_task_lem task c t r h =
      let ((ns, manifest), built, h1) = >>=-eq-ok _ _ c h in
      let (answer, asked, h2) = >>=-eq-ok _ _ _ h1 in
      let (done, waited, w, h3) = await_job_lem task ns _ t r h2 in
      record { ns = ns; created = _; waited = waited; done = done; waits = w; ends = h3 }

  after_false :
      (task : RunnerTask) (done : Bool) (c t : Client)
      → after_wait x root options task done c ≡ (ok none, t)
      → done ≡ false
  unfolding after_wait pure
  after_false task false c t h = refl
  after_false task true c t h = let (result, collected, h1) = >>=-eq-ok _ _ c h in cc h1

  after_true :
      (task : RunnerTask) (done : Bool) (r : RunnerExecutionResult) (c t : Client)
      → after_wait x root options task done c ≡ (ok (some r), t)
      → (done ≡ true) × (collect_result x root options task c ≡ (ok r, t))
  unfolding after_wait pure
  after_true task false r c t h = cc h
  after_true task true r c t h =
      let (result, collected, h1) = >>=-eq-ok _ _ c h in (refl, cc (collected, h1))

  -- On a clock that never goes back and that a sleep moves on, with a poll interval of at least a second,
  -- the run of a task returns a result or raises: its wait for the Job does not go on for ever.
  pub run_task_ends :
      IsMonotonic x
      → 0 < options.client.poll_interval_seconds
      → (task : RunnerTask) (c t : Client) → run_task x root options task c ≢ (ok none, t)
  run_task_ends mono positive task c t h =
      let ran = run_task_lem task c t none h in
      let unfinished = after_false task ran.done ran.waited t ran.ends in
      wait_for_completion_ends x options.client mono ran.ns (job_name x options task) none
        ran.created ran.waited positive (cc (ran.waits, unfinished))

  -- The file that a result comes from.
  pub record Written (task : RunnerTask) (r : RunnerExecutionResult) (w : Client) : Type 0 where
    pub content : String
    pub present : x.file_exists w.history (result_path x root options task) ≡ true
    pub stands :
        x.file_text
          (tested_path (result_path x root options task) ∷ w.history)
          (result_path x root options task)
        ≡ ok content
    pub payload : x.loads content ≡ ok r.payload
    pub found : Option Value
    pub entry : get "status" r.payload ≡ ok found
    pub status : r.status ≡ value_or found (text "unknown")

  read_value :
      (task : RunnerTask) (payload : Value) (c : Client)
      → (read_result x root options task c).0 ≡ ok payload
      → (content : String) × (x.file_text c.history (result_path x root options task) ≡ ok content)
        × (x.loads content ≡ ok payload)
  unfolding read_result outside read_text lift
  read_value task payload c h =
      let whole : read_result x root options task c
          ≡ (ok payload, (read_result x root options task c).1) =
        cc h in
      let (content, stands, parsed) = >>=-eq-ok _ _ c whole in (content, stands, cc parsed)

  read_result_lem :
      (task : RunnerTask) (r : RunnerExecutionResult) (c t : Client)
      → x.file_exists c.history (result_path x root options task) ≡ true
      → (do
        payload ← read_result x root options task
        status ← lift (get "status" payload)
        pure (result_of x root options payload status))
          (record c { history = tested_path (result_path x root options task) ∷ c.history })
        ≡ (ok r, t)
      → Written task r c
  unfolding lift pure result_of
  read_result_lem task r c t present h =
      let (payload, read, h1) = >>=-eq-ok _ _ _ h in
      let (status, got, h2) = >>=-eq-ok _ _ _ h1 in
      let (content, stands, parsed) = read_value task payload _ read in
      record {
        content = content;
        present = present;
        stands = stands;
        payload = cc (parsed, h2);
        found = status;
        entry = cc (got, h2);
        status = cc h2;
      }

  collect_result_lem :
      (task : RunnerTask) (r : RunnerExecutionResult) (c t : Client)
      → collect_result x root options task c ≡ (ok r, t)
      → Written task r c
  unfolding collect_result outside path_exists raise ◌>>=◌
  collect_result_lem task r c t h =
      elim (Bool-cases (x.file_exists c.history (result_path x root options task))) [
        | inl present ↦ read_result_lem task r c t present (rw present at h)
        | inr absent ↦ cc (rw absent at h)
      ]

  -- A task whose run returns a result had its Job reported as succeeded by the last answer of the wait,
  -- and only then was the result read: it is the JSON document that stood in the result file of the
  -- session, with the document's status, or "unknown" where it has none.
  pub run_task_sound :
      (task : RunnerTask) (r : RunnerExecutionResult) (c t : Client)
      → run_task x root options task c ≡ (ok (some r), t)
      → (ns : String) × (w : Client) × Succeeded x options.client ns (job_name x options task) w
        × Written task r w
  run_task_sound task r c t h =
      let ran = run_task_lem task c t (some r) h in
      let (finished, collected) = after_true task ran.done r ran.waited t ran.ends in
      (
        ran.ns,
        ran.waited,
        wait_for_completion_sound x options.client ran.ns (job_name x options task) none ran.created
            ran.waited (cc (ran.waits, finished)),
        collect_result_lem task r ran.waited t collected,
      )
