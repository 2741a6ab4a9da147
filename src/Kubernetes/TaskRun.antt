-- ===== src/Kubernetes/TaskRun.antt =====
-- runner/kubernetes_runner.py, the run of a task: the Job is created, waited for, and its result is read
-- from the shared volume.
pub mod Laws
use mathlib.Core.List.{[], ◌∷◌}
use mimi_agent.Base.{
  ℕ, String, ◌<>◌, Bool, true, false, not, Option, none, some, ◌==◌, string_eq, if◌then◌else◌,
}
use mimi_agent.Base.Exec.{Error, Result, ok, err, Exec, pure, raise, lift, ◌>>=◌, ◌>>◌, try_else}
use mimi_agent.System.{System, shown, read_text, path_exists, is_os_error}
use mimi_agent.System.JsonValue.{
  Value, null, text, object, truthy, get, found_or, is_dict, find_field,
}
use mimi_agent.Kubernetes.ApiClient.{
  Client, Api, outside, api_error, is_runtime_error, namespace, api_request, jobs_path,
  wait_for_completion,
}
use mimi_agent.Kubernetes.RunnerJob.{RunnerTask, KubernetesRunnerOptions}
use mimi_agent.Kubernetes.Backend.{
  RunnerExecutionResult, resolve_configmap_name, job_name, manifest_in,
}

-- `found` of `get(key, default)`.
abbrev pub value_or : Option Value → Value → Value
value_or none default = default
value_or (some v) default = v

-- `except (OSError, json.JSONDecodeError)`
abbrev pub is_unreadable : Error → Bool
is_unreadable e = if is_os_error e then true else e.kind == "JSONDecodeError"

module _ (x : System) (root : String) (options : KubernetesRunnerOptions) where
  abbrev pub result_path : RunnerTask → String
  result_path task = root <> ("/.sessions/" <> (task.session_id <> "/result.json"))

  unfoldable pub read_result : RunnerTask → Api Value
  read_result task = do content ← outside (read_text x (result_path task)); lift (x.loads content)

  abbrev pub joined_error : String → String → String → String
  joined_error message kind detail =
      message <> ("; runner-execute reported " <> (kind <> (": " <> detail)))

  -- The error of a payload, if it has one.
  with_error : String → Value → String
  unfolding find_field
  with_error message (object fs) =
      joined_error message (shown x (value_or (find_field "type" fs) (text "Error")))
        (shown x (value_or (find_field "message" fs) (text "")))
  with_error message error = joined_error message "Error" (shown x error)

  unfoldable pub payload_message : String → Value → String
  unfolding find_field with_error
  payload_message message (object fs) =
      let error = found_or (find_field "error" fs) null in
      if truthy error then with_error message error else message
  payload_message message payload = message

  unfoldable pub read_or_message : RunnerTask → String → Api String
  read_or_message task message =
      try_else (read_result task) (λ payload. pure (payload_message message payload))
        (λ e. if is_unreadable e then pure message else raise e)

  unfoldable pub augment_with_result_error : RunnerTask → String → Api String
  augment_with_result_error task message = do
    written ← outside (path_exists x (result_path task))
    if written then read_or_message task message else pure message

  abbrev pub not_written : RunnerTask → Error
  not_written task = api_error (
      "runner Job for session "
      <> (task.session_id <> (" completed but " <> (result_path task <> " was not written"))))

  -- `payload.get("status", "unknown")`
  result_of : Value → Option Value → RunnerExecutionResult
  result_of payload status = record { status = value_or status (text "unknown"); payload = payload }

  unfoldable pub collect_result : RunnerTask → Api RunnerExecutionResult
  unfolding result_of
  collect_result task = do
    written ← outside (path_exists x (result_path task))
    if written
        then (do
          payload ← read_result task
          status ← lift (get "status" payload)
          pure (result_of payload status))
        else raise (not_written task)

  unfoldable pub job_manifest : RunnerTask → Api (String × Value)
  job_manifest task = do
    configmap_name ← resolve_configmap_name x options
    ns ← namespace x options.client
    pure (ns, manifest_in x options ns configmap_name task)

  unfoldable pub raise_augmented : RunnerTask → Error → Api (Option RunnerExecutionResult)
  raise_augmented task e =
      if is_runtime_error e
      then (do message ← augment_with_result_error task e.message; raise (api_error message))
      else raise e

  -- Nothing is collected where the rounds of the wait are used up.
  unfoldable pub after_wait : RunnerTask → Bool → Api (Option RunnerExecutionResult)
  after_wait task false = pure none
  after_wait task true = do result ← collect_result task; pure (some result)

  unfoldable pub await_job : RunnerTask → String → Api (Option RunnerExecutionResult)
  await_job task ns =
      try_else (wait_for_completion x options.client ns (job_name x options task) none)
        (after_wait task) (raise_augmented task)

  unfoldable pub run_task : RunnerTask → Api (Option RunnerExecutionResult)
  run_task task = do
    (ns, manifest) ← job_manifest task
    api_request x options.client "POST" (jobs_path ns) (some manifest)
    await_job task ns
