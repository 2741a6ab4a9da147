-- ===== src/Kubernetes/Backend.antt =====
-- runner/kubernetes_runner.py, the backend: the name of the ConfigMap, the manifest of the Job, its run
-- and its result. Dicts that the code builds only to send them are JSON values at once.

pub mod Laws
use mathlib.Core.List.{[], ◌∷◌}
use mimi_agent.Base.{
  ℕ, String, ◌<>◌, Bool, true, false, not, ◌||◌, Option, none, some, List, ◌++◌, map, ◌==◌,
  string_eq, if◌then◌else◌,
}
use mimi_agent.Base.Dict.{Dict, lookup}
use mimi_agent.Base.Exec.{
  Error, Result, ok, err, Exec, pure, raise, lift, gets, ◌>>=◌, ◌>>◌, try_else, modify,
}
use mimi_agent.Scheduler.Number.{ℤ, pos}
use mimi_agent.System.{System, read_text, path_exists, is_os_error}
use mimi_agent.System.JsonValue.{
  Value, null, flag, text, array, end, object, done, dict_of, list_of, truthy, get, found_or,
  iterate, is_dict,
}
use mimi_agent.Kubernetes.ApiClient.{
  ClientOptions, Client, Api, outside, api_error, is_runtime_error, given, or_blank, namespace,
  api_request, jobs_path, wait_for_completion,
}
use mimi_agent.Kubernetes.JobName.{name_of}
use mimi_agent.Kubernetes.RunnerJob.{
  RunnerTask, KubernetesRunnerOptions, entry, env_entry, job_labels, pod_security,
  container_security, memory_resources, allowed_env,
}

pub record RunnerExecutionResult : Type 0 where
  pub status : Value
  pub payload : Value

abbrev unnamed_configmap : String
unnamed_configmap =
    "cannot resolve the runner ConfigMap name: neither RUNNER_CONFIGMAP_NAME nor POD_NAME/POD_NAMESPACE (Downward API) are set on this process"

-- `volume.get("name") == name`
abbrev is_named : String → Option Value → Bool
is_named name (some (text s)) = s == name
is_named name other = false

-- The name of the ConfigMap in a volume, null if there is none.
configmap_of : Value → Result Value
unfolding get
configmap_of volume = elim (get "configMap" volume) [
  | err e ↦ err e
  | ok found ↦ elim (get "name" (found_or found (object done))) [
    | err e ↦ err e
    | ok name ↦ ok (found_or name null)
  ]
]

-- The first volume of the name that names a ConfigMap.
abbrev or_later : Result Value → Result Value → Result Value
or_later (err e) rest = err e
or_later (ok name) rest = if truthy name then ok name else rest

unfoldable pub search_volumes : String → List Value → Result Value
unfolding get configmap_of
search_volumes volume_name [] = ok null
search_volumes volume_name (volume ∷ volumes) =
    let rest = search_volumes volume_name volumes in
    elim (get "name" volume) [
      | err e ↦ err e
      | ok name ↦ if is_named volume_name name then or_later (configmap_of volume) rest else rest
    ]

volumes_of : Value → Result (List Value)
unfolding get iterate
volumes_of pod = elim (get "spec" pod) [
  | err e ↦ err e
  | ok spec ↦ elim (get "volumes" (found_or spec (object done))) [
    | err e ↦ err e
    | ok found ↦ iterate (found_or found (array end))
  ]
]

unfoldable pub find_configmap : String → Value → Result Value
unfolding volumes_of search_volumes
find_configmap volume_name pod = elim (volumes_of pod) [
  | err e ↦ err e
  | ok volumes ↦ search_volumes volume_name volumes
]

abbrev pub job_args : RunnerTask → List Value
job_args task =
    text "-m"
    ∷ text "shichimimi_agent"
    ∷ text "runner-execute"
    ∷ text task.job_name
    ∷ text "--session-id"
    ∷ text task.session_id
    ∷ text "--task-id"
    ∷ text task.task_id
    ∷ text "--runner-root"
    ∷ text "/app"
    ∷ (if task.dry_run then text "--dry-run" ∷ [] else [])

abbrev mount : String → String → List (String × Value) → Value
mount name path more = dict_of (entry "name" name ∷ entry "mountPath" path ∷ more)

abbrev claim : String → String → Value
claim name pvc_name =
    dict_of (
      entry "name" name ∷ ("persistentVolumeClaim", dict_of (entry "claimName" pvc_name ∷ [])) ∷ [])

module _ (x : System) (options : KubernetesRunnerOptions) where
  abbrev pub pod_path : String
  pod_path =
      "/api/v1/namespaces/"
      <> (or_blank options.self_pod_namespace <> ("/pods/" <> or_blank options.self_pod_name))

  no_configmap : Error
  no_configmap = api_error (
      "pod "
      <> (or_blank options.self_pod_namespace
          <> ("/"
              <> (or_blank options.self_pod_name
                  <> (" has no '"
                      <> (options.configmap_volume_name
                          <> "' configMap volume; cannot mount config into the runner Job"))))))

  -- The name is kept for the next call.
  unfoldable pub cache_name : Value → Api Value
  unfolding no_configmap
  cache_name name =
      if truthy name
      then (do modify (λ c. record c { configmap_name_cache = some name }); pure name)
      else raise no_configmap

  unfoldable pub ask_pod : Api Value
  ask_pod = do
    pod ← api_request x options.client "GET" pod_path none
    name ← lift (find_configmap options.configmap_volume_name pod)
    cache_name name

  unfoldable pub cached_or_asked : Option Value → Api Value
  cached_or_asked (some name) = pure name
  cached_or_asked none =
      if not (given options.self_pod_name) || not (given options.self_pod_namespace)
      then raise (api_error unnamed_configmap)
      else ask_pod

  unfoldable pub resolve_configmap_name : Api Value
  resolve_configmap_name =
      if given options.configmap_name
      then pure (text (or_blank options.configmap_name))
      else (do cache ← gets (λ c. c.configmap_name_cache); cached_or_asked cache)

  abbrev pub job_name : RunnerTask → String
  job_name task = name_of options.job_name_prefix task.session_id

  unfoldable pub runner_container : RunnerTask → Value
  runner_container task = dict_of (
      entry "name" "runner"
      ∷ entry "image" options.image
      ∷ ("command", list_of (text "python" ∷ []))
      ∷ ("args", list_of (job_args task))
      ∷ ("env", list_of (map env_entry (allowed_env x task)))
      ∷ ("securityContext", container_security)
      ∷ ("resources", memory_resources options.memory_limit)
      ∷ (
        "volumeMounts",
        list_of (
            mount "config" "/app/config" []
            ∷ mount "data" "/app/.data" (entry "subPath" "data" ∷ [])
            ∷ mount "sessions" "/app/.sessions" (entry "subPath" "sessions" ∷ [])
            ∷ []),
      )
      ∷ [])

  unfoldable pub runner_pod : Value → RunnerTask → Value
  unfolding runner_container
  runner_pod configmap_name task = dict_of (
      entry "restartPolicy" "Never"
      ∷ ("nodeSelector", dict_of (entry "kubernetes.io/hostname" options.node_hostname ∷ []))
      ∷ ("imagePullSecrets", list_of (dict_of (entry "name" options.image_pull_secret ∷ []) ∷ []))
      ∷ ("automountServiceAccountToken", flag false)
      ∷ ("securityContext", pod_security options.run_as_user options.run_as_group)
      ∷ ("containers", list_of (runner_container task ∷ []))
      ∷ (
        "volumes",
        list_of (
            dict_of
              (entry "name" "config" ∷ ("configMap", dict_of (("name", configmap_name) ∷ [])) ∷ [])
            ∷ claim "data" options.pvc_name
            ∷ claim "sessions" options.pvc_name
            ∷ []),
      )
      ∷ [])

  unfoldable pub manifest_in : String → Value → RunnerTask → Value
  unfolding runner_pod
  manifest_in ns configmap_name task = dict_of (
      entry "apiVersion" "batch/v1"
      ∷ entry "kind" "Job"
      ∷ (
        "metadata",
        dict_of (
            entry "name" (job_name task)
            ∷ entry "namespace" ns
            ∷ (
              "labels",
              dict_of (
                  job_labels options.runner_label
                  ++ (entry "shichimimi.io/session-id" task.session_id ∷ [])),
            )
            ∷ []),
      )
      ∷ (
        "spec",
        dict_of (
            ("backoffLimit", Value.number (pos 0))
            ∷ ("ttlSecondsAfterFinished", Value.number (pos options.ttl_seconds_after_finished))
            ∷ (
              "template",
              dict_of (
                  ("metadata", dict_of (("labels", dict_of (job_labels options.runner_label)) ∷ []))
                  ∷ ("spec", runner_pod configmap_name task)
                  ∷ []),
            )
            ∷ []),
      )
      ∷ [])
