-- ===== src/Kubernetes/RunnerJob.antt =====
-- runner/kubernetes_runner.py, the Job of a task: options, environment and manifest.
pub mod Laws
use mathlib.Core.List.{[], ◌∷◌}
use mimi_agent.Base.{
  ℕ, String, ◌<>◌, Bool, true, false, Option, none, some, List, ◌++◌, map, ◌==◌, string_eq,
  if◌then◌else◌,
}
use mimi_agent.Base.Dict.{Dict, lookup}
use mimi_agent.Base.Exec.{
  Error, Result, ok, err, Exec, pure, raise, lift, gets, ◌>>=◌, ◌>>◌, modify,
}
use mimi_agent.Str.{is_nonempty}
use mimi_agent.Scheduler.Number.{ℤ, pos, int_of}
use mimi_agent.System.{System, getenv}
use mimi_agent.System.JsonValue.{
  Value, null, flag, text, array, end, object, done, dict_of, list_of, truthy, get, found_or,
  iterate, int_or_error,
}
use mimi_agent.Kubernetes.ApiClient.{
  ClientOptions, Client, Api, api_error, given, or_blank, namespace, api_request,
}
use mimi_agent.Kubernetes.JobName.{name_of}

-- `runner/backend.py`: what a runner is told. The job's configuration is not read here.
pub record RunnerTask : Type 0 where
  pub job_name : String
  pub session_id : String
  pub task_id : String
  pub role : String
  pub dry_run : Bool

pub record KubernetesRunnerOptions : Type 0 where
  pub client : ClientOptions
  pub image : String
  pub configmap_name : Option String
  pub configmap_volume_name : String
  pub self_pod_name : Option String
  pub self_pod_namespace : Option String
  pub pvc_name : String
  pub node_hostname : String
  pub image_pull_secret : String
  pub run_as_user : ℤ
  pub run_as_group : ℤ
  pub memory_limit : String
  pub ttl_seconds_after_finished : ℕ
  pub runner_label : String
  pub job_name_prefix : String

abbrev pub sa_dir : String
sa_dir = "/var/run/secrets/kubernetes.io/serviceaccount"

abbrev pub default_api_server : String
default_api_server = "https://kubernetes.default.svc"

abbrev pub in_cluster_client : ℕ → ClientOptions
in_cluster_client timeout_seconds = record {
  api_server = default_api_server;
  ca_cert_path = sa_dir <> "/ca.crt";
  token_path = sa_dir <> "/token";
  namespace_path = sa_dir <> "/namespace";
  namespace = none;
  request_timeout_seconds = 30;
  poll_interval_seconds = 5;
  timeout_seconds = timeout_seconds;
}

-- `os.environ.get(name, default)` and `os.environ.get(name) or None`
abbrev pub or_default : Option String → String → String
or_default none default = default
or_default (some s) default = s

abbrev pub nonempty_only : Option String → Option String
nonempty_only none = none
nonempty_only (some s) = if is_nonempty s then some s else none

abbrev pub entry : String → String → String × Value
entry key value = (key, text value)

-- `{"name": key, "value": value}`
abbrev pub env_entry : String × String → Value
env_entry (key, value) = dict_of (entry "name" key ∷ entry "value" value ∷ [])

-- The labels of both launchers' Jobs.
abbrev pub job_labels : String → Dict String Value
job_labels runner_label =
    entry "app.kubernetes.io/name" runner_label
    ∷ entry "app.kubernetes.io/part-of" "7mimi-agent"
    ∷ []

-- The Pod runs as no root user, and cannot become one.
abbrev pub pod_security : ℤ → ℤ → Value
pod_security user group = dict_of (
    ("runAsNonRoot", flag true)
    ∷ ("runAsUser", Value.number user)
    ∷ ("runAsGroup", Value.number group)
    ∷ ("fsGroup", Value.number group)
    ∷ ("seccompProfile", dict_of (entry "type" "RuntimeDefault" ∷ []))
    ∷ [])

abbrev pub container_security : Value
container_security = dict_of (
    ("allowPrivilegeEscalation", flag false)
    ∷ ("capabilities", dict_of (("drop", list_of (text "ALL" ∷ [])) ∷ []))
    ∷ [])

abbrev pub memory_resources : String → Value
memory_resources memory_limit = dict_of (
    ("limits", dict_of (entry "memory" memory_limit ∷ []))
    ∷ ("requests", dict_of (entry "memory" memory_limit ∷ []))
    ∷ [])

module _ (x : System) where
  abbrev pub env_or : String → String → String
  env_or name default = or_default (getenv x name) default

  -- `int(os.environ.get(name, default))`
  abbrev pub int_env : String → String → Result ℤ
  int_env name default = int_or_error (env_or name default) (int_of (env_or name default))

  with_ids : Result ℤ → Result ℤ → Result KubernetesRunnerOptions
  with_ids (err e) group = err e
  with_ids (ok user) (err e) = err e
  with_ids (ok user) (ok group) = ok (record {
    client = in_cluster_client 900;
    image = env_or "RUNNER_IMAGE" "ghcr.io/7milch/7mimi-agent-agent-runner:latest";
    configmap_name = nonempty_only (getenv x "RUNNER_CONFIGMAP_NAME");
    configmap_volume_name = "config";
    self_pod_name = nonempty_only (getenv x "POD_NAME");
    self_pod_namespace = nonempty_only (getenv x "POD_NAMESPACE");
    pvc_name = env_or "RUNNER_PVC_NAME" "7mimi-agent-data";
    node_hostname = env_or "RUNNER_NODE_HOSTNAME" "john-cooper-works";
    image_pull_secret = env_or "RUNNER_IMAGE_PULL_SECRET" "ghcr-pull-secret";
    run_as_user = user;
    run_as_group = group;
    memory_limit = "2Gi";
    ttl_seconds_after_finished = 600;
    runner_label = "7mimi-agent-runner";
    job_name_prefix = "7mimi-agent-runner";
  })

  -- `KubernetesRunnerOptions()`
  unfoldable pub default_runner_options : Result KubernetesRunnerOptions
  unfolding with_ids
  default_runner_options = with_ids (int_env "RUNNER_UID" "10001") (int_env "RUNNER_GID" "10001")

  optional_env : List String → Dict String String
  optional_env [] = []
  optional_env (name ∷ names) =
      let rest = optional_env names in
      if given (getenv x name) then (name, or_blank (getenv x name)) ∷ rest else rest

  unfoldable pub allowed_env : RunnerTask → Dict String String
  unfolding optional_env
  allowed_env task =
      ("SESSION_ID", task.session_id)
      ∷ ("ROLE", task.role)
      ∷ ("WORKSPACE_DIR", "/app/.sessions/" <> (task.session_id <> "/workspace"))
      ∷ ("PYTHONPATH", "/app/src")
      ∷ ("CLAUDE_PROXY_URL", env_or "CLAUDE_PROXY_URL" "http://claude-proxy:18080")
      ∷ ("AUTH_PROXY_URL", env_or "AUTH_PROXY_URL" "http://auth-proxy:18081")
      ∷ ("HOME", "/tmp")
      ∷ optional_env ("CLAUDE_PROXY_SESSION_TOKEN" ∷ "AUTH_PROXY_SESSION_TOKEN" ∷ [])
