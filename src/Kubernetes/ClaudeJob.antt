-- ===== src/Kubernetes/ClaudeJob.antt =====
-- runner/k8s_claude_launcher.py: a run of the claude command line as a Job.
pub mod Laws
use mathlib.Core.List.{[], ◌∷◌}
use mimi_agent.Base.{
  ℕ, ◌+◌, String, ◌<>◌, Bool, true, false, Option, none, some, List, ◌++◌, map, string_eq,
  if◌then◌else◌,
}
use mimi_agent.Base.Dict.{Dict, insert}
use mimi_agent.Base.Exec.{Error, Result, ok, err, Exec, pure, raise, lift, ◌>>=◌, ◌>>◌, try_else}
use mimi_agent.Scheduler.Number.{ℤ, pos}
use mimi_agent.System.{History, System, getenv, read_text, is_os_error}
use mimi_agent.System.JsonValue.{Value, flag, text, dict_of, list_of}
use mimi_agent.Kubernetes.ApiClient.{
  ClientOptions, Client, Api, outside, is_runtime_error, given, or_blank, namespace, api_request,
  jobs_path, wait_for_completion,
}
use mimi_agent.Kubernetes.Shell.{quote_all}
use mimi_agent.Kubernetes.JobName.{name_of}
use mimi_agent.Kubernetes.RunnerJob.{
  in_cluster_client, entry, env_entry, job_labels, pod_security, container_security,
  memory_resources, env_or, int_env,
}

-- runner/claude_digest.py
pub record ClaudeInvocation : Type 0 where
  pub prompt : String
  pub allowed_tools : String
  pub extra_args : List String
  pub env : Dict String String

pub record KubernetesClaudeLauncherOptions : Type 0 where
  pub client : ClientOptions
  pub image : String
  pub pvc_name : String
  pub node_hostname : String
  pub image_pull_secret : String
  pub run_as_user : ℤ
  pub run_as_group : ℤ
  pub memory_limit : String
  pub poll_timeout_buffer_seconds : ℕ
  pub ttl_seconds_after_finished : ℕ
  pub runner_label : String
  pub job_name_prefix : String

abbrev pub stdout_filename : String
stdout_filename = ".claude-stdout.json"

abbrev pub stderr_filename : String
stderr_filename = ".claude-stderr.log"

abbrev pub no_proxy : String
no_proxy = "claude-proxy,auth-proxy,egress-proxy,localhost,127.0.0.1"

-- The exit code, standard output and standard error of a finished process.
pub record Finished : Type 0 where
  pub exit_code : ℤ
  pub stdout : String
  pub stderr : String

unfoldable pub static_args : ClaudeInvocation → String
static_args invocation = quote_all invocation.extra_args

unfoldable pub build_command : ClaudeInvocation → List String
unfolding static_args
build_command invocation =
    "sh"
    ∷ "-c"
    ∷ ("claude -p \"$CLAUDE_PROMPT\" --allowedTools \"$CLAUDE_ALLOWED_TOOLS\" "
        <> (static_args invocation
            <> (" > /workspace/" <> (stdout_filename <> (" 2> /workspace/" <> stderr_filename)))))
    ∷ []

-- `if egress_proxy_url:` and the three variables.
unfoldable pub with_egress : Option String → Dict String String → Dict String String
with_egress url env =
    if given url
    then insert "NO_PROXY" no_proxy
        (insert "HTTP_PROXY" (or_blank url) (insert "HTTPS_PROXY" (or_blank url) env))
    else env

abbrev pub with_stderr : String → Option String → String
with_stderr message stderr =
    if given stderr then message <> ("; stderr: " <> or_blank stderr) else message

module _ (x : System) where
  launcher_with_ids : Result ℤ → Result ℤ → Result KubernetesClaudeLauncherOptions
  launcher_with_ids (err e) group = err e
  launcher_with_ids (ok user) (err e) = err e
  launcher_with_ids (ok user) (ok group) = ok (record {
    client = in_cluster_client 1200;
    image = env_or x "RUNNER_IMAGE" "ghcr.io/7milch/7mimi-agent-agent-runner:latest";
    pvc_name = env_or x "RUNNER_PVC_NAME" "7mimi-agent-data";
    node_hostname = env_or x "RUNNER_NODE_HOSTNAME" "john-cooper-works";
    image_pull_secret = env_or x "RUNNER_IMAGE_PULL_SECRET" "ghcr-pull-secret";
    run_as_user = user;
    run_as_group = group;
    memory_limit = "2Gi";
    poll_timeout_buffer_seconds = 60;
    ttl_seconds_after_finished = 600;
    runner_label = "7mimi-agent-runner";
    job_name_prefix = "7mimi-claude-digest";
  })

  -- `KubernetesClaudeLauncherOptions()`
  unfoldable pub default_launcher_options : Result KubernetesClaudeLauncherOptions
  unfolding launcher_with_ids
  default_launcher_options =
      launcher_with_ids (int_env x "RUNNER_UID" "10001") (int_env x "RUNNER_GID" "10001")

  unfoldable pub build_env : ClaudeInvocation → Dict String String
  unfolding with_egress
  build_env invocation = with_egress (getenv x "RUNNER_EGRESS_PROXY") (
      insert "CLAUDE_ALLOWED_TOOLS" invocation.allowed_tools
        (insert "CLAUDE_PROMPT" invocation.prompt invocation.env))

  -- `_read_optional`
  unfoldable pub read_optional : String → Api (Option String)
  read_optional path =
      try_else (outside (read_text x path)) (λ content. pure (some content))
        (λ e. if is_os_error e then pure none else raise e)

module _ (x : System) (options : KubernetesClaudeLauncherOptions) where
  abbrev pub claude_job_name : String → String
  claude_job_name session_id = name_of options.job_name_prefix session_id

  unfoldable pub claude_container : String → ClaudeInvocation → Value
  unfolding build_command
  claude_container session_id invocation = dict_of (
      entry "name" "claude-digest"
      ∷ entry "image" options.image
      ∷ ("command", list_of (map text (build_command invocation)))
      ∷ entry "workingDir" "/workspace"
      ∷ ("env", list_of (map env_entry (build_env x invocation)))
      ∷ ("securityContext", container_security)
      ∷ ("resources", memory_resources options.memory_limit)
      ∷ (
        "volumeMounts",
        list_of (
            dict_of (
              entry "name" "workspace"
              ∷ entry "mountPath" "/workspace"
              ∷ entry "subPath" ("sessions/" <> (session_id <> "/workspace"))
              ∷ [])
            ∷ []),
      )
      ∷ [])

  unfoldable pub claude_pod : String → ClaudeInvocation → Value
  unfolding claude_container
  claude_pod session_id invocation = dict_of (
      entry "restartPolicy" "Never"
      ∷ ("nodeSelector", dict_of (entry "kubernetes.io/hostname" options.node_hostname ∷ []))
      ∷ ("imagePullSecrets", list_of (dict_of (entry "name" options.image_pull_secret ∷ []) ∷ []))
      ∷ ("automountServiceAccountToken", flag false)
      ∷ ("securityContext", pod_security options.run_as_user options.run_as_group)
      ∷ ("containers", list_of (claude_container session_id invocation ∷ []))
      ∷ (
        "volumes",
        list_of (
            dict_of (
              entry "name" "workspace"
              ∷ ("persistentVolumeClaim", dict_of (entry "claimName" options.pvc_name ∷ []))
              ∷ [])
            ∷ []),
      )
      ∷ [])

  unfoldable pub claude_manifest : String → String → String → ClaudeInvocation → ℕ → Value
  unfolding claude_pod
  claude_manifest ns session_id role invocation timeout_seconds = dict_of (
      entry "apiVersion" "batch/v1"
      ∷ entry "kind" "Job"
      ∷ (
        "metadata",
        dict_of (
            entry "name" (claude_job_name session_id)
            ∷ entry "namespace" ns
            ∷ (
              "labels",
              dict_of (
                  job_labels options.runner_label
                  ++ (entry "shichimimi.io/session-id" session_id
                      ∷ entry "shichimimi.io/role" role
                      ∷ [])),
            )
            ∷ []),
      )
      ∷ (
        "spec",
        dict_of (
            ("backoffLimit", Value.number (pos 0))
            ∷ ("activeDeadlineSeconds", Value.number (pos timeout_seconds))
            ∷ ("ttlSecondsAfterFinished", Value.number (pos options.ttl_seconds_after_finished))
            ∷ (
              "template",
              dict_of (
                  ("metadata", dict_of (("labels", dict_of (job_labels options.runner_label)) ∷ []))
                  ∷ ("spec", claude_pod session_id invocation)
                  ∷ []),
            )
            ∷ []),
      )
      ∷ [])

  -- The Job is created and waited for, longer than it may run itself.
  unfoldable pub create_and_wait : String → String → ℕ → Value → Api Bool
  create_and_wait ns session_id timeout_seconds manifest = do
    api_request x options.client "POST" (jobs_path ns) (some manifest)
    wait_for_completion x options.client ns (claude_job_name session_id)
        (some (timeout_seconds + options.poll_timeout_buffer_seconds))

  unfoldable pub failed_run : String → Error → Api (Option Finished)
  failed_run workspace e =
      if is_runtime_error e
      then (do
        stderr ← read_optional x (workspace <> ("/" <> stderr_filename))
        pure (
            some
              (record { exit_code = pos 1; stdout = ""; stderr = with_stderr e.message stderr })))
      else raise e

  unfoldable pub read_outputs : String → Bool → Api (Option Finished)
  read_outputs workspace false = pure none
  read_outputs workspace true = do
    stdout ← read_optional x (workspace <> ("/" <> stdout_filename))
    stderr ← read_optional x (workspace <> ("/" <> stderr_filename))
    pure (some (record { exit_code = pos 0; stdout = or_blank stdout; stderr = or_blank stderr }))

  unfoldable pub run_in : String → String → String → ℕ → Value → Api (Option Finished)
  run_in workspace ns session_id timeout_seconds manifest =
      try_else (create_and_wait ns session_id timeout_seconds manifest) (read_outputs workspace)
        (failed_run workspace)

  unfoldable pub run : String → String → String → ClaudeInvocation → ℕ → Api (Option Finished)
  unfolding claude_manifest
  run workspace session_id role invocation timeout_seconds = do
    ns ← namespace x options.client
    run_in workspace ns session_id timeout_seconds
        (claude_manifest ns session_id role invocation timeout_seconds)
