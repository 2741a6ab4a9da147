-- ===== src/Kubernetes/RunTests.antt =====
-- The theorems of the two launchers' runs at the cluster of the tests.
use mathlib.Core.List.{[], ◌∷◌}
use mimi_agent.Base.{◌≡◌, ◌⊎◌, refl, String, false, none, some, nat_eq, string_eq, contains}
use mimi_agent.Base.Dict.{lookup}
use mimi_agent.Base.Exec.{ok, pure, lift, gets, ◌>>=◌, try_else, modify}
use mimi_agent.Scheduler.Number.{pos}
use mimi_agent.System.{getenv, open_url, read_text, path_exists, monotonic}
use mimi_agent.System.JsonValue.{text, find_field, get}
use mimi_agent.Kubernetes.Shell.Reading.{shell_words}
use mimi_agent.Kubernetes.ApiClient.{
  Client, outside, read_token, decode, verdict_of, namespace, namespace_file, api_request, poll,
  act_on, wait_for_completion,
}
use mimi_agent.Kubernetes.ApiClient.Waiting.{Succeeded}
use mimi_agent.Kubernetes.RunnerJob.{
  RunnerTask, KubernetesRunnerOptions, in_cluster_client, nonempty_only, allowed_env,
}
use mimi_agent.Kubernetes.RunnerJob.Laws.{forwarded, lookup-allowed_env}
use mimi_agent.Kubernetes.Backend.{
  RunnerExecutionResult, find_configmap, cache_name, ask_pod, cached_or_asked,
  resolve_configmap_name, job_name,
}
use mimi_agent.Kubernetes.Backend.Laws.{resolve_configmap_name_again}
use mimi_agent.Kubernetes.TaskRun.{
  read_result, collect_result, job_manifest, after_wait, await_job, run_task,
}
use mimi_agent.Kubernetes.TaskRun.Laws.{Written, run_task_sound}
use mimi_agent.Kubernetes.ClaudeJob.{
  ClaudeInvocation, KubernetesClaudeLauncherOptions, Finished, static_args, claude_job_name,
  create_and_wait, read_optional, read_outputs, run_in, run,
}
use mimi_agent.Kubernetes.ClaudeJob.Laws.{shell_words-static_args, run_sound}
use mimi_agent.Kubernetes.Tests.{cluster, fresh, result_document}

abbrev task : RunnerTask
task = record {
  job_name = "daily";
  session_id = "sess_1";
  task_id = "task_1";
  role = "ai_it_topic_runner";
  dry_run = false;
}

abbrev options : KubernetesRunnerOptions
options = record {
  client = in_cluster_client 900;
  image = "runner:latest";
  configmap_name = none;
  configmap_volume_name = "config";
  self_pod_name = some "scheduler-0";
  self_pod_namespace = some "agents";
  pvc_name = "data";
  node_hostname = "node";
  image_pull_secret = "pull";
  run_as_user = pos 10001;
  run_as_group = pos 10001;
  memory_limit = "2Gi";
  ttl_seconds_after_finished = 600;
  runner_label = "7mimi-agent-runner";
  job_name_prefix = "7mimi-agent-runner";
}

lookup-allowed_env_example :
    (contains forwarded "GITHUB_TOKEN" ≡ false
      → lookup "GITHUB_TOKEN" (allowed_env cluster task) ≡ none)
    × (lookup "CLAUDE_PROXY_SESSION_TOKEN" (allowed_env cluster task)
        ≡ nonempty_only (getenv cluster "CLAUDE_PROXY_SESSION_TOKEN"))
    × (lookup "AUTH_PROXY_SESSION_TOKEN" (allowed_env cluster task)
        ≡ nonempty_only (getenv cluster "AUTH_PROXY_SESSION_TOKEN"))
lookup-allowed_env_example = lookup-allowed_env cluster task "GITHUB_TOKEN"

abbrev resolved : Client
resolved = (resolve_configmap_name cluster options fresh).1

resolves : resolve_configmap_name cluster options fresh ≡ (ok (text "settings"), resolved)
unfolding resolve_configmap_name cached_or_asked ask_pod cache_name find_configmap cluster
    api_request read_token outside read_text open_url decode ◌>>=◌ lift pure gets modify string_eq
    find_field
resolves = refl

resolve_configmap_name_again_example :
    resolve_configmap_name cluster options resolved ≡ (ok (text "settings"), resolved)
resolve_configmap_name_again_example =
    resolve_configmap_name_again cluster options fresh resolved (text "settings") resolves

abbrev collected : RunnerExecutionResult
collected = record { status = text "published"; payload = result_document }

abbrev task_done : Client
task_done = (run_task cluster "/app" options task fresh).1

task_runs : run_task cluster "/app" options task fresh ≡ (ok (some collected), task_done)
unfolding run_task job_manifest await_job after_wait collect_result read_result
    resolve_configmap_name cached_or_asked ask_pod cache_name find_configmap cluster api_request
    read_token outside read_text open_url decode namespace namespace_file ◌>>=◌ lift pure gets
    modify try_else string_eq find_field wait_for_completion poll act_on monotonic verdict_of
    path_exists get
task_runs = refl

run_task_sound_example :
    (ns : String) × (w : Client) × Succeeded cluster options.client ns
      (job_name cluster options task)
      w
    × Written cluster "/app" options task collected w
run_task_sound_example =
    run_task_sound cluster "/app" options task collected fresh task_done task_runs

abbrev invocation : ClaudeInvocation
invocation = record {
  prompt = "write $(it)";
  allowed_tools = "Read";
  extra_args = "--mcp-config" ∷ "it's here" ∷ "" ∷ [];
  env = ("ROLE", "writer") ∷ [];
}

shell_words-static_args_example : shell_words (static_args invocation) ≡ some invocation.extra_args
shell_words-static_args_example = shell_words-static_args invocation

abbrev launcher : KubernetesClaudeLauncherOptions
launcher = record {
  client = in_cluster_client 1200;
  image = "runner:latest";
  pvc_name = "data";
  node_hostname = "node";
  image_pull_secret = "pull";
  run_as_user = pos 10001;
  run_as_group = pos 10001;
  memory_limit = "2Gi";
  poll_timeout_buffer_seconds = 60;
  ttl_seconds_after_finished = 600;
  runner_label = "7mimi-agent-runner";
  job_name_prefix = "7mimi-claude-digest";
}

abbrev finished : Finished
finished = record { exit_code = pos 0; stdout = "agents\n"; stderr = "agents\n" }

abbrev run_done : Client
run_done = (run cluster launcher "/workspace" "sess_1" "writer" invocation 1200 fresh).1

run_returns :
    run cluster launcher "/workspace" "sess_1" "writer" invocation 1200 fresh
    ≡ (ok (some finished), run_done)
unfolding run run_in create_and_wait read_outputs read_optional cluster api_request read_token
    outside read_text open_url decode namespace namespace_file ◌>>=◌ lift pure gets modify try_else
    string_eq find_field wait_for_completion poll act_on monotonic verdict_of get
run_returns = refl

run_sound_example :
    (finished.exit_code ≡ pos 1)
    ⊎ ((finished.exit_code ≡ pos 0)
        × ((ns : String) × (w : Client) × Succeeded cluster launcher.client ns
              (claude_job_name cluster launcher "sess_1")
              w))
run_sound_example =
    run_sound cluster launcher "/workspace" "sess_1" "writer" invocation 1200 finished fresh
      run_done run_returns
