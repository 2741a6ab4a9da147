-- ===== src/Digest/Docker.antt =====
-- runner/claude_digest.py, the two ways to run the claude command line: in a container of docker, and as a
-- Job of the cluster.
pub mod Laws
use mathlib.Core.List.{[], ◌∷◌}
use mimi_agent.Base.{
  String, ◌<>◌, Bool, Option, none, some, List, ◌++◌, ◌==◌, string_eq, option_eq, if◌then◌else◌,
}
use mimi_agent.Base.Dict.{Dict}
use mimi_agent.Base.Exec.{Result, ok, Exec, pure, lift, ◌>>=◌}
use mimi_agent.Scheduler.Number.{ℤ, int_of}
use mimi_agent.System.{History, System, Completed, getenv, run_command}
use mimi_agent.System.JsonValue.{Value, int_or_error}
use mimi_agent.Kubernetes.ApiClient.{Client, given, or_blank}
use mimi_agent.Kubernetes.RunnerJob.{or_default}
use mimi_agent.Kubernetes.ClaudeJob.{
  ClaudeInvocation, Finished, with_egress, default_launcher_options, run,
}
use mimi_agent.Digest.Texts.{show_int}
use mimi_agent.Digest.Invocation.{RunOptions, build_claude_invocation}

-- What a run of the command line is asked to do.
pub record ClaudeTask : Type 0 where
  pub workspace : String
  pub session_id : String
  pub role : String
  pub prompt : String
  pub options : RunOptions
  pub allowed_tools : String
  pub include_git_relay : Bool
  pub mcp_config : Option Value

-- `["-e", f"{key}={value}"]` of each variable.
unfoldable pub env_args : Dict String String → List String
env_args [] = []
env_args ((key, value) ∷ env) = "-e" ∷ (key <> ("=" <> value)) ∷ env_args env

-- A text that is given, or else the one of the environment, or else the option.
abbrev pub resolve : Option String → Option String → String → String
resolve (some value) env option = value
resolve none env option = or_default env option

-- `int(env_pids_limit) if env_pids_limit else options.pids_limit`
unfoldable pub resolve_pids : Option ℤ → Option String → ℤ → Result ℤ
resolve_pids (some value) env option = ok value
resolve_pids none env option =
    if given env then int_or_error (or_blank env) (int_of (or_blank env)) else ok option

-- A fresh launcher has no caches.
abbrev new_launcher : History → Client
new_launcher past = record { history = past; namespace_cache = none; configmap_name_cache = none }

unfoldable pub with_new_launcher : {A : Type 0} → Exec Client A → Exec History A
with_new_launcher act past = let (outcome, c) = act (new_launcher past) in (outcome, c.history)

module _ (x : System) (task : ClaudeTask) where
  abbrev invocation : Exec History ClaudeInvocation
  invocation =
      build_claude_invocation x task.workspace task.session_id task.role task.prompt task.options
        task.allowed_tools task.include_git_relay task.mcp_config

  unfoldable pub network_args : Option String → List String
  network_args runner_network =
      if given runner_network
      then "--network" ∷ or_blank runner_network ∷ []
      else "--network" ∷ task.options.network ∷ "--add-host" ∷ "host.docker.internal:host-gateway"
        ∷ []

  -- The egress proxy is for the internal network only.
  unfoldable pub container_env : Dict String String → Dict String String
  unfolding with_egress
  container_env env =
      if given (getenv x "RUNNER_NETWORK")
      then with_egress (getenv x "RUNNER_EGRESS_PROXY") env
      else env

  unfoldable pub docker_argv : String → String → ℤ → ClaudeInvocation → List String
  unfolding env_args network_args container_env
  docker_argv memory cpus pids_limit inv =
      (task.options.docker_bin
        ∷ "run"
        ∷ "--rm"
        ∷ "--name"
        ∷ ("7mimi-claude-digest-" <> task.session_id)
        ∷ [])
      ++ network_args (getenv x "RUNNER_NETWORK")
      ++ ("--memory"
          ∷ memory
          ∷ "--cpus"
          ∷ cpus
          ∷ "--pids-limit"
          ∷ show_int pids_limit
          ∷ "-v"
          ∷ (task.workspace <> ":/workspace")
          ∷ "-w"
          ∷ "/workspace"
          ∷ [])
      ++ env_args (container_env inv.env)
      ++ (task.options.image ∷ "claude" ∷ "-p" ∷ inv.prompt ∷ "--allowedTools" ∷ inv.allowed_tools
          ∷ inv.extra_args)

  unfoldable pub build_docker_command :
      Option String → Option String → Option ℤ → Exec History (List String)
  unfolding docker_argv resolve_pids
  build_docker_command memory cpus pids_limit = do
    pids ← lift (resolve_pids pids_limit (getenv x "RUNNER_PIDS_LIMIT") task.options.pids_limit)
    inv ← invocation
    pure (
        docker_argv (resolve memory (getenv x "RUNNER_MEMORY") task.options.memory)
          (resolve cpus (getenv x "RUNNER_CPUS") task.options.cpus) pids inv)

  -- The exit code and the outputs of a completed process.
  abbrev pub finished_as : Completed → Finished
  finished_as completed = record {
    exit_code = completed.returncode;
    stdout = completed.stdout;
    stderr = completed.stderr;
  }

  unfoldable pub run_in_docker : String → Exec History (Option Finished)
  run_in_docker root = do
    argv ← build_docker_command none none none
    completed ← run_command x (record {
      argv = argv;
      cwd = some root;
      env = none;
      timeout = task.options.timeout_seconds;
    })
    pure (some (finished_as completed))

  unfoldable pub run_claude_via_kubernetes : Exec History (Option Finished)
  run_claude_via_kubernetes = do
    inv ← invocation
    options ← lift (default_launcher_options x)
    with_new_launcher
        (run x options task.workspace task.session_id task.role inv task.options.timeout_seconds)

  unfoldable pub execute_claude : String → Exec History (Option Finished)
  execute_claude root =
      if getenv x "RUNNER_BACKEND" == some "kubernetes"
      then run_claude_via_kubernetes
      else run_in_docker root
