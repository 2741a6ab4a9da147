-- ===== src/Digest/Start.antt =====
-- What runner/claude_digest.py and runner/invest_digest.py begin and end with.
pub mod Laws
use mathlib.Core.List.{[], ◌∷◌}
use mimi_agent.Base.{
  ℕ, String, ◌<>◌, Bool, true, false, not, ◌||◌, Option, none, some, List, ◌++◌, string_eq,
  if◌then◌else◌,
}
use mimi_agent.Base.Dict.{Dict}
use mimi_agent.Base.Exec.{Error, Result, ok, err, Exec, pure, raise, lift, ◌>>=◌, ◌>>◌, try_else}
use mimi_agent.Scheduler.Number.{ℤ, pos}
use mimi_agent.System.{System, getenv}
use mimi_agent.System.JsonValue.{Value}
use mimi_agent.Kubernetes.ApiClient.{given, or_blank}
use mimi_agent.Kubernetes.ClaudeJob.{Finished}
use mimi_agent.Digest.Texts.{or_null}
use mimi_agent.Digest.McpSession.{IssuedSession, issue_session}
use mimi_agent.Digest.Invocation.{RunOptions, value_error, error_excerpt, build_direct_mcp_config}
use mimi_agent.Digest.Verify.{is_zero}
use mimi_agent.Digest.Act.{Act, in_system}

abbrev pub default_run_options : RunOptions
default_run_options = record {
  model = "claude-sonnet-5";
  timeout_seconds = 1200;
  max_turns = 40;
  image = "7mimi-agent-runner:latest";
  docker_bin = "docker";
  network = "bridge";
  memory = "2g";
  cpus = "2";
  pids_limit = pos 512;
}

abbrev pub missing_mcp : String → Error
missing_mcp command = value_error ("X_MCP_URL and X_MCP_SESSION_TOKEN are required for " <> command)

-- `exit_code if verified else (exit_code or 1)`
abbrev pub final_code : Bool → ℤ → ℤ
final_code true code = code
final_code false code = if is_zero code then pos 1 else code

abbrev pub error_json : Finished → String
error_json finished =
    or_null (if is_zero finished.exit_code then none else error_excerpt (some finished.stderr))

module _ (x : System) where
  -- Both digests connect to the tools with a token of their role.
  unfoldable pub connect : String → String → Act Value
  connect role command =
      if not (given (getenv x "X_MCP_URL")) || not (given (getenv x "X_MCP_SESSION_TOKEN"))
      then raise (missing_mcp command)
      else (do
        issued ← in_system (
            issue_session x (or_blank (getenv x "X_MCP_URL"))
              (or_blank (getenv x "X_MCP_SESSION_TOKEN")) role)
        pure (build_direct_mcp_config x issued.token))
