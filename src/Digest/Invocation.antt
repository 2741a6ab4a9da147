-- ===== src/Digest/Invocation.antt =====
-- runner/git_relay_env.py and runner/claude_digest.py, the invocation of the claude command line and the
-- container that runs it. A workspace is named by its resolved path.
pub mod Laws
use mathlib.Core.List.{[], ◌∷◌}
use mimi_agent.Base.{
  ℕ, String, ◌<>◌, Bool, true, false, not, ◌||◌, Option, none, some, List, ◌++◌, string_eq,
  if◌then◌else◌,
}
use mimi_agent.Base.Dict.{Dict, insert}
use mimi_agent.Base.Exec.{Error, Result, ok, err, Exec, pure, raise, lift, ◌>>=◌, ◌>>◌}
use mimi_agent.Str.{is_nonempty, strip, prefix, count, decimal}
use mimi_agent.Base.{ltb}
use mimi_agent.Scheduler.Number.{ℤ, int_of}
use mimi_agent.System.{History, System, shown, getenv, write_text}
use mimi_agent.System.JsonValue.{Value, text, dict_of, int_or_error}
use mimi_agent.Kubernetes.ApiClient.{given, or_blank}
use mimi_agent.Kubernetes.RunnerJob.{entry, or_default}
use mimi_agent.Kubernetes.ClaudeJob.{ClaudeInvocation, with_egress}
use mimi_agent.Digest.Texts.{without_slash, show_int}

-- The options that both digests have.
pub record RunOptions : Type 0 where
  pub model : String
  pub timeout_seconds : ℕ
  pub max_turns : ℕ
  pub image : String
  pub docker_bin : String
  pub network : String
  pub memory : String
  pub cpus : String
  pub pids_limit : ℤ

abbrev pub value_error : String → Error
value_error message = record { kind = "ValueError"; message = message }

-- `d.update(entries)`
unfoldable pub update : Dict String String → Dict String String → Dict String String
update d [] = d
update d ((k, v) ∷ entries) = update (insert k v d) entries

unfoldable pub build_git_relay_env : String → String → Dict String String
build_git_relay_env proxy_url session_token =
    ("GIT_CONFIG_COUNT", "2")
    ∷ ("GIT_CONFIG_KEY_0", "http." <> (without_slash proxy_url <> "/.extraheader"))
    ∷ ("GIT_CONFIG_VALUE_0", "Authorization: Bearer " <> session_token)
    ∷ ("GIT_CONFIG_KEY_1", "credential.helper")
    ∷ ("GIT_CONFIG_VALUE_1", "")
    ∷ ("GIT_TERMINAL_PROMPT", "0")
    ∷ []

abbrev pub max_error_metadata_chars : ℕ
max_error_metadata_chars = 4000

unfoldable pub trim_error : String → Option String
trim_error trimmed =
    if not (is_nonempty trimmed)
    then none
    else if ltb max_error_metadata_chars (count trimmed)
    then some (prefix max_error_metadata_chars trimmed <> "... (truncated)")
    else some trimmed

unfoldable pub error_excerpt : Option String → Option String
unfolding trim_error
error_excerpt stderr = if given stderr then trim_error (strip (or_blank stderr)) else none

abbrev pub git_author_name : String
git_author_name = "7mimi-agent runner"

abbrev pub git_author_email : String
git_author_email = "agent@7mimi.local"

abbrev pub git_identity : Dict String String
git_identity =
    ("GIT_AUTHOR_NAME", git_author_name)
    ∷ ("GIT_AUTHOR_EMAIL", git_author_email)
    ∷ ("GIT_COMMITTER_NAME", git_author_name)
    ∷ ("GIT_COMMITTER_EMAIL", git_author_email)
    ∷ []

abbrev pub claude_env : String → String → String → String → RunOptions → Dict String String
claude_env proxy_url token session_id role options =
    ("SESSION_ID", session_id)
    ∷ ("ROLE", role)
    ∷ ("ANTHROPIC_BASE_URL", proxy_url)
    ∷ ("ANTHROPIC_AUTH_TOKEN", token)
    ∷ (
      "ANTHROPIC_CUSTOM_HEADERS",
      "X-7mimi-Session-Id: " <> (session_id <> ("\nX-7mimi-Role: " <> role)),
    )
    ∷ ("ANTHROPIC_MODEL", options.model)
    ∷ ("CLAUDE_CONFIG_DIR", "/workspace/.claude-config")
    ∷ ("HOME", "/workspace")
    ∷ ("DISABLE_TELEMETRY", "1")
    ∷ ("DISABLE_ERROR_REPORTING", "1")
    ∷ []

abbrev extra_args_with : List String → RunOptions → List String
extra_args_with mcp_args options =
    mcp_args ++ ("--max-turns" ∷ decimal options.max_turns ∷ "--output-format" ∷ "json" ∷ [])

abbrev missing_claude : Error
missing_claude =
    value_error "CLAUDE_PROXY_URL and CLAUDE_PROXY_SESSION_TOKEN are required for claude-digest"

abbrev missing_git : Error
missing_git = value_error "GIT_PROXY_URL and GIT_PROXY_SESSION_TOKEN are required for claude-digest"

module _ (x : System) where
  -- The relay's variables, where the relay is wanted.
  unfoldable pub with_git_relay : Bool → Dict String String → Result (Dict String String)
  unfolding update build_git_relay_env
  with_git_relay false env = ok env
  with_git_relay true env =
      if not (given (getenv x "GIT_PROXY_URL")) || not (given (getenv x "GIT_PROXY_SESSION_TOKEN"))
      then err missing_git
      else ok (
          update (update env git_identity) (
            build_git_relay_env (or_blank (getenv x "GIT_PROXY_URL"))
              (or_blank (getenv x "GIT_PROXY_SESSION_TOKEN"))))

  unfoldable pub invocation_env : String → String → RunOptions → Bool → Result (Dict String String)
  unfolding with_git_relay
  invocation_env session_id role options include_git_relay =
      if not (given (getenv x "CLAUDE_PROXY_URL"))
        || not (given (getenv x "CLAUDE_PROXY_SESSION_TOKEN"))
      then err missing_claude
      else with_git_relay include_git_relay (
          claude_env (or_blank (getenv x "CLAUDE_PROXY_URL"))
            (or_blank (getenv x "CLAUDE_PROXY_SESSION_TOKEN")) session_id role options)

  -- The configuration is written into the workspace.
  unfoldable pub write_mcp_config : String → Option Value → Exec History (List String)
  write_mcp_config workspace none = pure []
  write_mcp_config workspace (some mcp_config) = do
    write_text x (workspace <> "/.mcp.json") (x.dumps_indented mcp_config)
    pure ("--mcp-config" ∷ "/workspace/.mcp.json" ∷ "--strict-mcp-config" ∷ [])

  unfoldable pub build_claude_invocation :
      String
      → String
      → String
      → String
      → RunOptions
      → String
      → Bool
      → Option Value
      → Exec History ClaudeInvocation
  build_claude_invocation workspace session_id role prompt options allowed_tools include_git_relay
        mcp_config =
      do
        env ← lift (invocation_env session_id role options include_git_relay)
        mcp_args ← write_mcp_config workspace mcp_config
        pure (record {
          prompt = prompt;
          allowed_tools = allowed_tools;
          extra_args = extra_args_with mcp_args options;
          env = env;
        })

  unfoldable pub direct_mcp_server_url : String
  direct_mcp_server_url =
      if given (getenv x "RUNNER_MCP_URL")
      then or_blank (getenv x "RUNNER_MCP_URL")
      else if given (getenv x "RUNNER_NETWORK")
      then "http://auth-proxy:18081/mcp"
      else "http://host.docker.internal:18081/mcp"

  unfoldable pub build_direct_mcp_config : Value → Value
  unfolding direct_mcp_server_url
  build_direct_mcp_config session_token = dict_of (
      (
        "mcpServers",
        dict_of (
            (
              "x7mimi",
              dict_of (
                  entry "type" "http"
                  ∷ entry "url" direct_mcp_server_url
                  ∷ (
                    "headers",
                    dict_of (entry "Authorization" ("Bearer " <> shown x session_token) ∷ []),
                  )
                  ∷ []),
            )
            ∷ []),
      )
      ∷ [])
