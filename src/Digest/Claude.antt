-- ===== src/Digest/Claude.antt =====
-- runner/claude_digest.py: the daily digest of topics, which counts as published once a clone of the notes
-- shows it.
pub mod Laws
use mathlib.Core.List.{[], ◌∷◌}
use mimi_agent.Base.{
  ℕ, String, ◌<>◌, Bool, true, false, not, ◌||◌, Option, none, some, List, ◌++◌, string_eq,
  if◌then◌else◌,
}
use mimi_agent.Base.Dict.{Dict}
use mimi_agent.Base.Exec.{Error, Result, ok, err, Exec, pure, raise, lift, ◌>>=◌, ◌>>◌, try_else}
use mimi_agent.Str.{prefix, strip, join}
use mimi_agent.Scheduler.Number.{ℤ, pos, negsuc}
use mimi_agent.System.{
  History, System, Command, Completed, getenv, read_text, path_exists, run_command, make_tempdir,
}
use mimi_agent.System.JsonValue.{Value}
use mimi_agent.Db.Tables.{Json}
use mimi_agent.Db.Repository.{Host, World, record_document}
use mimi_agent.Kubernetes.ApiClient.{given, or_blank}
use mimi_agent.Kubernetes.RunnerJob.{or_default}
use mimi_agent.Kubernetes.ClaudeJob.{Finished}
use mimi_agent.Digest.Texts.{is_ascii, without_slash, drop_chars, replace_text, show_int, or_null}
use mimi_agent.Digest.McpSession.{IssuedSession, issue_session}
use mimi_agent.Digest.Invocation.{
  RunOptions, value_error, update, build_git_relay_env, error_excerpt, build_direct_mcp_config,
}
use mimi_agent.Digest.Prompts.{build_digest_prompt}
use mimi_agent.Digest.Docker.{ClaudeTask, execute_claude}
use mimi_agent.Digest.Verify.{is_zero, Check, verify_published}
use mimi_agent.Digest.Start.{default_run_options, final_code, error_json, connect}
use mimi_agent.Digest.Act.{Surroundings, Act, in_store, in_system, today}

pub record ClaudeDigestOptions : Type 0 where
  pub run : RunOptions
  pub notes_repo : String

pub record ClaudeDigestResult : Type 0 where
  pub exit_code : ℤ
  pub stdout : String
  pub stderr : String
  pub workspace : String
  pub verified : Bool
  pub verified_path : Option String
  pub commit_sha : Option String

abbrev pub default_digest_options : ClaudeDigestOptions
default_digest_options = record {
  run = default_run_options;
  notes_repo = "7milch/ai-it-research-notes";
}

abbrev pub digest_role : String
digest_role = "ai_it_topic_runner"

abbrev default_allowed_tools : List String
default_allowed_tools = "Read" ∷ "Write" ∷ "WebFetch" ∷ "Bash(git:*)" ∷ []

abbrev direct_mcp_tool_names : List String
direct_mcp_tool_names =
    "mcp__x7mimi__x_search_posts_recent" ∷ "mcp__x7mimi__x_get_posts" ∷ "mcp__x7mimi__x_get_users"
    ∷ "mcp__x7mimi__x_get_users_by_username" ∷ []

unfoldable pub direct_mcp_allowed_tools : String
unfolding join
direct_mcp_allowed_tools = join "," (default_allowed_tools ++ direct_mcp_tool_names)

-- `f"daily/{date:%Y}/{date:%m}/{date.isoformat()}.md"`
unfoldable pub digest_path : String → String
unfolding drop_chars
digest_path date =
    "daily/"
    <> (prefix 4 date <> ("/" <> (prefix 2 (drop_chars 5 date) <> ("/" <> (date <> ".md")))))

abbrev bool_json : Bool → String
bool_json true = "true"
bool_json false = "false"

module _ (h : Host) (x : System) (options : ClaudeDigestOptions) where
  unfoldable pub record_digest : String → Finished → Check → Act String
  record_digest date finished (verified, commit_sha) = in_store (
      record_document h (if verified then some options.notes_repo else none) (digest_path date)
        ("Daily AI/IT Digest - " <> date) "ai_it_daily_digest"
        (if verified then "published" else "failed") [] commit_sha
        (("target_repo", options.notes_repo)
          ∷ ("target_path", digest_path date)
          ∷ ("verified", bool_json verified)
          ∷ ("exit_code", show_int finished.exit_code)
          ∷ ("error", error_json finished)
          ∷ []))

  digest_result : String → String → Finished → Check → ClaudeDigestResult
  digest_result workspace date finished (verified, commit_sha) = record {
    exit_code = final_code verified finished.exit_code;
    stdout = finished.stdout;
    stderr = finished.stderr;
    workspace = workspace;
    verified = verified;
    verified_path = if verified then some (digest_path date) else none;
    commit_sha = commit_sha;
  }

  -- Only a run that exited with 0 is checked.
  unfoldable pub check_run : String → Finished → Act Check
  check_run date finished =
      if is_zero finished.exit_code
      then in_system (verify_published x options.notes_repo (digest_path date))
      else pure (false, none)

  unfoldable pub finish_digest : String → String → Finished → Act ClaudeDigestResult
  unfolding digest_result
  finish_digest workspace date finished = do
    check ← check_run date finished
    record_digest date finished check
    pure (digest_result workspace date finished check)

  -- Nothing is recorded where the rounds of a wait are used up.
  unfoldable pub after_run : String → String → Option Finished → Act (Option ClaudeDigestResult)
  after_run workspace date none = pure none
  after_run workspace date (some finished) = do
    result ← finish_digest workspace date finished
    pure (some result)

  digest_task : String → String → String → Value → ClaudeTask
  unfolding direct_mcp_allowed_tools build_digest_prompt
  digest_task workspace session_id date mcp_config = record {
    workspace = workspace;
    session_id = session_id;
    role = digest_role;
    prompt =
        build_digest_prompt options.notes_repo (digest_path date)
          (or_blank (getenv x "GIT_PROXY_URL"));
    options = options.run;
    allowed_tools = direct_mcp_allowed_tools;
    include_git_relay = true;
    mcp_config = some mcp_config;
  }

  unfoldable pub execute_digest : String → String → String → String → Value → Act (Option Finished)
  unfolding digest_task
  execute_digest root workspace session_id date mcp_config =
      if given (getenv x "GIT_PROXY_URL")
      then in_system (execute_claude x (digest_task workspace session_id date mcp_config) root)
      else raise (value_error "GIT_PROXY_URL is required for claude-digest")

  unfoldable pub run_claude_digest : String → String → String → Act (Option ClaudeDigestResult)
  run_claude_digest root workspace session_id = do
    mcp_config ← connect x digest_role "claude-digest"
    date ← today h
    finished ← execute_digest root workspace session_id date mcp_config
    after_run workspace date finished
