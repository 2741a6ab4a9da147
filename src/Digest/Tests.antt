-- ===== src/Digest/Tests.antt =====
-- Runs of both digests that go well, and the theorems at them.
use mathlib.Core.Bool.{false≢true}
use mathlib.Core.List.{[], ◌∷◌}
use mimi_agent.Base.{◌≡◌, refl, true, false, none, some, nat_eq, string_eq, option_eq, contains}
use mimi_agent.Base.Dict.{lookup, insert}
use mimi_agent.Base.Exec.{ok, pure, raise, lift, ◌>>=◌, try_else}
use mimi_agent.Str.{is_space, lstrip_by, rstrip_by, strip, prefix, decimal}
use mimi_agent.Scheduler.Number.{pos}
use mimi_agent.System.{
  System, answered, getenv, open_url, read_text, write_text, path_exists, run_command, make_tempdir,
}
use mimi_agent.System.JsonValue.{Value, text, dict_of, find_field, get, int_value}
use mimi_agent.Security.PolicyEngine.{allowed}
use mimi_agent.Db.Tables.{has_key, empty_database}
use mimi_agent.Db.Repository.{
  Host, new_id, iso_now, execute, insert_event, insert_document, record_tool_event, record_document,
}
use mimi_agent.Runner.Gate.{
  Services, AuthProxyClient, decision_of, ask_proxy, authorize_remote, authorize, run_pre_tool_use,
  run_post_tool_use,
}
use mimi_agent.Digest.McpSession.{issue_payload, session_of, issue_session}
use mimi_agent.Digest.Invocation.{
  claude_env, update, with_git_relay, invocation_env, write_mcp_config, build_claude_invocation,
}
use mimi_agent.Digest.Docker.Laws.{lookup-container_env}
use mimi_agent.Kubernetes.ClaudeJob.{ClaudeInvocation, build_env}
use mimi_agent.Kubernetes.ClaudeJob.Laws.{launcher_names}
use mimi_agent.Digest.Docker.{
  ClaudeTask, container_env, resolve_pids, build_docker_command, run_in_docker, execute_claude,
}
use mimi_agent.Digest.Verify.{
  check_content, read_and_check, commit_of, verify_digest_in_repo, clone_and_verify,
  verify_published,
}
use mimi_agent.Digest.Start.{default_run_options, connect}
use mimi_agent.Digest.Act.{Surroundings, in_store, in_system, today}
use mimi_agent.Digest.Slack.{chunks_of, notify_body, notify}
use mimi_agent.Digest.Claude.{
  ClaudeDigestResult, digest_path, default_digest_options, check_run, record_digest, finish_digest,
  after_run, execute_digest, run_claude_digest,
}
use mimi_agent.Digest.Claude.Laws.{DigestRun, run_claude_digest_sound}
use mimi_agent.Digest.Invest.{
  InvestDigestResult, read_digest, digest_of_run, delivered, deliver, deliver_if, publish,
  record_invest, finish_invest, after_invest_run, run_invest_digest,
}
use mimi_agent.Digest.Invest.Laws.{InvestRun, run_invest_digest_sound}

abbrev pub host : Host
host = record { new_id = λ n name. name; iso_now = λ n. "2026-01-01T00:00:00+09:00" }

abbrev answer : Value
answer = dict_of (
    ("token", text "t")
    ∷ ("ttl_seconds", Value.number (pos 600))
    ∷ ("chunks", Value.number (pos 1))
    ∷ [])

unfoldable pub machine : System
machine = record {
  environ =
      ("X_MCP_URL", "http://auth-proxy/mcp")
      ∷ ("X_MCP_SESSION_TOKEN", "admin")
      ∷ ("CLAUDE_PROXY_URL", "http://claude-proxy")
      ∷ ("CLAUDE_PROXY_SESSION_TOKEN", "c")
      ∷ ("GIT_PROXY_URL", "http://auth-proxy")
      ∷ ("GIT_PROXY_SESSION_TOKEN", "g")
      ∷ ("SLACK_NOTIFY_URL", "http://slack-proxy")
      ∷ ("SLACK_NOTIFY_SESSION_TOKEN", "s")
      ∷ [];
  urlopen = λ past request. answered "{...}";
  file_text = λ past path. ok "今日";
  file_exists = λ past path. true;
  write = λ past path content. ok tt;
  clock = λ past. 0;
  run = λ past command. ok (record { returncode = pos 0; stdout = "abc"; stderr = "" });
  tempdir = λ past. "/tmp/notes";
  mkdir = λ past path. ok tt;
  loads = λ raw. ok answer;
  dumps = λ value. "{...}";
  dumps_indented = λ value. "{ ... }";
  show = λ value. "";
  http_text = λ code. "HTTP Error";
}

abbrev pub start : Surroundings
start = record { world = record { db = empty_database; asked = 0; calls = [] }; history = [] }

abbrev digested : ClaudeDigestResult
digested = record {
  exit_code = pos 0;
  stdout = "abc";
  stderr = "";
  workspace = "/work";
  verified = true;
  verified_path = some "daily/2026/01/2026-01-01.md";
  commit_sha = some "abc";
}

abbrev digest_done : Surroundings
digest_done = (run_claude_digest host machine default_digest_options "/app" "/work" "sess" start).1

digest_runs :
    run_claude_digest host machine default_digest_options "/app" "/work" "sess" start
    ≡ (ok (some digested), digest_done)
unfolding run_claude_digest machine connect in_system in_store issue_session open_url issue_payload
    session_of today iso_now execute_digest execute_claude run_in_docker build_docker_command
    resolve_pids build_claude_invocation invocation_env with_git_relay update write_mcp_config
    write_text run_command after_run finish_digest check_run verify_published clone_and_verify
    make_tempdir verify_digest_in_repo path_exists read_and_check read_text check_content commit_of
    strip lstrip_by rstrip_by is_space record_digest record_document new_id insert_document execute
    lookup getenv insert prefix find_field get string_eq nat_eq option_eq has_key digest_path pure
    raise lift ◌>>=◌ try_else
digest_runs = refl

run_claude_digest_sound_example :
    DigestRun host machine default_digest_options "/app" "/work" "sess" digested start digest_done
run_claude_digest_sound_example =
    run_claude_digest_sound host machine default_digest_options "/app" "/work" "sess" digested start
      digest_done digest_runs

-- A proxy that allows.
abbrev pub gate : Services
gate = record {
  post_authorize = λ calls request. ok (("decision", "allow") ∷ []);
  initialize = λ calls. ok tt;
  call_tool = λ calls name arguments. ok (record { content = []; is_error = false });
  loads = λ content. none;
  write_text = λ calls path content. ok tt;
}

abbrev pub auth : AuthProxyClient
auth = record { base_url = "http://auth-proxy"; local_fallback_engine = none }

abbrev invested : InvestDigestResult
invested = record {
  exit_code = pos 0;
  stdout = "abc";
  stderr = "";
  workspace = "/work";
  published = true;
  chunks = some (pos 1);
  chars = some 111;
}

abbrev invest_done : Surroundings
invest_done =
    (run_invest_digest host gate machine auth none "/app" "/work" "sess" "task" default_run_options
      start).1

invest_runs :
    run_invest_digest host gate machine auth none "/app" "/work" "sess" "task" default_run_options
      start
    ≡ (ok (some invested), invest_done)
unfolding run_invest_digest machine connect in_system in_store issue_session open_url issue_payload
    session_of today iso_now execute_claude run_in_docker build_docker_command resolve_pids
    build_claude_invocation invocation_env with_git_relay write_mcp_config write_text run_command
    after_invest_run finish_invest digest_of_run read_digest path_exists read_text strip lstrip_by
    rstrip_by is_space publish run_pre_tool_use authorize authorize_remote ask_proxy decision_of
    run_post_tool_use record_tool_event insert_event deliver_if deliver delivered notify notify_body
    chunks_of allowed record_invest record_document new_id insert_document execute lookup getenv
    prefix find_field get int_value string_eq nat_eq option_eq has_key pure raise lift ◌>>=◌
    try_else
invest_runs = refl

run_invest_digest_sound_example :
    InvestRun host gate machine auth none "/app" "/work" "sess" "task" default_run_options invested
      start invest_done
run_invest_digest_sound_example =
    run_invest_digest_sound host gate machine auth none "/app" "/work" "sess" "task"
      default_run_options invested start invest_done invest_runs

abbrev claude_task : ClaudeTask
claude_task = record {
  workspace = "/work";
  session_id = "sess";
  role = "writer";
  prompt = "今日";
  options = default_run_options;
  allowed_tools = "Read";
  include_git_relay = false;
  mcp_config = none;
}

abbrev built : ClaudeInvocation
built = record {
  prompt = "今日";
  allowed_tools = "Read";
  extra_args = "--max-turns" ∷ "40" ∷ "--output-format" ∷ "json" ∷ [];
  env = claude_env "http://claude-proxy" "c" "sess" "writer" default_run_options;
}

builds :
    build_claude_invocation machine "/work" "sess" "writer" "今日" default_run_options "Read" false
      none []
    ≡ (ok built, [])
unfolding build_claude_invocation invocation_env machine with_git_relay write_mcp_config getenv
    lookup string_eq decimal ◌>>=◌ lift pure nat_eq
builds = refl

lookup-container_env_example :
    (lookup "X_MCP_SESSION_TOKEN" (container_env machine claude_task built.env) ≡ none)
    × (contains launcher_names "X_MCP_SESSION_TOKEN" ≡ false
        → lookup "X_MCP_SESSION_TOKEN" (build_env machine built) ≡ none)
lookup-container_env_example =
    lookup-container_env machine claude_task built [] [] "X_MCP_SESSION_TOKEN" builds
      (unfold string_eq in refl) (λ e. absurd (false≢true e)) (unfold string_eq in refl)
