-- ===== src/Digest/Invest.antt =====
-- runner/invest_digest.py: the digest of investment signals, which is sent to Slack if the policy allows it.
pub mod Laws
pub mod Sent
pub mod Unsent
use mathlib.Core.List.{[], ◌∷◌}
use mimi_agent.Base.{
  ℕ, String, ◌<>◌, Bool, true, false, not, ◌==◌, string_eq, Option, none, some, if◌then◌else◌,
}
use mimi_agent.Base.Exec.{Error, Result, ok, err, Exec, pure, raise, lift, ◌>>=◌, ◌>>◌, try_else}
use mimi_agent.Str.{is_nonempty, strip, count, decimal}
use mimi_agent.Scheduler.Number.{ℤ}
use mimi_agent.System.{History, System, getenv, read_text, path_exists}
use mimi_agent.System.JsonValue.{Value}
use mimi_agent.Security.PolicyEngine.{PolicyDecision, allowed}
use mimi_agent.Db.Repository.{Host, record_document}
use mimi_agent.Runner.Gate.{
  ToolRequest, Services, AuthProxyClient, utf8_length, run_pre_tool_use, run_post_tool_use,
}
use mimi_agent.Kubernetes.RunnerJob.{or_default}
use mimi_agent.Kubernetes.ClaudeJob.{Finished}
use mimi_agent.Digest.Texts.{is_ascii, show_int, or_null}
use mimi_agent.Digest.Invocation.{RunOptions}
use mimi_agent.Digest.Prompts.{build_invest_digest_prompt, disclaimer_footer}
use mimi_agent.Digest.Docker.{ClaudeTask, execute_claude}
use mimi_agent.Digest.Verify.{is_zero}
use mimi_agent.Digest.Start.{final_code, error_json, connect}
use mimi_agent.Digest.Act.{Act, in_store, in_system, today}
use mimi_agent.Digest.Slack.{SlackNotifyClient, notify}

pub record InvestDigestResult : Type 0 where
  pub exit_code : ℤ
  pub stdout : String
  pub stderr : String
  pub workspace : String
  pub published : Bool
  pub chunks : Option ℤ
  pub chars : Option ℕ

-- What became of the text.
pub record Delivery : Type 0 where
  pub published : Bool
  pub chunks : Option ℤ
  pub chars : Option ℕ

abbrev pub undelivered : Delivery
undelivered = record { published = false; chunks = none; chars = none }

abbrev pub invest_role : String
invest_role = "investment_signal_runner"

abbrev invest_allowed_tools : String
invest_allowed_tools = "Read,Write,WebFetch,mcp__x7mimi__x_search_posts_recent"

-- `except SlackNotifyError`
abbrev pub is_slack_error : Error → Bool
is_slack_error e = e.kind == "SlackNotifyError"

abbrev pub int_json : Option ℤ → String
int_json none = "null"
int_json (some n) = show_int n

abbrev pub count_json : Option ℕ → String
count_json none = "null"
count_json (some n) = decimal n

-- A digest that is blank or all ASCII is none.
abbrev pub digest_or_none : String → Option String
digest_or_none content =
    if not (is_nonempty (strip content))
    then none
    else if is_ascii content
    then none
    else some content

abbrev pub post_request : String → String → String → ToolRequest
post_request session_id task_id digest = record {
  session_id = session_id;
  task_id = task_id;
  role = invest_role;
  tool_name = "slack.post_digest";
  arguments = ("chars", decimal (count digest)) ∷ [];
}

module _ (x : System) where
  unfoldable pub read_digest : String → Exec History (Option String)
  read_digest workspace = do
    present ← path_exists x (workspace <> "/digest.md")
    if present
        then (do content ← read_text x (workspace <> "/digest.md"); pure (digest_or_none content))
        else pure none

  -- Only a run that exited with 0 has a digest.
  unfoldable pub digest_of_run : String → Finished → Exec History (Option String)
  digest_of_run workspace finished =
      if is_zero finished.exit_code then read_digest workspace else pure none

  abbrev pub slack_or_default : Option SlackNotifyClient → SlackNotifyClient
  slack_or_default (some client) = client
  slack_or_default none = record {
    base_url = or_default (getenv x "SLACK_NOTIFY_URL") "";
    session_token = or_default (getenv x "SLACK_NOTIFY_SESSION_TOKEN") "";
    timeout_seconds = 120;
  }

  abbrev pub with_footer : String → String
  with_footer digest = digest <> disclaimer_footer

  unfoldable pub delivered : String → ℤ → Exec History Delivery
  delivered digest chunks =
      pure (record {
        published = true;
        chunks = some chunks;
        chars = some (count (with_footer digest));
      })

  unfoldable pub not_delivered : String → Error → Exec History Delivery
  not_delivered digest e =
      if is_slack_error e
      then pure
          (record { published = false; chunks = none; chars = some (count (with_footer digest)) })
      else raise e

  -- The footer is appended here, whatever the digest says.
  unfoldable pub deliver : SlackNotifyClient → String → Exec History Delivery
  deliver client digest =
      try_else (notify x client (with_footer digest) none) (delivered digest) (not_delivered digest)

module _ (h : Host) (services : Services) (x : System) (auth : AuthProxyClient)
    (slack : Option SlackNotifyClient) where
  unfoldable pub deliver_if : PolicyDecision → String → Act Delivery
  deliver_if decision digest =
      if allowed decision
      then in_system (deliver x (slack_or_default x slack) digest)
      else pure undelivered

  -- The decision, its event, and the delivery if it is allowed.
  unfoldable pub publish : String → String → Option String → Act Delivery
  publish session_id task_id none = pure undelivered
  publish session_id task_id (some digest) = do
    decision ← in_store (run_pre_tool_use h services auth (post_request session_id task_id digest))
    in_store (
        run_post_tool_use h services (post_request session_id task_id digest) decision.decision
          (if allowed decision then 1 else 0) (utf8_length digest))
    deliver_if decision digest

  unfoldable pub record_invest : String → Finished → Delivery → Act String
  record_invest date finished delivery = in_store (
      record_document h none ("slack://invest-x-daily-digest/" <> date)
        ("Invest X Daily Digest - " <> date) "invest_x_daily_digest"
        (if delivery.published then "published" else "failed") [] none
        (("chunks", int_json delivery.chunks)
          ∷ ("chars", count_json delivery.chars)
          ∷ ("exit_code", show_int finished.exit_code)
          ∷ ("error", error_json finished)
          ∷ []))

  invest_result : String → Finished → Delivery → InvestDigestResult
  invest_result workspace finished delivery = record {
    exit_code = final_code delivery.published finished.exit_code;
    stdout = finished.stdout;
    stderr = finished.stderr;
    workspace = workspace;
    published = delivery.published;
    chunks = delivery.chunks;
    chars = delivery.chars;
  }

  unfoldable pub finish_invest : String → String → String → Finished → Act InvestDigestResult
  unfolding invest_result
  finish_invest workspace session_id task_id finished = do
    digest ← in_system (digest_of_run x workspace finished)
    date ← today h
    delivery ← publish session_id task_id digest
    record_invest date finished delivery
    pure (invest_result workspace finished delivery)

  unfoldable pub invest_task : String → String → RunOptions → Value → ClaudeTask
  unfolding build_invest_digest_prompt
  invest_task workspace session_id options mcp_config = record {
    workspace = workspace;
    session_id = session_id;
    role = invest_role;
    prompt = build_invest_digest_prompt;
    options = options;
    allowed_tools = invest_allowed_tools;
    include_git_relay = false;
    mcp_config = some mcp_config;
  }

  -- Nothing is recorded where the rounds of a wait are used up.
  unfoldable pub after_invest_run :
      String → String → String → Option Finished → Act (Option InvestDigestResult)
  after_invest_run workspace session_id task_id none = pure none
  after_invest_run workspace session_id task_id (some finished) = do
    result ← finish_invest workspace session_id task_id finished
    pure (some result)

  unfoldable pub run_invest_digest :
      String → String → String → String → RunOptions → Act (Option InvestDigestResult)
  unfolding invest_task
  run_invest_digest root workspace session_id task_id options = do
    mcp_config ← connect x invest_role "invest-digest"
    finished ←
        in_system (execute_claude x (invest_task workspace session_id options mcp_config) root)
    after_invest_run workspace session_id task_id finished
