-- ===== src/Digest/Executors.antt =====
-- cli.py, the executors of the scheduler for the two digests; config/model_selection.py and
-- sessions/workspace.py. A job is the dict of its configuration; a role that is no text counts as missing.
pub mod Laws
mod Tests
use mathlib.Core.List.{[], ◌∷◌}
use mimi_agent.Base.{
  ℕ, String, ◌<>◌, Bool, true, false, not, Option, none, some, List, keep, string_eq, if◌then◌else◌,
}
use mimi_agent.Base.Dict.{Dict, lookup}
use mimi_agent.Base.Exec.{Error, Result, ok, err, Exec, pure, raise, lift, ◌>>=◌, ◌>>◌}
use mimi_agent.Str.{is_nonempty, join, decimal}
use mimi_agent.Scheduler.Number.{ℤ}
use mimi_agent.System.{History, System, getenv, make_directory}
use mimi_agent.System.JsonValue.{Value, Fields, text, object, find_field}
use mimi_agent.Config.Validator.{RoleConfig, AppConfig, is_text, text_of}
use mimi_agent.Db.Tables.{Json}
use mimi_agent.Db.Repository.{
  Host, World, create_session, update_session_status, create_task, finish_task,
}
use mimi_agent.Runner.Gate.{Call, Services, AuthProxyClient, runtime_error}
use mimi_agent.Kubernetes.ApiClient.{given}
use mimi_agent.Digest.Texts.{or_null, show_int}
use mimi_agent.Digest.Invocation.{RunOptions}
use mimi_agent.Digest.Verify.{is_zero}
use mimi_agent.Digest.Act.{Surroundings, Act, in_store, in_system}
use mimi_agent.Digest.Start.{default_run_options}
use mimi_agent.Digest.Claude.{
  ClaudeDigestOptions, ClaudeDigestResult, default_digest_options, run_claude_digest,
}
use mimi_agent.Digest.Slack.{SlackNotifyClient}
use mimi_agent.Digest.Invest.{InvestDigestResult, count_json, int_json, run_invest_digest}

abbrev pub fallback_model : String
fallback_model = "claude-sonnet-5"

abbrev pub default_or_fallback : Option String → String
default_or_fallback model = if is_text model then text_of model else fallback_model

-- The role's model, else that of the policy, else the fallback; an empty one counts as none.
unfoldable pub resolve_model : Option RoleConfig → Option String → String
resolve_model none default_model = default_or_fallback default_model
resolve_model (some role) default_model = elim role.model [
  | none ↦ default_or_fallback default_model
  | some model ↦ if is_text model then text_of model else default_or_fallback default_model
]

abbrev pub required_env : List String
required_env =
    "X_MCP_URL" ∷ "X_MCP_SESSION_TOKEN" ∷ "CLAUDE_PROXY_URL" ∷ "CLAUDE_PROXY_SESSION_TOKEN"
    ∷ "GIT_PROXY_URL" ∷ "GIT_PROXY_SESSION_TOKEN" ∷ []

abbrev pub invest_required_env : List String
invest_required_env =
    "X_MCP_URL" ∷ "X_MCP_SESSION_TOKEN" ∷ "CLAUDE_PROXY_URL" ∷ "CLAUDE_PROXY_SESSION_TOKEN"
    ∷ "SLACK_NOTIFY_URL" ∷ "SLACK_NOTIFY_SESSION_TOKEN" ∷ []

abbrev pub subdirectories : List String
subdirectories =
    "workspace/input" ∷ "workspace/output" ∷ "workspace/scratch" ∷ "logs" ∷ "config" ∷ []

-- What an executor runs a digest with.
pub record Opened : Type 0 where
  pub session_id : String
  pub task_id : String
  pub workspace : String
  pub model : String

-- `job["role"]`
role_of : Option Value → Result String
role_of (some (text role)) = ok role
role_of role = err (record { kind = "KeyError"; message = "'role'" })

module _ (x : System) where
  unfoldable pub require_none : List String → Act (Unit {0})
  require_none [] = pure tt
  require_none (name ∷ names) =
      raise (runtime_error ("required env missing: " <> join ", " (name ∷ names)))

  unfoldable pub require_env : List String → Act (Unit {0})
  require_env names = require_none (keep (λ name. not (given (getenv x name))) names)

  unfoldable pub make_directories : String → List String → Exec History (Unit {0})
  make_directories base [] = pure tt
  make_directories base (sub ∷ subs) = do
    make_directory x (base <> ("/" <> sub))
    make_directories base subs

  unfoldable pub create_workspace : String → String → Exec History String
  create_workspace root session_id = do
    make_directories (root <> ("/.sessions/" <> session_id)) subdirectories
    pure (root <> ("/.sessions/" <> (session_id <> "/workspace")))

module _ (h : Host) (x : System) (c : AppConfig) (root : String) where
  unfoldable pub open_task : Fields → String → Act Opened
  open_task job role = do
    session_id ← in_store (create_session h "scheduler" role "" [])
    workspace ← in_system (create_workspace x root session_id)
    in_store (update_session_status h session_id "running")
    task_id ← in_store (create_task h session_id role (("job", x.dumps (object job)) ∷ []))
    pure (record {
      session_id = session_id;
      task_id = task_id;
      workspace = workspace;
      model = resolve_model (lookup role c.roles) c.default_model;
    })

  -- Both executors begin with this.
  unfoldable pub begin_job : List String → Fields → Act Opened
  unfolding role_of find_field
  begin_job names job = do
    require_env x names
    role ← lift (role_of (find_field "role" job))
    open_task job role

module _ (h : Host) where
  unfoldable pub close_task :
      Opened → String → String → Option Json → Option Error → Exec (World Call) (Unit {0})
  close_task opened task_status session_status output error = do
    finish_task h opened.task_id task_status output error
    update_session_status h opened.session_id session_status

  -- Both executors end with this: a digest that failed raises once it is recorded.
  unfoldable pub settle : Opened → ℤ → Json → Error → String → Act (Unit {0})
  settle opened exit_code output error message =
      if is_zero exit_code
      then in_store (close_task opened "succeeded" "stopped" (some output) none)
      else (do
        in_store (close_task opened "failed" "failed" none (some error))
        raise (runtime_error message))

  abbrev digest_error : Error
  digest_error = record {
    kind = "ClaudeDigestError";
    message = "digest run or verification failed";
  }

  abbrev invest_error : Error
  invest_error = record {
    kind = "InvestDigestError";
    message = "digest run or slack notify failed";
  }

  -- Nothing is settled where the rounds of a wait are used up.
  unfoldable pub after_claude : Opened → Option ClaudeDigestResult → Act (Option (Unit {0}))
  after_claude opened none = pure none
  after_claude opened (some result) = do
    settle opened result.exit_code
        (("path", or_null result.verified_path) ∷ ("commit_sha", or_null result.commit_sha) ∷ [])
        digest_error "claude-digest run failed or verification failed"
    pure (some tt)

  unfoldable pub after_invest : Opened → Option InvestDigestResult → Act (Option (Unit {0}))
  after_invest opened none = pure none
  after_invest opened (some result) = do
    settle opened result.exit_code
        (("chunks", int_json result.chunks) ∷ ("chars", count_json result.chars) ∷ []) invest_error
        "invest-digest run failed or slack notify failed"
    pure (some tt)

abbrev pub run_options : String → RunOptions
run_options model = record default_run_options { model = model }

abbrev pub digest_options : String → ClaudeDigestOptions
digest_options model = record default_digest_options { run = run_options model }

module _ (h : Host) (x : System) (c : AppConfig) (root : String) where
  unfoldable pub run_ai_it_x_daily_digest : Fields → Act (Option (Unit {0}))
  run_ai_it_x_daily_digest job = do
    opened ← begin_job h x c root required_env job
    result ←
        run_claude_digest h x (digest_options opened.model) root opened.workspace opened.session_id
    after_claude h opened result

  unfoldable pub run_invest_x_daily_digest :
      Services → AuthProxyClient → Option SlackNotifyClient → Fields → Act (Option (Unit {0}))
  run_invest_x_daily_digest services auth slack job = do
    opened ← begin_job h x c root invest_required_env job
    result ←
        run_invest_digest h services x auth slack root opened.workspace opened.session_id
          opened.task_id (run_options opened.model)
    after_invest h opened result
