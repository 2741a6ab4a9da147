-- ===== src/Digest/Executors/Tests.antt =====
-- Jobs that go well, and the theorems at them.
use mathlib.Core.List.{[]}
use mimi_agent.Base.{◌≡◌, refl, none, some, nat_eq, string_eq, option_eq}
use mimi_agent.Base.Dict.{lookup, insert}
use mimi_agent.Base.Exec.{ok, pure, raise, lift, ◌>>=◌, try_else, modify}
use mimi_agent.Str.{is_space, lstrip_by, rstrip_by, strip, prefix}
use mimi_agent.System.{
  getenv, open_url, read_text, write_text, path_exists, run_command, make_tempdir, make_directory,
}
use mimi_agent.System.JsonValue.{Fields, text, done, field, find_field, get, int_value}
use mimi_agent.Config.Validator.{AppConfig}
use mimi_agent.Security.PolicyEngine.{allowed}
use mimi_agent.Db.Tables.{has_key, update_where}
use mimi_agent.Db.Repository.{
  new_id, iso_now, execute, insert_event, insert_document, record_tool_event, record_document,
  insert_session, create_session, set_sessions, update_session_status, insert_task, create_task,
  set_tasks, finish_task,
}
use mimi_agent.Runner.Gate.{
  decision_of, ask_proxy, authorize_remote, authorize, run_pre_tool_use, run_post_tool_use,
}
use mimi_agent.Digest.McpSession.{issue_payload, session_of, issue_session}
use mimi_agent.Digest.Invocation.{
  update, with_git_relay, invocation_env, write_mcp_config, build_claude_invocation,
}
use mimi_agent.Digest.Docker.{resolve_pids, build_docker_command, run_in_docker, execute_claude}
use mimi_agent.Digest.Verify.{
  check_content, read_and_check, commit_of, verify_digest_in_repo, clone_and_verify,
  verify_published,
}
use mimi_agent.Digest.Start.{connect}
use mimi_agent.Digest.Act.{Surroundings, in_store, in_system, today}
use mimi_agent.Digest.Slack.{chunks_of, notify_body, notify}
use mimi_agent.Digest.Claude.{
  digest_path, check_run, record_digest, finish_digest, after_run, execute_digest,
  run_claude_digest,
}
use mimi_agent.Digest.Invest.{
  read_digest, digest_of_run, delivered, deliver, deliver_if, publish, record_invest, finish_invest,
  after_invest_run, run_invest_digest,
}
use mimi_agent.Digest.Tests.{host, machine, start, gate, auth}
use mimi_agent.Digest.Executors.{
  resolve_model, require_none, require_env, make_directories, create_workspace, open_task,
  begin_job, close_task, settle, after_claude, after_invest, run_ai_it_x_daily_digest,
  run_invest_x_daily_digest,
}
use mimi_agent.Digest.Executors.Laws.{
  Digested, run_ai_it_x_daily_digest_sound, Posted, run_invest_x_daily_digest_sound,
}

abbrev config : AppConfig
config = record {
  roles = [];
  mcp_servers = [];
  role_tool_policy = [];
  jobs = [];
  query_sets = [];
  pre_tool_use_failure = none;
  post_tool_use_failure = none;
  agent_runner_has_claude_credentials = none;
  runner_receives_provider_token = none;
  allowed_runner_env = [];
  denied_runner_env = [];
  x_deny_tools = [];
  document_repositories = [];
  default_model = some "m";
  known_models = [];
}

policy_model : resolve_model (lookup "writer" config.roles) config.default_model ≡ "m"
unfolding resolve_model lookup
policy_model = refl

abbrev job : Fields
job = field "role" (text "writer") done

abbrev digest_done : Surroundings
digest_done = (run_ai_it_x_daily_digest host machine config "/app" job start).1

digest_runs :
    run_ai_it_x_daily_digest host machine config "/app" job start ≡ (ok (some tt), digest_done)
unfolding run_ai_it_x_daily_digest begin_job require_env require_none open_task create_workspace
    make_directories make_directory create_session insert_session create_task insert_task
    update_session_status set_sessions finish_task set_tasks modify update_where resolve_model
    close_task settle after_claude run_claude_digest machine connect in_system in_store
    issue_session open_url issue_payload session_of today iso_now execute_digest execute_claude
    run_in_docker build_docker_command resolve_pids build_claude_invocation invocation_env
    with_git_relay update write_mcp_config write_text run_command after_run finish_digest check_run
    verify_published clone_and_verify make_tempdir verify_digest_in_repo path_exists read_and_check
    read_text check_content commit_of strip lstrip_by rstrip_by is_space record_digest
    record_document new_id insert_document execute lookup getenv insert prefix find_field get
    string_eq nat_eq option_eq has_key digest_path pure raise lift ◌>>=◌ try_else
digest_runs = refl

run_ai_it_x_daily_digest_sound_example : Digested host machine config "/app" job start digest_done
run_ai_it_x_daily_digest_sound_example =
    run_ai_it_x_daily_digest_sound host machine config "/app" job start digest_done digest_runs

abbrev invest_done : Surroundings
invest_done = (run_invest_x_daily_digest host machine config "/app" gate auth none job start).1

invest_runs :
    run_invest_x_daily_digest host machine config "/app" gate auth none job start
    ≡ (ok (some tt), invest_done)
unfolding run_invest_x_daily_digest begin_job require_env require_none open_task create_workspace
    make_directories make_directory create_session insert_session create_task insert_task
    update_session_status set_sessions finish_task set_tasks modify update_where resolve_model
    close_task settle after_invest run_invest_digest machine connect in_system in_store
    issue_session open_url issue_payload session_of today iso_now execute_claude run_in_docker
    build_docker_command resolve_pids build_claude_invocation invocation_env with_git_relay
    write_mcp_config write_text run_command after_invest_run finish_invest digest_of_run read_digest
    path_exists read_text strip lstrip_by rstrip_by is_space publish run_pre_tool_use authorize
    authorize_remote ask_proxy decision_of run_post_tool_use record_tool_event insert_event
    deliver_if deliver delivered notify notify_body chunks_of allowed record_invest record_document
    new_id insert_document execute lookup getenv prefix find_field get int_value string_eq nat_eq
    option_eq has_key pure raise lift ◌>>=◌ try_else
invest_runs = refl

run_invest_x_daily_digest_sound_example :
    Posted host machine config "/app" gate auth none job start invest_done
run_invest_x_daily_digest_sound_example =
    run_invest_x_daily_digest_sound host machine config "/app" gate auth none job start invest_done
      invest_runs
