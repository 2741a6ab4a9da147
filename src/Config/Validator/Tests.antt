-- ===== src/Config/Validator/Tests.antt =====
-- A configuration with one mistake, and the theorem at it.
use mathlib.Core.List.{[], ◌∷◌}
use mimi_agent.Base.{◌≡◌, refl, Bool, false, none, some, all, string_eq, option_eq}
use mimi_agent.Config.Validator.{
  AppConfig, ok, required_env, forbidden_env, forbidden_tools, protected_paths, require, warn_if,
  for_each, require_in, check_role, check_job, check_repo, check_model, validate_config,
}
use mimi_agent.Config.Validator.Laws.{conditions, ok-validate_config}

abbrev config : AppConfig
config = record {
  roles = ("writer", record { mcp_servers = "x" ∷ []; model = none }) ∷ [];
  mcp_servers = "x" ∷ [];
  role_tool_policy = "writer" ∷ [];
  jobs = record { name = some "daily"; role = some "reader"; query_set = none } ∷ [];
  query_sets = [];
  pre_tool_use_failure = some "block";
  post_tool_use_failure = some "continue";
  agent_runner_has_claude_credentials = some false;
  runner_receives_provider_token = some false;
  allowed_runner_env = required_env;
  denied_runner_env = forbidden_env;
  x_deny_tools = forbidden_tools;
  document_repositories =
      ("notes", record { allowed_paths = "daily/**" ∷ []; denied_paths = protected_paths }) ∷ [];
  default_model = some "m";
  known_models = "m" ∷ [];
}

one_error :
    (validate_config config).errors ≡ "schedule job daily references unknown role: reader" ∷ []
unfolding validate_config require warn_if for_each require_in check_role check_job check_repo
    check_model string_eq option_eq
one_error = refl

ok-validate_config_example : ok (validate_config config) ≡ all (λ (b : Bool). b) (conditions config)
ok-validate_config_example = ok-validate_config config
