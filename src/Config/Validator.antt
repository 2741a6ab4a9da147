-- ===== src/Config/Validator.antt =====
-- config/validator.py. The parsed YAML is taken in the shape that the files document; a missing entry,
-- and a value that is of another type than a check asks for, is `none` or empty.
pub mod Laws
mod Tests
use mathlib.Core.List.{[], ◌∷◌}
use mimi_agent.Base.{
  String, ◌<>◌, Bool, true, false, not, ◌&&◌, ◌||◌, Option, none, some, List, ◌++◌, contains, ◌==◌,
  string_eq, option_eq, if◌then◌else◌,
}
use mimi_agent.Base.Dict.{Dict, lookup}
use mimi_agent.Str.{is_nonempty}

pub record ValidationResult : Type 0 where
  pub errors : List String
  pub warnings : List String

-- The property `ok`.
abbrev pub ok : ValidationResult → Bool
ok r = elim r.errors [ [] ↦ true | e ∷ es ↦ false ]

-- A role's servers, and its model: none if it has no such entry, and then what the entry holds if that
-- is a text.
pub record RoleConfig : Type 0 where
  pub mcp_servers : List String
  pub model : Option (Option String)

pub record JobConfig : Type 0 where
  pub name : Option String
  pub role : Option String
  pub query_set : Option String

pub record RepoConfig : Type 0 where
  pub allowed_paths : List String
  pub denied_paths : List String

pub record AppConfig : Type 0 where
  pub roles : Dict String RoleConfig
  pub mcp_servers : List String
  pub role_tool_policy : List String
  pub jobs : List JobConfig
  pub query_sets : List String
  pub pre_tool_use_failure : Option String
  pub post_tool_use_failure : Option String
  pub agent_runner_has_claude_credentials : Option Bool
  pub runner_receives_provider_token : Option Bool
  pub allowed_runner_env : List String
  pub denied_runner_env : List String
  pub x_deny_tools : List String
  pub document_repositories : Dict String RepoConfig
  pub default_model : Option String
  pub known_models : List String

abbrev pub Step : Type 0
Step = ValidationResult → ValidationResult

unfoldable pub require : Bool → String → Step
require condition message r =
    if condition then r else record r { errors = r.errors ++ (message ∷ []) }

unfoldable pub warn_if : Bool → String → Step
warn_if condition message r =
    if condition then record r { warnings = r.warnings ++ (message ∷ []) } else r

-- A `for` loop.
unfoldable pub for_each : {A : Type 0} → (A → Step) → List A → Step
for_each step [] r = r
for_each step (a ∷ as') r = for_each step as' (step a r)

-- A text that is there and not empty.
abbrev pub is_text : Option String → Bool
is_text none = false
is_text (some s) = is_nonempty s

abbrev pub text_of : Option String → String
text_of none = "None"
text_of (some s) = s

abbrev pub is_false : Option Bool → Bool
is_false none = false
is_false (some b) = not b

-- `x in xs`, of a text that may be missing
abbrev pub known : List String → Option String → Bool
known xs none = false
known xs (some s) = contains xs s

abbrev pub role_names : Dict String RoleConfig → List String
role_names [] = []
role_names ((name, role) ∷ rest) = name ∷ role_names rest

abbrev pub required_env : List String
required_env = "CLAUDE_PROXY_URL" ∷ "CLAUDE_PROXY_SESSION_TOKEN" ∷ "SESSION_ID" ∷ "ROLE" ∷ []

abbrev pub forbidden_env : List String
forbidden_env =
    "ANTHROPIC_API_KEY" ∷ "CLAUDE_CODE_OAUTH_TOKEN" ∷ "CLAUDE_SUBSCRIPTION_TOKEN"
    ∷ "CLAUDE_CONFIG_DIR" ∷ []

abbrev pub forbidden_tools : List String
forbidden_tools = "x.create_post" ∷ "x.like_post" ∷ "x.repost" ∷ "x.follow_user" ∷ "x.send_dm" ∷ []

abbrev pub protected_paths : List String
protected_paths = ".github/**" ∷ ".env" ∷ "secrets/**" ∷ []

-- The message is said with its first words.
unfoldable pub require_in : String → List String → String → Step
require_in message xs x = require (contains xs x) (message <> x)

unfoldable pub check_role : AppConfig → String × RoleConfig → Step
check_role c (name, role) r =
    warn_if (not (contains c.role_tool_policy name) && not (name == "orchestrator"))
      ("role " <> (name <> " has no role_tool_policy"))
      (for_each (require_in ("role " <> (name <> " references unknown mcp server: ")) c.mcp_servers)
        role.mcp_servers r)

abbrev pub job_name : JobConfig → String
job_name job = elim job.name [ none ↦ "<unnamed>" | some n ↦ n ]

unfoldable pub check_job : AppConfig → JobConfig → Step
check_job c job r =
    require (not (is_text job.query_set) || known c.query_sets job.query_set)
      ("schedule job "
        <> (job_name job <> (" references unknown query_set: " <> text_of job.query_set)))
      (require (known (role_names c.roles) job.role)
        ("schedule job " <> (job_name job <> (" references unknown role: " <> text_of job.role))) r)

unfoldable pub check_repo : String × RepoConfig → Step
check_repo (name, repo) r =
    for_each (require_in ("document repo " <> (name <> " denied_paths missing ")) repo.denied_paths)
      protected_paths
      (require (not (elim repo.allowed_paths [ [] ↦ true | p ∷ ps ↦ false ]))
        ("document repo " <> (name <> " must define allowed_paths")) r)

-- A role without a model is passed over.
unfoldable pub check_model : AppConfig → String × RoleConfig → Step
check_model c (name, role) r = elim role.model [
  | none ↦ r
  | some m ↦
      warn_if (is_text m && not (known c.known_models m))
        ("role " <> (name <> (" model " <> (text_of m <> " not in model_policy.known_models"))))
        (require (is_text m) ("role " <> (name <> " model must be a non-empty string")) r)
]

-- The steps, from the first to the last. Where the code runs over a set, the order is this text's.
abbrev pub validation_steps : AppConfig → List Step
validation_steps c =
    require (not (elim c.roles [ [] ↦ true | x ∷ xs ↦ false ])) "roles.yaml must define roles"
    ∷ require (not (elim c.mcp_servers [ [] ↦ true | x ∷ xs ↦ false ]))
        "policy.yaml must define mcp_servers"
    ∷ for_each (check_role c) c.roles
    ∷ for_each (check_job c) c.jobs
    ∷ require (c.pre_tool_use_failure == some "block") "PreToolUse must fail closed"
    ∷ require (c.post_tool_use_failure == some "continue") "PostToolUse must fail open"
    ∷ require (is_false c.agent_runner_has_claude_credentials)
        "agent-runner must not have Claude credentials"
    ∷ require (is_false c.runner_receives_provider_token) "runner must not receive provider token"
    ∷ for_each (require_in "claude_proxy.allowed_runner_env missing " c.allowed_runner_env)
        required_env
    ∷ for_each (require_in "claude_proxy.denied_runner_env missing " c.denied_runner_env)
        forbidden_env
    ∷ for_each (require_in "x_mcp_readonly must deny " c.x_deny_tools) forbidden_tools
    ∷ for_each check_repo c.document_repositories
    ∷ require (is_text c.default_model) "model_policy.default_model must be a non-empty string"
    ∷ warn_if (is_text c.default_model && not (known c.known_models c.default_model)) (
        "model_policy.default_model "
        <> (text_of c.default_model <> " not in model_policy.known_models"))
    ∷ for_each (check_model c) c.roles
    ∷ []

unfoldable pub validate_config : AppConfig → ValidationResult
validate_config c =
    for_each (λ (step : Step). step) (validation_steps c) (record { errors = []; warnings = [] })
