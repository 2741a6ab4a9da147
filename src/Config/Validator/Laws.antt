-- ===== src/Config/Validator/Laws.antt =====
-- What a configuration that passes the checks satisfies.
use mathlib.Core.List.{[], ◌∷◌}
use mimi_agent.Base.{
  ◌<>◌, ◌≡◌, refl, ◌∙◌, String, Bool, true, false, not, ◌&&◌, ◌||◌, Option, none, some, List, ◌++◌,
  all, contains, arith, ◌==◌, string_eq, option_eq,
}
use mimi_agent.Config.Validator.{
  ValidationResult, ok, RoleConfig, JobConfig, RepoConfig, AppConfig, Step, require, warn_if,
  for_each, is_text, is_false, known, role_names, job_name, text_of, required_env, forbidden_env,
  forbidden_tools, protected_paths, require_in, check_role, check_job, check_repo, check_model,
  validation_steps, validate_config,
}

-- The step leaves the result free of errors exactly if it was and the condition holds.
abbrev Checks : Step → Bool → Type 0
Checks step b = (r : ValidationResult) → ok (step r) ≡ (ok r && b)

ok-more :
    (es warnings : List String) (m : String)
    → ok (record { errors = es ++ (m ∷ []); warnings = warnings }) ≡ false
ok-more [] warnings m = refl
ok-more (e ∷ es) warnings m = refl

Checks-require : (b : Bool) (m : String) → Checks (require b m) b
unfolding require
Checks-require true m r = ground arith
Checks-require false m r = ground (arith, ok-more r.errors r.warnings m)

Checks-warn_if : (b : Bool) (m : String) → Checks (warn_if b m) true
unfolding warn_if
Checks-warn_if true m r = ground arith
Checks-warn_if false m r = ground arith

Checks-for_each :
    {A : Type 0} (step : A → Step) (p : A → Bool) (xs : List A)
    → ((a : A) → Checks (step a) (p a))
    → Checks (for_each step xs) (all p xs)
unfolding for_each
Checks-for_each step p [] each r = ground arith
Checks-for_each step p (x ∷ xs) each r =
    ground (arith, Checks-for_each step p xs each (step x r), each x r)

Checks-require_in :
    (m : String) (xs : List String) (x : String) → Checks (require_in m xs x) (contains xs x)
unfolding require_in
Checks-require_in m xs x = Checks-require (contains xs x) _

-- Every server that the role names is known.
abbrev pub role_is_valid : AppConfig → String × RoleConfig → Bool
role_is_valid c (name, role) = all (contains c.mcp_servers) role.mcp_servers

-- The role is known, and so is the query set, if there is one.
abbrev pub job_is_valid : AppConfig → JobConfig → Bool
job_is_valid c job =
    known (role_names c.roles) job.role
    && (not (is_text job.query_set) || known c.query_sets job.query_set)

abbrev pub repo_is_valid : String × RepoConfig → Bool
repo_is_valid (name, repo) =
    not (elim repo.allowed_paths [ [] ↦ true | p ∷ ps ↦ false ])
    && all (contains repo.denied_paths) protected_paths

abbrev pub model_is_valid : String × RoleConfig → Bool
model_is_valid (name, role) = elim role.model [ none ↦ true | some m ↦ is_text m ]

and_assoc : (a b c : Bool) → ((a && b) && c) ≡ (a && (b && c))
and_assoc a b c = ground arith

-- A step after a step, and a warning after a step.
Checks-then :
    (step : Step) (b : Bool) (c : Bool) (m : String)
    → Checks step b
    → Checks (λ r. require c m (step r)) (b && c)
Checks-then step b c m first r = Checks-require c m (step r) ∙ ground (arith, first r)

Checks-then-warn :
    (step : Step) (b : Bool) (w : Bool) (m : String)
    → Checks step b
    → Checks (λ r. warn_if w m (step r)) b
Checks-then-warn step b w m first r = Checks-warn_if w m (step r) ∙ ground (arith, first r)

Checks-then-for_each :
    {A : Type 0} (step : Step) (b : Bool) (each : A → Step) (p : A → Bool) (xs : List A)
    → Checks step b
    → ((a : A) → Checks (each a) (p a))
    → Checks (λ r. for_each each xs (step r)) (b && all p xs)
Checks-then-for_each step b each p xs first ok_each r =
    Checks-for_each each p xs ok_each (step r) ∙ ground (arith, first r)

Checks-check_role :
    (c : AppConfig) (entry : String × RoleConfig)
    → Checks (check_role c entry) (role_is_valid c entry)
unfolding check_role
Checks-check_role c (name, role) =
    Checks-then-warn _ _ (not (contains c.role_tool_policy name) && not (name == "orchestrator"))
      ("role " <> (name <> " has no role_tool_policy"))
      (Checks-for_each _ (contains c.mcp_servers) role.mcp_servers
        (Checks-require_in ("role " <> (name <> " references unknown mcp server: ")) c.mcp_servers))

Checks-check_job : (c : AppConfig) (job : JobConfig) → Checks (check_job c job) (job_is_valid c job)
unfolding check_job
Checks-check_job c job =
    Checks-then _ _ (not (is_text job.query_set) || known c.query_sets job.query_set) _ (
      Checks-require (known (role_names c.roles) job.role)
        ("schedule job " <> (job_name job <> (" references unknown role: " <> text_of job.role))))

Checks-check_repo : (entry : String × RepoConfig) → Checks (check_repo entry) (repo_is_valid entry)
unfolding check_repo
Checks-check_repo (name, repo) =
    Checks-then-for_each _ _ _ (contains repo.denied_paths) protected_paths
      (Checks-require (not (elim repo.allowed_paths [ [] ↦ true | p ∷ ps ↦ false ]))
        ("document repo " <> (name <> " must define allowed_paths")))
      (Checks-require_in ("document repo " <> (name <> " denied_paths missing ")) repo.denied_paths)

Checks-check_model :
    (c : AppConfig) (entry : String × RoleConfig)
    → Checks (check_model c entry) (model_is_valid entry)
unfolding check_model
Checks-check_model c (name, role) = by_model role.model
  where
    by_model :
        (model : Option (Option String))
        → Checks
            (check_model c (name, record role { model = model }))
            (model_is_valid (name, record role { model = model }))
    by_model none = λ r. ground arith
    by_model (some m) =
        Checks-then-warn _ _ (is_text m && not (known c.known_models m))
          ("role " <> (name <> (" model " <> (text_of m <> " not in model_policy.known_models"))))
          (Checks-require (is_text m) ("role " <> (name <> " model must be a non-empty string")))

-- A step and its condition, in the order of the steps.
abbrev AllCheck : List Step → List Bool → Type 0
AllCheck [] [] = Unit
AllCheck (s ∷ ss) (b ∷ bs) = Checks s b × AllCheck ss bs
AllCheck _ _ = ⊥

AllCheck-lem :
    (ss : List Step) (bs : List Bool) (r : ValidationResult)
    → AllCheck ss bs
    → ok (for_each (λ (step : Step). step) ss r) ≡ (ok r && all (λ (b : Bool). b) bs)
unfolding for_each
AllCheck-lem [] [] r checks = ground arith
AllCheck-lem (s ∷ ss) [] r checks = absurd checks
AllCheck-lem [] (b ∷ bs) r checks = absurd checks
AllCheck-lem (s ∷ ss) (b ∷ bs) r (first, rest) =
    ground (arith, AllCheck-lem ss bs (s r) rest, first r)

-- What a configuration has to satisfy.
abbrev pub conditions : AppConfig → List Bool
conditions c =
    not (elim c.roles [ [] ↦ true | x ∷ xs ↦ false ])
    ∷ not (elim c.mcp_servers [ [] ↦ true | x ∷ xs ↦ false ])
    ∷ all (role_is_valid c) c.roles
    ∷ all (job_is_valid c) c.jobs
    ∷ (c.pre_tool_use_failure == some "block")
    ∷ (c.post_tool_use_failure == some "continue")
    ∷ is_false c.agent_runner_has_claude_credentials
    ∷ is_false c.runner_receives_provider_token
    ∷ all (contains c.allowed_runner_env) required_env
    ∷ all (contains c.denied_runner_env) forbidden_env
    ∷ all (contains c.x_deny_tools) forbidden_tools
    ∷ all repo_is_valid c.document_repositories
    ∷ is_text c.default_model
    ∷ true
    ∷ all model_is_valid c.roles
    ∷ []

-- A configuration passes without an error exactly when every condition holds: roles and servers are
-- defined and known where they are named, the hooks fail as the principles ask, the runner holds no
-- credentials, the environments, tools and paths that have to be denied or allowed are, and the
-- models that are named are texts. A warning never fails it.
pub ok-validate_config :
    (c : AppConfig) → ok (validate_config c) ≡ all (λ (b : Bool). b) (conditions c)
unfolding validate_config
ok-validate_config c =
    AllCheck-lem (validation_steps c) (conditions c) (record { errors = []; warnings = [] })
      (
        Checks-require _ _,
        (
          Checks-require _ _,
          (
            Checks-for_each (check_role c) (role_is_valid c) c.roles (Checks-check_role c),
            (
              Checks-for_each (check_job c) (job_is_valid c) c.jobs (Checks-check_job c),
              (
                Checks-require _ _,
                (
                  Checks-require _ _,
                  (
                    Checks-require _ _,
                    (
                      Checks-require _ _,
                      (
                        Checks-for_each _ (contains c.allowed_runner_env) required_env
                            (Checks-require_in _ c.allowed_runner_env),
                        (
                          Checks-for_each _ (contains c.denied_runner_env) forbidden_env
                              (Checks-require_in _ c.denied_runner_env),
                          (
                            Checks-for_each _ (contains c.x_deny_tools) forbidden_tools
                                (Checks-require_in _ c.x_deny_tools),
                            (
                              Checks-for_each check_repo repo_is_valid c.document_repositories
                                  Checks-check_repo,
                              (
                                Checks-require _ _,
                                (
                                  Checks-warn_if _ _,
                                  (
                                    Checks-for_each (check_model c) model_is_valid c.roles
                                        (Checks-check_model c),
                                    tt,
                                  ),
                                ),
                              ),
                            ),
                          ),
                        ),
                      ),
                    ),
                  ),
                ),
              ),
            ),
          ),
        ),
      )
