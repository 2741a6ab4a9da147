-- ===== src/Digest/Docker/Laws.antt =====
-- The variables that the container of the command line gets, under docker and as a Job.
use mathlib.Core.Path.{subst}
use mathlib.Core.List.{[], ◌∷◌}
use mimi_agent.Base.{
  ◌≡◌, refl, ◌∙◌, String, true, false, Option, none, List, arith, inl, inr, Bool-cases, contains,
  string_eq,
}
use mimi_agent.Base.Dict.{Dict, lookup, lookup-insert}
use mimi_agent.Base.Exec.{Result, ok, err, pure, lift, >>=-eq-ok}
use mimi_agent.System.{History, System, getenv}
use mimi_agent.Kubernetes.ApiClient.{given}
use mimi_agent.Kubernetes.ClaudeJob.{ClaudeInvocation, with_egress, build_env}
use mimi_agent.Kubernetes.ClaudeJob.Laws.{launcher_names, lookup-build_env}
use mimi_agent.Digest.Invocation.{invocation_env, build_claude_invocation}
use mimi_agent.Digest.Invocation.Laws.{claude_names, git_names, lookup-invocation_env}
use mimi_agent.Digest.Docker.{ClaudeTask, container_env}

abbrev pub egress_names : List String
egress_names = "HTTPS_PROXY" ∷ "HTTP_PROXY" ∷ "NO_PROXY" ∷ []

lookup-with_egress :
    (url : Option String) (env : Dict String String) (name : String)
    → contains egress_names name ≡ false
    → lookup name (with_egress url env) ≡ lookup name env
unfolding with_egress
lookup-with_egress url env name other = elim (Bool-cases (given url)) [
  | inl proxied ↦ rw proxied (simp lookup-insert (ground arith))
  | inr direct ↦ rw direct refl
]

module _ (x : System) (task : ClaudeTask) where
  lookup-egress :
      (env : Dict String String) (name : String)
      → contains egress_names name ≡ false
      → lookup name (container_env x task env) ≡ lookup name env
  unfolding container_env
  lookup-egress env name other = elim (Bool-cases (given (getenv x "RUNNER_NETWORK"))) [
    | inl internal ↦
        rw internal (lookup-with_egress (getenv x "RUNNER_EGRESS_PROXY") env name other)
    | inr local ↦ rw local refl
  ]

  -- What an invocation that was built has for its environment.
  abbrev EnvOf : Result ClaudeInvocation × History → Type 0
  EnvOf (ok inv, t) =
      invocation_env x task.session_id task.role task.options task.include_git_relay ≡ ok inv.env
  EnvOf (err e, t) = Unit {0}

  invocation_lem :
      (inv : ClaudeInvocation) (past t : History)
      → build_claude_invocation x task.workspace task.session_id task.role task.prompt task.options
          task.allowed_tools task.include_git_relay task.mcp_config past
        ≡ (ok inv, t)
      → EnvOf (ok inv, t)
  unfolding build_claude_invocation lift pure
  invocation_lem inv past t e =
      let (env, made, h1) = >>=-eq-ok _ _ past e in
      let (mcp_args, written, h2) = >>=-eq-ok _ _ _ h1 in subst EnvOf h2 made

  -- Of the variables that the container is started with, under docker or as a Job, each is one of the ten of
  -- the invocation, one of the ten of git if the run may use the relay, one of the three of the egress proxy,
  -- or, as a Job, the prompt or the list of allowed tools: the scheduler's other credentials are not among
  -- them, whatever its environment holds.
  pub lookup-container_env :
      (inv : ClaudeInvocation) (past t : History) (name : String)
      → build_claude_invocation x task.workspace task.session_id task.role task.prompt task.options
          task.allowed_tools task.include_git_relay task.mcp_config past
        ≡ (ok inv, t)
      → contains claude_names name ≡ false
      → (task.include_git_relay ≡ true → contains git_names name ≡ false)
      → contains egress_names name ≡ false
      → (lookup name (container_env x task inv.env) ≡ none)
        × (contains launcher_names name ≡ false → lookup name (build_env x inv) ≡ none)
  lookup-container_env inv past t name e absent no_git no_egress =
      let missing : lookup name inv.env ≡ none =
        lookup-invocation_env x task.session_id task.role task.options task.include_git_relay
          inv.env name (invocation_lem inv past t e) absent no_git in
      (
        lookup-egress inv.env name no_egress ∙ missing,
        λ no_launcher. (lookup-build_env x inv name).2 no_launcher ∙ missing,
      )
