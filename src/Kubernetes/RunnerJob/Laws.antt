-- ===== src/Kubernetes/RunnerJob/Laws.antt =====
-- What a Job's environment holds.
use mathlib.Core.List.{[], ◌∷◌}
use mimi_agent.Base.{◌≡◌, String, false, none, List, arith, contains, string_eq}
use mimi_agent.Base.Dict.{lookup}
use mimi_agent.System.{System, getenv}
use mimi_agent.Kubernetes.RunnerJob.{RunnerTask, nonempty_only, allowed_env}

-- The names that are forwarded.
abbrev pub forwarded : List String
forwarded =
    "SESSION_ID" ∷ "ROLE" ∷ "WORKSPACE_DIR" ∷ "PYTHONPATH" ∷ "CLAUDE_PROXY_URL" ∷ "AUTH_PROXY_URL"
    ∷ "HOME" ∷ "CLAUDE_PROXY_SESSION_TOKEN" ∷ "AUTH_PROXY_SESSION_TOKEN" ∷ []

module _ (x : System) where
  -- Whatever the scheduler's own environment holds, a Job gets at most the nine variables of the list, and
  -- each session token exactly if it is set and not empty.
  pub lookup-allowed_env :
      (task : RunnerTask) (name : String)
      → (contains forwarded name ≡ false → lookup name (allowed_env x task) ≡ none)
        × (lookup "CLAUDE_PROXY_SESSION_TOKEN" (allowed_env x task)
            ≡ nonempty_only (getenv x "CLAUDE_PROXY_SESSION_TOKEN"))
        × (lookup "AUTH_PROXY_SESSION_TOKEN" (allowed_env x task)
            ≡ nonempty_only (getenv x "AUTH_PROXY_SESSION_TOKEN"))
  unfolding allowed_env lookup
  lookup-allowed_env task name =
      (λ outside. ground arith, unfold string_eq in ground arith, unfold string_eq in ground arith)
