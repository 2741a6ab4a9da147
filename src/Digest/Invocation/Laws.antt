-- ===== src/Digest/Invocation/Laws.antt =====
-- What the environment of an invocation holds, and what of its errors is kept.
use Prim.Native.String.{[], ◌∷◌}
use mathlib.Core.Option.{some-injective}
use text.Mathlib.TextLemmas.{cons-append, nil-append}
use mimi_agent.Base.{
  ◌+◌, ◌≤◌, ◌≡◌, refl, ◌∙◌, String, ◌<>◌, Bool, true, false, not, ◌||◌, Option, none, some, List,
  arith, inl, inr, Bool-cases, ltb, contains, string_eq, ◌==◌,
}
use mimi_agent.Base.Dict.{Dict, lookup, insert, lookup-insert}
use mimi_agent.Base.Exec.{Result, ok}
use mimi_agent.Str.{is_nonempty, strip, prefix, count}
use mimi_agent.Str.Laws.{count-prefix-le}
use mimi_agent.System.{System, getenv}
use mimi_agent.Kubernetes.ApiClient.{given, or_blank}
use mimi_agent.Digest.Invocation.{
  RunOptions, max_error_metadata_chars, git_identity, update, build_git_relay_env, trim_error,
  error_excerpt, claude_env, with_git_relay, invocation_env,
}

-- The variables of an invocation, and those of the relay.
abbrev pub claude_names : List String
claude_names = List.◌∷◌ "SESSION_ID" (
    List.◌∷◌ "ROLE" (
      List.◌∷◌ "ANTHROPIC_BASE_URL" (
        List.◌∷◌ "ANTHROPIC_AUTH_TOKEN" (
          List.◌∷◌ "ANTHROPIC_CUSTOM_HEADERS" (
            List.◌∷◌ "ANTHROPIC_MODEL" (
              List.◌∷◌ "CLAUDE_CONFIG_DIR" (
                List.◌∷◌ "HOME"
                  (List.◌∷◌ "DISABLE_TELEMETRY" (List.◌∷◌ "DISABLE_ERROR_REPORTING" List.[])))))))))

abbrev pub git_names : List String
git_names = List.◌∷◌ "GIT_AUTHOR_NAME" (
    List.◌∷◌ "GIT_AUTHOR_EMAIL" (
      List.◌∷◌ "GIT_COMMITTER_NAME" (
        List.◌∷◌ "GIT_COMMITTER_EMAIL" (
          List.◌∷◌ "GIT_CONFIG_COUNT" (
            List.◌∷◌ "GIT_CONFIG_KEY_0" (
              List.◌∷◌ "GIT_CONFIG_VALUE_0" (
                List.◌∷◌ "GIT_CONFIG_KEY_1"
                  (List.◌∷◌ "GIT_CONFIG_VALUE_1" (List.◌∷◌ "GIT_TERMINAL_PROMPT" List.[])))))))))

-- A name that no entry has.
lookup-update :
    (name : String) (d entries : Dict String String)
    → lookup name entries ≡ none
    → lookup name (update d entries) ≡ lookup name d
unfolding update lookup
lookup-update name d List.[] h = refl
lookup-update name d (List.◌∷◌ (k, v) entries) h = elim (Bool-cases (name == k)) [
  | inl same ↦ cc (rw same at h)
  | inr other ↦
      lookup-update name (insert k v d) entries (rw other at h) ∙ rw (lookup-insert, other)
]

count-append : (s t : String) → count (s <> t) ≡ count s + count t
count-append [] t = rw nil-append (omega arith)
count-append (c ∷ s) t = rw cons-append (omega (arith, count-append s t))

trim_error_lem : (trimmed kept : String) → trim_error trimmed ≡ some kept → count kept ≤ 4015
unfolding trim_error
trim_error_lem trimmed kept h = elim (Bool-cases (not (is_nonempty trimmed))) [
  | inl blank ↦ cc (rw blank at h)
  | inr filled ↦ elim (Bool-cases (ltb max_error_metadata_chars (count trimmed))) [
    | inl long ↦
        let same = some-injective _ kept (rw (filled, long) at h) in
        rw (← same) (
          omega (
            arith,
            count-append (prefix 4000 trimmed) "... (truncated)",
            count-prefix-le 4000 trimmed,
          ))
    | inr short ↦
        let same = some-injective trimmed kept (rw (filled, short) at h) in
        rw (← same) (ground arith)
  ]
]

-- What is kept of an error is not longer than 4000 characters and the mark of the cut, which has 15.
pub count-error_excerpt-le :
    (stderr : Option String) (kept : String) → error_excerpt stderr ≡ some kept → count kept ≤ 4015
unfolding error_excerpt
count-error_excerpt-le stderr kept h = elim (Bool-cases (given stderr)) [
  | inl text ↦ trim_error_lem (strip (or_blank stderr)) kept (rw text at h)
  | inr nothing ↦ cc (rw nothing at h)
]

lookup-claude_env :
    (url token session_id role name : String) (options : RunOptions)
    → contains claude_names name ≡ false
    → lookup name (claude_env url token session_id role options) ≡ none
unfolding lookup
lookup-claude_env url token session_id role name options absent = ground arith

lookup-git :
    (url token name : String)
    → contains git_names name ≡ false
    → (lookup name git_identity ≡ none) × (lookup name (build_git_relay_env url token) ≡ none)
unfolding lookup build_git_relay_env
lookup-git url token name absent = (ground arith, ground arith)

ok_of : {A : Type 0} {a b : A} → ◌≡◌ {A = Result A} (ok a) (ok b) → a ≡ b
ok_of e = cc e

module _ (x : System) where
  with_git_relay_lem :
      (include : Bool) (env all : Dict String String) (name : String)
      → with_git_relay x include env ≡ ok all
      → lookup name env ≡ none
      → (include ≡ true → contains git_names name ≡ false)
      → lookup name all ≡ none
  unfolding with_git_relay
  with_git_relay_lem false env all name h absent no_git =
      let same : env ≡ all = cc h in rw (← same) absent
  with_git_relay_lem true env all name h absent no_git =
      elim (Bool-cases (
        not (given (getenv x "GIT_PROXY_URL"))
        || not (given (getenv x "GIT_PROXY_SESSION_TOKEN")))) [
          | inl unset ↦ cc (rw unset at h)
          | inr known ↦
              let url = or_blank (getenv x "GIT_PROXY_URL") in
              let token = or_blank (getenv x "GIT_PROXY_SESSION_TOKEN") in
              let same : update (update env git_identity) (build_git_relay_env url token) ≡ all =
                ok_of (rw known at h) in
              let (no_identity, no_relay) = lookup-git url token name (no_git refl) in
              rw (← same, lookup-update name _ _ no_relay, lookup-update name _ _ no_identity)
                absent
        ]

  -- The environment of an invocation has no variable but its ten and, if it may use the relay, the ten of
  -- git, whatever the scheduler's environment holds.
  pub lookup-invocation_env :
      (session_id role : String) (options : RunOptions) (include_git_relay : Bool)
      (env : Dict String String) (name : String)
      → invocation_env x session_id role options include_git_relay ≡ ok env
      → contains claude_names name ≡ false
      → (include_git_relay ≡ true → contains git_names name ≡ false)
      → lookup name env ≡ none
  unfolding invocation_env
  lookup-invocation_env session_id role options include_git_relay env name h absent no_git =
      elim (Bool-cases (
        not (given (getenv x "CLAUDE_PROXY_URL"))
        || not (given (getenv x "CLAUDE_PROXY_SESSION_TOKEN")))) [
          | inl unset ↦ cc (rw unset at h)
          | inr known ↦
              with_git_relay_lem include_git_relay _ env name (rw known at h)
                (lookup-claude_env _ _ session_id role name options absent) no_git
        ]
