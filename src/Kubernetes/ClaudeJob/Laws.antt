-- ===== src/Kubernetes/ClaudeJob/Laws.antt =====
-- What a run of the claude command line is given, and what it returns.
use mathlib.Core.List.{[], ◌∷◌}
use mimi_agent.Base.{
  ℕ, ◌+◌, ◌<◌, ◌≡◌, ◌≢◌, ◌⊎◌, refl, String, Bool, true, false, Option, none, some, List, inl, inr,
  Bool-cases, arith, contains, string_eq,
}
use mimi_agent.Base.Dict.{lookup, lookup-insert}
use mimi_agent.Base.Exec.{Error, Result, ok, err, recover, pure, raise, try_else, >>=-eq-ok}
use mimi_agent.Scheduler.Number.{pos}
use mimi_agent.System.{System, IsMonotonic, getenv}
use mimi_agent.System.JsonValue.{Value}
use mimi_agent.Kubernetes.Shell.Reading.{shell_words}
use mimi_agent.Kubernetes.Shell.RoundTrip.{shell_words-quote_all}
use mimi_agent.Kubernetes.ApiClient.{Client, Api, is_runtime_error, given, wait_for_completion}
use mimi_agent.Kubernetes.ApiClient.Waiting.{
  Succeeded, wait_for_completion_sound, wait_for_completion_ends,
}
use mimi_agent.Kubernetes.ClaudeJob.{
  with_stderr, ClaudeInvocation, KubernetesClaudeLauncherOptions, Finished, static_args,
  with_egress, build_env, claude_job_name, create_and_wait, failed_run, read_outputs, run_in, run,
}

-- The shell that runs the script of a Job reads the static arguments in it back, each as one word, as the
-- invocation has them, whatever characters they hold.
pub shell_words-static_args :
    (invocation : ClaudeInvocation)
    → shell_words (static_args invocation) ≡ some invocation.extra_args
unfolding static_args
shell_words-static_args invocation = shell_words-quote_all invocation.extra_args

-- The variables that a launcher sets itself.
abbrev pub launcher_names : List String
launcher_names =
    "CLAUDE_PROMPT" ∷ "CLAUDE_ALLOWED_TOOLS" ∷ "HTTPS_PROXY" ∷ "HTTP_PROXY" ∷ "NO_PROXY" ∷ []

module _ (x : System) where
  -- The container finds the prompt and the allowed tools in its environment, unchanged, and every variable
  -- but the five of the launcher as the invocation has it.
  pub lookup-build_env :
      (invocation : ClaudeInvocation) (name : String)
      → (lookup "CLAUDE_PROMPT" (build_env x invocation) ≡ some invocation.prompt)
        × (lookup "CLAUDE_ALLOWED_TOOLS" (build_env x invocation) ≡ some invocation.allowed_tools)
        × (contains launcher_names name ≡ false
            → lookup name (build_env x invocation) ≡ lookup name invocation.env)
  unfolding build_env with_egress
  lookup-build_env invocation name = elim (Bool-cases (given (getenv x "RUNNER_EGRESS_PROXY"))) [
    | inl proxied ↦ rw proxied (
      simp lookup-insert (unfold string_eq in refl),
      simp lookup-insert (unfold string_eq in refl),
      λ other. simp lookup-insert (ground arith),
    )
    | inr direct ↦ rw direct (
      simp lookup-insert (unfold string_eq in refl),
      simp lookup-insert (unfold string_eq in refl),
      λ other. simp lookup-insert (ground arith),
    )
  ]

module _ (x : System) (options : KubernetesClaudeLauncherOptions) where
  read_outputs-none :
      (workspace : String) (done : Bool) (c t : Client)
      → read_outputs x options workspace done c ≡ (ok none, t)
      → done ≡ false
  unfolding read_outputs pure
  read_outputs-none workspace false c t h = refl
  read_outputs-none workspace true c t h =
      let (stdout, read, h1) = >>=-eq-ok _ _ c h in
      let (stderr, read2, h2) = >>=-eq-ok _ _ _ h1 in cc h2

  read_outputs-some :
      (workspace : String) (done : Bool) (f : Finished) (c t : Client)
      → read_outputs x options workspace done c ≡ (ok (some f), t)
      → (done ≡ true) × (f.exit_code ≡ pos 0)
  unfolding read_outputs pure
  read_outputs-some workspace false f c t h = cc h
  read_outputs-some workspace true f c t h =
      let (stdout, read, h1) = >>=-eq-ok _ _ c h in
      let (stderr, read2, h2) = >>=-eq-ok _ _ _ h1 in (refl, cc h2)

  failed_run_lem :
      (workspace : String) (e : Error) (r : Option Finished) (c t : Client)
      → failed_run x options workspace e c ≡ (ok r, t)
      → (f : Finished) × (r ≡ some f) × (f.exit_code ≡ pos 1)
  unfolding failed_run pure raise
  failed_run_lem workspace e r c t h = elim (Bool-cases (is_runtime_error e)) [
    | inl caught ↦
        let (stderr, read, h1) = >>=-eq-ok _ _ c (rw caught at h) in
        (
          record { exit_code = pos 1; stdout = ""; stderr = with_stderr e.message stderr },
          cc h1,
          refl,
        )
    | inr other ↦ cc (rw other at h)
  ]

  -- How the waiting ended: with the outputs, or with the report of a failure.
  data Outcome (workspace : String) (wait : Api Bool) (c : Client) (r : Option Finished)
      : Type 0 where
    waited :
        (done : Bool) (w t : Client)
        → wait c ≡ (ok done, w)
        → read_outputs x options workspace done w ≡ (ok r, t)
        → Outcome workspace wait c r
    reported : (f : Finished) → r ≡ some f → f.exit_code ≡ pos 1 → Outcome workspace wait c r

  wait_cases :
      (workspace : String) (wait : Api Bool) (answer : Result Bool) (c w t : Client)
      (r : Option Finished)
      → wait c ≡ (answer, w)
      → recover answer (read_outputs x options workspace) (failed_run x options workspace) w
        ≡ (ok r, t)
      → Outcome workspace wait c r
  wait_cases workspace wait (ok done) c w t r e h = waited done w t e h
  wait_cases workspace wait (err error) c w t r e h =
      let (f, some_f, code) = failed_run_lem workspace error r w t h in reported f some_f code

  run_lem :
      (workspace session_id role : String) (invocation : ClaudeInvocation) (timeout : ℕ)
      (r : Option Finished) (c t : Client)
      → run x options workspace session_id role invocation timeout c ≡ (ok r, t)
      → (ns : String) × (manifest : Value) × (created : Client) × Outcome workspace
          (create_and_wait x options ns session_id timeout manifest)
          created
          r
  unfolding run run_in try_else
  run_lem workspace session_id role invocation timeout r c t h =
      let (ns, named, h1) = >>=-eq-ok _ _ c h in
      (ns, _, _, wait_cases workspace _ _ _ _ t r refl h1)

  waits :
      (ns session_id : String) (timeout : ℕ) (manifest : Value) (done : Bool) (c w : Client)
      → create_and_wait x options ns session_id timeout manifest c ≡ (ok done, w)
      → (created : Client) × (wait_for_completion x options.client ns
            (claude_job_name x options session_id)
            (some (timeout + options.poll_timeout_buffer_seconds))
            created
          ≡ (ok done, w))
  unfolding create_and_wait
  waits ns session_id timeout manifest done c w h =
      let (answer, asked, h1) = >>=-eq-ok _ _ c h in (_, h1)

  -- On a clock that never goes back and that a sleep moves on, with a poll interval of at least a second, a
  -- run of the command line as a Job returns an exit code with its outputs or raises: it does not wait
  -- for ever.
  pub run_ends :
      IsMonotonic x
      → 0 < options.client.poll_interval_seconds
      → (workspace session_id role : String) (invocation : ClaudeInvocation) (timeout : ℕ)
      → (c t : Client) → run x options workspace session_id role invocation timeout c ≢ (ok none, t)
  run_ends mono positive workspace session_id role invocation timeout c t h =
      let (ns, manifest, created, outcome) =
        run_lem workspace session_id role invocation timeout none c t h in
      elim outcome [
        | waited done w t2 e outputs ↦
            let (start, e2) = waits ns session_id timeout manifest done created w e in
            wait_for_completion_ends x options.client mono ns (claude_job_name x options session_id)
              (some (timeout + options.poll_timeout_buffer_seconds)) start w positive
              (cc (e2, read_outputs-none workspace done w t2 outputs))
        | reported f some_f code ↦ cc some_f
      ]

  -- A run of the command line as a Job that returns has the exit code 1, or it has the exit code 0 and the
  -- last answer of the wait reported the session's Job as succeeded.
  pub run_sound :
      (workspace session_id role : String) (invocation : ClaudeInvocation) (timeout : ℕ)
      (f : Finished) (c t : Client)
      → run x options workspace session_id role invocation timeout c ≡ (ok (some f), t)
      → (f.exit_code ≡ pos 1)
        ⊎ ((f.exit_code ≡ pos 0)
            × ((ns : String) × (w : Client) × Succeeded x options.client ns
                  (claude_job_name x options session_id)
                  w))
  run_sound workspace session_id role invocation timeout f c t h =
      let (ns, manifest, created, outcome) =
        run_lem workspace session_id role invocation timeout (some f) c t h in
      elim outcome [
        | waited done w t2 e outputs ↦
            let (start, e2) = waits ns session_id timeout manifest done created w e in
            let (finished, code) = read_outputs-some workspace done f w t2 outputs in
            inr (
              code,
              (
                ns,
                w,
                wait_for_completion_sound x options.client ns (claude_job_name x options session_id)
                    (some (timeout + options.poll_timeout_buffer_seconds)) start w
                    (cc (e2, finished)),
              ),
            )
        | reported g some_g code ↦ inl (cc (some_g, code))
      ]
