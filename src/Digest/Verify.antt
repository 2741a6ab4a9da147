-- ===== src/Digest/Verify.antt =====
-- runner/claude_digest.py, the check that a digest is published: the notes are cloned through the relay.
pub mod Laws
use mathlib.Core.List.{[], ◌∷◌}
use mimi_agent.Base.{
  ℕ, String, ◌<>◌, Bool, true, false, not, ◌||◌, Option, none, some, List, ◌++◌, string_eq,
  if◌then◌else◌,
}
use mimi_agent.Base.Dict.{Dict}
use mimi_agent.Base.Exec.{Error, Result, ok, err, Exec, pure, raise, lift, ◌>>=◌, ◌>>◌, try_else}
use mimi_agent.Str.{strip}
use mimi_agent.Scheduler.Number.{ℤ, pos}
use mimi_agent.System.{
  History, System, Command, Completed, getenv, read_text, path_exists, run_command, make_tempdir,
}
use mimi_agent.Kubernetes.ApiClient.{given, or_blank}
use mimi_agent.Kubernetes.RunnerJob.{or_default}
use mimi_agent.Digest.Texts.{is_ascii, without_slash, replace_text}
use mimi_agent.Digest.Invocation.{update, build_git_relay_env}

abbrev pub is_zero : ℤ → Bool
is_zero (pos ℕ.zero) = true
is_zero other = false

-- What a check of the clone found: `(ok, commit_sha)`.
abbrev pub Check : Type 0
Check = Bool × Option String

module _ (x : System) where
  rev_parse : String → Command
  rev_parse repo_dir = record {
    argv = "git" ∷ "rev-parse" ∷ "HEAD" ∷ [];
    cwd = some repo_dir;
    env = none;
    timeout = 30;
  }

  -- Whatever goes wrong with git, there is no commit, and the check goes on.
  unfoldable pub commit_of : String → Exec History (Option String)
  unfolding rev_parse
  commit_of repo_dir =
      try_else (run_command x (rev_parse repo_dir))
        (λ completed.
          pure (if is_zero completed.returncode then some (strip completed.stdout) else none))
        (λ e. pure none)

  unfoldable pub check_content : String → String → Exec History Check
  check_content repo_dir content =
      if is_ascii content
      then pure (false, none)
      else (do commit_sha ← commit_of repo_dir; pure (true, commit_sha))

  unfoldable pub read_and_check : String → String → Exec History Check
  read_and_check repo_dir path = do content ← read_text x path; check_content repo_dir content

  unfoldable pub verify_digest_in_repo : String → String → Exec History Check
  verify_digest_in_repo repo_dir relative_path = do
    present ← path_exists x (repo_dir <> ("/" <> relative_path))
    if present
        then read_and_check repo_dir (repo_dir <> ("/" <> relative_path))
        else pure (false, none)

  -- The relay as the host reaches it.
  unfoldable pub host_proxy_url : String
  unfolding replace_text
  host_proxy_url =
      or_default (getenv x "GIT_PROXY_URL_HOST")
        (replace_text "host.docker.internal" "127.0.0.1" (or_blank (getenv x "GIT_PROXY_URL")))

  unfoldable pub clone_command : String → String → Command
  unfolding update build_git_relay_env host_proxy_url
  clone_command notes_repo clone_dir = record {
    argv =
        "git"
        ∷ "clone"
        ∷ "--depth"
        ∷ "1"
        ∷ (without_slash host_proxy_url <> ("/git/" <> (notes_repo <> ".git")))
        ∷ clone_dir
        ∷ [];
    cwd = none;
    env = some (
        update x.environ
          (build_git_relay_env host_proxy_url (or_blank (getenv x "GIT_PROXY_SESSION_TOKEN"))));
    timeout = 120;
  }

  unfoldable pub clone_and_verify : String → String → Exec History Check
  clone_and_verify notes_repo relative_path = do
    tmpdir ← make_tempdir x
    completed ← run_command x (clone_command notes_repo (tmpdir <> "/notes"))
    if is_zero completed.returncode
        then verify_digest_in_repo (tmpdir <> "/notes") relative_path
        else pure (false, none)

  unfoldable pub verify_published : String → String → Exec History Check
  verify_published notes_repo relative_path =
      if not (given (getenv x "GIT_PROXY_URL")) || not (given (getenv x "GIT_PROXY_SESSION_TOKEN"))
      then pure (false, none)
      else clone_and_verify notes_repo relative_path
