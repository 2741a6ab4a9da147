-- ===== src/Digest/Verify/Laws.antt =====
-- What a positive check of the clone rests on.
use mathlib.Core.List.{◌∷◌}
use mimi_agent.Base.{◌≡◌, String, ◌<>◌, true, false, not, ◌||◌, Option, inl, inr, Bool-cases}
use mimi_agent.Base.Exec.{ok, pure, ◌>>=◌, >>=-eq-ok}
use mimi_agent.System.{
  History, System, Completed, getenv, tested_path, read_text, path_exists, run_command,
  make_tempdir,
}
use mimi_agent.Kubernetes.ApiClient.{given}
use mimi_agent.Digest.Texts.{is_ascii}
use mimi_agent.Digest.Verify.{
  is_zero, check_content, read_and_check, verify_digest_in_repo, clone_command, clone_and_verify,
  verify_published,
}

module _ (x : System) where
  -- A clone of the notes was made, and the file in it holds a text that is not all ASCII.
  pub record Published (notes_repo relative_path : String) : Type 0 where
    pub clone_dir : String
    pub before_clone : History
    pub cloned : Completed
    pub clone : x.run before_clone (clone_command x notes_repo clone_dir) ≡ ok cloned
    pub clone_succeeded : is_zero cloned.returncode ≡ true
    pub before_read : History
    pub content : String
    pub stands : x.file_text before_read (clone_dir <> ("/" <> relative_path)) ≡ ok content
    pub not_ascii : is_ascii content ≡ false

  check_content_lem :
      (dir content : String) (sha : Option String) (past t : History)
      → check_content x dir content past ≡ (ok (true, sha), t)
      → is_ascii content ≡ false
  unfolding check_content pure
  check_content_lem dir content sha past t h = elim (Bool-cases (is_ascii content)) [
    | inl ascii ↦ cc (rw ascii at h)
    | inr other ↦ other
  ]

  read_and_check_lem :
      (dir path : String) (sha : Option String) (past t : History)
      → read_and_check x dir path past ≡ (ok (true, sha), t)
      → (content : String) × (x.file_text past path ≡ ok content) × (is_ascii content ≡ false)
  unfolding read_and_check read_text
  read_and_check_lem dir path sha past t h =
      let (content, read, h1) = >>=-eq-ok _ _ past h in
      (content, read, check_content_lem dir content sha _ t h1)

  verify_in_repo_lem :
      (dir path : String) (sha : Option String) (past t : History)
      → verify_digest_in_repo x dir path past ≡ (ok (true, sha), t)
      → (before : History) × (content : String) × (x.file_text before (dir <> ("/" <> path))
          ≡ ok content)
        × (is_ascii content ≡ false)
  unfolding verify_digest_in_repo path_exists pure ◌>>=◌
  verify_in_repo_lem dir path sha past t h =
      elim (Bool-cases (x.file_exists past (dir <> ("/" <> path)))) [
        | inl present ↦
            let (content, stands, other) =
              read_and_check_lem dir (dir <> ("/" <> path)) sha
                (tested_path (dir <> ("/" <> path)) ∷ past) t (rw present at h) in
            (tested_path (dir <> ("/" <> path)) ∷ past, content, stands, other)
        | inr absent ↦ cc (rw absent at h)
      ]

  clone_and_verify_lem :
      (notes_repo path : String) (sha : Option String) (past t : History)
      → clone_and_verify x notes_repo path past ≡ (ok (true, sha), t)
      → Published notes_repo path
  unfolding clone_and_verify make_tempdir run_command pure
  clone_and_verify_lem notes_repo path sha past t h =
      let (tmpdir, made, h1) = >>=-eq-ok _ _ past h in
      let (completed, ran_clone, h2) = >>=-eq-ok _ _ _ h1 in
      elim (Bool-cases (is_zero completed.returncode)) [
        | inl zero ↦
            let (before, content, stands, other) =
              verify_in_repo_lem (tmpdir <> "/notes") path sha _ t (rw zero at h2) in
            record {
              clone_dir = tmpdir <> "/notes";
              before_clone = _;
              cloned = completed;
              clone = ran_clone;
              clone_succeeded = zero;
              before_read = before;
              content = content;
              stands = stands;
              not_ascii = other;
            }
        | inr nonzero ↦ cc (rw nonzero at h2)
      ]

  -- A digest counts as published only if git cloned the notes with exit code 0, and the file of the digest
  -- was then read with a text that is not all ASCII.
  pub verify_published_sound :
      (notes_repo path : String) (sha : Option String) (past t : History)
      → verify_published x notes_repo path past ≡ (ok (true, sha), t)
      → Published notes_repo path
  unfolding verify_published pure
  verify_published_sound notes_repo path sha past t h =
      elim (Bool-cases (
        not (given (getenv x "GIT_PROXY_URL"))
        || not (given (getenv x "GIT_PROXY_SESSION_TOKEN")))) [
          | inl unset ↦ cc (rw unset at h)
          | inr known ↦ clone_and_verify_lem notes_repo path sha past t (rw known at h)
        ]

  -- A clone of the notes that git made.
  pub record ClonedAt (notes_repo clone_dir : String) : Type 0 where
    pub before_clone : History
    pub cloned : Completed
    pub clone : x.run before_clone (clone_command x notes_repo clone_dir) ≡ ok cloned
    pub clone_succeeded : is_zero cloned.returncode ≡ true

  -- Why a check found nothing: the relay is not configured, git did not clone the notes, the clone lacks the
  -- file, or the text of the file is all ASCII.
  pub data Unpublished (notes_repo relative_path : String) : Type 0 where
    relay_unset :
        (not (given (getenv x "GIT_PROXY_URL")) || not (given (getenv x "GIT_PROXY_SESSION_TOKEN")))
          ≡ true
        → Unpublished notes_repo relative_path
    not_cloned :
        (clone_dir : String) (before_clone : History) (completed : Completed)
        → x.run before_clone (clone_command x notes_repo clone_dir) ≡ ok completed
        → is_zero completed.returncode ≡ false
        → Unpublished notes_repo relative_path
    file_absent :
        (clone_dir : String) (before_test : History)
        → ClonedAt notes_repo clone_dir
        → x.file_exists before_test (clone_dir <> ("/" <> relative_path)) ≡ false
        → Unpublished notes_repo relative_path
    all_ascii :
        (clone_dir content : String) (before_read : History)
        → ClonedAt notes_repo clone_dir
        → x.file_text before_read (clone_dir <> ("/" <> relative_path)) ≡ ok content
        → is_ascii content ≡ true
        → Unpublished notes_repo relative_path

  check_content_missed :
      (dir content : String) (sha : Option String) (past t : History)
      → check_content x dir content past ≡ (ok (false, sha), t)
      → is_ascii content ≡ true
  unfolding check_content pure
  check_content_missed dir content sha past t h = elim (Bool-cases (is_ascii content)) [
    | inl ascii ↦ ascii
    | inr other ↦ let (commit, found, h1) = >>=-eq-ok _ _ past (rw other at h) in cc h1
  ]

  lookup_missed :
      (notes_repo dir path : String) (sha : Option String) (past t : History)
      → ClonedAt notes_repo dir
      → verify_digest_in_repo x dir path past ≡ (ok (false, sha), t)
      → Unpublished notes_repo path
  unfolding verify_digest_in_repo read_and_check read_text path_exists pure ◌>>=◌
  lookup_missed notes_repo dir path sha past t made h =
      elim (Bool-cases (x.file_exists past (dir <> ("/" <> path)))) [
        | inl present ↦
            let (content, read, h1) =
              >>=-eq-ok (read_text x (dir <> ("/" <> path)))
                (λ content. check_content x dir content) (tested_path (dir <> ("/" <> path)) ∷ past)
                (rw present at h) in
            all_ascii dir content (tested_path (dir <> ("/" <> path)) ∷ past) made read
              (check_content_missed dir content sha _ t h1)
        | inr absent ↦ file_absent dir past made absent
      ]

  clone_missed :
      (notes_repo path : String) (sha : Option String) (past t : History)
      → clone_and_verify x notes_repo path past ≡ (ok (false, sha), t)
      → Unpublished notes_repo path
  unfolding clone_and_verify make_tempdir run_command pure
  clone_missed notes_repo path sha past t h =
      let (tmpdir, made, h1) = >>=-eq-ok _ _ past h in
      let (completed, ran_clone, h2) = >>=-eq-ok _ _ _ h1 in
      elim (Bool-cases (is_zero completed.returncode)) [
        | inl zero ↦
            lookup_missed notes_repo (tmpdir <> "/notes") path sha _ t
              (record {
                before_clone = _;
                cloned = completed;
                clone = ran_clone;
                clone_succeeded = zero;
              })
              (rw zero at h2)
        | inr nonzero ↦ not_cloned (tmpdir <> "/notes") _ completed ran_clone nonzero
      ]

  -- A check that ran to its end and found nothing has a reason.
  pub verify_published_missed :
      (notes_repo path : String) (sha : Option String) (past t : History)
      → verify_published x notes_repo path past ≡ (ok (false, sha), t)
      → Unpublished notes_repo path
  unfolding verify_published
  verify_published_missed notes_repo path sha past t h =
      elim (Bool-cases (
        not (given (getenv x "GIT_PROXY_URL"))
        || not (given (getenv x "GIT_PROXY_SESSION_TOKEN")))) [
          | inl unset ↦ relay_unset unset
          | inr known ↦ clone_missed notes_repo path sha past t (rw known at h)
        ]
