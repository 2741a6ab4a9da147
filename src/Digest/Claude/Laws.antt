-- ===== src/Digest/Claude/Laws.antt =====
-- What the result of the daily digest and its row in the store say.
use mathlib.Core.Path.{subst}
use mathlib.Core.Bool.{false≢true}
use mimi_agent.Base.{
  ◌≡◌, ◌≢◌, ◌⊎◌, refl, ◌∙◌, ap, sym, String, Bool, true, false, Option, none, some, List, inl, inr,
  Bool-cases, if◌then◌else◌,
}
use mimi_agent.Base.Exec.{Result, ok, err, pure, ◌>>◌, >>=-eq-ok}
use mimi_agent.Base.Exec.Keeps.{Keeps, Keeps-pure, Keeps-raise, Keeps-if}
use mimi_agent.Scheduler.Number.{pos}
use mimi_agent.System.{System, getenv}
use mimi_agent.System.JsonValue.{Value}
use mimi_agent.Db.Tables.{Document}
use mimi_agent.Db.Repository.{Host}
use mimi_agent.Kubernetes.ApiClient.{given}
use mimi_agent.Kubernetes.ClaudeJob.{Finished}
use mimi_agent.Digest.Verify.{is_zero, verify_published}
use mimi_agent.Digest.Verify.Laws.{
  Published, Unpublished, verify_published_sound, verify_published_missed,
}
use mimi_agent.Digest.Start.Laws.{is_zero_lem, final_code-nonzero, Keeps-connect}
use mimi_agent.Digest.Act.{Surroundings}
use mimi_agent.Digest.Act.Laws.{
  SameDocuments, Keeps-in_system, Keeps-today, Recorded, Recorded-since, in_system_lem,
  record_document_lem,
}
use mimi_agent.Digest.Claude.{
  ClaudeDigestOptions, ClaudeDigestResult, digest_role, digest_path, record_digest, digest_result,
  check_run, finish_digest, after_run, execute_digest, run_claude_digest,
}

-- What the result of a run of the command line that ended with `finished`, the document that was recorded
-- since the state `s`, and the clone say.
pub record Reported (x : System) (options : ClaudeDigestOptions) (date : String)
    (finished : Finished) (r : ClaudeDigestResult) (s t : Surroundings) : Type 0 where
  pub recorded :
      Recorded
        (if r.verified then some options.notes_repo else none)
        (digest_path date)
        (if r.verified then "published" else "failed")
        r.commit_sha
        s
        t
  pub succeeds :
      r.verified ≡ true
      → (finished.exit_code ≡ pos 0)
        × (r.exit_code ≡ pos 0)
        × Published x options.notes_repo (digest_path date)
  pub fails :
      r.verified ≡ false
      → ((is_zero finished.exit_code ≡ false) ⊎ Unpublished x options.notes_repo (digest_path date))
        × (r.exit_code ≢ pos 0)

module _ (h : Host) (x : System) (options : ClaudeDigestOptions) where
  Keeps-check_run :
      (rows : List Document) (date : String) (finished : Finished)
      → Keeps (SameDocuments rows) (check_run h x options date finished)
  unfolding check_run
  Keeps-check_run rows date finished =
      Keeps-if (is_zero finished.exit_code) _ _ (λ e. Keeps-in_system rows _) (λ e. Keeps-pure _)

  kept :
      (date : String) (finished : Finished) (s t : Surroundings) (verified : Bool)
      (sha : Option String)
      → check_run h x options date finished s ≡ (ok (verified, sha), t)
      → t.world.db.documents ≡ s.world.db.documents
  kept date finished s t verified sha e =
      subst (λ p. p.1.world.db.documents ≡ s.world.db.documents) e
        ((Keeps-check_run s.world.db.documents date finished).after s refl)

  check_run_lem :
      (date : String) (finished : Finished) (sha : Option String) (s t : Surroundings)
      → check_run h x options date finished s ≡ (ok (true, sha), t)
      → (finished.exit_code ≡ pos 0) × Published x options.notes_repo (digest_path date)
  unfolding check_run pure
  check_run_lem date finished sha s t e = elim (Bool-cases (is_zero finished.exit_code)) [
    | inl zeroed ↦ (
      is_zero_lem finished.exit_code zeroed,
      verify_published_sound x options.notes_repo (digest_path date) sha s.history t.history (
          in_system_lem (verify_published x options.notes_repo (digest_path date)) (true, sha) s t
            (rw zeroed at e)),
    )
    | inr nonzero ↦ cc (rw nonzero at e)
  ]

  check_run_missed :
      (date : String) (finished : Finished) (sha : Option String) (s t : Surroundings)
      → check_run h x options date finished s ≡ (ok (false, sha), t)
      → (is_zero finished.exit_code ≡ false) ⊎ Unpublished x options.notes_repo (digest_path date)
  unfolding check_run
  check_run_missed date finished sha s t e = elim (Bool-cases (is_zero finished.exit_code)) [
    | inl zeroed ↦ inr (
        verify_published_missed x options.notes_repo (digest_path date) sha s.history t.history (
          in_system_lem (verify_published x options.notes_repo (digest_path date)) (false, sha) s t
            (rw zeroed at e)))
    | inr nonzero ↦ inl nonzero
  ]

  digest_result_lem :
      (workspace date : String) (finished : Finished) (verified : Bool) (sha : Option String)
      (s before t : Surroundings)
      → check_run h x options date finished s ≡ (ok (verified, sha), before)
      → Recorded
          (if verified then some options.notes_repo else none)
          (digest_path date)
          (if verified then "published" else "failed")
          sha
          before
          t
      → Reported x options date finished
          (digest_result h x options workspace date finished (verified, sha))
          s
          t
  unfolding digest_result check_run
  digest_result_lem workspace date finished true sha s before t checked recorded =
      let found = check_run_lem date finished sha s before checked in
      record {
        recorded = Recorded-since (kept date finished s before true sha checked) recorded;
        succeeds = λ v. (found.0, found.0, found.1);
        fails = λ v. absurd (false≢true (sym v));
      }
  digest_result_lem workspace date finished false sha s before t checked recorded = record {
    recorded = Recorded-since (kept date finished s before false sha checked) recorded;
    succeeds = λ v. absurd (false≢true v);
    fails = λ v. (
      check_run_missed date finished sha s before checked,
      final_code-nonzero finished.exit_code,
    );
  }

  -- What is reported of an outcome.
  abbrev ReportedBy :
      String → Finished → Surroundings → Result ClaudeDigestResult × Surroundings → Type 0
  ReportedBy date finished s (ok r, t) = Reported x options date finished r s t
  ReportedBy date finished s (err e, t) = Unit

  record_digest_lem :
      (date : String) (finished : Finished) (verified : Bool) (sha : Option String) (id : String)
      (s t : Surroundings)
      → record_digest h x options date finished (verified, sha) s ≡ (ok id, t)
      → Recorded
          (if verified then some options.notes_repo else none)
          (digest_path date)
          (if verified then "published" else "failed")
          sha
          s
          t
  unfolding record_digest
  record_digest_lem date finished verified sha id s t e =
      record_document_lem h _ _ _ _ _ _ _ _ id s t e

  store_lem :
      (workspace date : String) (finished : Finished) (verified : Bool) (sha : Option String)
      (r : ClaudeDigestResult) (s before t : Surroundings)
      → check_run h x options date finished s ≡ (ok (verified, sha), before)
      → (do
        record_digest h x options date finished (verified, sha)
        pure (digest_result h x options workspace date finished (verified, sha)))
          before
        ≡ (ok r, t)
      → Reported x options date finished r s t
  unfolding pure
  store_lem workspace date finished verified sha r s before t checked e =
      let (id, stored, h1) = >>=-eq-ok _ _ before e in
      subst (ReportedBy date finished s) h1 (
        digest_result_lem workspace date finished verified sha s before _ checked (
          record_digest_lem date finished verified sha id before
            (record_digest h x options date finished (verified, sha) before).1 (cc stored)))

  finish_digest_lem :
      (workspace date : String) (finished : Finished) (r : ClaudeDigestResult) (s t : Surroundings)
      → finish_digest h x options workspace date finished s ≡ (ok r, t)
      → Reported x options date finished r s t
  unfolding finish_digest
  finish_digest_lem workspace date finished r s t e =
      let ((verified, sha), checked, h1) = >>=-eq-ok _ _ s e in
      store_lem workspace date finished verified sha r s _ t (cc checked) h1

  after_run_lem :
      (workspace date : String) (result : Option Finished) (r : ClaudeDigestResult)
      (s t : Surroundings)
      → after_run h x options workspace date result s ≡ (ok (some r), t)
      → (finished : Finished) × (result ≡ some finished) × Reported x options date finished r s t
  unfolding after_run pure
  after_run_lem workspace date none r s t e = cc e
  after_run_lem workspace date (some finished) r s t e =
      let (result, ended, h1) = >>=-eq-ok _ _ s e in
      (finished, refl, finish_digest_lem workspace date finished r s t (cc (ended, h1)))

  Keeps-execute_digest :
      (rows : List Document) (root workspace session_id date : String) (config : Value)
      → Keeps
          (SameDocuments rows)
          (execute_digest h x options root workspace session_id date config)
  unfolding execute_digest
  Keeps-execute_digest rows root workspace session_id date config =
      Keeps-if (given (getenv x "GIT_PROXY_URL")) _ _ (λ e. Keeps-in_system rows _)
        (λ e. Keeps-raise _)

  -- A run of the command line, and what is reported of it since the state `s`.
  pub record DigestRun (root workspace session_id : String) (r : ClaudeDigestResult)
      (s t : Surroundings) : Type 0 where
    pub config : Value
    pub date : String
    pub before : Surroundings
    pub finished : Finished
    pub ran :
        (execute_digest h x options root workspace session_id date config before).0
        ≡ ok (some finished)
    pub reported : Reported x options date finished r s t

  Reported-since :
      {date : String} {finished : Finished} {r : ClaudeDigestResult} {s before t : Surroundings}
      → before.world.db.documents ≡ s.world.db.documents
      → Reported x options date finished r before t
      → Reported x options date finished r s t
  Reported-since same reported = record {
    recorded = Recorded-since same reported.recorded;
    succeeds = reported.succeeds;
    fails = reported.fails;
  }

  -- A daily digest that returns ran the command line, and has appended exactly one document to the store. If
  -- the result is marked as verified, the run exited with 0, a clone showed the digest, the result has the
  -- exit code 0, and the document has the status "published" and the name of the repository. If it is not,
  -- the run did not exit with 0 or the check found no digest, for one of four reasons: no relay, no clone, no
  -- file, or a text that is all ASCII; the exit code is not 0, and the document has the status "failed" and
  -- no repository. Result and document have the same commit.
  pub run_claude_digest_sound :
      (root workspace session_id : String) (r : ClaudeDigestResult) (s t : Surroundings)
      → run_claude_digest h x options root workspace session_id s ≡ (ok (some r), t)
      → DigestRun root workspace session_id r s t
  unfolding run_claude_digest
  run_claude_digest_sound root workspace session_id r s t e =
      let rows = s.world.db.documents in
      let (config, connected, h1) = >>=-eq-ok _ _ s e in
      let (date, read, h2) = >>=-eq-ok _ _ _ h1 in
      let (result, executed, h3) = >>=-eq-ok _ _ _ h2 in
      let (finished, same, reported) = after_run_lem workspace date result r _ t h3 in
      record {
        config = config;
        date = date;
        before = _;
        finished = finished;
        ran = executed ∙ ap ok same;
        reported =
            Reported-since
              ((Keeps-execute_digest rows root workspace session_id date config).after _ (
                (Keeps-today rows h).after _
                  ((Keeps-connect x rows digest_role "claude-digest").after s refl)))
              reported;
      }
