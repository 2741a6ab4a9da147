-- ===== src/Digest/Invest/Laws.antt =====
-- What the result of the investment digest and its row in the store say.
use mathlib.Core.Path.{subst}
use mimi_agent.Base.{
  ◌≡◌, ◌≢◌, refl, ◌∙◌, ap, List, String, ◌<>◌, true, false, Option, none, some, if◌then◌else◌,
}
use mimi_agent.Base.Exec.{Result, ok, err, pure, ◌>>◌, >>=-eq-ok}
use mimi_agent.Base.Exec.Keeps.{Keeps, Keeps-pure, Keeps-if, Keeps-bind}
use mimi_agent.Scheduler.Number.{pos}
use mimi_agent.System.{System}
use mimi_agent.Security.PolicyEngine.{PolicyDecision, allowed}
use mimi_agent.Db.Tables.{Document}
use mimi_agent.Db.Repository.{Host}
use mimi_agent.Runner.Gate.{Services, AuthProxyClient}
use mimi_agent.Runner.Gate.Tables.{Keeps-run_pre_tool_use, Keeps-run_post_tool_use}
use mimi_agent.Kubernetes.ClaudeJob.{Finished}
use mimi_agent.Digest.Invocation.{RunOptions}
use mimi_agent.Digest.Start.Laws.{final_code-nonzero, Keeps-connect}
use mimi_agent.Digest.Act.{Surroundings, in_system, today}
use mimi_agent.Digest.Act.Laws.{
  SameDocuments, Keeps-in_system, Keeps-in_store, Keeps-today, Recorded, Recorded-since,
  record_document_lem,
}
use mimi_agent.Digest.Slack.{SlackNotifyClient}
use mimi_agent.Digest.Invest.Sent.{Sent, sent_lem}
use mimi_agent.Digest.Invest.Unsent.{Unsent, unsent_lem}
use mimi_agent.Digest.Invest.{
  InvestDigestResult, Delivery, invest_role, post_request, digest_of_run, deliver_if, publish,
  record_invest, invest_result, invest_task, finish_invest, after_invest_run, run_invest_digest,
}
use mimi_agent.System.JsonValue.{Value}
use mimi_agent.Digest.Docker.{execute_claude}

module _ (h : Host) (services : Services) (x : System) (auth : AuthProxyClient)
    (slack : Option SlackNotifyClient) where
  -- What the result of a run of the command line that ended with `finished`, the document that was recorded
  -- since the state `s`, and what was sent say.
  pub record Told (workspace session_id task_id : String) (finished : Finished)
      (r : InvestDigestResult) (s t : Surroundings) : Type 0 where
    pub date : String
    pub recorded :
        Recorded none
          ("slack://invest-x-daily-digest/" <> date)
          (if r.published then "published" else "failed")
          none
          s
          t
    pub succeeds :
        r.published ≡ true
        → (finished.exit_code ≡ pos 0)
          × (r.exit_code ≡ pos 0)
          × Sent h services x auth slack session_id task_id
    pub fails :
        r.published ≡ false
        → Unsent h services x auth slack workspace session_id task_id finished
          × (r.exit_code ≢ pos 0)

  invest_result_lem :
      (workspace session_id task_id date : String) (finished : Finished) (d : Delivery)
      (before t : Surroundings)
      → (d.published ≡ true
          → (finished.exit_code ≡ pos 0) × Sent h services x auth slack session_id task_id)
      → (d.published ≡ false → Unsent h services x auth slack workspace session_id task_id finished)
      → Recorded none
          ("slack://invest-x-daily-digest/" <> date)
          (if d.published then "published" else "failed")
          none
          before
          t
      → Told workspace session_id task_id finished
          (invest_result h services x auth slack workspace finished d)
          before
          t
  unfolding invest_result
  invest_result_lem workspace session_id task_id date finished d before t sent unsent recorded =
      record {
        date = date;
        recorded = recorded;
        succeeds = λ v. let (code, what) = sent v in (code, rw v code, what);
        fails = λ v. (unsent v, rw v (final_code-nonzero finished.exit_code));
      }

  record_invest_lem :
      (date : String) (finished : Finished) (d : Delivery) (id : String) (s t : Surroundings)
      → record_invest h services x auth slack date finished d s ≡ (ok id, t)
      → Recorded none
          ("slack://invest-x-daily-digest/" <> date)
          (if d.published then "published" else "failed")
          none
          s
          t
  unfolding record_invest
  record_invest_lem date finished d id s t e = record_document_lem h _ _ _ _ _ _ _ _ id s t e

  -- What is told of an outcome.
  abbrev ToldBy :
      String
      → String
      → String
      → Finished
      → Surroundings
      → Result InvestDigestResult × Surroundings
      → Type 0
  ToldBy workspace session_id task_id finished s (ok r, t) =
      Told workspace session_id task_id finished r s t
  ToldBy workspace session_id task_id finished s (err e, t) = Unit

  Told-since :
      {workspace session_id task_id : String} {finished : Finished} {r : InvestDigestResult}
      {s before t : Surroundings}
      → before.world.db.documents ≡ s.world.db.documents
      → Told workspace session_id task_id finished r before t
      → Told workspace session_id task_id finished r s t
  Told-since same told = record {
    date = told.date;
    recorded = Recorded-since same told.recorded;
    succeeds = told.succeeds;
    fails = told.fails;
  }

  Keeps-deliver_if :
      (rows : List Document) (decision : PolicyDecision) (digest : String)
      → Keeps (SameDocuments rows) (deliver_if h services x auth slack decision digest)
  unfolding deliver_if
  Keeps-deliver_if rows decision digest =
      Keeps-if (allowed decision) _ _ (λ e. Keeps-in_system rows _) (λ e. Keeps-pure _)

  Keeps-publish :
      (rows : List Document) (session_id task_id : String) (digest : Option String)
      → Keeps (SameDocuments rows) (publish h services x auth slack session_id task_id digest)
  unfolding publish
  Keeps-publish rows session_id task_id none = Keeps-pure _
  Keeps-publish rows session_id task_id (some digest) =
      let request = post_request session_id task_id digest in
      Keeps-bind _ _
        (Keeps-in_store rows _ (λ db. Keeps-run_pre_tool_use h services db auth request))
        (λ decision.
          Keeps-bind _ _
            (Keeps-in_store rows _ (λ db. Keeps-run_post_tool_use h services db request _ _ _))
            (λ u. Keeps-deliver_if rows decision digest))

  store_lem :
      (workspace session_id task_id date : String) (finished : Finished) (d : Delivery)
      (r : InvestDigestResult) (s t : Surroundings)
      → (d.published ≡ true
          → (finished.exit_code ≡ pos 0) × Sent h services x auth slack session_id task_id)
      → (d.published ≡ false → Unsent h services x auth slack workspace session_id task_id finished)
      → (do
        record_invest h services x auth slack date finished d
        pure (invest_result h services x auth slack workspace finished d))
          s
        ≡ (ok r, t)
      → Told workspace session_id task_id finished r s t
  unfolding pure
  store_lem workspace session_id task_id date finished d r s t sent unsent e =
      let (id, stored, h1) = >>=-eq-ok _ _ s e in
      subst (ToldBy workspace session_id task_id finished s) h1 (
        invest_result_lem workspace session_id task_id date finished d s _ sent unsent (
          record_invest_lem date finished d id s
            (record_invest h services x auth slack date finished d s).1 (cc stored)))

  finish_invest_lem :
      (workspace session_id task_id : String) (finished : Finished) (r : InvestDigestResult)
      (s t : Surroundings)
      → finish_invest h services x auth slack workspace session_id task_id finished s ≡ (ok r, t)
      → Told workspace session_id task_id finished r s t
  unfolding finish_invest
  finish_invest_lem workspace session_id task_id finished r s t e =
      let rows = s.world.db.documents in
      let (digest, read, h1) = >>=-eq-ok _ _ s e in
      let (date, dated, h2) = >>=-eq-ok _ _ _ h1 in
      let (d, published, h3) = >>=-eq-ok _ _ _ h2 in
      Told-since
        ((Keeps-publish rows session_id task_id digest).after _
          ((Keeps-today rows h).after _ ((Keeps-in_system rows _).after s refl)))
        (store_lem workspace session_id task_id date finished d r _ t
          (sent_lem h services x auth slack workspace session_id task_id finished digest d s
            (in_system (digest_of_run x workspace finished) s).1
            (today h (in_system (digest_of_run x workspace finished) s).1).1
            (publish h services x auth slack session_id task_id digest
              (today h (in_system (digest_of_run x workspace finished) s).1).1).1
            (cc read) (cc published))
          (unsent_lem h services x auth slack workspace session_id task_id finished digest d s
            (in_system (digest_of_run x workspace finished) s).1
            (today h (in_system (digest_of_run x workspace finished) s).1).1
            (publish h services x auth slack session_id task_id digest
              (today h (in_system (digest_of_run x workspace finished) s).1).1).1
            (cc read) (cc published))
          h3)

  after_run_lem :
      (workspace session_id task_id : String) (result : Option Finished) (r : InvestDigestResult)
      (s t : Surroundings)
      → after_invest_run h services x auth slack workspace session_id task_id result s
        ≡ (ok (some r), t)
      → (finished : Finished) × (result ≡ some finished)
        × Told workspace session_id task_id finished r s t
  unfolding after_invest_run pure
  after_run_lem workspace session_id task_id none r s t e = cc e
  after_run_lem workspace session_id task_id (some finished) r s t e =
      let (result, ended, h1) = >>=-eq-ok _ _ s e in
      (
        finished,
        refl,
        finish_invest_lem workspace session_id task_id finished r s t (cc (ended, h1)),
      )

  -- A run of the command line, and what is told of it since the state `s`.
  pub record InvestRun (root workspace session_id task_id : String) (options : RunOptions)
      (r : InvestDigestResult) (s t : Surroundings) : Type 0 where
    pub config : Value
    pub before : Surroundings
    pub finished : Finished
    pub ran :
        (in_system
          (execute_claude x
            (invest_task h services x auth slack workspace session_id options config)
            root)
          before).0
        ≡ ok (some finished)
    pub told : Told workspace session_id task_id finished r s t

  -- An investment digest that returns ran the command line, and has appended exactly one document to the
  -- store. If it was published, the run exited with 0, the result has the exit code 0, the document has the
  -- status "published", the hook allowed the posting of a digest that is not all ASCII, and Slack accepted
  -- this digest with the disclaimer appended. If it was not, the run did not exit with 0, or it left no
  -- digest or one that is blank or all ASCII, or the hook did not allow the posting, or Slack refused it; the
  -- exit code is not 0 and the document has the status "failed".
  pub run_invest_digest_sound :
      (root workspace session_id task_id : String) (options : RunOptions) (r : InvestDigestResult)
      (s t : Surroundings)
      → run_invest_digest h services x auth slack root workspace session_id task_id options s
        ≡ (ok (some r), t)
      → InvestRun root workspace session_id task_id options r s t
  unfolding run_invest_digest
  run_invest_digest_sound root workspace session_id task_id options r s t e =
      let rows = s.world.db.documents in
      let (config, connected, h1) = >>=-eq-ok _ _ s e in
      let (result, executed, h2) = >>=-eq-ok _ _ _ h1 in
      let (finished, same, told) = after_run_lem workspace session_id task_id result r _ t h2 in
      record {
        config = config;
        before = _;
        finished = finished;
        ran = executed ∙ ap ok same;
        told =
            Told-since
              ((Keeps-in_system rows _).after _
                ((Keeps-connect x rows invest_role "invest-digest").after s refl))
              told;
      }
