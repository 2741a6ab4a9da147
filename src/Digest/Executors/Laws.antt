-- ===== src/Digest/Executors/Laws.antt =====
-- What a digest's executor has done when it returns.
use mathlib.Core.Path.{subst}
use mimi_agent.Base.{
  ◌≡◌, refl, ap, ◌∙◌, String, true, Option, none, some, inl, inr, Bool-cases, string_eq,
}
use mimi_agent.Base.Exec.{Error, Result, ok, pure, raise, ◌>>=◌, modify, >>=-eq-ok}
use mimi_agent.Scheduler.Number.{ℤ, pos}
use mimi_agent.System.{System}
use mimi_agent.System.JsonValue.{Fields}
use mimi_agent.Config.Validator.{AppConfig}
use mimi_agent.Db.Tables.{Json, Session, Task}
use mimi_agent.Db.Repository.{
  Host, World, iso_now, set_tasks, set_sessions, finish_task, update_session_status,
}
use mimi_agent.Runner.Gate.{Call, Services, AuthProxyClient}
use mimi_agent.Runner.CollectX.Lifecycle.{Ended, updated}
use mimi_agent.Digest.Verify.{is_zero}
use mimi_agent.Digest.Start.Laws.{is_zero_lem}
use mimi_agent.Digest.Act.{Surroundings, in_store}
use mimi_agent.Digest.Claude.{ClaudeDigestResult, run_claude_digest}
use mimi_agent.Digest.Claude.Laws.{DigestRun, run_claude_digest_sound}
use mimi_agent.Digest.Slack.{SlackNotifyClient}
use mimi_agent.Digest.Invest.{InvestDigestResult, run_invest_digest}
use mimi_agent.Digest.Invest.Laws.{InvestRun, run_invest_digest_sound}
use mimi_agent.Digest.Executors.{
  Opened, required_env, invest_required_env, begin_job, close_task, settle, after_claude,
  after_invest, run_options, digest_options, run_ai_it_x_daily_digest, run_invest_x_daily_digest,
}

-- The task and the session of the run, if they exist, ended well.
abbrev pub Closed : Opened → Surroundings → Type 0
Closed opened t = Ended opened.session_id opened.task_id "stopped" "succeeded" t.world.db

returned : {A : Type 0} {a : A} (p : Result A × Surroundings) → p.0 ≡ ok a → p ≡ (ok a, p.1)
returned p e = λ i. (e i, p.1)

module _ (h : Host) where
  close_task-Ended :
      (opened : Opened) (task_status session_status : String) (output : Option Json)
      (error : Option Error) (w : World Call)
      → Ended opened.session_id opened.task_id session_status task_status
          (close_task h opened task_status session_status output error w).1.db
  unfolding close_task finish_task update_session_status iso_now set_tasks set_sessions modify ◌>>=◌
  close_task-Ended opened task_status session_status output error w = (
    λ t found.
        let (a, e) = updated (λ (t : Task). t.id) opened.task_id _ w.db.tasks t (λ a. refl) found in
        ap (λ (t : Task). t.status) e,
    λ r found.
        let (a, e) =
          updated (λ (r : Session). r.id) opened.session_id _ w.db.sessions r (λ a. refl) found in
        ap (λ (r : Session). r.status) e,
  )

  settle_lem :
      (opened : Opened) (code : ℤ) (output : Json) (error : Error) (message : String) (u : Unit {0})
      (s : Surroundings)
      → (settle h opened code output error message s).0 ≡ ok u
      → (code ≡ pos 0) × Closed opened (settle h opened code output error message s).1
  unfolding settle close_task finish_task update_session_status iso_now set_tasks set_sessions
      modify raise in_store ◌>>=◌
  settle_lem opened code output error message u s e = elim (Bool-cases (is_zero code)) [
    | inl zeroed ↦ (
      is_zero_lem code zeroed,
      rw zeroed (close_task-Ended opened "succeeded" "stopped" (some output) none s.world),
    )
    | inr nonzero ↦ absurd (cc (rw nonzero at e))
  ]

  after_claude_lem :
      (opened : Opened) (result : Option ClaudeDigestResult) (s t : Surroundings)
      → after_claude h opened result s ≡ (ok (some tt), t)
      → (r : ClaudeDigestResult) × (result ≡ some r) × (r.exit_code ≡ pos 0) × Closed opened t
  unfolding after_claude pure
  after_claude_lem opened none s t e = cc e
  after_claude_lem opened (some r) s t e =
      let (u, settled, h1) = >>=-eq-ok _ _ s e in
      let (zeroed, closed) = settle_lem opened r.exit_code _ _ _ u s settled in
      (r, refl, zeroed, subst (λ p. Closed opened p.1) h1 closed)

  after_invest_lem :
      (opened : Opened) (result : Option InvestDigestResult) (s t : Surroundings)
      → after_invest h opened result s ≡ (ok (some tt), t)
      → (r : InvestDigestResult) × (result ≡ some r) × (r.exit_code ≡ pos 0) × Closed opened t
  unfolding after_invest pure
  after_invest_lem opened none s t e = cc e
  after_invest_lem opened (some r) s t e =
      let (u, settled, h1) = >>=-eq-ok _ _ s e in
      let (zeroed, closed) = settle_lem opened r.exit_code _ _ _ u s settled in
      (r, refl, zeroed, subst (λ p. Closed opened p.1) h1 closed)

module _ (h : Host) (x : System) (c : AppConfig) (root : String) where
  -- A session was opened, its digest was verified, and the session and its task ended well.
  pub record Digested (job : Fields) (s t : Surroundings) : Type 0 where
    pub opened : Opened
    pub begun : Surroundings
    pub opens : begin_job h x c root required_env job s ≡ (ok opened, begun)
    pub result : ClaudeDigestResult
    pub recorded : Surroundings
    pub ran :
        run_claude_digest h x
          (digest_options opened.model)
          root
          opened.workspace
          opened.session_id
          begun
        ≡ (ok (some result), recorded)
    pub run :
        DigestRun h x
          (digest_options opened.model)
          root
          opened.workspace
          opened.session_id
          result
          begun
          recorded
    pub verified : result.verified ≡ true
    pub closed : Closed opened t

  verified_lem :
      (opened : Opened) (r : ClaudeDigestResult) (s t : Surroundings)
      → DigestRun h x (digest_options opened.model) root opened.workspace opened.session_id r s t
      → r.exit_code ≡ pos 0
      → r.verified ≡ true
  verified_lem opened r s t run zeroed = elim (Bool-cases r.verified) [
    | inl found ↦ found
    | inr missing ↦ absurd ((run.reported.fails missing).1 zeroed)
  ]

  digest_lem :
      (job : Fields) (opened : Opened) (s before t : Surroundings)
      → begin_job h x c root required_env job s ≡ (ok opened, before)
      → (do
        result ←
            run_claude_digest h x
              (digest_options opened.model)
              root
              opened.workspace
              opened.session_id
        after_claude h opened result)
          before
        ≡ (ok (some tt), t)
      → Digested job s t
  digest_lem job opened s before t opens e =
      let (result, ran, h1) = >>=-eq-ok _ _ before e in
      let (r, same, zeroed, closed) = after_claude_lem h opened result _ t h1 in
      let run =
        run_claude_digest_sound h x (digest_options opened.model) root opened.workspace
          opened.session_id r before _ (returned _ (ran ∙ ap ok same)) in
      record {
        opened = opened;
        begun = before;
        opens = opens;
        result = r;
        recorded = _;
        ran = returned _ (ran ∙ ap ok same);
        run = run;
        verified = verified_lem opened r before _ run zeroed;
        closed = closed;
      }

  -- The executor of the daily digest returns only if the digest that it ran in the session that it opened
  -- was recorded and found in the clone; its task, if it exists, has then succeeded, and its session, if
  -- it exists, is stopped. What returns without a result because the wait for a Job ran out of rounds is
  -- left out.
  pub run_ai_it_x_daily_digest_sound :
      (job : Fields) (s t : Surroundings)
      → run_ai_it_x_daily_digest h x c root job s ≡ (ok (some tt), t)
      → Digested job s t
  unfolding run_ai_it_x_daily_digest
  run_ai_it_x_daily_digest_sound job s t e =
      let (opened, opens, h1) = >>=-eq-ok _ _ s e in
      digest_lem job opened s _ t (returned _ opens) h1

module _ (h : Host) (x : System) (c : AppConfig) (root : String) (services : Services)
    (auth : AuthProxyClient) (slack : Option SlackNotifyClient) where
  -- A session was opened, its digest was published, and the session and its task ended well.
  pub record Posted (job : Fields) (s t : Surroundings) : Type 0 where
    pub opened : Opened
    pub begun : Surroundings
    pub opens : begin_job h x c root invest_required_env job s ≡ (ok opened, begun)
    pub result : InvestDigestResult
    pub recorded : Surroundings
    pub ran :
        run_invest_digest h services x auth slack root opened.workspace opened.session_id
          opened.task_id
          (run_options opened.model)
          begun
        ≡ (ok (some result), recorded)
    pub run :
        InvestRun h services x auth slack root opened.workspace opened.session_id opened.task_id
          (run_options opened.model)
          result
          begun
          recorded
    pub published : result.published ≡ true
    pub closed : Closed opened t

  published_lem :
      (opened : Opened) (r : InvestDigestResult) (s t : Surroundings)
      → InvestRun h services x auth slack root opened.workspace opened.session_id opened.task_id
          (run_options opened.model)
          r
          s
          t
      → r.exit_code ≡ pos 0
      → r.published ≡ true
  published_lem opened r s t run zeroed = elim (Bool-cases r.published) [
    | inl sent ↦ sent
    | inr unsent ↦ absurd ((run.told.fails unsent).1 zeroed)
  ]

  invest_lem :
      (job : Fields) (opened : Opened) (s before t : Surroundings)
      → begin_job h x c root invest_required_env job s ≡ (ok opened, before)
      → (do
        result ←
            run_invest_digest h services x auth slack root opened.workspace opened.session_id
              opened.task_id
              (run_options opened.model)
        after_invest h opened result)
          before
        ≡ (ok (some tt), t)
      → Posted job s t
  invest_lem job opened s before t opens e =
      let (result, ran, h1) = >>=-eq-ok _ _ before e in
      let (r, same, zeroed, closed) = after_invest_lem h opened result _ t h1 in
      let run =
        run_invest_digest_sound h services x auth slack root opened.workspace opened.session_id
          opened.task_id (run_options opened.model) r before _ (returned _ (ran ∙ ap ok same)) in
      record {
        opened = opened;
        begun = before;
        opens = opens;
        result = r;
        recorded = _;
        ran = returned _ (ran ∙ ap ok same);
        run = run;
        published = published_lem opened r before _ run zeroed;
        closed = closed;
      }

  -- The executor of the investment digest returns only if the digest that it ran in the session that it
  -- opened was published, which includes that the hook allowed it and Slack accepted it; its task, if it
  -- exists, has then succeeded, and its session, if it exists, is stopped. What returns without a result
  -- because the wait for a Job ran out of rounds is left out.
  pub run_invest_x_daily_digest_sound :
      (job : Fields) (s t : Surroundings)
      → run_invest_x_daily_digest h x c root services auth slack job s ≡ (ok (some tt), t)
      → Posted job s t
  unfolding run_invest_x_daily_digest
  run_invest_x_daily_digest_sound job s t e =
      let (opened, opens, h1) = >>=-eq-ok _ _ s e in
      invest_lem job opened s _ t (returned _ opens) h1
