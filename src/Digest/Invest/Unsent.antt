-- ===== src/Digest/Invest/Unsent.antt =====
-- Why the investment digest is not sent.
use mathlib.Core.List.{◌∷◌}
use mimi_agent.Base.{◌≡◌, refl, String, ◌<>◌, true, false, Option, none, some, inl, inr, Bool-cases}
use mimi_agent.Base.Exec.{Error, Result, ok, err, recover, pure, raise, ◌>>=◌, try_else, >>=-eq-ok}
use mimi_agent.Scheduler.Number.{ℤ}
use mimi_agent.System.{History, tested_path, System, read_text, path_exists}
use mimi_agent.Security.PolicyEngine.{PolicyDecision, allowed}
use mimi_agent.Db.Repository.{Host, World}
use mimi_agent.Runner.Gate.{Services, AuthProxyClient, Call, run_pre_tool_use}
use mimi_agent.Kubernetes.ClaudeJob.{Finished}
use mimi_agent.Digest.Prompts.{disclaimer_footer}
use mimi_agent.Digest.Verify.{is_zero}
use mimi_agent.Digest.Act.{Surroundings, in_store, in_system}
use mimi_agent.Digest.Act.Laws.{in_system_lem}
use mimi_agent.Digest.Slack.{SlackNotifyClient, notify}
use mimi_agent.Digest.Invest.{
  Delivery, is_slack_error, digest_or_none, post_request, read_digest, digest_of_run,
  slack_or_default, delivered, not_delivered, deliver, deliver_if, publish,
}

ok_of :
    {A : Type 0} {a b : A} {past t : History}
    → ◌≡◌ {A = Result A × History} (ok a, past) (ok b, t)
    → a ≡ b
ok_of e = cc e

module _ (h : Host) (services : Services) (x : System) (auth : AuthProxyClient)
    (slack : Option SlackNotifyClient) where
  -- Why nothing was published: the run failed, it left no digest, or one that is blank or all ASCII, the
  -- hook did not allow the posting, or Slack refused it.
  pub data Unsent (workspace session_id task_id : String) (finished : Finished) : Type 0 where
    run_failed : is_zero finished.exit_code ≡ false → Unsent workspace session_id task_id finished
    file_absent :
        (past : History)
        → x.file_exists past (workspace <> "/digest.md") ≡ false
        → Unsent workspace session_id task_id finished
    no_digest :
        (past : History) (content : String)
        → x.file_text past (workspace <> "/digest.md") ≡ ok content
        → digest_or_none content ≡ none
        → Unsent workspace session_id task_id finished
    not_allowed :
        (digest : String) (before : World Call) (decision : PolicyDecision)
        → (run_pre_tool_use h services auth (post_request session_id task_id digest) before).0
          ≡ ok decision
        → allowed decision ≡ false
        → Unsent workspace session_id task_id finished
    slack_refused :
        (digest : String) (past : History) (error : Error)
        → (notify x (slack_or_default x slack) (digest <> disclaimer_footer) none past).0
          ≡ err error
        → is_slack_error error ≡ true
        → Unsent workspace session_id task_id finished

  read_missed :
      (workspace session_id task_id : String) (finished : Finished) (past t : History)
      → (do content ← read_text x (workspace <> "/digest.md"); pure (digest_or_none content)) past
        ≡ (ok none, t)
      → Unsent workspace session_id task_id finished
  unfolding pure read_text
  read_missed workspace session_id task_id finished past t e =
      let (content, read, h1) = >>=-eq-ok _ _ past e in no_digest past content read (ok_of h1)

  digest_missed :
      (workspace session_id task_id : String) (finished : Finished) (past t : History)
      → digest_of_run x workspace finished past ≡ (ok none, t)
      → Unsent workspace session_id task_id finished
  unfolding digest_of_run read_digest path_exists pure ◌>>=◌
  digest_missed workspace session_id task_id finished past t e =
      elim (Bool-cases (is_zero finished.exit_code)) [
        | inr nonzero ↦ run_failed nonzero
        | inl zeroed ↦ elim (Bool-cases (x.file_exists past (workspace <> "/digest.md"))) [
          | inr absent ↦ file_absent past absent
          | inl present ↦
              read_missed workspace session_id task_id finished
                (tested_path (workspace <> "/digest.md") ∷ past) t (rw (zeroed, present) at e)
        ]
      ]

  delivery_missed :
      (workspace session_id task_id digest : String) (finished : Finished) (answer : Result ℤ)
      (d : Delivery) (past reached t : History)
      → (notify x (slack_or_default x slack) (digest <> disclaimer_footer) none past).0 ≡ answer
      → recover answer (delivered x digest) (not_delivered x digest) reached ≡ (ok d, t)
      → d.published ≡ false
      → Unsent workspace session_id task_id finished
  unfolding delivered not_delivered pure raise
  delivery_missed workspace session_id task_id digest finished (ok chunks) d past reached t asked e
        unsent =
      absurd (cc (e, unsent))
  delivery_missed workspace session_id task_id digest finished (err error) d past reached t asked e
        unsent =
      elim (Bool-cases (is_slack_error error)) [
        | inl caught ↦ slack_refused digest past error asked caught
        | inr other ↦ cc (rw other at e)
      ]

  deliver_missed :
      (workspace session_id task_id digest : String) (finished : Finished) (d : Delivery)
      (past t : History)
      → deliver x (slack_or_default x slack) digest past ≡ (ok d, t)
      → d.published ≡ false
      → Unsent workspace session_id task_id finished
  unfolding deliver try_else
  deliver_missed workspace session_id task_id digest finished d past t e unsent =
      delivery_missed workspace session_id task_id digest finished _ d past _ t refl e unsent

  publish_missed :
      (workspace session_id task_id digest : String) (finished : Finished) (d : Delivery)
      (s t : Surroundings)
      → publish h services x auth slack session_id task_id (some digest) s ≡ (ok d, t)
      → d.published ≡ false
      → Unsent workspace session_id task_id finished
  unfolding publish deliver_if in_store
  publish_missed workspace session_id task_id digest finished d s t e unsent =
      let (decision, decides, h1) = >>=-eq-ok _ _ s e in
      let (unit, observed, h2) = >>=-eq-ok _ _ _ h1 in
      elim (Bool-cases (allowed decision)) [
        | inl permitted ↦
            deliver_missed workspace session_id task_id digest finished d _ t.history
              (in_system_lem (deliver x (slack_or_default x slack) digest) d _ t
                (rw permitted at h2))
              unsent
        | inr refused ↦ not_allowed digest s.world decision decides refused
      ]

  pub unsent_lem :
      (workspace session_id task_id : String) (finished : Finished) (digest : Option String)
      (d : Delivery) (s read before t : Surroundings)
      → in_system (digest_of_run x workspace finished) s ≡ (ok digest, read)
      → publish h services x auth slack session_id task_id digest before ≡ (ok d, t)
      → d.published ≡ false
      → Unsent workspace session_id task_id finished
  unsent_lem workspace session_id task_id finished none d s read before t written e unsent =
      digest_missed workspace session_id task_id finished s.history read.history
        (in_system_lem (digest_of_run x workspace finished) none s read written)
  unsent_lem workspace session_id task_id finished (some digest) d s read before t written e
        unsent =
      publish_missed workspace session_id task_id digest finished d before t e unsent
