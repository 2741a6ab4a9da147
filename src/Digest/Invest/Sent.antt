-- ===== src/Digest/Invest/Sent.antt =====
-- When the investment digest is sent.
use mathlib.Core.Option.{some-injective}
use mathlib.Core.List.{◌∷◌}
use mimi_agent.Base.{
  ◌≡◌, refl, String, ◌<>◌, true, false, not, Option, none, some, inl, inr, Bool-cases,
}
use mimi_agent.Base.Exec.{Result, ok, err, recover, pure, raise, ◌>>=◌, try_else, >>=-eq-ok}
use mimi_agent.Str.{is_nonempty, strip}
use mimi_agent.Scheduler.Number.{ℤ, pos}
use mimi_agent.System.{History, tested_path, System, read_text, path_exists}
use mimi_agent.Security.PolicyEngine.{PolicyDecision, allowed}
use mimi_agent.Db.Repository.{Host, World}
use mimi_agent.Runner.Gate.{Services, AuthProxyClient, Call, run_pre_tool_use}
use mimi_agent.Kubernetes.ClaudeJob.{Finished}
use mimi_agent.Digest.Texts.{is_ascii}
use mimi_agent.Digest.Prompts.{disclaimer_footer}
use mimi_agent.Digest.Verify.{is_zero}
use mimi_agent.Digest.Start.Laws.{is_zero_lem}
use mimi_agent.Digest.Act.{Surroundings, in_store, in_system}
use mimi_agent.Digest.Act.Laws.{in_system_lem}
use mimi_agent.Digest.Slack.{SlackNotifyClient, notify}
use mimi_agent.Digest.Invest.{
  Delivery, is_slack_error, digest_or_none, post_request, read_digest, digest_of_run,
  slack_or_default, with_footer, delivered, not_delivered, deliver, deliver_if, publish,
}

ok_of :
    {A : Type 0} {a b : A} {past t : History}
    → ◌≡◌ {A = Result A × History} (ok a, past) (ok b, t)
    → a ≡ b
ok_of e = cc e

module _ (x : System) where
  digest_or_none_lem :
      (content digest : String) → digest_or_none content ≡ some digest → is_ascii digest ≡ false
  digest_or_none_lem content digest e = elim (Bool-cases (not (is_nonempty (strip content)))) [
    | inl blank ↦ cc (rw blank at e)
    | inr filled ↦ elim (Bool-cases (is_ascii content)) [
      | inl ascii ↦ cc (rw (filled, ascii) at e)
      | inr other ↦
          let same : content ≡ digest = some-injective content digest (rw (filled, other) at e) in
          rw (← same) other
    ]
  ]

  recover_delivery :
      (answer : Result ℤ) (digest : String) (d : Delivery) (past t : History)
      → recover answer (delivered x digest) (not_delivered x digest) past ≡ (ok d, t)
      → d.published ≡ true
      → (chunks : ℤ) × (answer ≡ ok chunks)
  unfolding not_delivered pure raise
  recover_delivery (ok chunks) digest d past t e sent = (chunks, refl)
  recover_delivery (err error) digest d past t e sent = elim (Bool-cases (is_slack_error error)) [
    | inl caught ↦ cc (rw caught at e, sent)
    | inr other ↦ cc (rw other at e)
  ]

  -- What a delivery that went well sent.
  deliver_lem :
      (client : SlackNotifyClient) (digest : String) (d : Delivery) (past t : History)
      → deliver x client digest past ≡ (ok d, t)
      → d.published ≡ true
      → (chunks : ℤ) × ((notify x client (with_footer x digest) none past).0 ≡ ok chunks)
  unfolding deliver try_else
  deliver_lem client digest d past t e sent = recover_delivery _ digest d _ t e sent

  read_lem :
      (workspace digest : String) (past t : History)
      → (do content ← read_text x (workspace <> "/digest.md"); pure (digest_or_none content))
          (tested_path (workspace <> "/digest.md") ∷ past)
        ≡ (ok (some digest), t)
      → is_ascii digest ≡ false
  unfolding pure
  read_lem workspace digest past t e =
      let (content, read, h1) = >>=-eq-ok _ _ _ e in digest_or_none_lem content digest (ok_of h1)

  digest_of_run_lem :
      (workspace digest : String) (finished : Finished) (past t : History)
      → digest_of_run x workspace finished past ≡ (ok (some digest), t)
      → (is_zero finished.exit_code ≡ true) × (is_ascii digest ≡ false)
  unfolding digest_of_run read_digest path_exists read_text pure ◌>>=◌
  digest_of_run_lem workspace digest finished past t e =
      elim (Bool-cases (is_zero finished.exit_code)) [
        | inr nonzero ↦ cc (rw nonzero at e)
        | inl zeroed ↦ elim (Bool-cases (x.file_exists past (workspace <> "/digest.md"))) [
          | inr absent ↦ cc (rw (zeroed, absent) at e)
          | inl present ↦ (zeroed, read_lem workspace digest past t (rw (zeroed, present) at e))
        ]
      ]

module _ (h : Host) (services : Services) (x : System) (auth : AuthProxyClient)
    (slack : Option SlackNotifyClient) where
  -- A digest that was allowed and sent, with the footer.
  pub record Sent (session_id task_id : String) : Type 0 where
    pub digest : String
    pub not_ascii : is_ascii digest ≡ false
    pub before : World Call
    pub decision : PolicyDecision
    pub decides :
        (run_pre_tool_use h services auth (post_request session_id task_id digest) before).0
        ≡ ok decision
    pub permits : allowed decision ≡ true
    pub past : History
    pub chunks : ℤ
    pub notified :
        (notify x (slack_or_default x slack) (digest <> disclaimer_footer) none past).0 ≡ ok chunks

  deliver_if_lem :
      (decision : PolicyDecision) (digest : String) (d : Delivery) (s t : Surroundings)
      → deliver_if h services x auth slack decision digest s ≡ (ok d, t)
      → d.published ≡ true
      → (allowed decision ≡ true)
        × ((chunks : ℤ) × ((notify x
                (slack_or_default x slack)
                (with_footer x digest)
                none
                s.history).0
              ≡ ok chunks))
  unfolding deliver_if pure
  deliver_if_lem decision digest d s t e sent = elim (Bool-cases (allowed decision)) [
    | inl permitted ↦ (
      permitted,
      deliver_lem x (slack_or_default x slack) digest d s.history t.history
          (in_system_lem (deliver x (slack_or_default x slack) digest) d s t (rw permitted at e))
          sent,
    )
    | inr refused ↦ cc (rw refused at e, sent)
  ]

  publish_lem :
      (session_id task_id digest : String) (d : Delivery) (s t : Surroundings)
      → is_ascii digest ≡ false
      → publish h services x auth slack session_id task_id (some digest) s ≡ (ok d, t)
      → d.published ≡ true
      → Sent session_id task_id
  unfolding publish in_store
  publish_lem session_id task_id digest d s t other e sent =
      let (decision, decides, h1) = >>=-eq-ok _ _ s e in
      let (unit, observed, h2) = >>=-eq-ok _ _ _ h1 in
      let (permitted, (chunks, notified)) = deliver_if_lem decision digest d _ t h2 sent in
      record {
        digest = digest;
        not_ascii = other;
        before = s.world;
        decision = decision;
        decides = decides;
        permits = permitted;
        past = _;
        chunks = chunks;
        notified = notified;
      }

  -- What is published was written by a run that exited with 0.
  pub sent_lem :
      (workspace session_id task_id : String) (finished : Finished) (digest : Option String)
      (d : Delivery) (s read before t : Surroundings)
      → in_system (digest_of_run x workspace finished) s ≡ (ok digest, read)
      → publish h services x auth slack session_id task_id digest before ≡ (ok d, t)
      → d.published ≡ true
      → (finished.exit_code ≡ pos 0) × Sent session_id task_id
  sent_lem workspace session_id task_id finished none d s read before t written e sent =
      absurd (unfold publish pure in cc (e, sent))
  sent_lem workspace session_id task_id finished (some digest) d s read before t written e sent =
      let (zeroed, other) =
        digest_of_run_lem x workspace digest finished s.history read.history
          (in_system_lem (digest_of_run x workspace finished) (some digest) s read written) in
      (
        is_zero_lem finished.exit_code zeroed,
        publish_lem session_id task_id digest d before t other e sent,
      )
