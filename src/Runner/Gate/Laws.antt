-- ===== src/Runner/Gate/Laws.antt =====
-- The gate is fail-closed: a tool is called only if the proxy, or without one the local policy, allows it.
use mathlib.Core.List.{[], ◌∷◌}
use mimi_agent.Base.{
  ℕ, ◌≡◌, ◌≢◌, refl, String, ◌<>◌, Bool, true, false, Option, none, some, List, ◌++◌, arith, ◌==◌,
  string_eq, option_eq, if◌then◌else◌, inl, inr, Bool-cases,
}
use mimi_agent.Base.Dict.{Dict, lookup}
use mimi_agent.Base.Exec.{Result, ok, err, lift, pure, ◌>>=◌, try_else, >>=-eq-ok}
use mimi_agent.Base.Exec.Keeps.{Keeps-lift, Keeps, Keeps-pure, Keeps-bind, Keeps-try_else}
use mimi_agent.Str.{is_nonempty}
use mimi_agent.Security.PolicyEngine.{PolicyDecision, allowed, decided, Policy}
use mimi_agent.Security.PolicyEngine.Laws.{permitted, allowed-decide_tool_call, block-ne-allow}
use mimi_agent.Db.Repository.{
  Host, World, new_id, iso_now, execute, insert_event, record_tool_event,
}
use mimi_agent.Runner.Gate.{
  ToolRequest, ToolResult, Call, asked_proxy, called_tool, Services, AuthProxyClient, refused,
  ask_proxy, authorize_remote, authorize_local, decision_of, authorize, run_pre_tool_use,
  run_post_tool_use, call_tool, after_call, perform_call, refuse_call, gated_call,
}

-- What the proxy's answer says: only the decision "allow" allows.
abbrev pub proxy_allows : Result (Dict String String) → Bool
proxy_allows (err e) = false
proxy_allows (ok body) = elim (lookup "decision" body) [ none ↦ false | some d ↦ d == "allow" ]

abbrev pub local_allows : Option Policy → ToolRequest → Bool
local_allows none request = false
local_allows (some policy) request =
    permitted policy (lookup request.role policy.role_tool_policy) request.tool_name
      (record { repo = lookup "repo" request.arguments; path = lookup "path" request.arguments })

abbrev pub verdict : Services → AuthProxyClient → ToolRequest → List Call → Bool
verdict x client request calls =
    if is_nonempty client.base_url
    then proxy_allows (x.post_authorize calls request)
    else local_allows client.local_fallback_engine request

-- The request to the proxy, if there is one.
abbrev pub asked : AuthProxyClient → ToolRequest → List Call
asked client request = if is_nonempty client.base_url then asked_proxy request ∷ [] else []

module _ (h : Host) (x : Services) where
  -- The calls stay as they are.
  abbrev SameCalls : List Call → World Call → Type 0
  SameCalls calls w = w.calls ≡ calls

  Keeps-insertion-calls :
      (calls : List Call) (session_id role tool decision : String) (task_id : Option String)
      (success size : ℕ)
      → Keeps
          (SameCalls calls)
          (record_tool_event h session_id task_id role tool decision success size)
  unfolding record_tool_event new_id iso_now insert_event execute ◌>>=◌
  Keeps-insertion-calls calls session_id role tool decision task_id success size = record {
    after = λ s e. ground arith;
  }

  Keeps-run_post_tool_use-calls :
      (calls : List Call) (request : ToolRequest) (decision : String) (success size : ℕ)
      → Keeps (SameCalls calls) (run_post_tool_use h x request decision success size)
  unfolding run_post_tool_use
  Keeps-run_post_tool_use-calls calls request decision success size =
      Keeps-try_else _ _ _ (Keeps-insertion-calls calls _ _ _ _ _ _ _) (λ id. Keeps-pure tt)
        (λ e. Keeps-pure tt)

  -- The authorisation returns, and its decision is the verdict.
  record Decided (client : AuthProxyClient) (request : ToolRequest) (s : World Call) : Type 0 where
    decision : PolicyDecision
    state : World Call
    ran : run_pre_tool_use h x client request s ≡ (ok decision, state)
    agrees : allowed decision ≡ verdict x client request s.calls
    calls : state.calls ≡ asked client request ++ s.calls
    db : state.db ≡ s.db

  allowed-decision_of :
      (body : Dict String String) → allowed (decision_of body) ≡ proxy_allows (ok body)
  unfolding decision_of allowed
  allowed-decision_of body = ground (arith, block-ne-allow)

  allowed-authorize_local :
      (engine : Option Policy) (request : ToolRequest)
      → allowed (authorize_local h x engine request) ≡ local_allows engine request
  unfolding authorize_local allowed
  allowed-authorize_local none request = ground (arith, block-ne-allow)
  allowed-authorize_local (some policy) request = allowed-decide_tool_call policy _ _ _

  -- The proxy's answer, by what it is.
  decide_by :
      (client : AuthProxyClient) (request : ToolRequest) (s : World Call)
      (answer : Result (Dict String String))
      → is_nonempty client.base_url ≡ true
      → x.post_authorize s.calls request ≡ answer
      → Decided client request s
  decide_by client request s (ok body) remote e = record {
    decision = decision_of body;
    state = record s { calls = asked_proxy request ∷ s.calls };
    ran =
        unfold run_pre_tool_use authorize authorize_remote ask_proxy ◌>>=◌ try_else pure in
        rw (remote, e);
    agrees = rw (remote, e) (allowed-decision_of body);
    calls = rw remote;
    db = refl;
  }
  decide_by client request s (err error) remote e = record {
    decision = decided "block" ("auth-proxy request failed: " <> error.message);
    state = record s { calls = asked_proxy request ∷ s.calls };
    ran =
        unfold run_pre_tool_use authorize authorize_remote ask_proxy ◌>>=◌ try_else pure in
        rw (remote, e);
    agrees = rw (remote, e) (unfold allowed in ground (arith, block-ne-allow));
    calls = rw remote;
    db = refl;
  }

  decide :
      (client : AuthProxyClient) (request : ToolRequest) (s : World Call) → Decided client request s
  decide client request s = elim (Bool-cases (is_nonempty client.base_url)) [
    | inl remote ↦ decide_by client request s (x.post_authorize s.calls request) remote refl
    | inr alone ↦ record {
      decision = authorize_local h x client.local_fallback_engine request;
      state = s;
      ran = unfold run_pre_tool_use authorize try_else pure in rw alone;
      agrees = rw alone (allowed-authorize_local client.local_fallback_engine request);
      calls = rw alone;
      db = refl;
    }
  ]

  Keeps-after_call-calls :
      (calls : List Call) (request : ToolRequest) (decision : PolicyDecision) (result : ToolResult)
      → Keeps (SameCalls calls) (after_call h x request decision result)
  unfolding after_call
  Keeps-after_call-calls calls request decision result =
      Keeps-bind _ _ (Keeps-run_post_tool_use-calls calls request _ _ _) (λ _. Keeps-pure _)

  calls-perform_call :
      (request : ToolRequest) (decision : PolicyDecision) (s : World Call)
      → (perform_call h x request decision s).1.calls
        ≡ called_tool request.tool_name request.arguments ∷ s.calls
  unfolding perform_call call_tool ◌>>=◌
  calls-perform_call request decision s = keeps.after called refl
    where
      called : World Call
      called = record s { calls = called_tool request.tool_name request.arguments ∷ s.calls }

      keeps : Keeps (SameCalls called.calls) (
          lift (x.call_tool s.calls request.tool_name request.arguments)
          >>= after_call h x request decision)
      keeps =
          Keeps-bind _ _ (Keeps-lift _)
            (λ result. Keeps-after_call-calls called.calls request decision result)

  calls-refuse_call :
      (request : ToolRequest) (decision : PolicyDecision) (s : World Call)
      → (refuse_call h x request decision s).1.calls ≡ s.calls
  unfolding refuse_call
  calls-refuse_call request decision s =
      (Keeps-bind _ _ (Keeps-run_post_tool_use-calls s.calls request _ _ _)
          (λ _. Keeps-pure _)).after
        s refl

  -- A guarded call asks the proxy once, if there is one, and then calls the tool once, with the
  -- arguments that were shown to the proxy, exactly when the verdict allows it: the proxy answered
  -- without an exception and with the decision "allow", or, without a proxy, there is a local policy
  -- and it permits the call.
  pub calls-gated_call :
      (client : AuthProxyClient) (request : ToolRequest) (s : World Call)
      → (gated_call h x client request s).1.calls
        ≡ (if verdict x client request s.calls
            then called_tool request.tool_name request.arguments ∷ []
            else [])
          ++ (asked client request ++ s.calls)
  unfolding gated_call ◌>>=◌
  calls-gated_call client request s =
      let d = decide client request s in
      elim (Bool-cases (allowed d.decision)) [
        | inl allow ↦
            rw (d.ran, allow, ← d.agrees, allow, ← d.calls)
              (calls-perform_call request d.decision d.state)
        | inr block ↦
            rw (d.ran, block, ← d.agrees, block, ← d.calls)
              (calls-refuse_call request d.decision d.state)
      ]

  pure_after_post :
      (request : ToolRequest) (decision : String) (success size : ℕ) (s : World Call)
      → (run_post_tool_use h x request decision success size s).0 ≡ ok tt
  unfolding run_post_tool_use record_tool_event new_id iso_now insert_event execute ◌>>=◌ try_else
      pure
  pure_after_post request decision success size s = ground arith

  -- A guarded call that the verdict does not allow returns a refusal, whatever the database says to
  -- the event that is recorded.
  pub gated_call-refused :
      (client : AuthProxyClient) (request : ToolRequest) (s : World Call)
      → verdict x client request s.calls ≡ false
      → (d : PolicyDecision) × ((gated_call h x client request s).0 ≡ ok (refused d))
        × (allowed d ≡ false)
  unfolding gated_call refuse_call ◌>>=◌ pure
  gated_call-refused client request s against =
      let d = decide client request s in
      let block : allowed d.decision ≡ false = rw (d.agrees, against) in
      (d.decision, rw (d.ran, block, pure_after_post), block)

  perform_call-refused :
      (request : ToolRequest) (decision refusal : PolicyDecision) (s t : World Call)
      → perform_call h x request decision s ≢ (ok (refused refusal), t)
  unfolding perform_call after_call pure
  perform_call-refused request decision refusal s t e =
      let (result, called, h1) = >>=-eq-ok _ _ s e in
      let (u, recorded, h2) = >>=-eq-ok _ _ _ h1 in cc h2

  -- Only a verdict against the call refuses it.
  pub gated_call-allowed :
      (client : AuthProxyClient) (request : ToolRequest) (s : World Call) (refusal : PolicyDecision)
      → (gated_call h x client request s).0 ≡ ok (refused refusal)
      → verdict x client request s.calls ≡ false
  unfolding gated_call ◌>>=◌
  gated_call-allowed client request s refusal g =
      let d = decide client request s in
      elim (Bool-cases (allowed d.decision)) [
        | inl allow ↦ absurd (
            perform_call-refused request d.decision refusal d.state _
              (λ i. (rw (d.ran, allow) at g i, (perform_call h x request d.decision d.state).1)))
        | inr block ↦ rw (← d.agrees) block
      ]
