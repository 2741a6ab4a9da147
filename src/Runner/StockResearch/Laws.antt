-- ===== src/Runner/StockResearch/Laws.antt =====
-- A run of `research stock`: what the optional signal is, and what the memo rests on.
use mathlib.Core.List.{[]}
use mimi_agent.Base.{
  ◌≡◌, refl, String, true, false, Option, none, some, List, inl, inr, Bool-cases, if◌then◌else◌,
  arith,
}
use mimi_agent.Base.Exec.{Error, Result, ok, err, lift, pure, raise, ◌>>=◌, try_else}
use mimi_agent.Str.{is_nonempty}
use mimi_agent.Db.Repository.{Host, World}
use mimi_agent.Runner.Gate.{
  ToolRequest, ToolResult, Post, Reply, Call, Services, AuthProxyClient, Gated, refused, performed,
  text_payload, gated_call, read_reply,
}
use mimi_agent.Runner.Gate.Laws.{verdict, gated_call-refused, gated_call-allowed}
use mimi_agent.Runner.StockResearch.{Dumps, signal_request, signal_of, try_collect_x_signal}

module _ (h : Host) (x : Services) (d : Dumps) where
  -- What became of the search for signals, and which posts it gives.
  pub data SignalOutcome (client : AuthProxyClient) (request : ToolRequest) (s : World Call)
      (posts : List Post) : Type 0 where
    found :
        (result : ToolResult) (reply : Reply)
        → verdict x client request s.calls ≡ true
        → (gated_call h x client request s).0 ≡ ok (performed result)
        → result.is_error ≡ false
        → x.loads (if is_nonempty (text_payload result) then text_payload result else "{}")
          ≡ some reply
        → posts ≡ reply.posts
        → SignalOutcome client request s posts
    not_allowed :
        verdict x client request s.calls ≡ false → posts ≡ [] → SignalOutcome client request s posts
    call_raised :
        (e : Error)
        → (gated_call h x client request s).0 ≡ err e
        → posts ≡ []
        → SignalOutcome client request s posts
    tool_error :
        (result : ToolResult)
        → (gated_call h x client request s).0 ≡ ok (performed result)
        → result.is_error ≡ true
        → posts ≡ []
        → SignalOutcome client request s posts
    not_json :
        (result : ToolResult)
        → (gated_call h x client request s).0 ≡ ok (performed result)
        → x.loads (if is_nonempty (text_payload result) then text_payload result else "{}") ≡ none
        → posts ≡ []
        → SignalOutcome client request s posts

  pub performed-verdict :
      (client : AuthProxyClient) (request : ToolRequest) (s : World Call) (result : ToolResult)
      → (gated_call h x client request s).0 ≡ ok (performed result)
      → verdict x client request s.calls ≡ true
  performed-verdict client request s result g =
      elim (Bool-cases (verdict x client request s.calls)) [
        | inl allow ↦ allow
        | inr against ↦
            let (decision, refusal, block) = gated_call-refused h x client request s against in
            absurd (cc (g, refusal))
      ]

  -- The posts of a guarded call that ended in a way.
  abbrev posts_after : Result Gated → World Call → Result (List Post)
  posts_after r w = (try_else (lift r >>= signal_of h x d) pure (λ e. pure []) w).0

  performed_lem :
      (client : AuthProxyClient) (request : ToolRequest) (s : World Call) (w : World Call)
      (result : ToolResult) (o : Option Reply)
      → (gated_call h x client request s).0 ≡ ok (performed result)
      → x.loads (if is_nonempty (text_payload result) then text_payload result else "{}") ≡ o
      → result.is_error ≡ false
      → (posts : List Post) × (posts_after (ok (performed result)) w ≡ ok posts)
        × SignalOutcome client request s posts
  unfolding try_else signal_of read_reply pure raise lift ◌>>=◌
  performed_lem client request s w result none g loaded fine =
      ([], ground (arith, fine, loaded), not_json result g loaded refl)
  performed_lem client request s w result (some reply) g loaded fine = (
    reply.posts,
    ground (arith, fine, loaded),
    found result reply (performed-verdict client request s result g) g fine loaded refl,
  )

  outcome_of :
      (client : AuthProxyClient) (request : ToolRequest) (s w : World Call) (r : Result Gated)
      → (gated_call h x client request s).0 ≡ r
      → (posts : List Post) × (posts_after r w ≡ ok posts) × SignalOutcome client request s posts
  unfolding try_else signal_of pure raise lift ◌>>=◌
  outcome_of client request s w (err e) g = ([], refl, call_raised e g refl)
  outcome_of client request s w (ok (refused decision)) g =
      ([], refl, not_allowed (gated_call-allowed h x client request s decision g) refl)
  outcome_of client request s w (ok (performed result)) g = elim (Bool-cases result.is_error) [
    | inl failed ↦ ([], rw failed refl, tool_error result g failed refl)
    | inr fine ↦ performed_lem client request s w result _ g refl fine
  ]

  -- The search for X signals never raises. It gives the posts of the reply if the verdict allows the call and
  -- the tool answered, without an error, what is JSON; it gives none if the verdict is against it, the call
  -- raised, the tool reported an error, or the answer is no JSON.
  pub try_collect_x_signal-SignalOutcome :
      (client : AuthProxyClient) (session task code : String) (s : World Call)
      → (posts : List Post) × ((try_collect_x_signal h x d client session task code s).0 ≡ ok posts)
        × SignalOutcome client (signal_request session task code) s posts
  unfolding try_collect_x_signal try_else ◌>>=◌ lift
  try_collect_x_signal-SignalOutcome client session task code s =
      outcome_of client (signal_request session task code) s
        (gated_call h x client (signal_request session task code) s).1 _ refl
