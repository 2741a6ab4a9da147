-- ===== src/Runner/StockResearch/Memo.antt =====
-- What a run of `research stock` that returns has written, and what it rests on.
use mathlib.Core.Path.{subst}
use mathlib.Core.List.{[], ◌∷◌}
use mimi_agent.Base.{
  ◌≡◌, refl, sym, ◌∙◌, String, true, false, not, Option, List, inl, inr, Bool-cases, arith,
}
use mimi_agent.Base.Exec.{Result, ok, pure, raise, ◌>>=◌, >>=-eq-ok}
use mimi_agent.Base.Exec.Keeps.{Keeps, Keeps-pure, Keeps-bind, Keeps-try_else}
use mimi_agent.Str.{is_nonempty}
use mimi_agent.Db.Tables.{Database}
use mimi_agent.Db.Repository.{Host, World, iso_now}
use mimi_agent.Runner.Gate.{
  ToolRequest, Post, Reply, Call, Services, AuthProxyClient, Gated, refused, performed, gated_call,
  read_reply, reply_of,
}
use mimi_agent.Runner.Gate.Laws.{verdict, gated_call-refused}
use mimi_agent.Runner.Gate.Tables.{
  SameTables, Keeps-initialize_client, Keeps-gated_call, Keeps-reply_of,
}
use mimi_agent.Runner.CollectX.{or_text}
use mimi_agent.Runner.StockResearch.{
  Dumps, StockResearchResult, stock_request, signal_request, render_stock_research_memo,
  call_jq_tool, signal_of, try_collect_x_signal, research, run_stock_research,
}
use mimi_agent.Runner.StockResearch.Stored.{Stored, paired, store_memo_lem}

module _ (h : Host) (x : Services) (d : Dumps) where
  -- A call of a J-Quants tool that the verdict allowed, and its reply.
  pub record Answered (client : AuthProxyClient) (session task tool code : String) (reply : Reply)
      : Type 0 where
    pub before : World Call
    pub allows :
        verdict x client (stock_request session task tool (("code", code) ∷ [])) before.calls ≡ true
    pub answers : (call_jq_tool h x d client session task tool code before).0 ≡ ok reply

  refused-reply :
      (client : AuthProxyClient) (request : ToolRequest) (s t : World Call) (reply : Reply)
      → verdict x client request s.calls ≡ false
      → (do gated ← gated_call h x client request; reply_of h x request gated) s ≡ (ok reply, t)
      → true ≡ false
  unfolding reply_of raise
  refused-reply client request s t reply against e =
      let (gated, g, h1) = >>=-eq-ok _ _ s e in
      let (decision, refusal, block) = gated_call-refused h x client request s against in
      absurd (
        cc (
          subst (λ o. reply_of h x request o (gated_call h x client request s).1 ≡ (ok reply, t))
            (ok_of (sym g ∙ refusal)) h1))
    where
      ok_of : {a b : Gated} → ◌≡◌ {A = Result Gated} (ok a) (ok b) → a ≡ b
      ok_of p = cc p

  call_jq_lem :
      (client : AuthProxyClient) (session task tool code : String) (s t : World Call)
      (reply : Reply)
      → call_jq_tool h x d client session task tool code s ≡ (ok reply, t)
      → verdict x client (stock_request session task tool (("code", code) ∷ [])) s.calls ≡ true
  unfolding call_jq_tool
  call_jq_lem client session task tool code s t reply e =
      elim (Bool-cases
        (verdict x client (stock_request session task tool (("code", code) ∷ [])) s.calls)) [
          | inl allow ↦ allow
          | inr against ↦ against ∙ sym (refused-reply client _ s t reply against e)
        ]

  Keeps-call_jq_tool :
      (db : Database) (client : AuthProxyClient) (session task tool code : String)
      → Keeps (SameTables db) (call_jq_tool h x d client session task tool code)
  unfolding call_jq_tool
  Keeps-call_jq_tool db client session task tool code =
      Keeps-bind _ _
        (Keeps-gated_call h x db client (stock_request session task tool (("code", code) ∷ [])))
        (λ gated.
          Keeps-reply_of h x db (stock_request session task tool (("code", code) ∷ [])) gated)

  Keeps-signal_of : (db : Database) (gated : Gated) → Keeps (SameTables db) (signal_of h x d gated)
  unfolding signal_of read_reply ◌>>=◌ pure raise
  Keeps-signal_of db (refused decision) = Keeps-pure []
  Keeps-signal_of db (performed result) = record { after = λ s same. ground (arith, same) }

  Keeps-try_collect_x_signal :
      (db : Database) (client : AuthProxyClient) (session task code : String)
      → Keeps (SameTables db) (try_collect_x_signal h x d client session task code)
  unfolding try_collect_x_signal
  Keeps-try_collect_x_signal db client session task code =
      Keeps-try_else _ _ _
        (Keeps-bind _ _ (Keeps-gated_call h x db client (signal_request session task code))
          (Keeps-signal_of db))
        (λ posts. Keeps-pure posts) (λ e. Keeps-pure [])

  Keeps-clock : (db : Database) → Keeps (SameTables db) (iso_now h)
  unfolding iso_now
  Keeps-clock db = record { after = λ s same. same }

  answered :
      (client : AuthProxyClient) (session task tool code : String) (s : World Call) (reply : Reply)
      → (call_jq_tool h x d client session task tool code s).0 ≡ ok reply
      → Answered client session task tool code reply
  answered client session task tool code s reply e = record {
    before = s;
    allows = call_jq_lem client session task tool code s _ reply (paired h x d _ e);
    answers = e;
  }

  -- The memo, and the three replies that it is made of.
  pub record Memo (client : AuthProxyClient) (session task code : String) (r : StockResearchResult)
      (s t : World Call) : Type 0 where
    pub info : Reply
    pub info_answered : Answered client session task "jq.get_listed_info" code info
    pub quotes : Reply
    pub quotes_answered : Answered client session task "jq.get_daily_quotes" code quotes
    pub statements : Reply
    pub statements_answered : Answered client session task "jq.get_statements" code statements
    pub posts : List Post
    pub fetched_at : String
    pub stored :
        Stored h x d code
          (render_stock_research_memo d code info.info quotes.daily_quotes statements.statements
            posts fetched_at)
          r
          s
          t

  Stored-since :
      {code markdown : String} {r : StockResearchResult} {s before t : World Call}
      → SameTables s.db before
      → Stored h x d code markdown r before t
      → Stored h x d code markdown r s t
  Stored-since same stored = record {
    of_markdown = stored.of_markdown;
    date = stored.date;
    of_path = stored.of_path;
    writing = stored.writing;
    written = stored.written;
    calls = stored.calls;
    drafted = record {
      row = stored.drafted.row;
      appended = rw (← same.2) stored.drafted.appended;
      of_id = stored.drafted.of_id;
      of_path = stored.drafted.of_path;
      of_status = stored.drafted.of_status;
    };
  }

  research_lem :
      (client : AuthProxyClient) (session task code : String) (r : StockResearchResult)
      (s t : World Call)
      → research h x d client session task code s ≡ (ok r, t)
      → Memo client session task code r s t
  unfolding research
  research_lem client session task code r s t e =
      let (u, opened, h1) = >>=-eq-ok _ _ s e in
      let (info, e1, h2) = >>=-eq-ok _ _ _ h1 in
      let (quotes, e2, h3) = >>=-eq-ok _ _ _ h2 in
      let (statements, e3, h4) = >>=-eq-ok _ _ _ h3 in
      let (posts, e4, h5) = >>=-eq-ok _ _ _ h4 in
      let (fetched_at, e5, h6) = >>=-eq-ok _ _ _ h5 in
      record {
        info = info;
        info_answered = answered client session task "jq.get_listed_info" code _ info e1;
        quotes = quotes;
        quotes_answered = answered client session task "jq.get_daily_quotes" code _ quotes e2;
        statements = statements;
        statements_answered = answered client session task "jq.get_statements" code _ statements e3;
        posts = posts;
        fetched_at = fetched_at;
        stored =
            Stored-since
              ((Keeps-clock s.db).after _ (
                (Keeps-try_collect_x_signal s.db client session task code).after _ (
                  (Keeps-call_jq_tool s.db client session task "jq.get_statements" code).after _ (
                    (Keeps-call_jq_tool s.db client session task "jq.get_daily_quotes" code).after _
                      ((Keeps-call_jq_tool s.db client session task "jq.get_listed_info" code).after
                        _ ((Keeps-initialize_client h x s.db).after s (refl, refl, refl)))))))
              (store_memo_lem h x d code fetched_at _ r _ t h6);
      }

  -- A run that returns has written its memo to the file that the result names, as the last thing it asked of
  -- the services, and has appended exactly one document to the store: a draft with that path and with the id
  -- of the result. The memo is rendered from the replies to three J-Quants calls, and the verdict allowed
  -- each of the three.
  pub run_stock_research-Memo :
      (client : AuthProxyClient) (url : Option String) (session task code : String)
      (r : StockResearchResult) (s t : World Call)
      → run_stock_research h x d client url session task code s ≡ (ok r, t)
      → Memo client session task code r s t
  unfolding run_stock_research raise
  run_stock_research-Memo client url session task code r s t e =
      elim (Bool-cases (not (is_nonempty (or_text url "")))) [
        | inl missing ↦ cc (rw missing at e)
        | inr given ↦ research_lem client session task code r s t (rw given at e)
      ]
