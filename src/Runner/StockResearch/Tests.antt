-- ===== src/Runner/StockResearch/Tests.antt =====
-- The theorems at services whose proxy cannot be reached, and at services that answer.
use mathlib.Core.List.{List, [], ◌∷◌}
use mimi_agent.Base.{◌≡◌, refl, false, none, some, string_eq, nat_eq}
use mimi_agent.Base.Dict.{lookup}
use mimi_agent.Base.Exec.{Error, ok, err, ◌>>=◌, try_else, pure, raise, lift}
use mimi_agent.Str.{prefix}
use mimi_agent.Security.PolicyEngine.{allowed}
use mimi_agent.Db.Tables.{empty_database, has_key}
use mimi_agent.Db.Repository.{
  Host, World, new_id, iso_now, execute, insert_event, record_tool_event, insert_document,
  record_document,
}
use mimi_agent.Runner.Gate.{
  Post, Call, Services, AuthProxyClient, decision_of, utf8_length, ask_proxy, authorize_remote,
  authorize, run_pre_tool_use, run_post_tool_use, initialize_client, call_tool, after_call,
  perform_call, gated_call, read_reply, reply_of,
}
use mimi_agent.Runner.StockResearch.{
  Dumps, StockResearchResult, signal_request, render_stock_research_memo, call_jq_tool, signal_of,
  try_collect_x_signal, write_memo, store_memo, research, run_stock_research,
}
use mimi_agent.Runner.StockResearch.Laws.{SignalOutcome, try_collect_x_signal-SignalOutcome}
use mimi_agent.Runner.StockResearch.Memo.{Memo, run_stock_research-Memo}

abbrev host : Host
host = record { new_id = λ n name. name; iso_now = λ n. "2026-01-01T00:00:00+09:00" }

abbrev unreachable : Error
unreachable = record { kind = "URLError"; message = "unreachable" }

abbrev services : Services
services = record {
  post_authorize = λ calls request. err unreachable;
  initialize = λ calls. ok tt;
  call_tool = λ calls name arguments. err unreachable;
  loads = λ text. none;
  write_text = λ calls path text. ok tt;
}

abbrev dumps : Dumps
dumps = record { row = λ row. "{}"; rows = λ rows. "[]" }

abbrev client : AuthProxyClient
client = record { base_url = "http://auth-proxy"; local_fallback_engine = none }

abbrev blank : World Call
blank = record { db = empty_database; asked = 0; calls = [] }

try_collect_x_signal-SignalOutcome_example :
    (posts : List Post) × ((try_collect_x_signal host services dumps client "sess" "task" "7203"
        blank).0
      ≡ ok posts)
    × SignalOutcome host services dumps client (signal_request "sess" "task" "7203") blank posts
try_collect_x_signal-SignalOutcome_example =
    try_collect_x_signal-SignalOutcome host services dumps client "sess" "task" "7203" blank

-- Services that allow every call and answer with no data.
abbrev reachable : Services
reachable = record {
  post_authorize = λ calls request. ok (("decision", "allow") ∷ []);
  initialize = λ calls. ok tt;
  call_tool = λ calls name arguments. ok (record { content = some "{}" ∷ []; is_error = false });
  loads = λ text. some (record { posts = []; info = []; daily_quotes = []; statements = [] });
  write_text = λ calls path text. ok tt;
}

abbrev memo : StockResearchResult
memo = record {
  code = "7203";
  path = ".data/generated/stocks/7203-2026-01-01.md";
  markdown = render_stock_research_memo dumps "7203" [] [] [] [] "2026-01-01T00:00:00+09:00";
  document_id = "doc";
}

abbrev researched : World Call
researched =
    (run_stock_research host reachable dumps client (some "http://x") "sess" "task" "7203" blank).1

returns :
    run_stock_research host reachable dumps client (some "http://x") "sess" "task" "7203" blank
    ≡ (ok memo, researched)
unfolding run_stock_research research initialize_client call_jq_tool gated_call run_pre_tool_use
    authorize authorize_remote ask_proxy decision_of perform_call call_tool after_call
    run_post_tool_use record_tool_event insert_event execute new_id iso_now reply_of read_reply
    try_collect_x_signal signal_of store_memo write_memo record_document insert_document has_key
    lookup string_eq nat_eq allowed prefix utf8_length ◌>>=◌ try_else pure raise lift
returns = refl

run_stock_research-Memo_example :
    Memo host reachable dumps client "sess" "task" "7203" memo blank researched
run_stock_research-Memo_example =
    run_stock_research-Memo host reachable dumps client (some "http://x") "sess" "task" "7203" memo
      blank researched returns
