-- ===== src/Runner/StockResearch.antt =====
-- runner/stock_research.py: `research stock <code>`, which writes a memo on one stock.
pub mod Laws
pub mod Memo
pub mod Stored
mod Tests
use mathlib.Core.List.{[], ◌∷◌}
use mimi_agent.Base.{
  ℕ, zero, suc, ◌-◌, String, ◌<>◌, Bool, true, false, not, Option, none, some, List, ◌++◌, map,
  take, length, string_eq, if◌then◌else◌,
}
use mimi_agent.Base.Exec.{
  Error, Result, ok, err, Exec, pure, raise, lift, gets, ◌>>=◌, ◌>>◌, try_else,
}
use mimi_agent.Str.{is_nonempty, strip, prefix, join}
use mimi_agent.Db.Tables.{Json}
use mimi_agent.Db.Repository.{Host, World, iso_now, record_document}
use mimi_agent.Runner.Gate.{
  ToolRequest, ToolResult, Post, Reply, Services, AuthProxyClient, Program, Gated, refused,
  performed, Call, wrote_file, runtime_error, text_payload, initialize_client, gated_call,
  read_reply, reply_of,
}
use mimi_agent.Runner.CollectX.{or_text}

-- `json.dumps(value, ensure_ascii=False, indent=2)` of a row and of a list of rows.
pub record Dumps : Type 0 where
  pub row : Json → String
  pub rows : List Json → String

pub record StockResearchResult : Type 0 where
  pub code : String
  pub path : String
  pub markdown : String
  pub document_id : String

abbrev pub stock_request : String → String → String → Json → ToolRequest
stock_request session_id task_id tool_name arguments = record {
  session_id = session_id;
  task_id = task_id;
  role = "stock_researcher";
  tool_name = tool_name;
  arguments = arguments;
}

abbrev pub signal_request : String → String → String → ToolRequest
signal_request session_id task_id code =
    stock_request session_id task_id "x.search_posts_recent"
      (("query", code <> " 株") ∷ ("max_results", "10") ∷ [])

drop : ℕ → List Json → List Json
drop zero rows = rows
drop (suc n) [] = []
drop (suc n) (row ∷ rows) = drop n rows

-- `rows[-5:]`
abbrev last_five : List Json → List Json
last_five rows = drop (length rows - 5) rows

abbrev json_block : String → List String
json_block text = "```json" ∷ text ∷ "```" ∷ []

abbrev no_data : List String
no_data = "(データなし)" ∷ []

info_lines : Dumps → List Json → List String
info_lines d [] = no_data
info_lines d (row ∷ rows) = json_block (d.row row)

quote_lines : Dumps → List Json → List String
quote_lines d [] = no_data
quote_lines d (row ∷ rows) = json_block (d.rows (last_five (row ∷ rows)))

statement_lines : Dumps → List Json → List String
statement_lines d [] = no_data
statement_lines d (row ∷ rows) = json_block (d.rows (row ∷ rows))

post_line : Post → String
post_line post =
    "- " <> (strip (or_text post.text_redacted "") <> (" (" <> (or_text post.url "" <> ")")))

signal_lines : List Post → List String
signal_lines [] = "(収集なし、または未確認)" ∷ []
signal_lines (post ∷ posts) =
    "X ポストは signal であり、evidence として扱わないこと。" ∷ "" ∷ map post_line (take 5 (post ∷ posts))

unfoldable pub render_stock_research_memo :
    Dumps → String → List Json → List Json → List Json → List Post → String → String
unfolding info_lines quote_lines statement_lines signal_lines post_line drop
render_stock_research_memo d code info quotes statements posts fetched_at = join "\n" (
    ("---"
      ∷ ("title: Stock Research Memo - " <> code)
      ∷ ("code: " <> code)
      ∷ "generated_by: 7mimi-agent"
      ∷ "role: stock_researcher"
      ∷ "source_policy: x_is_signal_not_evidence"
      ∷ "---"
      ∷ ""
      ∷ ("# Stock Research Memo - " <> code)
      ∷ ""
      ∷ "## 基本情報"
      ∷ ""
      ∷ [])
    ++ info_lines d info
    ++ ("" ∷ "## 株価" ∷ "" ∷ [])
    ++ quote_lines d quotes
    ++ ("" ∷ "## 財務" ∷ "" ∷ [])
    ++ statement_lines d statements
    ++ ("" ∷ "## Xシグナル(未確認)" ∷ "" ∷ [])
    ++ signal_lines posts
    ++ (""
        ∷ "## 取得時刻・出典"
        ∷ ""
        ∷ ("- 取得時刻: " <> fetched_at)
        ∷ "- 出典: J-Quants API (jq.get_listed_info / jq.get_daily_quotes / jq.get_statements)"
        ∷ ""
        ∷ []))

abbrev pub memo_path : String → String → String
memo_path code date = ".data/generated/stocks/" <> (code <> ("-" <> (date <> ".md")))

abbrev pub missing_url : Error
missing_url = runtime_error "X_MCP_URL is not set; cannot reach the J-Quants /mcp endpoint"

module _ (h : Host) (x : Services) (d : Dumps) where
  unfoldable pub call_jq_tool : AuthProxyClient → String → String → String → String → Program Reply
  call_jq_tool client session_id task_id tool_name code = do
    gated ← gated_call h x client (stock_request session_id task_id tool_name (("code", code) ∷ []))
    reply_of h x (stock_request session_id task_id tool_name (("code", code) ∷ [])) gated

  unfoldable pub signal_of : Gated → Program (List Post)
  signal_of (refused decision) = pure []
  signal_of (performed result) =
      if result.is_error
      then pure []
      else do reply ← read_reply h x "x.search_posts_recent" (text_payload result); pure reply.posts

  -- Whatever is raised, there is a list, maybe an empty one.
  unfoldable pub try_collect_x_signal :
      AuthProxyClient → String → String → String → Program (List Post)
  try_collect_x_signal client session_id task_id code =
      try_else
        (do gated ← gated_call h x client (signal_request session_id task_id code); signal_of gated)
        pure (λ e. pure [])

  unfoldable pub write_memo : String → String → Program (Unit {0})
  write_memo path markdown s =
      (x.write_text s.calls path markdown, record s { calls = wrote_file path markdown ∷ s.calls })

  -- The memo is written and its document recorded. The date is the first part of a time.
  unfoldable pub store_memo : String → String → String → Program StockResearchResult
  store_memo code fetched_at markdown = do
    now ← iso_now h
    write_memo (memo_path code (prefix 10 now)) markdown
    document_id ←
        record_document h none (memo_path code (prefix 10 now)) ("Stock Research Memo - " <> code)
          "stock_research_memo" "draft" ((("type", "jquants") ∷ ("code", code) ∷ []) ∷ []) none
          (("code", code) ∷ ("fetched_at", fetched_at) ∷ [])
    pure (record {
      code = code;
      path = memo_path code (prefix 10 now);
      markdown = markdown;
      document_id = document_id;
    })

  -- What follows the test of the URL.
  unfoldable pub research : AuthProxyClient → String → String → String → Program StockResearchResult
  research client session_id task_id code = do
    initialize_client h x
    listed_info ← call_jq_tool client session_id task_id "jq.get_listed_info" code
    daily_quotes ← call_jq_tool client session_id task_id "jq.get_daily_quotes" code
    statements ← call_jq_tool client session_id task_id "jq.get_statements" code
    x_posts ← try_collect_x_signal client session_id task_id code
    fetched_at ← iso_now h
    store_memo code fetched_at (
        render_stock_research_memo d code listed_info.info daily_quotes.daily_quotes
          statements.statements x_posts fetched_at)

  unfoldable pub run_stock_research :
      AuthProxyClient → Option String → String → String → String → Program StockResearchResult
  run_stock_research client mcp_url session_id task_id code =
      if not (is_nonempty (or_text mcp_url ""))
      then raise missing_url
      else research client session_id task_id code
