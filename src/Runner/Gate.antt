-- ===== src/Runner/Gate.antt =====
-- hooks/pre_tool_use.py, hooks/post_tool_use.py and proxies/auth_proxy_client.py, with the guarded tool
-- call that runner/collect_x.py and runner/stock_research.py make in the same words. The auth-proxy and
-- the MCP server are parameters: functions of what they were asked before.
pub mod Laws
pub mod Tables
mod Tests
use Prim.Native.String.{[], ◌∷◌}
use mathlib.Core.List
use mimi_agent.Base.{
  ℕ, zero, suc, ◌+◌, String, ◌<>◌, code, Bool, true, false, not, Option, none, some, List, ltb,
  ◌==◌, string_eq, if◌then◌else◌,
}
use mimi_agent.Base.Dict.{Dict, lookup}
use mimi_agent.Base.Exec.{
  Error, Result, ok, err, Exec, pure, raise, lift, gets, ◌>>=◌, ◌>>◌, try_else,
}
use mimi_agent.Str.{is_nonempty}
use mimi_agent.Security.PolicyEngine.{PolicyDecision, allowed, decided, Policy, decide_tool_call}
use mimi_agent.Db.Tables.{Json}
use mimi_agent.Db.Repository.{Host, World, record_tool_event}

-- `PreToolUseInput`, which is also the body of the request to the auth-proxy.
pub record ToolRequest : Type 0 where
  pub session_id : String
  pub task_id : String
  pub role : String
  pub tool_name : String
  pub arguments : Json

-- What was asked of the services.
pub data Call : Type 0 where
  asked_proxy : ToolRequest → Call
  initialized : Call
  called_tool : String → Json → Call
  wrote_file : String → String → Call

-- A post of an X search.
pub record Post : Type 0 where
  pub url : Option String
  pub author_handle : Option String
  pub author : Option String
  pub like_count : Option ℕ
  pub repost_count : Option ℕ
  pub text_redacted : Option String
  pub text : Option String
  pub id : Option String
  pub post_id : Option String

-- The entries of a tool's JSON answer that the program reads: a missing or null one is empty. Each is the list
-- of objects that the tools document; an answer of another shape is left out.
pub record Reply : Type 0 where
  pub posts : List Post
  pub info : List Json
  pub daily_quotes : List Json
  pub statements : List Json

-- A tool's result: the texts of its content, and `isError`.
pub record ToolResult : Type 0 where
  pub content : List (Option String)
  pub is_error : Bool

-- The auth-proxy's answer is the JSON object of its body; `loads` is `json.loads`, and `write_text` writes
-- a file below the program's root.
pub record Services : Type 0 where
  pub post_authorize : List Call → ToolRequest → Result (Dict String String)
  pub initialize : List Call → Result (Unit {0})
  pub call_tool : List Call → String → Json → Result ToolResult
  pub loads : String → Option Reply
  pub write_text : List Call → String → String → Result (Unit {0})

pub record AuthProxyClient : Type 0 where
  pub base_url : String
  pub local_fallback_engine : Option Policy

abbrev pub Program : Type 0 → Type 0
Program A = Exec (World Call) A

abbrev pub runtime_error : String → Error
runtime_error message = record { kind = "RuntimeError"; message = message }

abbrev pub permission_error : String → Error
permission_error message = record { kind = "PermissionError"; message = message }

-- `body.get(key, default)`
abbrev get_or : Option String → String → String
get_or none default = default
get_or (some s) default = s

unfoldable pub decision_of : Dict String String → PolicyDecision
decision_of body = record {
  decision = get_or (lookup "decision" body) "block";
  reason = get_or (lookup "reason" body) "missing reason in auth-proxy response";
  policy_version = get_or (lookup "policy_version" body) "unknown";
}

-- `len(text.encode("utf-8"))`
unfoldable pub utf8_length : String → ℕ
utf8_length [] = 0
utf8_length (c ∷ s) =
    let n = code c in
    (if ltb n 128 then 1 else if ltb n 2048 then 2 else if ltb n 65536 then 3 else 4)
    + utf8_length s

-- `(result.get("content") or [{}])[0].get("text", "")`. An entry without a text is `none`; one whose text
-- is null, which the source fails to encode, is left out.
abbrev pub text_payload : ToolResult → String
text_payload result = elim result.content [
  | List.[] ↦ ""
  | List.◌∷◌ none rest ↦ ""
  | List.◌∷◌ (some text) rest ↦ text
]

-- An authorised call: the decision and what the tool gave.
pub data Gated : Type 0 where
  refused : PolicyDecision → Gated
  performed : ToolResult → Gated

module _ (h : Host) (x : Services) where
  unfoldable pub ask_proxy : ToolRequest → Program (Dict String String)
  ask_proxy request s = (
    x.post_authorize s.calls request,
    record s { calls = List.◌∷◌ (asked_proxy request) s.calls },
  )

  unfoldable pub authorize_remote : ToolRequest → Program PolicyDecision
  authorize_remote request = do body ← ask_proxy request; pure (decision_of body)

  -- Without a proxy the local engine decides, and without that nothing is allowed.
  authorize_local : Option Policy → ToolRequest → PolicyDecision
  authorize_local none request =
      decided "block" "no auth-proxy configured and no local policy engine available"
  authorize_local (some policy) request =
      decide_tool_call policy request.role request.tool_name
        (record { repo = lookup "repo" request.arguments; path = lookup "path" request.arguments })

  unfoldable pub authorize : AuthProxyClient → ToolRequest → Program PolicyDecision
  unfolding authorize_remote authorize_local ask_proxy decision_of
  authorize client request =
      if is_nonempty client.base_url
      then try_else (authorize_remote request) pure
          (λ e. pure (decided "block" ("auth-proxy request failed: " <> e.message)))
      else pure (authorize_local client.local_fallback_engine request)

  -- Fail-closed.
  unfoldable pub run_pre_tool_use : AuthProxyClient → ToolRequest → Program PolicyDecision
  run_pre_tool_use client request =
      try_else (authorize client request) pure
        (λ e. pure (decided "block" ("auth authorization failed: " <> e.message)))

  -- Fail-open.
  unfoldable pub run_post_tool_use : ToolRequest → String → ℕ → ℕ → Program (Unit {0})
  run_post_tool_use request decision success output_size =
      try_else
        (record_tool_event h request.session_id (some request.task_id) request.role
          request.tool_name decision success output_size)
        (λ id. pure tt) (λ e. pure tt)

  unfoldable pub initialize_client : Program (Unit {0})
  initialize_client s = (x.initialize s.calls, record s { calls = List.◌∷◌ initialized s.calls })

  unfoldable pub call_tool : String → Json → Program ToolResult
  call_tool name arguments s = (
    x.call_tool s.calls name arguments,
    record s { calls = List.◌∷◌ (called_tool name arguments) s.calls },
  )

  -- The event of a call that returned.
  unfoldable pub after_call : ToolRequest → PolicyDecision → ToolResult → Program Gated
  after_call request decision result = do
    run_post_tool_use request decision.decision (if result.is_error then 0 else 1)
        (utf8_length (text_payload result))
    pure (performed result)

  -- What is done once the call is allowed.
  unfoldable pub perform_call : ToolRequest → PolicyDecision → Program Gated
  perform_call request decision = do
    result ← call_tool request.tool_name request.arguments
    after_call request decision result

  unfoldable pub refuse_call : ToolRequest → PolicyDecision → Program Gated
  refuse_call request decision = do
    run_post_tool_use request decision.decision 0 0
    pure (refused decision)

  -- The decision, the call if it is allowed, and the event of either.
  unfoldable pub gated_call : AuthProxyClient → ToolRequest → Program Gated
  gated_call client request = do
    decision ← run_pre_tool_use client request
    if not (allowed decision) then refuse_call request decision else perform_call request decision

  -- `json.loads(text_payload or "{}")`
  unfoldable pub read_reply : String → String → Program Reply
  read_reply tool_name text = elim (x.loads (if is_nonempty text then text else "{}")) [
    | none ↦ raise (runtime_error (tool_name <> " returned invalid JSON"))
    | some reply ↦ pure reply
  ]

  -- What is raised on a refusal or on the tool's own error.
  unfoldable pub reply_of : ToolRequest → Gated → Program Reply
  reply_of request (refused decision) = raise (permission_error decision.reason)
  reply_of request (performed result) =
      if result.is_error
      then raise (runtime_error (request.tool_name <> (" failed: " <> text_payload result)))
      else read_reply request.tool_name (text_payload result)
