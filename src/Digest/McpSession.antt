-- ===== src/Digest/McpSession.antt =====
-- runner/mcp_session.py: a session token for one role.
use mathlib.Core.List.{[], ◌∷◌}
use mimi_agent.Base.{
  String, ◌<>◌, Bool, true, false, not, ◌||◌, Option, none, some, ◌==◌, string_eq, if◌then◌else◌,
}
use mimi_agent.Base.Exec.{Error, Result, ok, err, Exec, lift, ◌>>=◌}
use mimi_agent.Str.{decimal}
use mimi_agent.System.{
  Request, Response, answered, http_error, unreachable, failed, History, System, shown, open_url,
}
use mimi_agent.System.JsonValue.{Value, null, flag, text, dict_of, truthy, get, found_or}
use mimi_agent.Digest.Texts.{without_slash}

pub record IssuedSession : Type 0 where
  pub token : Value
  pub ttl_seconds : Value

abbrev pub mcp_session_error : String → Error
mcp_session_error message = record { kind = "McpSessionError"; message = message }

-- `isinstance(value, int)`: truth values are integers too.
abbrev is_int : Option Value → Bool
is_int (some (Value.number n)) = true
is_int (some (flag b)) = true
is_int v = false

abbrev value_of : Option Value → Value
value_of none = null
value_of (some v) = v

module _ (x : System) where
  unfoldable pub issue_request : String → String → String → Request
  issue_request auth_proxy_url static_token role = record {
    url = without_slash auth_proxy_url <> "/session/issue";
    method = "POST";
    body = some (x.dumps (dict_of (("role", text role) ∷ [])));
    headers =
        ("Content-Type", "application/json") ∷ ("Authorization", "Bearer " <> static_token) ∷ [];
    cafile = none;
    timeout = 10;
  }

  parsed_payload : Result Value → Result Value
  parsed_payload (ok payload) = ok payload
  parsed_payload (err e) =
      if e.kind == "JSONDecodeError"
      then err (mcp_session_error ("session/issue returned invalid JSON: " <> e.message))
      else err e

  unfoldable pub issue_payload : Response → Result Value
  unfolding parsed_payload
  issue_payload (answered raw) = parsed_payload (x.loads raw)
  issue_payload (http_error code detail) =
      err (mcp_session_error ("session/issue failed: HTTP " <> decimal code))
  issue_payload (unreachable reason) = err (mcp_session_error ("session/issue failed: " <> reason))
  issue_payload (failed e) = err e

  session_in : Value → Option Value → Option Value → Result IssuedSession
  session_in payload token ttl =
      if not (truthy (found_or token null)) || not (is_int ttl)
      then err
          (mcp_session_error ("session/issue returned unexpected payload: " <> shown x payload))
      else ok (record { token = value_of token; ttl_seconds = value_of ttl })

  unfoldable pub session_of : Value → Result IssuedSession
  unfolding session_in get
  session_of payload = elim (get "token" payload) [
    | err e ↦ err e
    | ok token ↦ elim (get "ttl_seconds" payload) [
      | err e ↦ err e
      | ok ttl ↦ session_in payload token ttl
    ]
  ]

  unfoldable pub issue_session : String → String → String → Exec History IssuedSession
  unfolding issue_payload session_of issue_request
  issue_session auth_proxy_url static_token role = do
    response ← open_url x (issue_request auth_proxy_url static_token role)
    payload ← lift (issue_payload response)
    lift (session_of payload)
