-- ===== src/Runner/Gate/Tests.antt =====
-- Services with fixed answers, and the theorems of the gate at them.
use mathlib.Core.List.{[], ◌∷◌}
use mimi_agent.Base.{◌≡◌, refl, false, none, some, ◌++◌, string_eq, if◌then◌else◌}
use mimi_agent.Base.Dict.{lookup}
use mimi_agent.Base.Exec.{ok}
use mimi_agent.Security.PolicyEngine.{PolicyDecision, allowed}
use mimi_agent.Db.Tables.{empty_database}
use mimi_agent.Db.Repository.{Host, World}
use mimi_agent.Runner.Gate.{
  ToolRequest, Call, called_tool, Services, AuthProxyClient, refused, gated_call,
}
use mimi_agent.Runner.Gate.Laws.{verdict, asked, calls-gated_call, gated_call-refused}

abbrev host : Host
host = record { new_id = λ n name. name; iso_now = λ n. "2026-01-01T00:00:00+09:00" }

-- A proxy that blocks, and a tool that would answer.
abbrev services : Services
services = record {
  post_authorize = λ calls request. ok (("decision", "block") ∷ ("reason", "quota") ∷ []);
  initialize = λ calls. ok tt;
  call_tool = λ calls name arguments. ok (record { content = some "{}" ∷ []; is_error = false });
  loads = λ text. none;
  write_text = λ calls path text. ok tt;
}

abbrev client : AuthProxyClient
client = record { base_url = "http://auth-proxy"; local_fallback_engine = none }

abbrev request : ToolRequest
request = record {
  session_id = "sess";
  task_id = "task";
  role = "x_collector";
  tool_name = "x.search_posts_recent";
  arguments = ("query", "7203") ∷ [];
}

abbrev blank : World Call
blank = record { db = empty_database; asked = 0; calls = [] }

calls-gated_call_example :
    (gated_call host services client request blank).1.calls
    ≡ (if verdict services client request []
        then called_tool "x.search_posts_recent" (("query", "7203") ∷ []) ∷ []
        else [])
      ++ (asked client request ++ [])
calls-gated_call_example = calls-gated_call host services client request blank

blocked : verdict services client request [] ≡ false
unfolding lookup string_eq
blocked = refl

gated_call-refused_example :
    (d : PolicyDecision) × ((gated_call host services client request blank).0 ≡ ok (refused d))
    × (allowed d ≡ false)
gated_call-refused_example = gated_call-refused host services client request blank blocked
