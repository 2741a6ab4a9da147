-- ===== src/Runner/CollectX/Tests.antt =====
-- A run with concrete services, and the theorems about it.
use mathlib.Core.List.{List, [], ◌∷◌}
use mimi_agent.Base.{◌≡◌, refl, String, false, none, some, string_eq, option_eq, nat_eq}
use mimi_agent.Base.Exec.{Result, ok, ◌>>=◌, pure, modify}
use mimi_agent.Str.{decimal}
use mimi_agent.Db.Tables.{Session, Task, empty_database, has_key, update_where}
use mimi_agent.Db.Repository.{
  Host, World, new_id, iso_now, execute, insert_session, create_session, set_sessions,
  update_session_status, insert_task, create_task, insert_item, record_research_queue_item,
}
use mimi_agent.Runner.Gate.{Post, Call, Services, AuthProxyClient}
use mimi_agent.Runner.CollectX.Calls.{searched, calls-run_collect_x}
use mimi_agent.Runner.CollectX.{role, request_of, collect_posts, record_post, run_collect_x}
use mimi_agent.Runner.CollectX.Inserted.{Added, collect_posts-Added}
use mimi_agent.Runner.CollectX.Lifecycle.{
  EndedBy, Ready, session_of, task_of, run_collect_x-EndedBy,
}
use mimi_agent.Runner.CollectX.Own.{run_collect_x-EndedBy_own}

abbrev host : Host
host = record { new_id = λ n name. decimal n; iso_now = λ n. "2026-01-01T00:00:00+09:00" }

abbrev post : String → Post
post url = record {
  url = some url;
  author_handle = some "a";
  author = none;
  like_count = some 2;
  repost_count = none;
  text_redacted = some " text ";
  text = none;
  id = some "1";
  post_id = none;
}

-- Two of the three posts have the same URL.
abbrev posts : List Post
posts = post "u1" ∷ post "u1" ∷ post "u2" ∷ []

abbrev services : Services
services = record {
  post_authorize = λ calls request. ok (("decision", "allow") ∷ []);
  initialize = λ calls. ok tt;
  call_tool = λ calls name arguments. ok (record { content = some "posts" ∷ []; is_error = false });
  loads = λ text. some (record { posts = posts; info = []; daily_quotes = []; statements = [] });
  write_text = λ calls path text. ok tt;
}

abbrev client : AuthProxyClient
client = record { base_url = "http://auth-proxy"; local_fallback_engine = none }

abbrev blank : World Call
blank = record { db = empty_database; asked = 0; calls = [] }

abbrev collected : Result (List String) × World Call
collected = collect_posts host services "7203" "now" posts [] blank

two_rows : collected ≡ (ok ("0" ∷ "2" ∷ []), collected.1)
unfolding collect_posts record_post record_research_queue_item new_id iso_now insert_item execute
    ◌>>=◌ pure string_eq nat_eq has_key decimal
two_rows = refl

collect_posts-Added_example : Added host services [] blank ("0" ∷ "2" ∷ []) collected.1
collect_posts-Added_example = collect_posts-Added host services "7203" "now" posts [] blank two_rows

abbrev after_session : World Call
after_session = (create_session host "collect-x" role "" [] blank).1

abbrev before_search : World Call
before_search =
    (create_task host "0" role (("query", "7203") ∷ ("max_results", decimal 20) ∷ [])
      (update_session_status host "0" "running" after_session).1).1

opens : create_session host "collect-x" role "" [] blank ≡ (ok "0", after_session)
unfolding create_session new_id iso_now insert_session execute has_key string_eq nat_eq decimal
    ◌>>=◌ pure
opens = refl

starts :
    create_task host "0" role
      (("query", "7203") ∷ ("max_results", decimal 20) ∷ [])
      (update_session_status host "0" "running" after_session).1
    ≡ (ok "4", before_search)
unfolding create_session new_id iso_now insert_session execute has_key string_eq nat_eq decimal
    ◌>>=◌ pure update_session_status set_sessions modify update_where create_task insert_task
starts = refl

run_collect_x-EndedBy_own_example :
    EndedBy "0" "4"
      (run_collect_x host services client none "7203" 20 none none blank).0
      (run_collect_x host services client none "7203" 20 none none blank).1.db
run_collect_x-EndedBy_own_example =
    run_collect_x-EndedBy_own host services client none "7203" 20 "0" "4" blank after_session
      before_search opens starts

abbrev stored_task : Task
stored_task = record {
  id = "task";
  session_id = "sess";
  role = role;
  status = "queued";
  input = [];
  output = none;
  error = none;
  created_at = "now";
  finished_at = none;
}

abbrev stored_session : Session
stored_session = record {
  id = "sess";
  source = "stock";
  role = role;
  status = "running";
  workspace_path = "";
  created_at = "now";
  updated_at = "2026-01-01T00:00:00+09:00";
  last_active_at = "2026-01-01T00:00:00+09:00";
  metadata = [];
}

abbrev filled : World Call
filled = record {
  db = record empty_database { sessions = stored_session ∷ []; tasks = stored_task ∷ [] };
  asked = 0;
  calls = [];
}

ready : Ready "sess" "task" (update_session_status host "sess" "running" filled).1.db
unfolding update_session_status iso_now set_sessions modify update_where string_eq nat_eq ◌>>=◌
ready = record {
  task = stored_task;
  finds_task = refl;
  session = stored_session;
  finds_session = refl;
}

session_given :
    session_of host services client (some "http://x") "7203" 20 (some "sess") filled
    ≡ (ok "sess", filled)
unfolding pure
session_given = refl

task_given :
    task_of host services client
      (some "http://x")
      "7203"
      20
      "sess"
      (some "task")
      (update_session_status host "sess" "running" filled).1
    ≡ (ok "task", (update_session_status host "sess" "running" filled).1)
unfolding pure
task_given = refl

run_collect_x-EndedBy_example :
    EndedBy "sess" "task"
      (run_collect_x host services client
        (some "http://x")
        "7203"
        20
        (some "sess")
        (some "task")
        filled).0
      (run_collect_x host services client
        (some "http://x")
        "7203"
        20
        (some "sess")
        (some "task")
        filled).1.db
run_collect_x-EndedBy_example =
    run_collect_x-EndedBy host services client (some "http://x") "7203" 20 (some "sess")
      (some "task") "sess" "task" filled filled
      (update_session_status host "sess" "running" filled).1 session_given task_given ready

calls-run_collect_x_example :
    (run_collect_x host services client
      (some "http://x")
      "7203"
      20
      (some "sess")
      (some "task")
      filled).1.calls
    ≡ searched services client (request_of "7203" 20 "sess" "task") []
unfolding update_session_status iso_now set_sessions modify ◌>>=◌
calls-run_collect_x_example =
    calls-run_collect_x host services client (some "http://x") "7203" 20 (some "sess") (some "task")
      "sess" "task" filled filled (update_session_status host "sess" "running" filled).1
      session_given task_given
