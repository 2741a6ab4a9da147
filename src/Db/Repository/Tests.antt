-- ===== src/Db/Repository/Tests.antt =====
-- The store with a concrete host, and the theorems about it.
use mathlib.Core.List.{List, [], ◌∷◌}
use mimi_agent.Base.{ℕ, ◌≡◌, refl, none, some, string_eq, nat_eq}
use mimi_agent.Base.Exec.{Error, ◌>>=◌, pure, modify}
use mimi_agent.Db.Tables.{Session, Task, empty_database, has_key, update_where}
use mimi_agent.Db.Repository.{
  Host, World, new_id, iso_now, execute, insert_session, create_session, insert_task, create_task,
  insert_event, record_tool_event, set_tasks, finish_task, update_session_status,
}
use mimi_agent.Db.Repository.Integrity.{IsSound, IsSound-empty}
use mimi_agent.Db.Repository.Operations.{
  Request, create_session_of, create_task_of, tool_event_of, finish_task_of, serve_all,
  serve_all-IsSound,
}
use mimi_agent.Db.Repository.Status.{
  find_task, find_session, finish_task-find_task, update_session_status-find_session,
}

-- Each kind of row has one id, so that a second session is refused.
abbrev host : Host
host = record { new_id = λ n name. name; iso_now = λ n. "2026-01-01T00:00:00+09:00" }

abbrev blank : World ℕ
blank = record { db = empty_database; asked = 0; calls = [] }

abbrev requests : List Request
requests =
    create_session_of "cli" "collector" "" []
    ∷ create_session_of "cli" "collector" "" []
    ∷ create_task_of "sess" "collector" []
    ∷ tool_event_of "missing" (some "task") "collector" "x.search" "allow" 1 10
    ∷ finish_task_of "task" "succeeded" none none
    ∷ []

serve_all-IsSound_example : IsSound (serve_all host requests blank).db
serve_all-IsSound_example = serve_all-IsSound host requests blank IsSound-empty

abbrev served : World ℕ
served = serve_all host requests blank

abbrev task : Task
task = record {
  id = "task";
  session_id = "sess";
  role = "collector";
  status = "succeeded";
  input = [];
  output = none;
  error = none;
  created_at = "2026-01-01T00:00:00+09:00";
  finished_at = some "2026-01-01T00:00:00+09:00";
}

found : find_task "task" served.db ≡ some task
unfolding create_session create_task record_tool_event finish_task new_id iso_now insert_session
    insert_task insert_event execute set_tasks modify update_where has_key string_eq nat_eq ◌>>=◌
    pure
found = refl

abbrev timeout : Error
timeout = record { kind = "TimeoutError"; message = "late" }

finish_task-find_task_example :
    find_task "task" (finish_task host "task" "failed" none (some timeout) served).1.db
    ≡ some (record task { status = "failed"; error = some timeout })
finish_task-find_task_example =
    (finish_task-find_task host served "task" "failed" none (some timeout)).0 task found

abbrev session : Session
session = record {
  id = "sess";
  source = "cli";
  role = "collector";
  status = "created";
  workspace_path = "";
  created_at = "2026-01-01T00:00:00+09:00";
  updated_at = "2026-01-01T00:00:00+09:00";
  last_active_at = "2026-01-01T00:00:00+09:00";
  metadata = [];
}

session_found : find_session "sess" served.db ≡ some session
unfolding create_session create_task record_tool_event finish_task new_id iso_now insert_session
    insert_task insert_event execute set_tasks modify update_where has_key string_eq nat_eq ◌>>=◌
    pure
session_found = refl

update_session_status-find_session_example :
    find_session "sess" (update_session_status host "sess" "running" served).1.db
    ≡ some (record session { status = "running" })
update_session_status-find_session_example =
    (update_session_status-find_session host served "sess" "running").0 session session_found
