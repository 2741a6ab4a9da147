-- ===== src/Runner/CollectX/Lifecycle.antt =====
-- How the task and the session of a run end.
use mathlib.Core.List.{[], ◌∷◌}
use mimi_agent.Base.{ℕ, ◌≡◌, refl, sym, ◌∙◌, String, Option, none, some, List, arith, string_eq}
use mimi_agent.Base.Exec.{Error, Result, ok, err, recover, pure, raise, ◌>>=◌, try_else, modify}
use mimi_agent.Str.{decimal}
use mimi_agent.Db.Tables.{Session, Task, Database, update_where}
use mimi_agent.Db.Repository.{
  Host, World, iso_now, set_tasks, set_sessions, finish_task, update_session_status, create_session,
  create_task,
}
use mimi_agent.Db.Repository.Status.{
  find_task, find_session, apply_to, find_row, find_row-update_where, found-update_where,
}
use mimi_agent.Runner.Gate.{Call, Services, AuthProxyClient, Program}
use mimi_agent.Runner.Gate.Tables.{SameTables}
use mimi_agent.Runner.CollectX.{
  CollectXResult, role, collect, fail_run, finish_run, or_create, run_collect_x,
}
use mimi_agent.Runner.CollectX.Laws.{Keeps-collect}

-- The task and the session, if they exist, have these statuses.
abbrev pub Ended : String → String → String → String → Database → Type 0
Ended session_id task_id session_status task_status db =
    ((t : Task) → find_task task_id db ≡ some t → t.status ≡ task_status)
    × ((r : Session) → find_session session_id db ≡ some r → r.status ≡ session_status)

-- A row that was just updated is the old one, changed.
pub updated :
    {A : Type 0} (key : A → String) (k : String) (f : A → A) (rows : List A) (row : A)
    → ((a : A) → key (f a) ≡ key a)
    → find_row key k (update_where key k f rows) ≡ some row
    → (a : A) × (row ≡ f a)
updated {A} key k f rows row same h =
    by_found (find_row key k rows)
      (sym (find_row-update_where key k k f rows same ∙ ground arith) ∙ h)
  where
    by_found : (o : Option A) → apply_to f o ≡ some row → (a : A) × (row ≡ f a)
    by_found none e = absurd (cc e)
    by_found (some a) e = (a, ground arith)

-- The task and the session are found, with these statuses.
pub record Found (session_id task_id session_status task_status : String) (db : Database)
    : Type 0 where
  pub task : Task
  pub finds_task : find_task task_id db ≡ some task
  pub of_task : task.status ≡ task_status
  pub session : Session
  pub finds_session : find_session session_id db ≡ some session
  pub of_session : session.status ≡ session_status

-- A run that returned has succeeded and stopped its session; one that raised has failed both.
abbrev pub EndedBy : String → String → Result CollectXResult → Database → Type 0
EndedBy session_id task_id (ok r) db = Found session_id task_id "stopped" "succeeded" db
EndedBy session_id task_id (err e) db = Found session_id task_id "failed" "failed" db

-- Both rows are there.
pub record Ready (session_id task_id : String) (db : Database) : Type 0 where
  pub task : Task
  pub finds_task : find_task task_id db ≡ some task
  pub session : Session
  pub finds_session : find_session session_id db ≡ some session

moved :
    {session_id task_id : String} {db : Database} (w : World Call)
    → SameTables db w
    → Ready session_id task_id db
    → Ready session_id task_id w.db
moved {session_id} {task_id} w same o = record {
  task = o.task;
  finds_task = rw same.1 o.finds_task;
  session = o.session;
  finds_session = rw same.0 o.finds_session;
}

module _ (h : Host) (x : Services) (session_id task_id : String) where
  finish_run-EndedBy :
      (query : String) (ids : List String) (s : World Call)
      → Ready session_id task_id s.db
      → EndedBy session_id task_id
          (finish_run h x query session_id task_id ids s).0
          (finish_run h x query session_id task_id ids s).1.db
  unfolding finish_run finish_task update_session_status iso_now set_tasks set_sessions modify ◌>>=◌
      pure
  finish_run-EndedBy query ids s o = record {
    task = _;
    finds_task =
        found-update_where (λ (t : Task). t.id) task_id _ s.db.tasks o.task (λ a. refl)
          o.finds_task;
    of_task = refl;
    session = _;
    finds_session =
        found-update_where (λ (r : Session). r.id) session_id _ s.db.sessions o.session (λ a. refl)
          o.finds_session;
    of_session = refl;
  }

  fail_run-EndedBy :
      (error : Error) (s : World Call)
      → Ready session_id task_id s.db
      → EndedBy session_id task_id
          (fail_run h x session_id task_id error s).0
          (fail_run h x session_id task_id error s).1.db
  unfolding fail_run finish_task update_session_status iso_now set_tasks set_sessions modify ◌>>=◌
      raise
  fail_run-EndedBy error s o = record {
    task = _;
    finds_task =
        found-update_where (λ (t : Task). t.id) task_id _ s.db.tasks o.task (λ a. refl)
          o.finds_task;
    of_task = refl;
    session = _;
    finds_session =
        found-update_where (λ (r : Session). r.id) session_id _ s.db.sessions o.session (λ a. refl)
          o.finds_session;
    of_session = refl;
  }

  EndedBy-recover :
      (query : String) (r : Result (List String)) (s : World Call)
      → Ready session_id task_id s.db
      → EndedBy session_id task_id
          (recover r
            (finish_run h x query session_id task_id)
            (fail_run h x session_id task_id)
            s).0
          (recover r
            (finish_run h x query session_id task_id)
            (fail_run h x session_id task_id)
            s).1.db
  EndedBy-recover query (ok ids) s o = finish_run-EndedBy query ids s o
  EndedBy-recover query (err e) s o = fail_run-EndedBy e s o

module _ (h : Host) (x : Services) (client : AuthProxyClient) (url : Option String) (query : String)
    (n : ℕ) where
  -- The session of a run, given or created, and its task.
  abbrev pub session_of : Option String → Program String
  session_of session = or_create h x session (create_session h "collect-x" role "" [])

  abbrev pub task_of : String → Option String → Program String
  task_of session_id task =
      or_create h x task
        (create_task h session_id role (("query", query) ∷ ("max_results", decimal n) ∷ []))

  -- A run whose session and task are found when the search begins, whether they were given or created,
  -- leaves them with these statuses: if it returns, the task has succeeded and the session is stopped; if it
  -- raises, both have failed.
  pub run_collect_x-EndedBy :
      (session task : Option String) (session_id task_id : String) (s begun ready : World Call)
      → session_of session s ≡ (ok session_id, begun)
      → task_of session_id task (update_session_status h session_id "running" begun).1
        ≡ (ok task_id, ready)
      → Ready session_id task_id ready.db
      → EndedBy session_id task_id
          (run_collect_x h x client url query n session task s).0
          (run_collect_x h x client url query n session task s).1.db
  unfolding run_collect_x update_session_status iso_now set_sessions modify ◌>>=◌ try_else pure
  run_collect_x-EndedBy session task session_id task_id s begun ready opens starts o =
      let collected = collect h x client url query n session_id task_id ready in
      let same =
        (Keeps-collect h x ready.db client url query n session_id task_id).after ready
          (refl, refl, refl) in
      rw (opens, starts)
        (EndedBy-recover h x session_id task_id query collected.0 collected.1
          (moved collected.1 same o))
