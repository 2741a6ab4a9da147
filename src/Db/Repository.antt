-- ===== src/Db/Repository.antt =====
-- db/repository.py: each method is one transaction, which fails as a whole. The ids and the clock are
-- the host's: functions of how often they were asked. JSON columns hold the values that `json.dumps`
-- is given, and the columns that no caller fills are left out.
pub mod Integrity
pub mod Operations
pub mod Status
mod Tests
use mathlib.Core.List.{[], ◌∷◌}
use mimi_agent.Base.{
  ℕ, zero, suc, ◌+◌, String, Bool, true, false, not, ◌&&◌, ◌||◌, Option, none, some, List, ◌++◌,
  keep, ◌==◌, string_eq, if◌then◌else◌,
}
use mimi_agent.Str.{text_leb}
use mimi_agent.Base.Exec.{
  Error, Result, ok, err, Exec, pure, raise, lift, gets, ◌>>=◌, ◌>>◌, modify,
}
use mimi_agent.Db.Tables.{
  Json, Session, Task, ToolEvent, QueueItem, Document, Database, has_key, update_where,
  session_exists, task_exists,
}

pub record Host : Type 0 where
  pub new_id : ℕ → String → String
  pub iso_now : ℕ → String

-- What an outer program does to its surroundings, the latest first, is of a type of its own.
pub record World (Call : Type 0) : Type 0 where
  pub db : Database
  pub asked : ℕ
  pub calls : List Call

-- `sqlite3.IntegrityError`
abbrev pub integrity_error : String → Error
integrity_error message = record { kind = "IntegrityError"; message = message }

-- The constraints that SQLite checks when a row is inserted, with `PRAGMA foreign_keys = ON`.
abbrev pub admits_session : Session → Database → Bool
admits_session row db = not (session_exists row.id db)

abbrev pub admits_task : Task → Database → Bool
admits_task row db = not (task_exists row.id db) && session_exists row.session_id db

-- A foreign key that is null refers to nothing.
abbrev pub task_reference : Option String → Database → Bool
task_reference none db = true
task_reference (some task_id) db = task_exists task_id db

abbrev pub admits_event : ToolEvent → Database → Bool
admits_event row db =
    not (has_key (λ (e : ToolEvent). e.id) row.id db.tool_events)
    && session_exists row.session_id db
    && task_reference row.task_id db

abbrev pub admits_item : QueueItem → Database → Bool
admits_item row db = not (has_key (λ (i : QueueItem). i.id) row.id db.research_queue)

abbrev pub admits_document : Document → Database → Bool
admits_document row db = not (has_key (λ (d : Document). d.id) row.id db.documents)

-- `UPDATE sessions SET status = ?, updated_at = ?, last_active_at = ?`
abbrev pub with_status : String → String → String → Session → Session
with_status status updated_at last_active_at row = record row {
  status = status;
  updated_at = updated_at;
  last_active_at = last_active_at;
}

-- `UPDATE tasks SET status = ?, output_json = ?, error_json = ?, finished_at = ?`
abbrev pub with_outcome : String → Option Json → Option Error → String → Task → Task
with_outcome status output error finished_at row = record row {
  status = status;
  output = output;
  error = error;
  finished_at = some finished_at;
}

unfoldable pub with_queue_status : Option String → List QueueItem → List QueueItem
with_queue_status none items = items
with_queue_status (some status) items = keep (λ (i : QueueItem). i.status == status) items

insert_created : QueueItem → List QueueItem → List QueueItem
insert_created item [] = item ∷ []
insert_created item (i ∷ items) =
    let rest = insert_created item items in
    if text_leb item.created_at i.created_at then item ∷ i ∷ items else i ∷ rest

unfoldable pub by_created_at : List QueueItem → List QueueItem
unfolding insert_created
by_created_at [] = []
by_created_at (i ∷ items) = insert_created i (by_created_at items)

module _ {Call : Type 0} (h : Host) where
  unfoldable pub new_id : String → Exec (World Call) String
  new_id name s = (ok (h.new_id s.asked name), record s { asked = s.asked + 1 })

  unfoldable pub iso_now : Exec (World Call) String
  iso_now s = (ok (h.iso_now s.asked), record s { asked = s.asked + 1 })

  -- A statement that succeeds changes the database; one that violates a constraint changes nothing.
  unfoldable pub execute :
      (Database → Bool) → String → (Database → Database) → Exec (World Call) (Unit {0})
  execute admits message change s =
      if admits s.db
      then (ok tt, record s { db = change s.db })
      else (err (integrity_error message), s)

  unfoldable pub insert_session : Session → Exec (World Call) (Unit {0})
  insert_session row =
      execute (admits_session row) "sessions"
        (λ db. record db { sessions = db.sessions ++ (row ∷ []) })

  unfoldable pub create_session : String → String → String → Json → Exec (World Call) String
  create_session source role workspace_path metadata = do
    session_id ← new_id "sess"
    now ← iso_now
    insert_session (record {
      id = session_id;
      source = source;
      role = role;
      status = "created";
      workspace_path = workspace_path;
      created_at = now;
      updated_at = now;
      last_active_at = now;
      metadata = metadata;
    })
    pure session_id

  -- An UPDATE that finds no row succeeds. A database that stays locked, where SQLite raises, is left out.
  unfoldable pub set_sessions : String → (Session → Session) → Exec (World Call) (Unit {0})
  set_sessions session_id change = modify (λ s. record s {
    db = record s.db {
      sessions = update_where (λ (x : Session). x.id) session_id change s.db.sessions;
    };
  })

  unfoldable pub update_session_status : String → String → Exec (World Call) (Unit {0})
  update_session_status session_id status = do
    updated_at ← iso_now
    last_active_at ← iso_now
    set_sessions session_id (with_status status updated_at last_active_at)

  unfoldable pub insert_task : Task → Exec (World Call) (Unit {0})
  insert_task row =
      execute (admits_task row) "tasks" (λ db. record db { tasks = db.tasks ++ (row ∷ []) })

  unfoldable pub create_task : String → String → Json → Exec (World Call) String
  create_task session_id role input_data = do
    task_id ← new_id "task"
    now ← iso_now
    insert_task (record {
      id = task_id;
      session_id = session_id;
      role = role;
      status = "queued";
      input = input_data;
      output = none;
      error = none;
      created_at = now;
      finished_at = none;
    })
    pure task_id

  unfoldable pub set_tasks : String → (Task → Task) → Exec (World Call) (Unit {0})
  set_tasks task_id change = modify (λ s. record s {
    db = record s.db { tasks = update_where (λ (x : Task). x.id) task_id change s.db.tasks };
  })

  unfoldable pub finish_task :
      String → String → Option Json → Option Error → Exec (World Call) (Unit {0})
  finish_task task_id status output error = do
    finished_at ← iso_now
    set_tasks task_id (with_outcome status output error finished_at)

  unfoldable pub insert_event : ToolEvent → Exec (World Call) (Unit {0})
  insert_event row =
      execute (admits_event row) "tool_events"
        (λ db. record db { tool_events = db.tool_events ++ (row ∷ []) })

  -- The event as the runners give it: with no id, version or time of its own.
  unfoldable pub record_tool_event :
      String → Option String → String → String → String → ℕ → ℕ → Exec (World Call) String
  record_tool_event session_id task_id role tool_name decision success output_size = do
    event_id ← new_id "tool"
    now ← iso_now
    insert_event (record {
      id = event_id;
      session_id = session_id;
      task_id = task_id;
      role = role;
      tool_name = tool_name;
      decision = decision;
      success = success;
      output_size = output_size;
      policy_version = "1";
      created_at = now;
    })
    pure event_id

  unfoldable pub insert_item : QueueItem → Exec (World Call) (Unit {0})
  insert_item row =
      execute (admits_item row) "research_queue"
        (λ db. record db { research_queue = db.research_queue ++ (row ∷ []) })

  unfoldable pub record_research_queue_item :
      String
      → String
      → String
      → List Json
      → ℕ
      → String
      → Option String
      → Option String
      → Option String
      → Json
      → Exec (World Call) String
  record_research_queue_item source topic reason refs score status role ticker company_name
        metadata =
      do
        item_id ← new_id "rq"
        now ← iso_now
        insert_item (record {
          id = item_id;
          source = source;
          topic = topic;
          ticker = ticker;
          company_name = company_name;
          reason = reason;
          source_refs = refs;
          score = score;
          status = status;
          assigned_role = role;
          created_at = now;
          updated_at = now;
          metadata = metadata;
        })
        pure item_id

  -- `SELECT * ... ORDER BY created_at ASC`, with or without `WHERE status = ?`. SQLite compares text by
  -- its bytes; rows of one time are given in the order of insertion.
  unfoldable pub list_research_queue : Option String → Exec (World Call) (List QueueItem)
  list_research_queue status s =
      (ok (by_created_at (with_queue_status status s.db.research_queue)), s)

  unfoldable pub insert_document : Document → Exec (World Call) (Unit {0})
  insert_document row =
      execute (admits_document row) "documents"
        (λ db. record db { documents = db.documents ++ (row ∷ []) })

  unfoldable pub record_document :
      Option String
      → String
      → String
      → String
      → String
      → List Json
      → Option String
      → Json
      → Exec (World Call) String
  record_document repo path title doc_type status source_refs commit_sha metadata = do
    doc_id ← new_id "doc"
    now ← iso_now
    insert_document (record {
      id = doc_id;
      repo = repo;
      path = path;
      title = title;
      doc_type = doc_type;
      status = status;
      source_refs = source_refs;
      commit_sha = commit_sha;
      created_at = now;
      updated_at = now;
      metadata = metadata;
    })
    pure doc_id
