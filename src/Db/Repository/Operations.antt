-- ===== src/Db/Repository/Operations.antt =====
-- Every method keeps the constraints, whether it returns or raises, and so does any history of calls.
use mathlib.Core.List.{[], ◌∷◌}
use mimi_agent.Base.{ℕ, ◌≡◌, refl, String, Bool, true, Option, List, inl, inr, Bool-cases}
use mimi_agent.Base.Exec.{Exec, Error, pure, ◌>>=◌, ◌>>◌}
use mimi_agent.Base.Exec.Keeps.{Keeps, Keeps-pure, Keeps-bind, Keeps-modify}
use mimi_agent.Db.Tables.{Json, Session, Task, ToolEvent, QueueItem, Document, Database}
use mimi_agent.Db.Repository.{
  Host, World, admits_session, admits_task, admits_event, admits_item, admits_document, with_status,
  with_outcome, new_id, iso_now, execute, insert_session, create_session, set_sessions,
  update_session_status, insert_task, create_task, set_tasks, finish_task, insert_event,
  record_tool_event, insert_item, record_research_queue_item, list_research_queue, insert_document,
  record_document,
}
use mimi_agent.Db.Repository.Integrity.{
  IsSound, IsSound-session, IsSound-task, IsSound-event, IsSound-item, IsSound-document,
  IsSound-set_sessions, IsSound-set_tasks,
}

-- The methods, with their arguments.
pub data Request : Type 0 where
  create_session_of : String → String → String → Json → Request
  update_session_status_of : String → String → Request
  create_task_of : String → String → Json → Request
  finish_task_of : String → String → Option Json → Option Error → Request
  tool_event_of : String → Option String → String → String → String → ℕ → ℕ → Request
  queue_item_of :
      String
      → String
      → String
      → List Json
      → ℕ
      → String
      → Option String
      → Option String
      → Option String
      → Json
      → Request
  document_of :
      Option String → String → String → String → String → List Json → Option String → Json → Request
  list_queue_of : Option String → Request

module _ {Call : Type 0} (h : Host) where
  abbrev pub SoundWorld : World Call → Type 0
  SoundWorld w = IsSound w.db

  -- One call, whatever it returns or raises.
  abbrev pub serve : Request → World Call → World Call
  serve (create_session_of source role path metadata) w =
      (create_session h source role path metadata w).1
  serve (update_session_status_of session_id status) w =
      (update_session_status h session_id status w).1
  serve (create_task_of session_id role input) w = (create_task h session_id role input w).1
  serve (finish_task_of task_id status output error) w =
      (finish_task h task_id status output error w).1
  serve (tool_event_of session_id task_id role tool decision success size) w =
      (record_tool_event h session_id task_id role tool decision success size w).1
  serve (queue_item_of source topic reason refs score status role ticker company metadata) w =
      (record_research_queue_item h source topic reason refs score status role ticker company
        metadata w).1
  serve (document_of repo path title doc_type status refs sha metadata) w =
      (record_document h repo path title doc_type status refs sha metadata w).1
  serve (list_queue_of status) w = (list_research_queue h status w).1

  abbrev pub serve_all : List Request → World Call → World Call
  serve_all [] w = w
  serve_all (r ∷ rs) w = serve_all rs (serve r w)

  Keeps-new_id : (name : String) → Keeps SoundWorld (new_id h name)
  unfolding new_id
  Keeps-new_id name = record { after = λ s d. d }

  pub Keeps-iso_now : Keeps SoundWorld (iso_now h)
  unfolding iso_now
  Keeps-iso_now = record { after = λ s d. d }

  Keeps-execute :
      (admits : Database → Bool) (message : String) (change : Database → Database)
      → ((db : Database) → admits db ≡ true → IsSound db → IsSound (change db))
      → Keeps SoundWorld (execute h admits message change)
  unfolding execute
  Keeps-execute admits message change keep = record {
    after = λ s d. elim (Bool-cases (admits s.db)) [
      | inl admitted ↦ rw admitted (keep s.db admitted d)
      | inr refused ↦ rw refused d
    ];
  }

  Keeps-insert_session : (row : Session) → Keeps SoundWorld (insert_session h row)
  unfolding insert_session
  Keeps-insert_session row = Keeps-execute (admits_session row) _ _ (IsSound-session row)

  Keeps-insert_task : (row : Task) → Keeps SoundWorld (insert_task h row)
  unfolding insert_task
  Keeps-insert_task row = Keeps-execute (admits_task row) _ _ (IsSound-task row)

  Keeps-insert_event : (row : ToolEvent) → Keeps SoundWorld (insert_event h row)
  unfolding insert_event
  Keeps-insert_event row = Keeps-execute (admits_event row) _ _ (IsSound-event row)

  Keeps-insert_item : (row : QueueItem) → Keeps SoundWorld (insert_item h row)
  unfolding insert_item
  Keeps-insert_item row = Keeps-execute (admits_item row) _ _ (IsSound-item row)

  Keeps-insert_document : (row : Document) → Keeps SoundWorld (insert_document h row)
  unfolding insert_document
  Keeps-insert_document row = Keeps-execute (admits_document row) _ _ (IsSound-document row)

  -- A method draws an id and the time, inserts a row made of them, and returns the id.
  Keeps-insertion :
      (name : String) (insert : String → String → Exec (World Call) (Unit {0}))
      → ((id now : String) → Keeps SoundWorld (insert id now))
      → Keeps SoundWorld (do id ← new_id h name; now ← iso_now h; insert id now; pure id)
  Keeps-insertion name insert keep = Keeps-bind _ _ (Keeps-new_id name) (λ id.
      Keeps-bind _ _ Keeps-iso_now (λ now. Keeps-bind _ _ (keep id now) (λ _. Keeps-pure id)))

  pub Keeps-create_session :
      (source role path : String) (metadata : Json)
      → Keeps SoundWorld (create_session h source role path metadata)
  unfolding create_session
  Keeps-create_session source role path metadata =
      Keeps-insertion "sess" _ (λ id now. Keeps-insert_session _)

  pub Keeps-create_task :
      (session_id role : String) (input : Json)
      → Keeps SoundWorld (create_task h session_id role input)
  unfolding create_task
  Keeps-create_task session_id role input = Keeps-insertion "task" _ (λ id now. Keeps-insert_task _)

  pub Keeps-record_tool_event :
      (session_id : String) (task_id : Option String) (role tool decision : String)
      (success size : ℕ)
      → Keeps SoundWorld (record_tool_event h session_id task_id role tool decision success size)
  unfolding record_tool_event
  Keeps-record_tool_event session_id task_id role tool decision success size =
      Keeps-insertion "tool" _ (λ id now. Keeps-insert_event _)

  pub Keeps-record_research_queue_item :
      (source topic reason : String) (refs : List Json) (score : ℕ) (status : String)
      (role ticker company : Option String) (metadata : Json)
      → Keeps SoundWorld (
          record_research_queue_item h source topic reason refs score status role ticker company
            metadata)
  unfolding record_research_queue_item
  Keeps-record_research_queue_item source topic reason refs score status role ticker company
        metadata =
      Keeps-insertion "rq" _ (λ id now. Keeps-insert_item _)

  pub Keeps-record_document :
      (repo : Option String) (path title doc_type status : String) (refs : List Json)
      (sha : Option String) (metadata : Json)
      → Keeps SoundWorld (record_document h repo path title doc_type status refs sha metadata)
  unfolding record_document
  Keeps-record_document repo path title doc_type status refs sha metadata =
      Keeps-insertion "doc" _ (λ id now. Keeps-insert_document _)

  pub Keeps-update_session_status :
      (session_id status : String) → Keeps SoundWorld (update_session_status h session_id status)
  unfolding update_session_status set_sessions
  Keeps-update_session_status session_id status = Keeps-bind _ _ Keeps-iso_now (λ a.
      Keeps-bind _ _ Keeps-iso_now (λ b.
        Keeps-modify _
          (λ s d. IsSound-set_sessions session_id (with_status status a b) s.db (λ x. refl) d)))

  pub Keeps-finish_task :
      (task_id status : String) (output : Option Json) (error : Option Error)
      → Keeps SoundWorld (finish_task h task_id status output error)
  unfolding finish_task set_tasks
  Keeps-finish_task task_id status output error = Keeps-bind _ _ Keeps-iso_now (λ now.
      Keeps-modify _ (λ s d.
        IsSound-set_tasks task_id (with_outcome status output error now) s.db (λ x. refl)
          (λ x. refl) d))

  pub Keeps-list_research_queue :
      (status : Option String) → Keeps SoundWorld (list_research_queue h status)
  unfolding list_research_queue
  Keeps-list_research_queue status = record { after = λ s d. d }

  serve-IsSound : (r : Request) (w : World Call) → IsSound w.db → IsSound (serve r w).db
  serve-IsSound (create_session_of source role path metadata) w =
      (Keeps-create_session source role path metadata).after w
  serve-IsSound (update_session_status_of session_id status) w =
      (Keeps-update_session_status session_id status).after w
  serve-IsSound (create_task_of session_id role input) w =
      (Keeps-create_task session_id role input).after w
  serve-IsSound (finish_task_of task_id status output error) w =
      (Keeps-finish_task task_id status output error).after w
  serve-IsSound (tool_event_of session_id task_id role tool decision success size) w =
      (Keeps-record_tool_event session_id task_id role tool decision success size).after w
  serve-IsSound (queue_item_of source topic reason refs score status role ticker company metadata)
        w =
      (Keeps-record_research_queue_item source topic reason refs score status role ticker company
          metadata).after
        w
  serve-IsSound (document_of repo path title doc_type status refs sha metadata) w =
      (Keeps-record_document repo path title doc_type status refs sha metadata).after w
  serve-IsSound (list_queue_of status) w = (Keeps-list_research_queue status).after w

  -- Whatever calls are made, and whichever of them raise, a database whose keys are unique and whose
  -- references all find their row stays such a database.
  pub serve_all-IsSound :
      (rs : List Request) (w : World Call) → IsSound w.db → IsSound (serve_all rs w).db
  serve_all-IsSound [] w d = d
  serve_all-IsSound (r ∷ rs) w d = serve_all-IsSound rs (serve r w) (serve-IsSound r w d)
