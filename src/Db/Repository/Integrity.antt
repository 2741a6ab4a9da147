-- ===== src/Db/Repository/Integrity.antt =====
-- The constraints of db/schema.sql as an invariant: keys are unique, and every reference finds its row.
use mathlib.Core.List.{[], ◌∷◌}
use mimi_agent.Base.{
  ◌≡◌, refl, String, true, false, ◌||◌, Option, none, some, List, ◌++◌, All, All-append, arith,
  ◌==◌, string_eq, Bool-cases, inl, inr,
}
use mimi_agent.Db.Tables.{
  Session, Task, ToolEvent, QueueItem, Document, Database, empty_database, has_key, update_where,
  session_exists, task_exists,
}
use mimi_agent.Db.Repository.{
  admits_session, admits_task, task_reference, admits_event, admits_item, admits_document,
}

weaken {ℓ} :
    {A : Type ℓ} {P Q : A → Type 0} (xs : List A) → ((x : A) → P x → Q x) → All P xs → All Q xs
weaken [] f all = tt
weaken (x ∷ xs) f (p, all) = (f x p, weaken xs f all)

module _ {A : Type 0} (key : A → String) where
  has_key-append :
      (k : String) (xs ys : List A)
      → has_key key k (xs ++ ys) ≡ (has_key key k xs || has_key key k ys)
  unfolding has_key
  has_key-append k [] ys = refl
  has_key-append k (x ∷ xs) ys = ground (arith, has_key-append k xs ys)

  has_key-update_where :
      (k j : String) (f : A → A) (rows : List A)
      → ((x : A) → key (f x) ≡ key x)
      → has_key key k (update_where key j f rows) ≡ has_key key k rows
  unfolding has_key update_where
  has_key-update_where k j f [] same = refl
  has_key-update_where k j f (x ∷ xs) same =
      ground (arith, same x, has_key-update_where k j f xs same)

  -- No two rows have one key.
  abbrev pub Unique : List A → Type 0
  Unique [] = Unit
  Unique (x ∷ xs) = (has_key key (key x) xs ≡ false) × Unique xs

  Unique-append :
      (xs : List A) (x : A) → Unique xs → has_key key (key x) xs ≡ false → Unique (xs ++ (x ∷ []))
  unfolding has_key
  Unique-append [] x u new = (refl, tt)
  Unique-append (y ∷ ys) x (first, u) new =
      (rw has_key-append (ground arith), Unique-append ys x u (ground arith))

  Unique-update_where :
      (j : String) (f : A → A) (rows : List A)
      → ((x : A) → key (f x) ≡ key x)
      → Unique rows
      → Unique (update_where key j f rows)
  unfolding update_where
  Unique-update_where j f [] same u = tt
  Unique-update_where j f (x ∷ xs) same (first, u) = (
    rw (has_key-update_where _ j f xs same) (ground (arith, same x)),
    Unique-update_where j f xs same u,
  )

  All-update_where :
      {P : A → Type 0} (j : String) (f : A → A) (rows : List A)
      → ((x : A) → P x → P (f x))
      → All P rows
      → All P (update_where key j f rows)
  unfolding update_where
  All-update_where j f [] keep all = tt
  All-update_where j f (x ∷ xs) keep (p, all) = elim (Bool-cases (key x == j)) [
    | inl here ↦ rw here (keep x p, All-update_where j f xs keep all)
    | inr other ↦ rw other (p, All-update_where j f xs keep all)
  ]

abbrev pub EventRefers : Database → ToolEvent → Type 0
EventRefers db e = (session_exists e.session_id db ≡ true) × (task_reference e.task_id db ≡ true)

-- The primary and foreign keys of the schema hold.
pub record IsSound (db : Database) : Type 0 where
  pub sessions_unique : Unique (λ (x : Session). x.id) db.sessions
  pub tasks_unique : Unique (λ (x : Task). x.id) db.tasks
  pub events_unique : Unique (λ (x : ToolEvent). x.id) db.tool_events
  pub items_unique : Unique (λ (x : QueueItem). x.id) db.research_queue
  pub documents_unique : Unique (λ (x : Document). x.id) db.documents
  pub tasks_refer : All (λ (t : Task). session_exists t.session_id db ≡ true) db.tasks
  pub events_refer : All (EventRefers db) db.tool_events

pub IsSound-empty : IsSound empty_database
IsSound-empty = record {
  sessions_unique = tt;
  tasks_unique = tt;
  events_unique = tt;
  items_unique = tt;
  documents_unique = tt;
  tasks_refer = tt;
  events_refer = tt;
}

-- References survive when no row that they may find is lost.
refer-more :
    (db db' : Database) (e : ToolEvent)
    → ((k : String) → session_exists k db ≡ true → session_exists k db' ≡ true)
    → ((k : String) → task_exists k db ≡ true → task_exists k db' ≡ true)
    → EventRefers db e
    → EventRefers db' e
refer-more db db' e more more' (to_session, to_task) =
    (more e.session_id to_session, task_more e.task_id to_task)
  where
    task_more : (t : Option String) → task_reference t db ≡ true → task_reference t db' ≡ true
    task_more none h = h
    task_more (some t) h = more' t h

pub IsSound-session :
    (row : Session) (db : Database)
    → admits_session row db ≡ true
    → IsSound db
    → IsSound (record db { sessions = db.sessions ++ (row ∷ []) })
IsSound-session row db new d = record {
  sessions_unique = Unique-append _ db.sessions row d.sessions_unique (ground arith);
  tasks_unique = d.tasks_unique;
  events_unique = d.events_unique;
  items_unique = d.items_unique;
  documents_unique = d.documents_unique;
  tasks_refer = weaken db.tasks (λ t h. more t.session_id h) d.tasks_refer;
  events_refer = weaken db.tool_events (λ e. refer-more db _ e more (λ k h. h)) d.events_refer;
}
  where
    more :
        (k : String)
        → session_exists k db ≡ true
        → session_exists k (record db { sessions = db.sessions ++ (row ∷ []) }) ≡ true
    more k h = rw (has_key-append, h)

pub IsSound-task :
    (row : Task) (db : Database)
    → admits_task row db ≡ true
    → IsSound db
    → IsSound (record db { tasks = db.tasks ++ (row ∷ []) })
IsSound-task row db new d = record {
  sessions_unique = d.sessions_unique;
  tasks_unique = Unique-append _ db.tasks row d.tasks_unique (ground arith);
  events_unique = d.events_unique;
  items_unique = d.items_unique;
  documents_unique = d.documents_unique;
  tasks_refer = All-append _ db.tasks (row ∷ []) d.tasks_refer (ground arith, tt);
  events_refer = weaken db.tool_events (λ e. refer-more db _ e (λ k h. h) more) d.events_refer;
}
  where
    more :
        (k : String)
        → task_exists k db ≡ true
        → task_exists k (record db { tasks = db.tasks ++ (row ∷ []) }) ≡ true
    more k h = rw (has_key-append, h)

pub IsSound-event :
    (row : ToolEvent) (db : Database)
    → admits_event row db ≡ true
    → IsSound db
    → IsSound (record db { tool_events = db.tool_events ++ (row ∷ []) })
IsSound-event row db new d = record {
  sessions_unique = d.sessions_unique;
  tasks_unique = d.tasks_unique;
  events_unique = Unique-append _ db.tool_events row d.events_unique (ground arith);
  items_unique = d.items_unique;
  documents_unique = d.documents_unique;
  tasks_refer = d.tasks_refer;
  events_refer =
      weaken (db.tool_events ++ (row ∷ [])) (λ e. refer-more db _ e (λ k h. h) (λ k h. h))
        (All-append _ db.tool_events (row ∷ []) d.events_refer ((ground arith, ground arith), tt));
}

pub IsSound-item :
    (row : QueueItem) (db : Database)
    → admits_item row db ≡ true
    → IsSound db
    → IsSound (record db { research_queue = db.research_queue ++ (row ∷ []) })
IsSound-item row db new d = record {
  sessions_unique = d.sessions_unique;
  tasks_unique = d.tasks_unique;
  events_unique = d.events_unique;
  items_unique = Unique-append _ db.research_queue row d.items_unique (ground arith);
  documents_unique = d.documents_unique;
  tasks_refer = d.tasks_refer;
  events_refer =
      weaken db.tool_events (λ e. refer-more db _ e (λ k h. h) (λ k h. h)) d.events_refer;
}

pub IsSound-document :
    (row : Document) (db : Database)
    → admits_document row db ≡ true
    → IsSound db
    → IsSound (record db { documents = db.documents ++ (row ∷ []) })
IsSound-document row db new d = record {
  sessions_unique = d.sessions_unique;
  tasks_unique = d.tasks_unique;
  events_unique = d.events_unique;
  items_unique = d.items_unique;
  documents_unique = Unique-append _ db.documents row d.documents_unique (ground arith);
  tasks_refer = d.tasks_refer;
  events_refer =
      weaken db.tool_events (λ e. refer-more db _ e (λ k h. h) (λ k h. h)) d.events_refer;
}

pub IsSound-set_sessions :
    (k : String) (f : Session → Session) (db : Database)
    → ((x : Session) → (f x).id ≡ x.id)
    → IsSound db
    → IsSound (record db { sessions = update_where (λ (x : Session). x.id) k f db.sessions })
IsSound-set_sessions k f db same d = record {
  sessions_unique = Unique-update_where _ k f db.sessions same d.sessions_unique;
  tasks_unique = d.tasks_unique;
  events_unique = d.events_unique;
  items_unique = d.items_unique;
  documents_unique = d.documents_unique;
  tasks_refer = weaken db.tasks (λ t h. more t.session_id h) d.tasks_refer;
  events_refer = weaken db.tool_events (λ e. refer-more db _ e more (λ k h. h)) d.events_refer;
}
  where
    more :
        (j : String)
        → session_exists j db ≡ true
        → session_exists j
            (record db { sessions = update_where (λ (x : Session). x.id) k f db.sessions })
          ≡ true
    more j h = rw (has_key-update_where (λ (x : Session). x.id) j k f db.sessions same) h

pub IsSound-set_tasks :
    (k : String) (f : Task → Task) (db : Database)
    → ((x : Task) → (f x).id ≡ x.id)
    → ((x : Task) → (f x).session_id ≡ x.session_id)
    → IsSound db
    → IsSound (record db { tasks = update_where (λ (x : Task). x.id) k f db.tasks })
IsSound-set_tasks k f db same same_session d = record {
  sessions_unique = d.sessions_unique;
  tasks_unique = Unique-update_where _ k f db.tasks same d.tasks_unique;
  events_unique = d.events_unique;
  items_unique = d.items_unique;
  documents_unique = d.documents_unique;
  tasks_refer =
      All-update_where (λ (x : Task). x.id) k f db.tasks (λ t h. rw (same_session t) h)
        d.tasks_refer;
  events_refer = weaken db.tool_events (λ e. refer-more db _ e (λ k h. h) more) d.events_refer;
}
  where
    more :
        (j : String)
        → task_exists j db ≡ true
        → task_exists j (record db { tasks = update_where (λ (x : Task). x.id) k f db.tasks })
          ≡ true
    more j h = rw (has_key-update_where (λ (x : Task). x.id) j k f db.tasks same) h
