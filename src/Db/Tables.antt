-- ===== src/Db/Tables.antt =====
-- The tables of db/schema.sql that the program writes. The columns that hold JSON hold the values that
-- `json.dumps` is given.
use mathlib.Core.List.{[], ◌∷◌}
use mimi_agent.Base.{ℕ, String, Bool, false, ◌||◌, Option, List, ◌==◌, string_eq, if◌then◌else◌}
use mimi_agent.Base.Dict.{Dict}
use mimi_agent.Base.Exec.{Error}

abbrev pub Json : Type 0
Json = Dict String String

pub record Session : Type 0 where
  pub id : String
  pub source : String
  pub role : String
  pub status : String
  pub workspace_path : String
  pub created_at : String
  pub updated_at : String
  pub last_active_at : String
  pub metadata : Json

pub record Task : Type 0 where
  pub id : String
  pub session_id : String
  pub role : String
  pub status : String
  pub input : Json
  pub output : Option Json
  pub error : Option Error
  pub created_at : String
  pub finished_at : Option String

pub record ToolEvent : Type 0 where
  pub id : String
  pub session_id : String
  pub task_id : Option String
  pub role : String
  pub tool_name : String
  pub decision : String
  pub success : ℕ
  pub output_size : ℕ
  pub policy_version : String
  pub created_at : String

pub record QueueItem : Type 0 where
  pub id : String
  pub source : String
  pub topic : String
  pub ticker : Option String
  pub company_name : Option String
  pub reason : String
  pub source_refs : List Json
  pub score : ℕ
  pub status : String
  pub assigned_role : Option String
  pub created_at : String
  pub updated_at : String
  pub metadata : Json

pub record Document : Type 0 where
  pub id : String
  pub repo : Option String
  pub path : String
  pub title : String
  pub doc_type : String
  pub status : String
  pub source_refs : List Json
  pub commit_sha : Option String
  pub created_at : String
  pub updated_at : String
  pub metadata : Json

-- The rows of each table, in the order of insertion.
pub record Database : Type 0 where
  pub sessions : List Session
  pub tasks : List Task
  pub tool_events : List ToolEvent
  pub research_queue : List QueueItem
  pub documents : List Document

abbrev pub empty_database : Database
empty_database = record {
  sessions = [];
  tasks = [];
  tool_events = [];
  research_queue = [];
  documents = [];
}

-- A row of the table has the key.
module _ {A : Type 0} (key : A → String) where
  unfoldable pub has_key : String → List A → Bool
  has_key k [] = false
  has_key k (row ∷ rows) = key row == k || has_key k rows

  -- `UPDATE ... WHERE id = k`
  unfoldable pub update_where : String → (A → A) → List A → List A
  update_where k f [] = []
  update_where k f (row ∷ rows) = (if key row == k then f row else row) ∷ update_where k f rows

abbrev pub session_exists : String → Database → Bool
session_exists k db = has_key (λ (s : Session). s.id) k db.sessions

abbrev pub task_exists : String → Database → Bool
task_exists k db = has_key (λ (t : Task). t.id) k db.tasks
