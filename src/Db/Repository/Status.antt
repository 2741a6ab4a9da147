-- ===== src/Db/Repository/Status.antt =====
-- What the two updates change: the row of their key, and nothing else.
use mathlib.Core.List.{[], ◌∷◌}
use mimi_agent.Base.{
  ◌+◌, ◌≡◌, refl, ◌∙◌, String, false, Option, none, some, List, arith, ◌==◌, string_eq,
  if◌then◌else◌,
}
use mimi_agent.Base.Exec.{Error, ◌>>=◌, modify}
use mimi_agent.Db.Tables.{Json, Session, Task, Database, update_where}
use mimi_agent.Db.Repository.{
  Host, World, iso_now, set_sessions, update_session_status, set_tasks, finish_task,
}

-- The row with the key.
abbrev pub find_row : {A : Type 0} → (A → String) → String → List A → Option A
find_row key k [] = none
find_row key k (row ∷ rows) = if key row == k then some row else find_row key k rows

abbrev pub apply_to : {A : Type 0} → (A → A) → Option A → Option A
apply_to f none = none
apply_to f (some a) = some (f a)

pub find_row-update_where :
    {A : Type 0} (key : A → String) (k j : String) (f : A → A) (rows : List A)
    → ((x : A) → key (f x) ≡ key x)
    → find_row key k (update_where key j f rows)
      ≡ (if k == j then apply_to f (find_row key k rows) else find_row key k rows)
unfolding update_where
find_row-update_where key k j f [] same = ground arith
find_row-update_where key k j f (x ∷ xs) same =
    ground (arith, same x, find_row-update_where key k j f xs same)

abbrev pub find_task : String → Database → Option Task
find_task k db = find_row (λ (t : Task). t.id) k db.tasks

abbrev pub find_session : String → Database → Option Session
find_session k db = find_row (λ (s : Session). s.id) k db.sessions

-- A row that is found is changed, and stays in its place.
pub found-update_where :
    {A : Type 0} (key : A → String) (k : String) (f : A → A) (rows : List A) (row : A)
    → ((a : A) → key (f a) ≡ key a)
    → find_row key k rows ≡ some row
    → find_row key k (update_where key k f rows) ≡ some (f row)
found-update_where key k f rows row same found =
    find_row-update_where key k k f rows same ∙ rw found (ground arith)

other-update_where :
    {A : Type 0} (key : A → String) (k j : String) (f : A → A) (rows : List A)
    → ((a : A) → key (f a) ≡ key a)
    → (k == j) ≡ false
    → find_row key k (update_where key j f rows) ≡ find_row key k rows
other-update_where key k j f rows same apart =
    find_row-update_where key k j f rows same ∙ rw apart refl

module _ {Call : Type 0} (h : Host) (w : World Call) where
  -- Finishing a task that is found sets its status, its output, its error and the time of its end, and no
  -- other column; every other task is found as before, and no other table changes.
  pub finish_task-find_task :
      (task_id status : String) (output : Option Json) (error : Option Error)
      → ((t : Task)
          → find_task task_id w.db ≡ some t
          → find_task task_id (finish_task h task_id status output error w).1.db
            ≡ some (record {
              id = t.id;
              session_id = t.session_id;
              role = t.role;
              status = status;
              input = t.input;
              output = output;
              error = error;
              created_at = t.created_at;
              finished_at = some (h.iso_now w.asked);
            }))
        × ((k : String)
            → (k == task_id) ≡ false
            → find_task k (finish_task h task_id status output error w).1.db ≡ find_task k w.db)
        × ((finish_task h task_id status output error w).1.db
            ≡ record w.db { tasks = (finish_task h task_id status output error w).1.db.tasks })
  unfolding finish_task iso_now set_tasks modify ◌>>=◌
  finish_task-find_task task_id status output error = (
    λ t found. found-update_where (λ (t : Task). t.id) task_id _ w.db.tasks t (λ x. refl) found,
    λ k apart. other-update_where (λ (t : Task). t.id) k task_id _ w.db.tasks (λ x. refl) apart,
    refl,
  )

  -- Setting the status of a session that is found sets its status and the times of its update and of its
  -- last activity, which are asked for one after the other, and no other column; every other session is
  -- found as before, and no other table changes.
  pub update_session_status-find_session :
      (session_id status : String)
      → ((r : Session)
          → find_session session_id w.db ≡ some r
          → find_session session_id (update_session_status h session_id status w).1.db
            ≡ some (record {
              id = r.id;
              source = r.source;
              role = r.role;
              status = status;
              workspace_path = r.workspace_path;
              created_at = r.created_at;
              updated_at = h.iso_now w.asked;
              last_active_at = h.iso_now (w.asked + 1);
              metadata = r.metadata;
            }))
        × ((k : String)
            → (k == session_id) ≡ false
            → find_session k (update_session_status h session_id status w).1.db
              ≡ find_session k w.db)
        × ((update_session_status h session_id status w).1.db ≡ record w.db {
          sessions = (update_session_status h session_id status w).1.db.sessions;
        })
  unfolding update_session_status iso_now set_sessions modify ◌>>=◌
  update_session_status-find_session session_id status = (
    λ r found.
        found-update_where (λ (r : Session). r.id) session_id _ w.db.sessions r (λ x. refl) found,
    λ k apart.
        other-update_where (λ (r : Session). r.id) k session_id _ w.db.sessions (λ x. refl) apart,
    refl,
  )
