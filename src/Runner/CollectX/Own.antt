-- ===== src/Runner/CollectX/Own.antt =====
-- A run that opens a session and a task of its own, as the commands and the scheduler start it.
use mathlib.Core.Path.{subst}
use mathlib.Core.List.{[], ◌∷◌}
use mimi_agent.Base.{
  ℕ, ◌≡◌, refl, String, false, Option, none, some, List, ◌++◌, arith, string_eq, inl, inr,
  Bool-cases,
}
use mimi_agent.Base.Exec.{Result, ok, err, pure, ◌>>=◌, modify}
use mimi_agent.Str.{decimal}
use mimi_agent.Db.Tables.{Json, Session, Task, has_key, session_exists, task_exists}
use mimi_agent.Db.Repository.{
  Host, World, new_id, iso_now, execute, insert_session, create_session, set_sessions,
  update_session_status, insert_task, create_task,
}
use mimi_agent.Db.Repository.Status.{find_task, find_session, find_row, found-update_where}
use mimi_agent.Runner.Gate.{Call, Services, AuthProxyClient}
use mimi_agent.Runner.CollectX.{role, run_collect_x}
use mimi_agent.Runner.CollectX.Lifecycle.{EndedBy, Ready, run_collect_x-EndedBy}

-- A new row is found under its key.
find_row-new :
    {A : Type 0} (key : A → String) (rows : List A) (row : A)
    → has_key key (key row) rows ≡ false
    → find_row key (key row) (rows ++ (row ∷ [])) ≡ some row
unfolding has_key
find_row-new key [] row h = ground arith
find_row-new key (r ∷ rows) row h = ground (arith, h, find_row-new key rows row)

module _ (h : Host) where
  -- What a creation leaves, if it returns.
  abbrev SessionFound : Result String × World Call → Type 0
  SessionFound (ok id, w) = (r : Session) × (find_session id w.db ≡ some r)
  SessionFound (err e, w) = Unit {0}

  abbrev TaskFound : List Session → Result String × World Call → Type 0
  TaskFound sessions (ok id, w) =
      ((t : Task) × (find_task id w.db ≡ some t)) × (w.db.sessions ≡ sessions)
  TaskFound sessions (err e, w) = Unit {0}

  create_session-SessionFound :
      (source role path : String) (metadata : Json) (s : World Call)
      → SessionFound (create_session h source role path metadata s)
  unfolding create_session new_id iso_now insert_session execute ◌>>=◌ pure
  create_session-SessionFound source role path metadata s =
      elim (Bool-cases (session_exists (h.new_id s.asked "sess") s.db)) [
        | inl taken ↦ rw taken tt
        | inr free ↦ rw free (_, find_row-new (λ (r : Session). r.id) s.db.sessions _ free)
      ]

  create_task-TaskFound :
      (session_id role : String) (input : Json) (s : World Call)
      → TaskFound s.db.sessions (create_task h session_id role input s)
  unfolding create_task new_id iso_now insert_task execute ◌>>=◌ pure
  create_task-TaskFound session_id role input s =
      elim (Bool-cases (task_exists (h.new_id s.asked "task") s.db)) [
        | inl taken ↦ rw taken tt
        | inr free ↦ elim (Bool-cases (session_exists session_id s.db)) [
          | inl present ↦
              rw (free, present) ((_, find_row-new (λ (t : Task). t.id) s.db.tasks _ free), refl)
          | inr absent ↦ rw (free, absent) tt
        ]
      ]

  session_kept :
      (session_id : String) (s : World Call) (r : Session)
      → find_session session_id s.db ≡ some r
      → (q : Session) × (find_session session_id
            (update_session_status h session_id "running" s).1.db
          ≡ some q)
  unfolding update_session_status iso_now set_sessions modify ◌>>=◌
  session_kept session_id s r found =
      (_, found-update_where (λ (r : Session). r.id) session_id _ s.db.sessions r (λ x. refl) found)

  -- The session and the task that were created are found when the search begins.
  created-Ready :
      (query : String) (n : ℕ) (session_id task_id : String) (s begun ready : World Call)
      → create_session h "collect-x" role "" [] s ≡ (ok session_id, begun)
      → create_task h session_id role
          (("query", query) ∷ ("max_results", decimal n) ∷ [])
          (update_session_status h session_id "running" begun).1
        ≡ (ok task_id, ready)
      → Ready session_id task_id ready.db
  created-Ready query n session_id task_id s begun ready opens starts =
      let (r, found) =
        subst SessionFound opens (create_session-SessionFound "collect-x" role "" [] s) in
      let (q, kept) = session_kept session_id begun r found in
      let ((t, found_task), same) =
        subst (TaskFound (update_session_status h session_id "running" begun).1.db.sessions) starts
          (create_task-TaskFound session_id role _
            (update_session_status h session_id "running" begun).1) in
      record { task = t; finds_task = found_task; session = q; finds_session = rw same kept }

module _ (h : Host) (x : Services) (client : AuthProxyClient) (url : Option String) (query : String)
    (n : ℕ) where
  -- A run that was given neither a session nor a task, and that could create both, leaves them in the
  -- database with these statuses: if it returns, the task has succeeded and the session is stopped; if it
  -- raises, both have failed.
  pub run_collect_x-EndedBy_own :
      (session_id task_id : String) (s begun ready : World Call)
      → create_session h "collect-x" role "" [] s ≡ (ok session_id, begun)
      → create_task h session_id role
          (("query", query) ∷ ("max_results", decimal n) ∷ [])
          (update_session_status h session_id "running" begun).1
        ≡ (ok task_id, ready)
      → EndedBy session_id task_id
          (run_collect_x h x client url query n none none s).0
          (run_collect_x h x client url query n none none s).1.db
  run_collect_x-EndedBy_own session_id task_id s begun ready opens starts =
      run_collect_x-EndedBy h x client url query n none none session_id task_id s begun ready opens
        starts (created-Ready h query n session_id task_id s begun ready opens starts)
