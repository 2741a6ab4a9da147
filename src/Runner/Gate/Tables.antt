-- ===== src/Runner/Gate/Tables.antt =====
-- The gate writes no table but that of the tool events.
use mimi_agent.Base.{ℕ, ◌≡◌, String, not, Option, arith, string_eq}
use mimi_agent.Base.Exec.{pure, raise, ◌>>=◌}
use mimi_agent.Base.Exec.Keeps.{
  Keeps, Keeps-pure, Keeps-raise, Keeps-if, Keeps-bind, Keeps-try_else,
}
use mimi_agent.Str.{is_nonempty}
use mimi_agent.Security.PolicyEngine.{allowed}
use mimi_agent.Db.Tables.{Json, Database}
use mimi_agent.Db.Repository.{
  Host, World, new_id, iso_now, execute, insert_event, record_tool_event,
}
use mimi_agent.Runner.Gate.{
  ToolRequest, Call, Services, AuthProxyClient, Gated, refused, performed, ask_proxy,
  authorize_remote, authorize, run_pre_tool_use, run_post_tool_use, initialize_client, call_tool,
  after_call, perform_call, refuse_call, gated_call, read_reply, reply_of,
}

-- Sessions, tasks and documents are those of a database.
abbrev pub SameTables : Database → World Call → Type 0
SameTables db w =
    (w.db.sessions ≡ db.sessions) × (w.db.tasks ≡ db.tasks) × (w.db.documents ≡ db.documents)

module _ (h : Host) (x : Services) (db : Database) where
  abbrev Same : World Call → Type 0
  Same = SameTables db

  Keeps-record_tool_event :
      (session_id role tool decision : String) (task_id : Option String) (success size : ℕ)
      → Keeps Same (record_tool_event h session_id task_id role tool decision success size)
  unfolding record_tool_event new_id iso_now insert_event execute ◌>>=◌ pure
  Keeps-record_tool_event session_id role tool decision task_id success size = record {
    after = λ s d. ground (arith, d);
  }

  Keeps-authorize :
      (client : AuthProxyClient) (request : ToolRequest) → Keeps Same (authorize h x client request)
  unfolding authorize authorize_remote ask_proxy
  Keeps-authorize client request =
      Keeps-if (is_nonempty client.base_url) _ _
        (λ e.
          Keeps-try_else _ _ _ (Keeps-bind _ _ (record { after = λ s d. d }) (λ body. Keeps-pure _))
            (λ d. Keeps-pure d) (λ error. Keeps-pure _))
        (λ e. Keeps-pure _)

  pub Keeps-run_pre_tool_use :
      (client : AuthProxyClient) (request : ToolRequest)
      → Keeps Same (run_pre_tool_use h x client request)
  unfolding run_pre_tool_use
  Keeps-run_pre_tool_use client request =
      Keeps-try_else _ _ _ (Keeps-authorize client request) (λ d. Keeps-pure d) (λ e. Keeps-pure _)

  pub Keeps-run_post_tool_use :
      (request : ToolRequest) (decision : String) (success size : ℕ)
      → Keeps Same (run_post_tool_use h x request decision success size)
  unfolding run_post_tool_use
  Keeps-run_post_tool_use request decision success size =
      Keeps-try_else _ _ _ (Keeps-record_tool_event _ _ _ _ _ _ _) (λ id. Keeps-pure tt)
        (λ e. Keeps-pure tt)

  Keeps-call_tool : (name : String) (arguments : Json) → Keeps Same (call_tool h x name arguments)
  unfolding call_tool
  Keeps-call_tool name arguments = record { after = λ s d. d }

  pub Keeps-initialize_client : Keeps Same (initialize_client h x)
  unfolding initialize_client
  Keeps-initialize_client = record { after = λ s d. d }

  pub Keeps-gated_call :
      (client : AuthProxyClient) (request : ToolRequest)
      → Keeps Same (gated_call h x client request)
  unfolding gated_call perform_call refuse_call after_call
  Keeps-gated_call client request = Keeps-bind _ _ (Keeps-run_pre_tool_use client request) (λ d.
      Keeps-if (not (allowed d)) _ _
        (λ e. Keeps-bind _ _ (Keeps-run_post_tool_use request _ _ _) (λ u. Keeps-pure _))
        (λ e.
          Keeps-bind _ _ (Keeps-call_tool _ _)
            (λ result. Keeps-bind _ _ (Keeps-run_post_tool_use request _ _ _) (λ u. Keeps-pure _))))

  -- Reading a reply changes nothing.
  pub Keeps-reply_of :
      (request : ToolRequest) (gated : Gated) → Keeps Same (reply_of h x request gated)
  unfolding reply_of read_reply pure raise
  Keeps-reply_of request (refused d) = Keeps-raise _
  Keeps-reply_of request (performed result) = record { after = λ s d. ground (arith, d) }
