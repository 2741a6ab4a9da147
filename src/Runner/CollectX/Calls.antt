-- ===== src/Runner/CollectX/Calls.antt =====
-- What a run of `collect x` asks of the services: the guard of the search.
use mathlib.Core.List.{[], ◌∷◌}
use mimi_agent.Base.{
  ℕ, ◌≡◌, refl, ◌∙◌, String, not, ◌||◌, Option, List, ◌++◌, arith, inl, inr, Bool-cases, contains,
  string_eq, if◌then◌else◌,
}
use mimi_agent.Base.Exec.{
  Result, ok, err, recover, pure, raise, lift, modify, ◌>>=◌, ◌>>◌, try_else,
}
use mimi_agent.Base.Exec.Keeps.{Keeps, Keeps-pure, Keeps-if, Keeps-lift, Keeps-bind}
use mimi_agent.Str.{is_nonempty}
use mimi_agent.Db.Repository.{
  Host, World, new_id, iso_now, execute, insert_item, record_research_queue_item,
  list_research_queue, set_tasks, finish_task, set_sessions, update_session_status,
}
use mimi_agent.Runner.Gate.{
  ToolRequest, Post, Call, initialized, called_tool, Services, AuthProxyClient, Gated, refused,
  performed, initialize_client, gated_call, read_reply, reply_of,
}
use mimi_agent.Runner.Gate.Laws.{verdict, asked, calls-gated_call}
use mimi_agent.Runner.CollectX.{
  or_text, request_of, post_url, existing_urls, record_post, collect_posts, search_posts, collect,
  finish_run, fail_run, run_collect_x,
}
use mimi_agent.Runner.CollectX.Lifecycle.{session_of, task_of}

-- The calls of a guarded search, the latest first: the session with the tools is opened, the proxy is asked,
-- if there is one, and the tool is called if the verdict allows it; no search follows where the session
-- could not be opened.
abbrev pub searched : Services → AuthProxyClient → ToolRequest → List Call → List Call
searched x client request calls = elim (x.initialize calls) [
  | ok u ↦
      (if verdict x client request (initialized ∷ calls)
        then called_tool request.tool_name request.arguments ∷ []
        else [])
      ++ (asked client request ++ (initialized ∷ calls))
  | err e ↦ initialized ∷ calls
]

module _ (h : Host) (x : Services) where
  abbrev SameCalls : List Call → World Call → Type 0
  SameCalls calls w = w.calls ≡ calls

  Keeps-collect_posts :
      (calls : List Call) (query at : String) (posts : List Post) (urls : List String)
      → Keeps (SameCalls calls) (collect_posts h x query at posts urls)
  unfolding collect_posts record_post
  Keeps-collect_posts calls query at [] urls = Keeps-pure []
  Keeps-collect_posts calls query at (post ∷ posts) urls =
      Keeps-if (not (is_nonempty (post_url post)) || contains urls (post_url post)) _ _
        (λ e. Keeps-collect_posts calls query at posts urls)
        (λ e.
          Keeps-bind _ _
            (unfold record_research_queue_item new_id iso_now insert_item execute ◌>>=◌ pure in
              record { after = λ s same. ground (arith, same) })
            (λ id.
              Keeps-bind _ _ (Keeps-collect_posts calls query at posts _) (λ ids. Keeps-pure _)))

  Keeps-iso_now : (calls : List Call) → Keeps (SameCalls calls) (iso_now h)
  unfolding iso_now
  Keeps-iso_now calls = record { after = λ s same. same }

  Keeps-reply_of :
      (calls : List Call) (request : ToolRequest) (gated : Gated)
      → Keeps (SameCalls calls) (reply_of h x request gated)
  unfolding reply_of read_reply pure raise
  Keeps-reply_of calls request (refused d) = record { after = λ s same. same }
  Keeps-reply_of calls request (performed result) = record {
    after = λ s same. ground (arith, same);
  }

  -- What follows the guarded call.
  Keeps-after_gate :
      (calls : List Call) (query : String) (request : ToolRequest) (gated : Gated)
      → Keeps (SameCalls calls) (do
        reply ← reply_of h x request gated
        urls ← existing_urls h x
        collected_at ← iso_now h
        collect_posts h x query collected_at reply.posts urls)
  unfolding existing_urls list_research_queue
  Keeps-after_gate calls query request gated =
      Keeps-bind _ _ (Keeps-reply_of calls request gated) (λ reply.
        Keeps-bind _ _ (Keeps-bind _ _ (record { after = λ s same. same }) (λ items. Keeps-pure _))
          (λ urls.
            Keeps-bind _ _ (Keeps-iso_now calls)
              (λ at. Keeps-collect_posts calls query at reply.posts urls)))

  calls-opened :
      (client : AuthProxyClient) (query : String) (request : ToolRequest) (calls : List Call)
      (r : Result (Unit {0})) (s : World Call)
      → s.calls ≡ initialized ∷ calls
      → ((do
        lift r
        gated ← gated_call h x client request
        reply ← reply_of h x request gated
        urls ← existing_urls h x
        collected_at ← iso_now h
        collect_posts h x query collected_at reply.posts urls)
          s).1.calls
        ≡ (elim r [
          | ok u ↦
              (if verdict x client request (initialized ∷ calls)
                then called_tool request.tool_name request.arguments ∷ []
                else [])
              ++ (asked client request ++ (initialized ∷ calls))
          | err e ↦ initialized ∷ calls
        ])
  unfolding ◌>>=◌ lift
  calls-opened client query request calls (err e) s same = same
  calls-opened client query request calls (ok u) s same =
      keeps.after (gated_call h x client request s).1 refl
      ∙ (calls-gated_call h x client request s ∙ rw same refl)
    where
      keeps : Keeps (SameCalls (gated_call h x client request s).1.calls) (
          lift (gated_call h x client request s).0 >>= (λ gated. do
            reply ← reply_of h x request gated
            urls ← existing_urls h x
            collected_at ← iso_now h
            collect_posts h x query collected_at reply.posts urls))
      keeps =
          Keeps-bind _ _ (Keeps-lift _) (λ gated.
            Keeps-after_gate (gated_call h x client request s).1.calls query request gated)

  calls-search_posts :
      (client : AuthProxyClient) (query : String) (request : ToolRequest) (s : World Call)
      → (search_posts h x client query request s).1.calls ≡ searched x client request s.calls
  unfolding search_posts initialize_client ◌>>=◌ lift
  calls-search_posts client query request s =
      calls-opened client query request s.calls (x.initialize s.calls)
        (record s { calls = initialized ∷ s.calls }) refl

  calls-collect :
      (client : AuthProxyClient) (url : Option String) (query : String) (n : ℕ)
      (session_id task_id : String) (s : World Call)
      → (collect h x client url query n session_id task_id s).1.calls ≡ (
          if is_nonempty (or_text url "")
          then searched x client (request_of query n session_id task_id) s.calls
          else s.calls)
  unfolding collect raise
  calls-collect client url query n session_id task_id s =
      elim (Bool-cases (is_nonempty (or_text url ""))) [
        | inl given ↦ rw given (calls-search_posts client query _ s)
        | inr missing ↦ rw missing refl
      ]

  calls-recover :
      (query session_id task_id : String) (r : Result (List String)) (s : World Call)
      → (recover r
          (finish_run h x query session_id task_id)
          (fail_run h x session_id task_id)
          s).1.calls
        ≡ s.calls
  unfolding finish_run fail_run finish_task update_session_status iso_now set_tasks set_sessions
      modify pure raise ◌>>=◌
  calls-recover query session_id task_id (ok ids) s = refl
  calls-recover query session_id task_id (err e) s = refl

  -- A run whose session and task were given or could be created asks the services for nothing if the URL is
  -- missing, and otherwise for one guarded search with the query and the limit: the tool is called once if
  -- the verdict allows the request, and not at all if it does not.
  pub calls-run_collect_x :
      (client : AuthProxyClient) (url : Option String) (query : String) (n : ℕ)
      (session task : Option String) (session_id task_id : String) (s begun ready : World Call)
      → session_of h x client url query n session s ≡ (ok session_id, begun)
      → task_of h x client url query n session_id task
          (update_session_status h session_id "running" begun).1
        ≡ (ok task_id, ready)
      → (run_collect_x h x client url query n session task s).1.calls ≡ (
          if is_nonempty (or_text url "")
          then searched x client (request_of query n session_id task_id) ready.calls
          else ready.calls)
  unfolding run_collect_x update_session_status iso_now set_sessions modify ◌>>=◌ try_else pure
  calls-run_collect_x client url query n session task session_id task_id s begun ready opens
        starts =
      rw (opens, starts)
        (calls-recover query session_id task_id _ _
          ∙ calls-collect client url query n session_id task_id ready)
