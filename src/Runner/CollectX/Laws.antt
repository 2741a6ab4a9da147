-- ===== src/Runner/CollectX/Laws.antt =====
-- What the search of `collect x` leaves as it is.
use mathlib.Core.List.{[], ◌∷◌}
use mimi_agent.Base.{ℕ, String, not, ◌||◌, Option, none, List, arith, contains, string_eq}
use mimi_agent.Base.Exec.{◌>>=◌, pure}
use mimi_agent.Base.Exec.Keeps.{Keeps, Keeps-pure, Keeps-raise, Keeps-if, Keeps-bind}
use mimi_agent.Str.{is_nonempty}
use mimi_agent.Db.Tables.{Json, Database}
use mimi_agent.Db.Repository.{
  Host, new_id, iso_now, execute, insert_item, record_research_queue_item, list_research_queue,
}
use mimi_agent.Runner.Gate.{ToolRequest, Post, Services, AuthProxyClient}
use mimi_agent.Runner.CollectX.{
  or_text, missing_url, request_of, search_posts, post_url, existing_urls, record_post,
  collect_posts, collect,
}
use mimi_agent.Runner.Gate.Tables.{
  SameTables, Keeps-initialize_client, Keeps-gated_call, Keeps-reply_of,
}

module _ (h : Host) (x : Services) (db : Database) where
  Keeps-record_research_queue_item :
      (source topic reason : String) (refs : List Json) (score : ℕ) (status : String)
      (role ticker company : Option String) (metadata : Json)
      → Keeps (SameTables db) (
          record_research_queue_item h source topic reason refs score status role ticker company
            metadata)
  unfolding record_research_queue_item new_id iso_now insert_item execute ◌>>=◌ pure
  Keeps-record_research_queue_item source topic reason refs score status role ticker company
        metadata =
      record { after = λ s d. ground (arith, d) }

  Keeps-iso_now : Keeps (SameTables db) (iso_now h)
  unfolding iso_now
  Keeps-iso_now = record { after = λ s d. d }

  Keeps-list_research_queue :
      (status : Option String) → Keeps (SameTables db) (list_research_queue h status)
  unfolding list_research_queue
  Keeps-list_research_queue status = record { after = λ s d. d }

  Keeps-collect_posts :
      (query at : String) (posts : List Post) (urls : List String)
      → Keeps (SameTables db) (collect_posts h x query at posts urls)
  unfolding collect_posts record_post
  Keeps-collect_posts query at [] urls = Keeps-pure []
  Keeps-collect_posts query at (post ∷ posts) urls =
      Keeps-if (not (is_nonempty (post_url post)) || contains urls (post_url post)) _ _
        (λ e. Keeps-collect_posts query at posts urls)
        (λ e.
          Keeps-bind _ _ (Keeps-record_research_queue_item _ _ _ _ _ _ _ _ _ _)
            (λ id. Keeps-bind _ _ (Keeps-collect_posts query at posts _) (λ ids. Keeps-pure _)))

  Keeps-search_posts :
      (client : AuthProxyClient) (query : String) (request : ToolRequest)
      → Keeps (SameTables db) (search_posts h x client query request)
  unfolding search_posts existing_urls
  Keeps-search_posts client query request = Keeps-bind _ _ (Keeps-initialize_client h x db) (λ u.
      Keeps-bind _ _ (Keeps-gated_call h x db client request) (λ gated.
        Keeps-bind _ _ (Keeps-reply_of h x db request gated) (λ reply.
          Keeps-bind _ _ (Keeps-bind _ _ (Keeps-list_research_queue none) (λ items. Keeps-pure _))
            (λ urls.
              Keeps-bind _ _ (Keeps-iso_now)
                (λ at. Keeps-collect_posts query at reply.posts urls)))))

  pub Keeps-collect :
      (client : AuthProxyClient) (url : Option String) (query : String) (n : ℕ)
      (session task : String)
      → Keeps (SameTables db) (collect h x client url query n session task)
  unfolding collect
  Keeps-collect client url query n session task =
      Keeps-if (not (is_nonempty (or_text url ""))) _ _ (λ e. Keeps-raise missing_url)
        (λ e. Keeps-search_posts client query (request_of query n session task))
