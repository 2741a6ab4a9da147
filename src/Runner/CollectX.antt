-- ===== src/Runner/CollectX.antt =====
-- runner/collect_x.py: `collect x <query>`, which records the new posts of one search in the queue.
pub mod Calls
pub mod Inserted
pub mod Laws
pub mod Lifecycle
pub mod Own
mod Tests
use mathlib.Core.List.{[], ◌∷◌}
use mimi_agent.Base.{
  ℕ, zero, suc, ◌+◌, String, ◌<>◌, Bool, true, false, not, ◌||◌, Option, none, some, List, ◌++◌,
  contains, length, ◌==◌, string_eq, if◌then◌else◌,
}
use mimi_agent.Base.Dict.{Dict, lookup}
use mimi_agent.Base.Exec.{
  Error, Result, ok, err, Exec, pure, raise, lift, gets, ◌>>=◌, ◌>>◌, try_else,
}
use mimi_agent.Str.{is_nonempty, strip, prefix, decimal, join}
use mimi_agent.Db.Tables.{Json, QueueItem}
use mimi_agent.Db.Repository.{
  Host, World, iso_now, create_session, update_session_status, create_task, finish_task,
  record_research_queue_item, list_research_queue,
}
use mimi_agent.Runner.Gate.{
  ToolRequest, Post, Reply, Services, AuthProxyClient, Program, Gated, Call, runtime_error,
  initialize_client, gated_call, reply_of,
}

abbrev pub role : String
role = "x_collector"

abbrev pub tool_name : String
tool_name = "x.search_posts_recent"

-- `_MAX_SNIPPET_CHARS`
abbrev pub max_snippet_chars : ℕ
max_snippet_chars = 120

pub record CollectXResult : Type 0 where
  pub status : String
  pub query : String
  pub inserted_count : ℕ
  pub item_ids : List String

-- `a or b` of texts that may be missing
abbrev pub or_text : Option String → String → String
or_text none b = b
or_text (some a) b = if is_nonempty a then a else b

abbrev pub or_zero : Option ℕ → ℕ
or_zero none = 0
or_zero (some n) = n

-- The URL of a reference, if it has one that is not empty.
abbrev pub add_url : Option String → List String → List String
add_url none urls = urls
add_url (some url) urls = if is_nonempty url then url ∷ urls else urls

abbrev pub refs_urls : List Json → List String → List String
refs_urls [] urls = urls
refs_urls (ref ∷ refs) urls = refs_urls refs (add_url (lookup "url" ref) urls)

abbrev pub items_urls : List QueueItem → List String → List String
items_urls [] urls = urls
items_urls (item ∷ items) urls = items_urls items (refs_urls item.source_refs urls)

-- The score, which is shown in the reason.
abbrev pub score : Post → ℕ
score post = or_zero post.like_count + or_zero post.repost_count

abbrev pub post_url : Post → String
post_url post = or_text post.url ""

-- A dict entry whose value may be null.
abbrev pub text_entry : String → Option String → Json
text_entry name none = []
text_entry name (some text) = (name, text) ∷ []

-- `post.get("id") or post.get("post_id")`
abbrev pub post_id : Post → Option String
post_id post = elim post.id [
  | none ↦ post.post_id
  | some i ↦ if is_nonempty i then some i else post.post_id
]

abbrev pub metadata : Post → String → Json
metadata post collected_at =
    text_entry "post_id" (post_id post)
    ++ (("collected_at", collected_at)
        ∷ (
          "text_redacted",
          prefix max_snippet_chars (strip (or_text post.text_redacted (or_text post.text ""))),
        )
        ∷ [])

abbrev pub missing_url : Error
missing_url = runtime_error "X_MCP_URL is not set; cannot reach the x-mcp /mcp endpoint"

abbrev pub request_of : String → ℕ → String → String → ToolRequest
request_of query max_results session_id task_id = record {
  session_id = session_id;
  task_id = task_id;
  role = role;
  tool_name = tool_name;
  arguments = ("query", query) ∷ ("max_results", decimal max_results) ∷ [];
}

module _ (h : Host) (x : Services) where
  unfoldable pub existing_urls : Program (List String)
  existing_urls = do items ← list_research_queue h none; pure (items_urls items [])

  unfoldable pub record_post : String → String → Post → Program String
  record_post query collected_at post =
      record_research_queue_item h "x" query
        ("X signal (engagement " <> (decimal (score post) <> ")"))
        ((("type", "url")
            ∷ ("url", post_url post)
            ∷ ("author", or_text post.author_handle (or_text post.author ""))
            ∷ [])
          ∷ [])
        (score post) "new" (some role) none none (metadata post collected_at)

  -- The loop over the posts. A post is passed over if it has no URL, or one that is known.
  unfoldable pub collect_posts : String → String → List Post → List String → Program (List String)
  collect_posts query collected_at [] urls = pure []
  collect_posts query collected_at (post ∷ posts) urls =
      if not (is_nonempty (post_url post)) || contains urls (post_url post)
      then collect_posts query collected_at posts urls
      else do
        item_id ← record_post query collected_at post
        item_ids ← collect_posts query collected_at posts (post_url post ∷ urls)
        pure (item_id ∷ item_ids)

  -- The search and the loop over its posts.
  unfoldable pub search_posts : AuthProxyClient → String → ToolRequest → Program (List String)
  search_posts client query request = do
    initialize_client h x
    gated ← gated_call h x client request
    reply ← reply_of h x request gated
    urls ← existing_urls
    collected_at ← iso_now h
    collect_posts query collected_at reply.posts urls

  -- The body of the `try`.
  unfoldable pub collect :
      AuthProxyClient → Option String → String → ℕ → String → String → Program (List String)
  collect client mcp_url query max_results session_id task_id =
      if not (is_nonempty (or_text mcp_url ""))
      then raise missing_url
      else search_posts client query (request_of query max_results session_id task_id)

  unfoldable pub fail_run : String → String → Error → Program CollectXResult
  fail_run session_id task_id e = do
    finish_task h task_id "failed" none (some e)
    update_session_status h session_id "failed"
    raise e

  unfoldable pub finish_run : String → String → String → List String → Program CollectXResult
  finish_run query session_id task_id item_ids = do
    finish_task h task_id "succeeded"
        (some (
          ("query", query)
          ∷ ("inserted_count", decimal (length item_ids))
          ∷ ("item_ids", join "," item_ids)
          ∷ []))
        none
    update_session_status h session_id "stopped"
    pure (record {
      status = "succeeded";
      query = query;
      inserted_count = length item_ids;
      item_ids = item_ids;
    })

  -- `given or create()`
  abbrev pub or_create : Option String → Program String → Program String
  or_create none create = create
  or_create (some given) create = if is_nonempty given then pure given else create

  unfoldable pub run_collect_x :
      AuthProxyClient
      → Option String
      → String
      → ℕ
      → Option String
      → Option String
      → Program CollectXResult
  run_collect_x client mcp_url query max_results session task = do
    session_id ← or_create session (create_session h "collect-x" role "" [])
    update_session_status h session_id "running"
    task_id ← or_create task (
        create_task h session_id role
          (("query", query) ∷ ("max_results", decimal max_results) ∷ []))
    try_else (collect client mcp_url query max_results session_id task_id)
        (finish_run query session_id task_id) (fail_run session_id task_id)
