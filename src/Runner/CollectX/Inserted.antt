-- ===== src/Runner/CollectX/Inserted.antt =====
-- What the loop over the posts adds to the queue.
use mathlib.Core.List.{[], ◌∷◌, append-nil, append_assoc}
use mimi_agent.Base.{
  ◌+◌, ◌<>◌, ◌≡◌, refl, ap, ◌∙◌, String, true, false, not, ◌||◌, none, some, List, ◌++◌, map,
  contains, arith, string_eq, inl, inr, Bool-cases,
}
use mimi_agent.Base.Exec.{Result, ok, pure, ◌>>=◌, >>=-eq-ok}
use mimi_agent.Str.{is_nonempty, decimal}
use mimi_agent.Db.Tables.{Json, QueueItem}
use mimi_agent.Db.Repository.{
  Host, World, admits_item, new_id, iso_now, execute, insert_item, record_research_queue_item,
}
use mimi_agent.Runner.Gate.{Post, Services, Call}
use mimi_agent.Base.Dict.{lookup}
use mimi_agent.Runner.CollectX.{
  role, or_text, score, metadata, post_url, refs_urls, record_post, collect_posts,
}

-- The URLs are new: not empty, not among those that are known, and no two of them the same.
abbrev pub Fresh : List String → List String → Type 0
Fresh known [] = Unit
Fresh known (url ∷ urls) =
    (is_nonempty url ≡ true) × (contains known url ≡ false) × Fresh (url ∷ known) urls

module _ (h : Host) (x : Services) where
  -- The rows that a loop added, the URL of each and its id.
  pub record Added (known : List String) (s : World Call) (ids : List String) (s' : World Call)
      : Type 0 where
    pub rows : List QueueItem
    pub urls : List String
    pub queue : s'.db.research_queue ≡ s.db.research_queue ++ rows
    pub ids_of : map (λ (r : QueueItem). r.id) rows ≡ ids
    pub urls_of :
        map (λ (r : QueueItem). refs_urls r.source_refs []) rows ≡ map (λ (u : String). u ∷ []) urls
    pub fresh : Fresh known urls

  -- A row that was recorded, with its id and its references.
  record Recorded (refs : List Json) (s : World Call) (id : String) (s' : World Call) : Type 0 where
    row : QueueItem
    queue : s'.db.research_queue ≡ s.db.research_queue ++ (row ∷ [])
    id_of : row.id ≡ id
    refs_of : row.source_refs ≡ refs

  insert_item-Recorded :
      (row : QueueItem) (s : World Call) {id : String} {s' : World Call}
      → (insert_item h row >>= λ _. pure row.id) s ≡ (ok id, s')
      → Recorded row.source_refs s id s'
  unfolding insert_item execute ◌>>=◌ pure
  insert_item-Recorded row s ran = elim (Bool-cases (admits_item row s.db)) [
    | inl admitted ↦
        let ran' = rw (admitted, execute) at ran in
        record { row = row; queue = ground arith; id_of = ground arith; refs_of = refl }
    | inr refused ↦ absurd (cc (rw (refused, execute) at ran))
  ]

  -- The references of the row for a post.
  abbrev post_refs : Post → List Json
  post_refs post =
      (("type", "url")
        ∷ ("url", post_url post)
        ∷ ("author", or_text post.author_handle (or_text post.author ""))
        ∷ [])
      ∷ []

  post_item : String → String → Post → String → String → QueueItem
  post_item query at post id now = record {
    id = id;
    source = "x";
    topic = query;
    ticker = none;
    company_name = none;
    reason = "X signal (engagement " <> (decimal (score post) <> ")");
    source_refs = post_refs post;
    score = score post;
    status = "new";
    assigned_role = some role;
    created_at = now;
    updated_at = now;
    metadata = metadata post at;
  }

  record_post-Recorded :
      (query at : String) (post : Post) (s : World Call) {id : String} {s' : World Call}
      → record_post h x query at post s ≡ (ok id, s')
      → Recorded (post_refs post) s id s'
  unfolding record_post record_research_queue_item new_id iso_now ◌>>=◌ post_item
  record_post-Recorded query at post s ran =
      let r =
        insert_item-Recorded
          (post_item query at post (h.new_id s.asked "rq") (h.iso_now (s.asked + 1)))
          (record s { asked = s.asked + 1 + 1 }) ran in
      record { row = r.row; queue = r.queue; id_of = r.id_of; refs_of = r.refs_of }

  refs_urls-post :
      (post : Post)
      → is_nonempty (post_url post) ≡ true
      → refs_urls (post_refs post) [] ≡ post_url post ∷ []
  unfolding lookup string_eq
  refs_urls-post post some_url = rw some_url

  -- One more post before what the rest of the loop adds.
  Added-cons :
      (known : List String) (post : Post) (s s1 s' : World Call) (id : String) (ids : List String)
      → is_nonempty (post_url post) ≡ true
      → contains known (post_url post) ≡ false
      → Recorded (post_refs post) s id s1
      → Added (post_url post ∷ known) s1 ids s'
      → Added known s (id ∷ ids) s'
  Added-cons known post s s1 s' id ids some_url new r a = record {
    rows = r.row ∷ a.rows;
    urls = post_url post ∷ a.urls;
    queue =
        a.queue
        ∙ ap (λ (q : List QueueItem). q ++ a.rows) r.queue
        ∙ append_assoc s.db.research_queue (r.row ∷ []) a.rows;
    ids_of = rw (r.id_of, a.ids_of);
    urls_of = rw (r.refs_of, refs_urls-post post some_url, a.urls_of);
    fresh = (some_url, new, a.fresh);
  }

  Added-same :
      (known : List String) (s : World Call) {ids ids' : List String} {s1 s' : World Call}
      → ◌≡◌ {A = Result (List String) × World Call} (ok ids, s1) (ok ids', s')
      → Added known s ids s1
      → Added known s ids' s'
  Added-same known s same a = record {
    rows = a.rows;
    urls = a.urls;
    queue = ground (arith, a.queue);
    ids_of = ground (arith, a.ids_of);
    urls_of = a.urls_of;
    fresh = a.fresh;
  }

  -- The loop inserts one row for each id that it returns, and their URLs are not empty, not among the
  -- known ones, and all different.
  pub collect_posts-Added :
      (query at : String) (posts : List Post) (known : List String) (s : World Call)
      {ids : List String} {s' : World Call}
      → collect_posts h x query at posts known s ≡ (ok ids, s')
      → Added known s ids s'
  unfolding collect_posts pure
  collect_posts-Added query at [] known s {ids} {s'} ran =
      let same : ◌≡◌ {A = Result (List String) × World Call} (ok [], s) (ok ids, s') = ran in
      record {
        rows = [];
        urls = [];
        queue = ground (arith, append-nil s.db.research_queue);
        ids_of = ground arith;
        urls_of = refl;
        fresh = tt;
      }
  collect_posts-Added query at (post ∷ posts) known s {s' = s'} ran =
      elim (Bool-cases (not (is_nonempty (post_url post)) || contains known (post_url post))) [
        | inl passed ↦
            collect_posts-Added query at posts known s (rw (passed, collect_posts) at ran)
        | inr taken ↦
            let body = rw (taken, collect_posts) at ran in
            let (id, first, more) = >>=-eq-ok (record_post h x query at post) _ s body in
            let s1 = (record_post h x query at post s).1 in
            let (ids, rest, last) =
              >>=-eq-ok (collect_posts h x query at posts (post_url post ∷ known)) _ s1 more in
            Added-same known s last (
              Added-cons known post s s1
                (collect_posts h x query at posts (post_url post ∷ known) s1).1 id ids
                (ground arith) (ground arith)
                (record_post-Recorded query at post s (ap (λ (r : Result String). (r, s1)) first))
                (collect_posts-Added query at posts (post_url post ∷ known) s1 (
                  ap
                    (λ (r : Result (List String)).
                      (r, (collect_posts h x query at posts (post_url post ∷ known) s1).1))
                    rest)))
      ]
