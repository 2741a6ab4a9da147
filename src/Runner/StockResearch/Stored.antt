-- ===== src/Runner/StockResearch/Stored.antt =====
-- What writing and recording a memo does.
use mathlib.Core.Path.{subst}
use mathlib.Core.List.{[], ◌∷◌}
use mimi_agent.Base.{◌+◌, ◌≡◌, refl, String, ◌<>◌, none, List, ◌++◌, inl, inr, Bool-cases}
use mimi_agent.Base.Exec.{Result, ok, err, pure, ◌>>=◌, >>=-eq-ok}
use mimi_agent.Str.{prefix}
use mimi_agent.Db.Tables.{Document}
use mimi_agent.Db.Repository.{
  Host, World, new_id, iso_now, execute, insert_document, admits_document, record_document,
}
use mimi_agent.Runner.Gate.{Call, wrote_file, Services}
use mimi_agent.Runner.StockResearch.{Dumps, StockResearchResult, memo_path, write_memo, store_memo}

module _ (h : Host) (x : Services) (d : Dumps) where
  -- The document of a memo, appended to those of a list.
  pub record Drafted (rows : List Document) (path id : String) (w : World Call) : Type 0 where
    pub row : Document
    pub appended : w.db.documents ≡ rows ++ (row ∷ [])
    pub of_id : row.id ≡ id
    pub of_path : row.path ≡ path
    pub of_status : row.status ≡ "draft"

  abbrev DraftedBy : World Call → String → Result String × World Call → Type 0
  DraftedBy s path (ok id, w) = Drafted s.db.documents path id w × (w.calls ≡ s.calls)
  DraftedBy s path (err e, w) = Unit {0}

  abbrev draft : String → String → String → World Call → Result String × World Call
  draft code path fetched_at =
      record_document h none path ("Stock Research Memo - " <> code) "stock_research_memo" "draft"
        ((("type", "jquants") ∷ ("code", code) ∷ []) ∷ []) none
        (("code", code) ∷ ("fetched_at", fetched_at) ∷ [])

  draft-DraftedBy :
      (code path fetched_at : String) (s : World Call)
      → DraftedBy s path (draft code path fetched_at s)
  unfolding record_document new_id iso_now insert_document execute ◌>>=◌ pure
  draft-DraftedBy code path fetched_at s = elim (Bool-cases (admits_document new_row s.db)) [
    | inl admitted ↦ rw admitted (
      record { row = new_row; appended = refl; of_id = refl; of_path = refl; of_status = refl },
      refl,
    )
    | inr taken ↦ rw taken tt
  ]
    where
      new_row : Document
      new_row = record {
        id = h.new_id s.asked "doc";
        repo = none;
        path = path;
        title = "Stock Research Memo - " <> code;
        doc_type = "stock_research_memo";
        status = "draft";
        source_refs = (("type", "jquants") ∷ ("code", code) ∷ []) ∷ [];
        commit_sha = none;
        created_at = h.iso_now (s.asked + 1);
        updated_at = h.iso_now (s.asked + 1);
        metadata = ("code", code) ∷ ("fetched_at", fetched_at) ∷ [];
      }

  -- The file of the memo was written, as the last that was asked of the services, and its document drafted.
  pub record Stored (code markdown : String) (r : StockResearchResult) (s t : World Call)
      : Type 0 where
    pub of_markdown : r.markdown ≡ markdown
    pub date : String
    pub of_path : r.path ≡ memo_path code date
    pub writing : List Call
    pub written : x.write_text writing r.path r.markdown ≡ ok tt
    pub calls : t.calls ≡ wrote_file r.path r.markdown ∷ writing
    pub drafted : Drafted s.db.documents r.path r.document_id t

  abbrev StoredBy : String → String → World Call → Result StockResearchResult × World Call → Type 0
  StoredBy code markdown s (ok r, t) = Stored code markdown r s t
  StoredBy code markdown s (err e, t) = Unit {0}

  pub paired : {A : Type 0} {a : A} (p : Result A × World Call) → p.0 ≡ ok a → p ≡ (ok a, p.1)
  paired p e = λ i. (e i, p.1)

  pub store_memo_lem :
      (code fetched_at markdown : String) (r : StockResearchResult) (s t : World Call)
      → store_memo h x d code fetched_at markdown s ≡ (ok r, t)
      → Stored code markdown r s t
  unfolding store_memo write_memo iso_now pure
  store_memo_lem code fetched_at markdown r s t e =
      let (now, dated, h1) = >>=-eq-ok _ _ s e in
      let (u, written, h2) = >>=-eq-ok _ _ _ h1 in
      let (id, recorded, h3) = >>=-eq-ok _ _ _ h2 in
      let path = memo_path code (prefix 10 now) in
      let reached = record s { asked = s.asked + 1; calls = wrote_file path markdown ∷ s.calls } in
      let (drafted, same) =
        subst (DraftedBy reached path) (paired (draft code path fetched_at reached) recorded)
          (draft-DraftedBy code path fetched_at reached) in
      subst (StoredBy code markdown s) h3 (record {
        of_markdown = refl;
        date = prefix 10 now;
        of_path = refl;
        writing = s.calls;
        written = written;
        calls = same;
        drafted = drafted;
      })
