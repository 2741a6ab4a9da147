-- ===== src/Digest/Act/Laws.antt =====
-- What recording a document does to the store.
use mathlib.Core.List.{[], ◌∷◌}
use mimi_agent.Base.{◌+◌, ◌≡◌, refl, ◌∙◌, sym, ap, String, Option, List, ◌++◌, inl, inr, Bool-cases}
use mimi_agent.Base.Exec.{Result, Exec, ok, pure, ◌>>=◌}
use mimi_agent.Base.Exec.Keeps.{Keeps, Keeps-bind, Keeps-pure}
use mimi_agent.Db.Tables.{Json, Document, Database}
use mimi_agent.Db.Repository.{
  Host, World, new_id, iso_now, execute, insert_document, admits_document, record_document,
}
use mimi_agent.System.{History}
use mimi_agent.Runner.Gate.{Call}
use mimi_agent.Runner.Gate.Tables.{SameTables}
use mimi_agent.Digest.Act.{Surroundings, in_store, in_system, today}

-- The last document of the store.
pub record Recorded (repo : Option String) (path status : String) (commit_sha : Option String)
    (s t : Surroundings) : Type 0 where
  pub row : Document
  pub appended : t.world.db.documents ≡ s.world.db.documents ++ (row ∷ [])
  pub of_repo : row.repo ≡ repo
  pub of_path : row.path ≡ path
  pub of_status : row.status ≡ status
  pub of_commit : row.commit_sha ≡ commit_sha

pub in_system_lem :
    {A : Type 0} (act : Exec History A) (a : A) (s t : Surroundings)
    → in_system act s ≡ (ok a, t)
    → act s.history ≡ (ok a, t.history)
unfolding in_system
in_system_lem act a s t e = λ i. ((e i).0, (e i).1.history)

-- The documents are those of a list.
abbrev pub SameDocuments : List Document → Surroundings → Type 0
SameDocuments rows s = s.world.db.documents ≡ rows

pub Keeps-in_system :
    {A : Type 0} (rows : List Document) (act : Exec History A)
    → Keeps (SameDocuments rows) (in_system act)
unfolding in_system
Keeps-in_system rows act = record { after = λ s same. same }

-- An action on the store that leaves the tables as they are.
pub Keeps-in_store :
    {A : Type 0} (rows : List Document) (act : Exec (World Call) A)
    → ((db : Database) → Keeps (SameTables db) act)
    → Keeps (SameDocuments rows) (in_store act)
unfolding in_store
Keeps-in_store rows act keep = record {
  after = λ s same. ((keep s.world.db).after s.world (refl, refl, refl)).2 ∙ same;
}

pub Keeps-today : (rows : List Document) (h : Host) → Keeps (SameDocuments rows) (today h)
unfolding today
Keeps-today rows h =
    Keeps-bind _ _
      (Keeps-in_store rows (iso_now h) (λ db. unfold iso_now in record { after = λ s d. d }))
      (λ now. Keeps-pure _)

-- A document that was recorded after the list was still the same.
pub Recorded-since :
    {repo : Option String} {path status : String} {commit_sha : Option String}
    {s before t : Surroundings}
    → before.world.db.documents ≡ s.world.db.documents
    → Recorded repo path status commit_sha before t
    → Recorded repo path status commit_sha s t
Recorded-since same recorded = record {
  row = recorded.row;
  appended = rw (← same) recorded.appended;
  of_repo = recorded.of_repo;
  of_path = recorded.of_path;
  of_status = recorded.of_status;
  of_commit = recorded.of_commit;
}

documents_moved :
    {outcome answer : Result String} {reached t : Surroundings}
    → ◌≡◌ {A = Result String × Surroundings} (outcome, reached) (answer, t)
    → t.world.db.documents ≡ reached.world.db.documents
documents_moved e = sym (ap (λ p. p.1.world.db.documents) e)

module _ (h : Host) where
  pub record_document_lem :
      (repo : Option String) (path title doc_type status : String) (refs : List Json)
      (commit_sha : Option String) (metadata : Json) (id : String) (s t : Surroundings)
      → in_store (record_document h repo path title doc_type status refs commit_sha metadata) s
        ≡ (ok id, t)
      → Recorded repo path status commit_sha s t
  unfolding in_store record_document new_id iso_now insert_document execute ◌>>=◌ pure
  record_document_lem repo path title doc_type status refs commit_sha metadata id s t e =
      elim (Bool-cases (admits_document new_row s.world.db)) [
        | inl admitted ↦ record {
          row = new_row;
          appended = documents_moved (rw admitted at e);
          of_repo = refl;
          of_path = refl;
          of_status = refl;
          of_commit = refl;
        }
        | inr refused ↦ cc (rw refused at e)
      ]
    where
      new_row : Document
      new_row = record {
        id = h.new_id s.world.asked "doc";
        repo = repo;
        path = path;
        title = title;
        doc_type = doc_type;
        status = status;
        source_refs = refs;
        commit_sha = commit_sha;
        created_at = h.iso_now (s.world.asked + 1);
        updated_at = h.iso_now (s.world.asked + 1);
        metadata = metadata;
      }
