-- ===== src/Digest/Start/Laws.antt =====
-- The exit code of a digest, and what a digest begins with.
use mimi_agent.Base.{zero, suc, ◌≡◌, ◌≢◌, refl, String, true, false, not, ◌||◌, List}
use mimi_agent.Base.Exec.Keeps.{Keeps, Keeps-pure, Keeps-raise, Keeps-if, Keeps-bind}
use mimi_agent.Scheduler.Number.{ℤ, pos, negsuc}
use mimi_agent.System.{System, getenv}
use mimi_agent.Db.Tables.{Document}
use mimi_agent.Kubernetes.ApiClient.{given}
use mimi_agent.Digest.Verify.{is_zero}
use mimi_agent.Digest.Start.{final_code, connect}
use mimi_agent.Digest.Act.Laws.{SameDocuments, Keeps-in_system}

pub is_zero_lem : (code : ℤ) → is_zero code ≡ true → code ≡ pos 0
is_zero_lem (pos zero) h = refl
is_zero_lem (pos (suc n)) h = cc h
is_zero_lem (negsuc n) h = cc h

-- A code that is not the one of a verified run is never 0.
pub final_code-nonzero : (code : ℤ) → final_code false code ≢ pos 0
final_code-nonzero (pos zero) h = cc h
final_code-nonzero (pos (suc n)) h = cc h
final_code-nonzero (negsuc n) h = cc h

module _ (x : System) where
  pub Keeps-connect :
      (rows : List Document) (role command : String)
      → Keeps (SameDocuments rows) (connect x role command)
  unfolding connect
  Keeps-connect rows role command =
      Keeps-if (not (given (getenv x "X_MCP_URL")) || not (given (getenv x "X_MCP_SESSION_TOKEN")))
        _ _ (λ e. Keeps-raise _)
        (λ e. Keeps-bind _ _ (Keeps-in_system rows _) (λ issued. Keeps-pure _))
