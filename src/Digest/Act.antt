-- ===== src/Digest/Act.antt =====
-- The state of a digest: the store with the calls of the tools, beside what the launchers did.
pub mod Laws
use mimi_agent.Base.{String}
use mimi_agent.Base.Exec.{Result, Exec, ◌>>=◌, pure}
use mimi_agent.Str.{prefix}
use mimi_agent.System.{History}
use mimi_agent.Db.Repository.{Host, World, iso_now}
use mimi_agent.Runner.Gate.{Call}

pub record Surroundings : Type 0 where
  pub world : World Call
  pub history : History

abbrev pub Act : Type 0 → Type 0
Act A = Exec Surroundings A

unfoldable pub in_store : {A : Type 0} → Exec (World Call) A → Act A
in_store act s = let (outcome, world) = act s.world in (outcome, record s { world = world })

unfoldable pub in_system : {A : Type 0} → Exec History A → Act A
in_system act s =
    let (outcome, history) = act s.history in (outcome, record s { history = history })

-- `now_jst().date().isoformat()`: the date is the first part of a time.
unfoldable pub today : Host → Act String
today h = do now ← in_store (iso_now h); pure (prefix 10 now)
