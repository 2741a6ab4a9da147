-- ===== src/Security/Fnmatch/Tests.antt =====
-- Shell patterns at concrete names.
use mimi_agent.Base.{◌≡◌, refl, true, nat_eq}
use mimi_agent.Security.Fnmatch.{fnmatch}

range_run : fnmatch "b-1" "[a-c]?[!2]" ≡ true
unfolding fnmatch nat_eq
range_run = refl
