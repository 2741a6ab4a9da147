-- ===== src/Security/PathPolicy/Tests.antt =====
-- Runs of the path policy, and the theorems at concrete paths.
use mathlib.Core.List.{List, [], ◌∷◌}
use mimi_agent.Base.{◌↔◌, any, contains, String, ◌≡◌, refl, true, false, string_eq, nat_eq}
use mimi_agent.Security.PathPolicy.Normpath.{normpath}
use mimi_agent.Security.PathPolicy.Segments.{segments}
use mimi_agent.Security.PathPolicy.Laws.{is_path_allowed_iff, is_path_allowed-inside}
use mimi_agent.Security.PathPolicy.{norm, is_path_allowed, is_absolute, escapes, covers}

norm_runs : norm "a/./b//../c/" ≡ "a/c"
unfolding norm string_eq nat_eq normpath
norm_runs = refl

allowed_run :
    is_path_allowed "daily/2026/01/x.md" ("daily/**" ∷ []) (".env" ∷ "secrets/**" ∷ [])
    ≡ record { allowed = true; reason = "allowed" }
unfolding is_path_allowed string_eq nat_eq norm is_absolute escapes covers normpath
allowed_run = refl

denied_run :
    (is_path_allowed "secrets/[x].md" ("**" ∷ []) (".env" ∷ "secrets/[[]?].md" ∷ [])).reason
    ≡ "path denied by pattern secrets/[[]?].md"
unfolding is_path_allowed string_eq nat_eq norm is_absolute escapes covers normpath
denied_run = refl

escape_run :
    (is_path_allowed "daily/../../x" ("**" ∷ []) (".env" ∷ "secrets/[[]?].md" ∷ [])).reason
    ≡ "path escapes repository root"
unfolding is_path_allowed string_eq nat_eq norm is_absolute escapes covers normpath
escape_run = refl

abbrev allowed_paths : List String
allowed_paths = "daily/**" ∷ []

abbrev denied_paths : List String
denied_paths = ".env" ∷ "secrets/**" ∷ []

daily_is_allowed : (is_path_allowed "daily/x.md" allowed_paths denied_paths).allowed ≡ true
unfolding is_path_allowed string_eq nat_eq norm is_absolute escapes covers normpath
daily_is_allowed = refl

is_path_allowed_iff_example :
    ((is_path_allowed "daily/x.md" allowed_paths denied_paths).allowed ≡ true) ↔ (
      (is_absolute "daily/x.md" ≡ false)
      × (escapes (norm "daily/x.md") ≡ false)
      × (any (covers (norm "daily/x.md")) denied_paths ≡ false)
      × (any (covers (norm "daily/x.md")) allowed_paths ≡ true))
is_path_allowed_iff_example = is_path_allowed_iff "daily/x.md" allowed_paths denied_paths

is_path_allowed-inside_example : contains (segments (norm "daily/x.md")) ".." ≡ false
is_path_allowed-inside_example =
    is_path_allowed-inside "daily/x.md" allowed_paths denied_paths daily_is_allowed
