-- ===== src/Security/PathPolicy.antt =====
-- security/path_policy.py: which paths of a document repository may be written.
pub mod Normpath
pub mod Laws
pub mod Segments
mod Tests
use Prim.Native.String.{[], ◌∷◌}
use mathlib.Core.List
use mimi_agent.Base.{
  ℕ, String, ◌<>◌, Char, code, Bool, true, false, ◌||◌, List, ◌==◌, nat_eq, string_eq,
  if◌then◌else◌,
}
use mimi_agent.Str.{starts, has_text, lstrip_by, rstrip_by, is_nonempty}
use mimi_agent.Security.Fnmatch.{fnmatch}
use Normpath.{normpath}

pub record PathDecision : Type 0 where
  pub allowed : Bool
  pub reason : String

is_slash : ℕ → Bool
is_slash c = c == b'/'

unfoldable pub norm : String → String
unfolding is_slash lstrip_by
norm path = lstrip_by is_slash (normpath path)

-- `path` begins with a slash or a backslash.
unfoldable pub is_absolute : String → Bool
unfolding starts
is_absolute path = starts path "/" || starts path "\\"

-- The test on the normalised path: some segment is `..`.
unfoldable pub escapes : String → Bool
unfolding has_text starts
escapes normalized =
    normalized == ".." || starts normalized "../" || has_text "/../" ("/" <> (normalized <> "/"))

pub slash_or_star : ℕ → Bool
slash_or_star c = c == b'/' || c == b'*'

-- `fnmatch(normalized, pattern) or normalized == pattern.rstrip("/**")`
unfoldable pub covers : String → String → Bool
unfolding slash_or_star rstrip_by fnmatch
covers normalized pattern =
    fnmatch normalized pattern || normalized == rstrip_by slash_or_star pattern

pub allow_loop : String → List String → PathDecision
allow_loop normalized List.[] = record {
  allowed = false;
  reason = "path not covered by allowed paths";
}
allow_loop normalized (List.◌∷◌ pattern patterns) =
    if covers normalized pattern
    then record { allowed = true; reason = "allowed" }
    else allow_loop normalized patterns

allow_check : String → List String → PathDecision
allow_check normalized List.[] = record { allowed = false; reason = "no allowed paths configured" }
allow_check normalized (List.◌∷◌ pattern patterns) =
    allow_loop normalized (List.◌∷◌ pattern patterns)

pub deny_loop : String → List String → List String → PathDecision
deny_loop normalized allowed List.[] = allow_check normalized allowed
deny_loop normalized allowed (List.◌∷◌ pattern patterns) =
    if covers normalized pattern
    then record { allowed = false; reason = "path denied by pattern " <> pattern }
    else deny_loop normalized allowed patterns

unfoldable pub is_path_allowed : String → List String → List String → PathDecision
unfolding allow_loop allow_check deny_loop
is_path_allowed path allowed denied =
    let normalized = norm path in
    let decided = deny_loop normalized allowed denied in
    if is_absolute path
    then record { allowed = false; reason = "path escapes repository root" }
    else if escapes normalized
    then record { allowed = false; reason = "path escapes repository root" }
    else decided
