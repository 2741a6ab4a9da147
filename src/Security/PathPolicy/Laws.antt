-- ===== src/Security/PathPolicy/Laws.antt =====
-- When a path is allowed, and that an allowed path stays below the repository's root.
use mimi_agent.Base.{String, ◌≡◌, refl, ◌↔◌, true, false, List, any, contains, string_eq, arith}
use mimi_agent.Security.PathPolicy.{
  norm, is_absolute, escapes, covers, allow_loop, deny_loop, is_path_allowed,
}
use mimi_agent.Security.PathPolicy.Segments.{segments, segments-escapes}

module _ (n : String) where
  allow_loop-any :
      (patterns : List String) → (allow_loop n patterns).allowed ≡ any (covers n) patterns
  unfolding allow_loop
  allow_loop-any List.[] = refl
  allow_loop-any (List.◌∷◌ p ps) = ground (arith, allow_loop-any ps)

  -- Every denied pattern is tried before the first allowed one.
  deny_loop_iff :
      (allowed denied : List String)
      → ((deny_loop n allowed denied).allowed ≡ true)
        ↔ ((any (covers n) denied ≡ false) × (any (covers n) allowed ≡ true))
  unfolding is_path_allowed
  deny_loop_iff List.[] List.[] = ground arith
  deny_loop_iff (List.◌∷◌ a as') List.[] = ground (arith, allow_loop-any as')
  deny_loop_iff as' (List.◌∷◌ d ds) = ground (arith, deny_loop_iff as' ds)

-- A path is allowed exactly when it does not begin with a slash or a backslash, its normal form
-- passes the escape test, no denied pattern covers that form and some allowed pattern does.
pub is_path_allowed_iff :
    (path : String) (allowed denied : List String)
    → ((is_path_allowed path allowed denied).allowed ≡ true) ↔ (
        (is_absolute path ≡ false)
        × (escapes (norm path) ≡ false)
        × (any (covers (norm path)) denied ≡ false)
        × (any (covers (norm path)) allowed ≡ true))
unfolding is_path_allowed
is_path_allowed_iff path allowed denied = ground (arith, deny_loop_iff (norm path) allowed denied)

-- No segment of the normal form of an allowed path is `..`.
pub is_path_allowed-inside :
    (path : String) (allowed denied : List String)
    → (is_path_allowed path allowed denied).allowed ≡ true
    → contains (segments (norm path)) ".." ≡ false
is_path_allowed-inside path allowed denied h =
    segments-escapes (norm path) ((is_path_allowed_iff path allowed denied).0 h).1
