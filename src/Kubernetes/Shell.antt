-- ===== src/Kubernetes/Shell.antt =====
-- `shlex.quote`, with which runner/k8s_claude_launcher.py writes the arguments into a script for `sh -c`.
pub mod Reading
pub mod RoundTrip
use Prim.Native.String.{[], ◌∷◌}
use mathlib.Core.List
use mimi_agent.Base.{
  ℕ, String, ◌<>◌, Char, code, Bool, true, false, ◌||◌, List, map, leb, ◌&&◌, ◌==◌, nat_eq,
  if◌then◌else◌,
}
use mimi_agent.Str.{all_chars, join}

-- Letters, digits and `_@%+=:,./-`.
unfoldable pub is_safe : ℕ → Bool
is_safe c =
    (leb b'a' c && leb c b'z')
    || (leb b'A' c && leb c b'Z')
    || (leb b'0' c && leb c b'9')
    || c == b'_'
    || c == b'@'
    || c == b'%'
    || c == b'+'
    || c == b'='
    || c == b':'
    || c == b','
    || c == b'.'
    || c == b'/'
    || c == b'-'

-- `s.replace("'", "'\"'\"'")`
unfoldable pub escape : String → String
escape [] = []
escape (c ∷ s) = let rest = escape s in if code c == 39 then "'\"'\"'" <> rest else c ∷ rest

unfoldable pub quote : String → String
unfolding is_safe escape
quote [] = "''"
quote (c ∷ s) = if all_chars is_safe (c ∷ s) then c ∷ s else "'" <> (escape (c ∷ s) <> "'")

-- `" ".join(shlex.quote(arg) for arg in args)`
unfoldable pub quote_all : List String → String
unfolding quote join
quote_all args = join " " (map quote args)
