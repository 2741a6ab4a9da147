-- ===== src/Kubernetes/JobName.antt =====
-- The names of Jobs, which runner/kubernetes_runner.py and runner/k8s_claude_launcher.py build in the same
-- words. `lower` is that of ASCII text; session ids are.
pub mod Laws
use Prim.Native.String.{[], ◌∷◌}
use mimi_agent.Base.{ℕ, String, ◌<>◌, Char, code, Bool, ◌==◌, nat_eq, if◌then◌else◌}
use mimi_agent.Str.{prefix, rstrip_by}

-- A character of the first text becomes the one at its place in the second.
unfoldable pub swap_char : String → String → Char → Char
swap_char [] t c = c
swap_char (a ∷ s) [] c = c
swap_char (a ∷ s) (b ∷ t) c = let other = swap_char s t c in if code c == code a then b else other

unfoldable pub swap_chars : String → String → String → String
swap_chars from into [] = []
swap_chars from into (c ∷ s) = swap_char from into c ∷ swap_chars from into s

abbrev pub capitals : String
capitals = "ABCDEFGHIJKLMNOPQRSTUVWXYZ"

abbrev pub small_letters : String
small_letters = "abcdefghijklmnopqrstuvwxyz"

unfoldable pub lower : String → String
unfolding swap_chars swap_char
lower s = swap_chars capitals small_letters s

-- `session_id.replace("_", "-").lower()`
unfoldable pub name_suffix : String → String
unfolding lower swap_chars
name_suffix session_id = lower (swap_chars "_" "-" session_id)

abbrev pub is_dash : ℕ → Bool
is_dash c = c == b'-'

-- `f"{job_name_prefix}-{suffix}"[:63].rstrip("-")`
unfoldable pub name_of : String → String → String
unfolding name_suffix
name_of job_name_prefix session_id =
    rstrip_by is_dash (prefix 63 (job_name_prefix <> ("-" <> name_suffix session_id)))
