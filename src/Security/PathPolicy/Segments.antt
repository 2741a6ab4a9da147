-- ===== src/Security/PathPolicy/Segments.antt =====
-- The segments of a path: a path with a segment `..` is one that the escape test finds.
use Prim.Native.String.{[], ◌∷◌}
use text.Mathlib.TextLemmas.{cons-append, nil-append}
use mimi_agent.Base.{
  String, ◌<>◌, code, ◌≡◌, ◌∙◌, ap, refl, false, true, false, List, arith, ◌==◌, nat_eq, string_eq,
  contains, inl, inr, Bool-cases,
}
use mimi_agent.Str.{starts, split_on, has_text}
use mimi_agent.Str.Laws.{first, others, first-push_char, others-push_char, contains-first-others}
use mimi_agent.Security.PathPolicy.{escapes}

abbrev pub segments : String → List String
segments path = split_on b'/' path

starts-first : (s : String) → starts (s <> "/") (first (segments s) <> "/") ≡ true
unfolding split_on starts
starts-first [] = unfold nat_eq in refl
starts-first (c ∷ s) = elim (Bool-cases (code c == b'/')) [
  | inl sep ↦ rw (cons-append, sep) (ground arith)
  | inr other ↦
      rw (cons-append, other, first-push_char, cons-append) (ground (arith, starts-first s))
]

-- A later segment `..` stands between two slashes, the last of which may be the one put behind.
-- If the first segment is `..`, the text begins with `../`.
starts-dots : (s : String) → first (segments s) ≡ ".." → starts (s <> "/") "../" ≡ true
starts-dots s h = rw h at (starts-first s)

has_text-later :
    (s : String) → contains (others (segments s)) ".." ≡ true → has_text "/../" (s <> "/") ≡ true
unfolding split_on starts has_text
has_text-later [] h = ground arith
has_text-later (c ∷ s) h = elim (Bool-cases (code c == b'/')) [
  | inl sep ↦
      rw cons-append (elim (contains-first-others ".." (segments s) (rw (sep, split_on) at h)) [
        | inl here ↦ ground (arith, starts-dots s here)
        | inr later ↦ ground (arith, has_text-later s later)
      ])
  | inr other ↦
      rw cons-append (ground (arith, has_text-later s (rw (other, others-push_char) at h)))
]

slash-append : (s : String) → "/" <> s ≡ "/" ∷ s
slash-append s = cons-append "/" "" s ∙ ap (λ (t : String). "/" ∷ t) (nil-append s)

-- Between the slashes that the test puts round the path, every segment `..` is found.
has_text-root :
    (s : String) → contains (segments s) ".." ≡ true → has_text "/../" ("/" <> (s <> "/")) ≡ true
unfolding has_text starts nat_eq
has_text-root s h = rw slash-append (elim (contains-first-others ".." (segments s) h) [
  | inl here ↦ ground (arith, starts-dots s here)
  | inr later ↦ ground (arith, has_text-later s later)
])

-- A path whose normal form passes the escape test has no segment `..`.
pub segments-escapes :
    (normalized : String) → escapes normalized ≡ false → contains (segments normalized) ".." ≡ false
unfolding escapes has_text
segments-escapes n h = elim (Bool-cases (contains (segments n) "..")) [
  | inr none ↦ none
  | inl dots ↦ ground (arith, has_text-root n dots)
]
