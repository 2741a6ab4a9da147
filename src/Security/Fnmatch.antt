-- ===== src/Security/Fnmatch.antt =====
-- `fnmatch(name, pattern)` of Python's standard library on POSIX, as the path and tool policies call
-- it: `*` any text (slashes too), `?` one character, `[...]` a set of characters and ranges.
pub mod Laws
mod Tests
use Prim.Native.String.{[], ◌∷◌}
use mathlib.Core.List
use mimi_agent.Str.{count}
use mimi_agent.Base.{
  ℕ, zero, suc, ◌-◌, String, Char, code, Bool, true, false, not, ◌&&◌, ◌||◌, List, Option, none,
  some, ltb, leb, any, ◌==◌, nat_eq, string_eq, if◌then◌else◌,
}

-- The characters from the first to the second: none if they stand the wrong way round.
abbrev pub Range : Type 0
Range = ℕ × ℕ

pub data Token : Type 0 where
  star any_one : Token
  lit : ℕ → Token
  one_of : Bool → List Range → Token

-- The text before the closing bracket and what follows it. The first character of a set may be
-- a bracket: it does not close the set.
abbrev prepend : Char → Option (String × String) → Option (String × String)
prepend c none = none
prepend c (some (a, b)) = some (c ∷ a, b)

closing : String → Option (String × String)
closing [] = none
closing (c ∷ s) = let rest = closing s in if code c == b']' then some ([], s) else prepend c rest

closing_after_first : String → Option (String × String)
closing_after_first [] = none
closing_after_first (c ∷ s) = prepend c (closing s)

-- `a-z` is a range, and a `-` that begins or ends the text is itself.
ranges : String → List Range
ranges [] = List.[]
ranges (a ∷ []) = List.◌∷◌ (code a, code a) List.[]
ranges (a ∷ d ∷ []) = List.◌∷◌ (code a, code a) (List.◌∷◌ (code d, code d) List.[])
ranges (a ∷ d ∷ b ∷ s) =
    let range = ranges s in
    let single = ranges (d ∷ b ∷ s) in
    if code d == b'-' then List.◌∷◌ (code a, code b) range else List.◌∷◌ (code a, code a) single

-- The set behind a `[`, with the text after its `]`; none if no `]` closes it.
negated_set : Option (String × String) → Option (Token × String)
negated_set none = none
negated_set (some (body, rest)) = some (one_of true (ranges body), rest)

plain_set : Option (String × String) → Option (Token × String)
plain_set none = none
plain_set (some (body, rest)) = some (one_of false (ranges body), rest)

bracket : String → Option (Token × String)
bracket [] = none
bracket (c ∷ s) =
    if code c == b'!'
    then negated_set (closing_after_first s)
    else plain_set (closing_after_first (c ∷ s))

-- The tokens of a pattern. The number counts the characters of a set that are still to be passed.
next_token : ℕ → String → Option (Token × String) → (ℕ → List Token) → List Token
next_token c s none go = List.◌∷◌ (lit c) (go 0)
next_token c s (some (token, rest)) go = List.◌∷◌ token (go (count s - count rest))

pub tokens : ℕ → String → List Token
tokens skip [] = List.[]
tokens (suc skip) (c ∷ s) = tokens skip s
tokens zero (c ∷ s) =
    if code c == b'*'
    then List.◌∷◌ star (tokens 0 s)
    else if code c == b'?'
    then List.◌∷◌ any_one (tokens 0 s)
    else if code c == b'['
    then next_token b'[' s (bracket s) (λ k. tokens k s)
    else List.◌∷◌ (lit (code c)) (tokens 0 s)

in_range : ℕ → Range → Bool
in_range c (lo, hi) = leb lo c && leb c hi

in_set : Bool → List Range → ℕ → Bool
in_set true rs c = not (any (in_range c) rs)
in_set false rs c = any (in_range c) rs

-- What a token that stands for one character says of it.
pub fits : Token → ℕ → Bool
unfolding in_set in_range
fits star c = false
fits any_one c = true
fits (lit d) c = c == d
fits (one_of negated rs) c = in_set negated rs c

-- The whole name matches.
pub match_tokens : List Token → String → Bool
match_tokens List.[] [] = true
match_tokens List.[] (c ∷ s) = false
match_tokens (List.◌∷◌ star p) [] = match_tokens p []
match_tokens (List.◌∷◌ star p) (c ∷ s) = match_tokens p (c ∷ s) || match_tokens (List.◌∷◌ star p) s
match_tokens (List.◌∷◌ t p) [] = false
match_tokens (List.◌∷◌ t p) (c ∷ s) = fits t (code c) && match_tokens p s

unfoldable pub fnmatch : String → String → Bool
unfolding match_tokens fits tokens next_token bracket closing_after_first closing ranges negated_set
    plain_set
fnmatch name pattern = match_tokens (tokens 0 pattern) name
