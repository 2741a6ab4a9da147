-- ===== src/Security/Fnmatch/Laws.antt =====
-- `fnmatch` decides the relation that the documentation of shell patterns describes.
use Prim.Native.String.{[], ◌∷◌}
use mimi_agent.Base.{
  String, Char, code, ◌≡◌, refl, ◌↔◌, true, List, arith, inl, inr, or-eq-true, and-eq-true,
}
use mimi_agent.Security.Fnmatch.{
  Token, star, any_one, lit, one_of, fits, match_tokens, tokens, fnmatch,
}

-- A star takes any number of characters, and every other token takes one that fits it.
pub data Matches : List Token → String → Type 0 where
  finish : Matches List.[] []
  star_done : {p : List Token} {s : String} → Matches p s → Matches (List.◌∷◌ star p) s
  star_more :
      {p : List Token} {c : Char} {s : String}
      → Matches (List.◌∷◌ star p) s
      → Matches (List.◌∷◌ star p) (c ∷ s)
  one :
      {t : Token} {p : List Token} {c : Char} {s : String}
      → fits t (code c) ≡ true
      → Matches p s
      → Matches (List.◌∷◌ t p) (c ∷ s)

match_tokens_sound : (p : List Token) (s : String) → match_tokens p s ≡ true → Matches p s
unfolding match_tokens
match_tokens_sound List.[] [] h = finish
match_tokens_sound List.[] (c ∷ s) h = ground arith
match_tokens_sound (List.◌∷◌ star p) [] h = star_done (match_tokens_sound p [] h)
match_tokens_sound (List.◌∷◌ star p) (c ∷ s) h = elim (or-eq-true (match_tokens p (c ∷ s)) _ h) [
  | inl now ↦ star_done (match_tokens_sound p (c ∷ s) now)
  | inr later ↦ star_more (match_tokens_sound (List.◌∷◌ star p) s later)
]
match_tokens_sound (List.◌∷◌ t p) [] h = ground arith
match_tokens_sound (List.◌∷◌ t p) (c ∷ s) h =
    let (here, rest) = and-eq-true (fits t (code c)) (match_tokens p s) h in
    one here (match_tokens_sound p s rest)

match_tokens_complete : {p : List Token} {s : String} → Matches p s → match_tokens p s ≡ true
unfolding match_tokens fits
match_tokens_complete finish = refl
match_tokens_complete (star_done {s = []} m) = match_tokens_complete m
match_tokens_complete (star_done {s = c ∷ s} m) = ground (arith, match_tokens_complete m)
match_tokens_complete (star_more m) = ground (arith, match_tokens_complete m)
match_tokens_complete (one {t = star} h m) = ground arith
match_tokens_complete (one {t = any_one} h m) = match_tokens_complete m
match_tokens_complete (one {t = lit d} h m) = ground (arith, match_tokens_complete m)
match_tokens_complete (one {t = one_of b rs} h m) = ground (arith, match_tokens_complete m)

-- A name matches a pattern exactly when the relation holds between the pattern's tokens and it.
pub fnmatch_iff :
    (name pattern : String) → (fnmatch name pattern ≡ true) ↔ Matches (tokens 0 pattern) name
unfolding fnmatch
fnmatch_iff name pattern = (match_tokens_sound (tokens 0 pattern) name, match_tokens_complete)
