-- ===== src/Str.antt =====
-- The methods of Python's `str` that the program calls, over the native text.
pub mod Laws
use Prim.Native.String.{[], ◌∷◌}
use mimi_agent.Base.{
  ℕ, zero, suc, ◌-◌, ◌+◌, ◌/◌, ◌%◌, String, ◌<>◌, Char, code, Bool, true, false, not, ◌&&◌, ◌||◌,
  List, keep, ltb, leb, any, ◌==◌, nat_eq, string_eq, if◌then◌else◌,
}
use mathlib.Core.List

-- `bool(s)` of a text: it is not empty.
abbrev pub is_nonempty : String → Bool
is_nonempty [] = false
is_nonempty (c ∷ s) = true

-- `str.isspace` of one character: the code points that `strip` removes.
unfoldable pub is_space : ℕ → Bool
is_space c =
    (leb 9 c && leb c 13)
    || (leb 28 c && leb c 32)
    || (leb 8192 c && leb c 8202)
    || (leb 8232 c && leb c 8233)
    || leb c 133 && leb 133 c
    || leb c 160 && leb 160 c
    || leb c 5760 && leb 5760 c
    || leb c 8239 && leb 8239 c
    || leb c 8287 && leb 8287 c
    || leb c 12288 && leb 12288 c

-- `s.lstrip()` and `s.rstrip()` by a set of characters.
unfoldable pub lstrip_by : (ℕ → Bool) → String → String
lstrip_by p [] = []
lstrip_by p (c ∷ s) = let rest = lstrip_by p s in if p (code c) then rest else c ∷ s

unfoldable pub rstrip_by : (ℕ → Bool) → String → String
rstrip_by p [] = []
rstrip_by p (c ∷ s) =
    let rest = rstrip_by p s in if p (code c) && not (is_nonempty rest) then [] else c ∷ rest

unfoldable pub strip : String → String
unfolding is_space lstrip_by rstrip_by
strip s = rstrip_by is_space (lstrip_by is_space s)

-- `s[:n]`
unfoldable pub prefix : ℕ → String → String
prefix zero s = []
prefix (suc n) [] = []
prefix (suc n) (c ∷ s) = c ∷ prefix n s

-- `len(s)`, in characters
abbrev pub count : String → ℕ
count [] = 0
count (c ∷ s) = suc (count s)

-- Every character of the text passes the test.
abbrev pub all_chars : (ℕ → Bool) → String → Bool
all_chars p [] = true
all_chars p (c ∷ s) = p (code c) && all_chars p s

-- Some character of the text is `d`: `d in s`.
abbrev pub has_char : ℕ → String → Bool
has_char d [] = false
has_char d (c ∷ s) = code c == d || has_char d s

-- `s.startswith(t)`
unfoldable pub starts : String → String → Bool
starts s [] = true
starts [] (d ∷ t) = false
starts (c ∷ s) (d ∷ t) = code c == code d && starts s t

-- `s.split(d)` for one character `d`: never empty.
abbrev pub push_char : Char → List String → List String
push_char c List.[] = List.◌∷◌ (c ∷ []) List.[]
push_char c (List.◌∷◌ w ws) = List.◌∷◌ (c ∷ w) ws

unfoldable pub split_on : ℕ → String → List String
split_on d [] = List.◌∷◌ [] List.[]
split_on d (c ∷ s) =
    let rest = split_on d s in if code c == d then List.◌∷◌ [] rest else push_char c rest

-- `s.split(d, 1)` where `d` occurs: what stands before and after the first `d`.
abbrev pub push_before : Char → String × String → String × String
push_before c (a, b) = (c ∷ a, b)

unfoldable pub split_once : ℕ → String → String × String
split_once d [] = ([], [])
split_once d (c ∷ s) =
    let rest = split_once d s in if code c == d then ([], s) else push_before c rest

-- `sep.join(xs)`
unfoldable pub join : String → List String → String
join sep List.[] = []
join sep (List.◌∷◌ x List.[]) = x
join sep (List.◌∷◌ x (List.◌∷◌ y ys)) = x <> (sep <> join sep (List.◌∷◌ y ys))

-- `t in s`
unfoldable pub has_text : String → String → Bool
unfolding starts
has_text t [] = starts [] t
has_text t (c ∷ s) = starts (c ∷ s) t || has_text t s

-- `s.split()`: the words between runs of blanks.
split_by : (ℕ → Bool) → String → List String
split_by p [] = List.◌∷◌ [] List.[]
split_by p (c ∷ s) =
    let rest = split_by p s in if p (code c) then List.◌∷◌ [] rest else push_char c rest

unfoldable pub words : String → List String
unfolding split_by is_space
words s = keep is_nonempty (split_by is_space s)

-- The order of texts by code points, which is that of their UTF-8 bytes.
unfoldable pub text_leb : String → String → Bool
text_leb [] t = true
text_leb (c ∷ s) [] = false
text_leb (c ∷ s) (d ∷ t) = ltb (code c) (code d) || (code c == code d && text_leb s t)

-- `str(n)` of a number. Each round writes a digit, so that as many rounds as the number are enough.
unfoldable pub decimal_digit : ℕ → String
decimal_digit n =
    if n == 0
    then "0"
    else if n == 1
    then "1"
    else if n == 2
    then "2"
    else if n == 3
    then "3"
    else if n == 4
    then "4"
    else if n == 5
    then "5"
    else if n == 6
    then "6"
    else if n == 7
    then "7"
    else if n == 8
    then "8"
    else "9"

decimal_rounds : ℕ → ℕ → String
decimal_rounds zero n = decimal_digit n
decimal_rounds (suc rounds) n =
    let more = decimal_rounds rounds (n / 10) in
    if ltb n 10 then decimal_digit n else more <> decimal_digit (n % 10)

unfoldable pub decimal : ℕ → String
unfolding decimal_rounds decimal_digit
decimal n = decimal_rounds n n
