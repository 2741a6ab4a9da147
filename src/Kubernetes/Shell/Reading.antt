-- ===== src/Kubernetes/Shell/Reading.antt =====
-- How a POSIX shell reads a line into words, for lines of safe characters, blanks and quotes. A line with
-- any other unquoted character, an expansion or an open quote is refused.
use Prim.Native.String.{[], ◌∷◌}
use mimi_agent.Base.{
  ℕ, ◌≡◌, refl, String, Char, code, Bool, ◌||◌, Option, none, some, List, ◌==◌, nat_eq,
  if◌then◌else◌,
}
use mimi_agent.Str.{push_char}
use mimi_agent.Kubernetes.Shell.{is_safe}

-- Between words, in a word, in single quotes, in double quotes.
pub data Mode : Type 0 where
  between inside single double : Mode

-- The words of the rest; the first is what is left of the word that is being read.
abbrev pub Words : Type 0
Words = Option (List String)

abbrev pub push : Char → Words → Words
push c none = none
push c (some ws) = some (push_char c ws)

abbrev pub next_word : Words → Words
next_word none = none
next_word (some ws) = some (List.◌∷◌ "" ws)

abbrev is_blank : ℕ → Bool
is_blank c = c == 32 || c == 9

abbrev expands : ℕ → Bool
expands c = c == b'$' || c == b'`' || c == b'\\'

unfoldable pub read : Mode → String → Words
unfolding is_safe
read between [] = some List.[]
read inside [] = some (List.◌∷◌ "" List.[])
read single [] = none
read double [] = none
read between (c ∷ s) =
    let skip = read between s in
    let in_single = read single s in
    let in_double = read double s in
    let in_word = read inside s in
    if is_blank (code c)
    then skip
    else if code c == 39
    then in_single
    else if code c == 34
    then in_double
    else if is_safe (code c)
    then push c in_word
    else none
read inside (c ∷ s) =
    let skip = read between s in
    let in_single = read single s in
    let in_double = read double s in
    let in_word = read inside s in
    if is_blank (code c)
    then next_word skip
    else if code c == 39
    then in_single
    else if code c == 34
    then in_double
    else if is_safe (code c)
    then push c in_word
    else none
read single (c ∷ s) =
    let closed = read inside s in
    let more = read single s in if code c == 39 then closed else push c more
read double (c ∷ s) =
    let closed = read inside s in
    let more = read double s in
    if code c == 34 then closed else if expands (code c) then none else push c more

unfoldable pub shell_words : String → Words
unfolding read
shell_words line = read between line

words_of_a_line :
    shell_words "a 'b c' \"d\"'\"'e"
    ≡ some (List.◌∷◌ "a" (List.◌∷◌ "b c" (List.◌∷◌ "d\"e" List.[])))
unfolding shell_words nat_eq
words_of_a_line = refl
