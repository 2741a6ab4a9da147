-- ===== src/Kubernetes/Shell/RoundTrip.antt =====
-- Quoted arguments are read back as they are.
use Prim.Native.String.{[], ◌∷◌}
use text.Mathlib.TextEquality.{Char-path}
use text.Mathlib.TextLemmas.{cons-append, nil-append, append-nil, append_assoc}
use mimi_agent.Base.{
  ◌≡◌, refl, ap, sym, and-eq-true, String, ◌<>◌, Char, code, true, false, some, List, arith, inl,
  inr, Bool-cases, ◌==◌, nat_eq,
}
use mimi_agent.Str.{all_chars, join}
use mimi_agent.Kubernetes.Shell.{is_safe, escape, quote, quote_all}
use mimi_agent.Kubernetes.Shell.Reading.{
  between, inside, single, Words, push, next_word, read, shell_words,
}

abbrev push_text : String → Words → Words
push_text [] w = w
push_text (c ∷ s) w = push c (push_text s w)

-- A safe character stands for itself, at the start of a word and in it.
read_safe :
    (c : Char) (s : String)
    → is_safe (code c) ≡ true
    → (read inside (c ∷ s) ≡ push c (read inside s))
      × (read between (c ∷ s) ≡ push c (read inside s))
unfolding read is_safe
read_safe c s h = ground arith

read_mark :
    (c : Char) (t : String) → code c ≡ 39 → read single ("'\"'\"'" <> t) ≡ push c (read single t)
unfolding read nat_eq
read_mark c t h =
    rw (cons-append, cons-append, cons-append, cons-append, cons-append, nil-append)
      (ap (λ d. push d (read single t)) (sym (Char-path c "'" h)))

read_other :
    (c : Char) (t : String) → (code c == 39) ≡ false → read single (c ∷ t) ≡ push c (read single t)
unfolding read
read_other c t h = rw h

-- A text in single quotes, up to the closing quote.
read-escape : (s t : String) → read single (escape s <> ("'" <> t)) ≡ push_text s (read inside t)
unfolding escape
read-escape [] t = unfold read nat_eq in rw (nil-append, cons-append, nil-append)
read-escape (c ∷ s) t = elim (Bool-cases (code c == 39)) [
  | inl mark ↦ rw (mark, append_assoc, read_mark c _ (ground arith), read-escape s t)
  | inr other ↦ rw (other, cons-append, read_other c _ other, read-escape s t)
]

-- A text of safe characters within a word.
read_plain :
    (s t : String) → all_chars is_safe s ≡ true → read inside (s <> t) ≡ push_text s (read inside t)
read_plain [] t h = rw nil-append
read_plain (c ∷ s) t h =
    let (first, others) = and-eq-true _ _ h in
    rw (cons-append, (read_safe c (s <> t) first).0, read_plain s t others)

read_open :
    (s t : String) → read between ("'" <> (escape s <> ("'" <> t))) ≡ push_text s (read inside t)
unfolding read nat_eq
read_open s t = rw (cons-append, nil-append) (read-escape s t)

read-quote : (s t : String) → read between (quote s <> t) ≡ push_text s (read inside t)
unfolding quote
read-quote [] t = unfold read nat_eq in rw (cons-append, cons-append, nil-append)
read-quote (c ∷ s) t = elim (Bool-cases (all_chars is_safe (c ∷ s))) [
  | inl safe ↦
      let (first, others) = and-eq-true _ _ safe in
      rw (safe, cons-append, (read_safe c (s <> t) first).1, read_plain s t others)
  | inr unsafe ↦ rw (unsafe, append_assoc, append_assoc) (read_open (c ∷ s) t)
]

push_text-some :
    (s : String) (ws : List String) → push_text s (next_word (some ws)) ≡ some (List.◌∷◌ s ws)
push_text-some [] ws = refl
push_text-some (c ∷ s) ws = rw (push_text-some s ws)

read_end : read inside [] ≡ next_word (some List.[])
unfolding read
read_end = refl

read_gap : (t : String) → read inside (" " <> t) ≡ next_word (read between t)
unfolding read nat_eq
read_gap t = rw (cons-append, nil-append)

-- The arguments that are quoted and joined by blanks are read back by the shell as they are, one word
-- for each, whatever characters they hold and also if they are empty.
pub shell_words-quote_all : (args : List String) → shell_words (quote_all args) ≡ some args
unfolding shell_words quote_all join
shell_words-quote_all List.[] = unfold read in refl
shell_words-quote_all (List.◌∷◌ s List.[]) =
    rw (← append-nil (quote s), read-quote s [], read_end) (push_text-some s List.[])
shell_words-quote_all (List.◌∷◌ s (List.◌∷◌ t ts)) =
    rw (read-quote s _, read_gap, shell_words-quote_all (List.◌∷◌ t ts)) (push_text-some s _)
