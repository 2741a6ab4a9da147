-- ===== src/Str/Laws.antt =====
-- What the text operations guarantee.
use Prim.Native.String.{[], ◌∷◌}
use mathlib.Core.Bool.{false≢true}
use mimi_agent.Base.{
  ◌⊎◌, ℕ, zero, suc, ◌≤◌, String, Char, code, ◌≡◌, refl, Bool, true, false, not, List, arith, ◌==◌,
  nat_eq, string_eq, contains, inl, inr, Bool-cases,
}
use mimi_agent.Str.{
  push_char, count, prefix, all_chars, lstrip_by, rstrip_by, strip, is_space, is_nonempty, split_on,
}

pub count-prefix-le : (n : ℕ) (s : String) → count (prefix n s) ≤ n
unfolding prefix
count-prefix-le zero s = omega arith
count-prefix-le (suc n) [] = omega arith
count-prefix-le (suc n) (c ∷ s) = omega (arith, count-prefix-le n s)

-- The first piece of a split, and the others.
abbrev pub first : List String → String
first List.[] = []
first (List.◌∷◌ w ws) = w

abbrev pub others : List String → List String
others List.[] = List.[]
others (List.◌∷◌ w ws) = ws

pub first-push_char : (c : Char) (ws : List String) → first (push_char c ws) ≡ c ∷ first ws
first-push_char c List.[] = refl
first-push_char c (List.◌∷◌ w ws) = refl

pub others-push_char : (c : Char) (ws : List String) → others (push_char c ws) ≡ others ws
others-push_char c List.[] = refl
others-push_char c (List.◌∷◌ w ws) = refl

pub contains-first-others :
    (w : String) (ws : List String)
    → contains ws w ≡ true
    → (first ws ≡ w) ⊎ (contains (others ws) w ≡ true)
contains-first-others w List.[] h = ground arith
contains-first-others w (List.◌∷◌ v ws) h = ground arith

all_chars-empty : (q : ℕ → Bool) (s : String) → is_nonempty s ≡ false → all_chars q s ≡ true
all_chars-empty q [] h = refl
all_chars-empty q (c ∷ s) h = cc

-- Stripping removes only characters that pass the test: what holds of those and of the text that is
-- left holds of the whole text.
module _ (p q : ℕ → Bool) (covered : (c : ℕ) → p c ≡ true → q c ≡ true) where
  all_chars-lstrip_by : (s : String) → all_chars q (lstrip_by p s) ≡ true → all_chars q s ≡ true
  unfolding lstrip_by
  all_chars-lstrip_by [] h = refl
  all_chars-lstrip_by (c ∷ s) h = ground (arith, covered (code c), all_chars-lstrip_by s)

  all_chars-rstrip_by : (s : String) → all_chars q (rstrip_by p s) ≡ true → all_chars q s ≡ true
  unfolding rstrip_by
  all_chars-rstrip_by [] h = refl
  all_chars-rstrip_by (c ∷ s) h =
      ground (arith, covered (code c), all_chars-rstrip_by s, all_chars-empty q (rstrip_by p s))

  all_chars-strip_by :
      (s : String) → all_chars q (rstrip_by p (lstrip_by p s)) ≡ true → all_chars q s ≡ true
  all_chars-strip_by s h = all_chars-lstrip_by s (all_chars-rstrip_by (lstrip_by p s) h)

pub split_on-absent :
    (d : ℕ) (s : String)
    → all_chars (λ c. not (c == d)) s ≡ true
    → split_on d s ≡ List.◌∷◌ s List.[]
unfolding split_on
split_on-absent d [] h = refl
split_on-absent d (c ∷ s) h = ground (arith, split_on-absent d s)

space-ne-comma : (c : ℕ) → is_space c ≡ true → not (c == b',') ≡ true
space-ne-comma c h = elim (Bool-cases (c == b',')) [
  | inr other ↦ rw other
  | inl comma ↦
      let e : c ≡ b',' = ground arith in absurd (false≢true (unfold is_space in rw e at h))
]

-- A text that has no comma once its blanks are stripped is one piece between commas.
pub split_on-strip :
    (s : String)
    → all_chars (λ c. not (c == b',')) (strip s) ≡ true
    → split_on b',' s ≡ List.◌∷◌ s List.[]
unfolding strip
split_on-strip s h =
    split_on-absent b',' s (all_chars-strip_by is_space (λ c. not (c == b',')) space-ne-comma s h)
