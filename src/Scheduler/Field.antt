-- ===== src/Scheduler/Field.antt =====
-- `_parse_field` of scheduler/cron.py: one field of a cron expression. The set of values is a list,
-- of which only membership is asked.
pub mod Laws
use mathlib.Core.List
use mathlib.Core.List.{[], ◌∷◌}
use mimi_agent.Base.{
  ℕ, zero, suc, ◌+◌, ◌-◌, ◌/◌, String, Bool, true, false, not, ◌||◌, Option, none, some, List, ◌++◌,
  ltb, ◌==◌, string_eq, nat_eq, if◌then◌else◌,
}
use mimi_agent.Str.{strip, is_nonempty, has_char, split_on, split_once}
use mimi_agent.Scheduler.Number.{ℤ, pos, negsuc, int_of}

-- The `ValueError`s, each with the text that its message shows.
pub data CronError : Type 0 where
  invalid_field invalid_step invalid_range invalid_value out_of_range : String → CronError
  field_count : String → CronError
  no_match : CronError

pub data Parsed {ℓ} (A : Type ℓ) : Type ℓ where
  ok : A → Parsed A
  fail : CronError → Parsed A

infixl 10 ◌>>=◌
abbrev pub ◌>>=◌ {ℓ κ} : {A : Type ℓ} {B : Type κ} → Parsed A → (A → Parsed B) → Parsed B
ok a >>= f = f a
fail e >>= f = fail e

-- The values that one part of the field selects.
pub record Span : Type 0 where
  pub first : ℕ
  pub last : ℕ
  pub step : ℕ

-- `step = int(step_str)`, refused unless it is positive.
step_of : String → Option ℤ → Parsed ℕ
step_of expr (some (pos (suc n))) = ok (suc n)
step_of expr _ = fail (invalid_step expr)

-- What stands before the slash, and the step.
base_step : String → String → Parsed (String × ℕ)
base_step expr part =
    if has_char b'/' part
    then (let (base, text) = split_once b'/' part in
        do step ← step_of expr (int_of text); ok (base, step))
    else ok (part, 1)

range_of : String → Option ℤ → Option ℤ → Parsed (ℤ × ℤ)
range_of expr (some a) (some b) = ok (a, b)
range_of expr _ _ = fail (invalid_range expr)

value_of : String → Option ℤ → Parsed (ℤ × ℤ)
value_of expr (some a) = ok (a, a)
value_of expr none = fail (invalid_value expr)

bounds_of : String → ℕ → ℕ → String → Parsed (ℤ × ℤ)
bounds_of expr lo hi base =
    if base == "*"
    then ok (pos lo, pos hi)
    else if has_char b'-' base
    then (let (a, b) = split_once b'-' base in range_of expr (int_of a) (int_of b))
    else value_of expr (int_of base)

-- `range_lo > range_hi or range_lo < lo or range_hi > hi`. As `lo` is never negative, a negative bound
-- always fails it.
check_bounds : String → ℕ → ℕ → ℕ → ℤ × ℤ → Parsed Span
check_bounds expr lo hi step (pos a, pos b) =
    if ltb b a || ltb a lo || ltb hi b
    then fail (out_of_range expr)
    else ok (record { first = a; last = b; step = step })
check_bounds expr lo hi step _ = fail (out_of_range expr)

unfoldable pub parse_part : String → ℕ → ℕ → String → Parsed Span
unfolding step_of base_step range_of value_of bounds_of check_bounds split_once
parse_part expr lo hi part = if not (is_nonempty part) then fail (invalid_field expr) else do
  (base, step) ← base_step expr part
  bounds ← bounds_of expr lo hi base
  check_bounds expr lo hi step bounds

-- So many values from `a` on, `step` apart.
progression : ℕ → ℕ → ℕ → List ℕ
progression zero a step = []
progression (suc n) a step = a ∷ progression n (a + step) step

-- `range(first, last + 1, step)`, where `first` is at most `last`.
unfoldable pub span_values : Span → List ℕ
unfolding progression
span_values s = progression ((s.last - s.first) / s.step + 1) s.first s.step

unfoldable pub parse_parts : String → ℕ → ℕ → List String → List ℕ → Parsed (List ℕ)
parse_parts expr lo hi [] values = ok values
parse_parts expr lo hi (part ∷ parts) values = do
  span ← parse_part expr lo hi (strip part)
  parse_parts expr lo hi parts (values ++ span_values span)

-- `if not values`
some_values : String → List ℕ → Parsed (List ℕ)
some_values expr [] = fail (invalid_field expr)
some_values expr (v ∷ vs) = ok (v ∷ vs)

unfoldable pub parse_field : String → ℕ → ℕ → Parsed (List ℕ)
unfolding parse_parts some_values split_on
parse_field expr lo hi = do
  values ← parse_parts expr lo hi (split_on b',' expr) []
  some_values expr values
