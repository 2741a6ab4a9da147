-- ===== src/Scheduler/Field/Laws.antt =====
-- What a field of a cron expression selects.
use native.Mathlib.Nat.{le-div_iff_mul-le}
use mathlib.Core.List.{[], ◌∷◌}
use mathlib.Core.Path.{subst}
use mathlib.Core.Bool.{false≢true}
use mimi_agent.Base.{
  sym, ◌∙◌, ℕ, zero, suc, ◌+◌, ◌-◌, ◌*◌, ◌/◌, ◌≤◌, ◌<◌, String, ◌≡◌, refl, ◌↔◌, ◌⊎◌, inl, inr, true,
  ◌||◌, Option, none, some, List, ◌++◌, contains, arith, ◌==◌, string_eq, nat_eq, Bool-cases,
  or-eq-true,
}
use mimi_agent.Str.{strip, split_on, is_nonempty}
use mimi_agent.Scheduler.Number.{ℤ, pos, negsuc}
use mimi_agent.Scheduler.Field.{
  Parsed, ok, fail, ◌>>=◌, Span, step_of, base_step, bounds_of, check_bounds, parse_part,
  progression, span_values, parse_parts, some_values, parse_field,
}

-- Inversion of a step that did not raise.
pub >>=-eq-ok {ℓ κ} :
    {A : Type ℓ} {B : Type κ} (first : Parsed A) (rest : A → Parsed B) {value : B}
    → first >>= rest ≡ ok value
    → (a : A) × (first ≡ ok a) × (rest a ≡ ok value)
>>=-eq-ok (fail error) rest returned = cc
>>=-eq-ok (ok a) rest returned = (a, refl, returned)

-- A span within the bounds of its field.
pub record IsWithin (lo hi : ℕ) (s : Span) : Type 0 where
  pub from_lo : lo ≤ s.first
  pub ordered : s.first ≤ s.last
  pub to_hi : s.last ≤ hi
  pub steps : 0 < s.step

step_of-pos : (expr : String) (o : Option ℤ) {n : ℕ} → step_of expr o ≡ ok n → 0 < n
unfolding step_of
step_of-pos expr none h = cc
step_of-pos expr (some (pos zero)) h = cc
step_of-pos expr (some (pos (suc n))) h = ground arith
step_of-pos expr (some (negsuc n)) h = cc

base_step-pos :
    (expr part : String) {base : String} {n : ℕ} → base_step expr part ≡ ok (base, n) → 0 < n
unfolding base_step step_of
base_step-pos expr part h = ground arith

check_bounds-IsWithin :
    (expr : String) (lo hi step : ℕ) (b : ℤ × ℤ) {s : Span}
    → 0 < step
    → check_bounds expr lo hi step b ≡ ok s
    → IsWithin lo hi s
unfolding check_bounds
check_bounds-IsWithin expr lo hi step (pos a, pos b) p h = ground arith
check_bounds-IsWithin expr lo hi step (pos a, negsuc b) p h = cc
check_bounds-IsWithin expr lo hi step (negsuc a, b) p h = cc

progression_sound :
    (n a step v : ℕ)
    → contains (progression n a step) v ≡ true
    → (k : ℕ) × (k < n) × (v ≡ a + k * step)
unfolding progression
progression_sound zero a step v h = cc
progression_sound (suc n) a step v h = elim (or-eq-true (v == a) _ h) [
  | inl here ↦ (0, omega arith, ground arith)
  | inr later ↦
      let (k, bound, e) = progression_sound n (a + step) step v later in
      (suc k, omega arith, omega arith)
]

progression_complete :
    (n a step v k : ℕ) → k < n → v ≡ a + k * step → contains (progression n a step) v ≡ true
unfolding progression
progression_complete zero a step v k h e = absurd (omega arith)
progression_complete (suc n) a step v zero h e = let e' : v ≡ a = omega arith in ground arith
progression_complete (suc n) a step v (suc k) h e =
    ground (arith, progression_complete n (a + step) step v k (omega arith) (omega arith))

-- The value is reached from the first one by whole steps, and does not pass the last one.
abbrev pub Selects : Span → ℕ → Type 0
Selects s v = (k : ℕ) × (v ≡ s.first + k * s.step) × (v ≤ s.last)

span_values_iff :
    {lo hi : ℕ} (s : Span) (v : ℕ)
    → IsWithin lo hi s
    → (contains (span_values s) v ≡ true) ↔ Selects s v
unfolding span_values
span_values_iff s v w = (
  λ h.
      let (k, bound, e) = progression_sound _ s.first s.step v h in
      let room : k * s.step ≤ s.last - s.first = (le-div_iff_mul-le w.steps).0 (omega arith) in
      (k, e, omega (arith, w.ordered)),
  λ (k, e, top).
      let room : k ≤ (s.last - s.first) / s.step = (le-div_iff_mul-le w.steps).1 (omega arith) in
      progression_complete _ s.first s.step v k (omega arith) e,
)

parse_body-IsWithin :
    (expr : String) (lo hi : ℕ) (part : String) {s : Span}
    → (base_step expr part >>= λ (base, step).
        bounds_of expr lo hi base >>= check_bounds expr lo hi step)
      ≡ ok s
    → IsWithin lo hi s
parse_body-IsWithin expr lo hi part h =
    let ((base, step), based, h') = >>=-eq-ok (base_step expr part) _ h in
    let (bounds, bounded, h'') = >>=-eq-ok (bounds_of expr lo hi base) _ h' in
    check_bounds-IsWithin expr lo hi step bounds (base_step-pos expr part based) h''

-- What a part of the field parses to lies within the bounds of the field.
pub parse_part-IsWithin :
    (expr : String) (lo hi : ℕ) (part : String) {s : Span}
    → parse_part expr lo hi part ≡ ok s
    → IsWithin lo hi s
unfolding parse_part
parse_part-IsWithin expr lo hi part h = elim (Bool-cases (is_nonempty part)) [
  | inl some_text ↦ parse_body-IsWithin expr lo hi part (rw (some_text, parse_part) at h)
  | inr empty ↦ cc (rw (empty, parse_part) at h)
]

-- Some part of the field, its blanks removed, selects the value.
abbrev pub AnySelects : String → ℕ → ℕ → List String → ℕ → Type 0
AnySelects expr lo hi [] v = ⊥
AnySelects expr lo hi (part ∷ parts) v =
    ((s : Span) × (parse_part expr lo hi (strip part) ≡ ok s) × Selects s v)
    ⊎ AnySelects expr lo hi parts v

contains-append :
    (v : ℕ) (xs ys : List ℕ) → contains (xs ++ ys) v ≡ (contains xs v || contains ys v)
contains-append v [] ys = refl
contains-append v (x ∷ xs) ys = ground (arith, contains-append v xs ys)

ok-injective : {a b : Span} → ok a ≡ ok b → a ≡ b
ok-injective h = cc

some_values-eq :
    (expr : String) (found : List ℕ) {values : List ℕ}
    → some_values expr found ≡ ok values
    → ok found ≡ ok values
unfolding some_values
some_values-eq expr [] h = cc
some_values-eq expr (v ∷ vs) h = h

module _ (expr : String) (lo hi : ℕ) where
  parse_parts_sound :
      (parts : List String) (acc : List ℕ) {values : List ℕ} (v : ℕ)
      → parse_parts expr lo hi parts acc ≡ ok values
      → contains values v ≡ true
      → (contains acc v ≡ true) ⊎ AnySelects expr lo hi parts v
  unfolding parse_parts
  parse_parts_sound [] acc v h m = inl (ground arith)
  parse_parts_sound (part ∷ parts) acc v h m =
      let (s, parsed, h') = >>=-eq-ok (parse_part expr lo hi (strip part)) _ h in
      let w = parse_part-IsWithin expr lo hi (strip part) parsed in
      elim (parse_parts_sound parts (acc ++ span_values s) v h' m) [
        | inr later ↦ inr (inr later)
        | inl found ↦ elim (or-eq-true (contains acc v) _ (rw contains-append at found)) [
          | inl old ↦ inl old
          | inr new ↦ inr (inl (s, parsed, (span_values_iff s v w).0 new))
        ]
      ]

  parse_parts_complete :
      (parts : List String) (acc : List ℕ) {values : List ℕ} (v : ℕ)
      → parse_parts expr lo hi parts acc ≡ ok values
      → (contains acc v ≡ true) ⊎ AnySelects expr lo hi parts v
      → contains values v ≡ true
  unfolding parse_parts
  parse_parts_complete [] acc v h (inl m) = ground arith
  parse_parts_complete [] acc v h (inr m) = absurd m
  parse_parts_complete (part ∷ parts) acc v h found =
      let (s, parsed, h') = >>=-eq-ok (parse_part expr lo hi (strip part)) _ h in
      let w = parse_part-IsWithin expr lo hi (strip part) parsed in
      parse_parts_complete parts (acc ++ span_values s) v h' (elim found [
        | inl old ↦ inl (rw (contains-append, old))
        | inr (inr later) ↦ inr later
        | inr (inl (s', parsed', chosen)) ↦
            let same : s' ≡ s = ok-injective (sym parsed' ∙ parsed) in
            let new = (span_values_iff s v w).1 (subst (λ t. Selects t v) same chosen) in
            inl (rw contains-append (ground arith))
      ])

  parse_field-parts :
      {values : List ℕ}
      → parse_field expr lo hi ≡ ok values
      → parse_parts expr lo hi (split_on b',' expr) [] ≡ ok values
  unfolding parse_field
  parse_field-parts h =
      let (found, parsed, h') = >>=-eq-ok (parse_parts expr lo hi (split_on b',' expr) []) _ h in
      parsed ∙ some_values-eq expr found h'

  -- A field that is accepted selects exactly the values that one of its parts, between the commas,
  -- selects: those that whole steps reach from the first value of the part without passing its last.
  pub parse_field_iff :
      {values : List ℕ} (v : ℕ)
      → parse_field expr lo hi ≡ ok values
      → (contains values v ≡ true) ↔ AnySelects expr lo hi (split_on b',' expr) v
  parse_field_iff v h = (
    λ m. elim (parse_parts_sound (split_on b',' expr) [] v (parse_field-parts h) m) [
      | inl impossible ↦ absurd (false≢true impossible)
      | inr found ↦ found
    ],
    λ found. parse_parts_complete (split_on b',' expr) [] v (parse_field-parts h) (inr found),
  )

  AnySelects-bounds :
      (parts : List String) (v : ℕ) → AnySelects expr lo hi parts v → (lo ≤ v) × (v ≤ hi)
  AnySelects-bounds [] v m = absurd m
  AnySelects-bounds (part ∷ parts) v (inr later) = AnySelects-bounds parts v later
  AnySelects-bounds (part ∷ parts) v (inl (s, parsed, (k, e, top))) =
      let w = parse_part-IsWithin expr lo hi (strip part) parsed in
      (omega (arith, w.from_lo), omega (arith, w.to_hi))

  -- Every value that an accepted field selects lies within the bounds of the field.
  pub parse_field-bounds :
      {values : List ℕ} (v : ℕ)
      → parse_field expr lo hi ≡ ok values
      → contains values v ≡ true
      → (lo ≤ v) × (v ≤ hi)
  parse_field-bounds v h m = AnySelects-bounds (split_on b',' expr) v ((parse_field_iff v h).0 m)
