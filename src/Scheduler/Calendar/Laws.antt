-- ===== src/Scheduler/Calendar/Laws.antt =====
-- The fields of a minute lie in the ranges of the calendar.
use native.Mathlib.Decide.{dec_lt}
use mimi_agent.Base.{
  ℕ, zero, suc, ◌≤◌, ◌<◌, ◌%◌, ◌/◌, ◌≡◌, refl, Bool, true, false, not, ◌&&◌, ◌||◌, arith, leb,
  and-eq-true, ◌==◌, nat_eq,
}
use mimi_agent.Scheduler.Calendar.{year_day, month_day, date_of, month_of, day_of, day_of_week}

-- Month 1 to 12 and day 1 to 31.
abbrev is_date : ℕ × ℕ → Bool
is_date (month, day) = (leb 1 month && leb month 12) && (leb 1 day && leb day 31)

holds_up_to : (ℕ → Bool) → ℕ → Bool
holds_up_to test zero = test 0
holds_up_to test (suc last) = holds_up_to test last && test (suc last)

holds_up_to_sound :
    (test : ℕ → Bool) (last day : ℕ) → day ≤ last → holds_up_to test last ≡ true → test day ≡ true
unfolding holds_up_to
holds_up_to_sound test zero day within every = let first : day ≡ 0 = omega arith in rw first every
holds_up_to_sound test (suc last) day within every = elim (dec_lt last day) [
  | yes beyond ↦ let here : day ≡ suc last = omega arith in rw here (ground arith)
  | no earlier ↦ holds_up_to_sound test last day (omega arith) (ground arith)
]

-- Every day of a year, but the last of a leap year, which the caller treats by itself.
days_table : holds_up_to (λ n. is_date (month_day true n) && is_date (month_day false n)) 364 ≡ true
unfolding holds_up_to date_of
days_table = refl

month_day-is_date : (leap : Bool) (n : ℕ) → n < 365 → is_date (month_day leap n) ≡ true
month_day-is_date leap n h =
    let both = and-eq-true _ _ (holds_up_to_sound _ 364 n (omega arith) days_table) in
    pick leap both.0 both.1
  where
    pick :
        (b : Bool)
        → is_date (month_day true n) ≡ true
        → is_date (month_day false n) ≡ true
        → is_date (month_day b n) ≡ true
    pick true t f = t
    pick false t f = f

year_day-is_date : (last leap : Bool) (n : ℕ) → n < 365 → is_date (year_day last leap n) ≡ true
unfolding year_day
year_day-is_date true leap n h = refl
year_day-is_date false leap n h = month_day-is_date leap n h

date_of-is_date : (day : ℕ) → is_date (date_of day) ≡ true
unfolding date_of
date_of-is_date day =
    let n100 : ℕ = day % 146097 / 36524 in
    let n4 : ℕ = day % 146097 % 36524 / 1461 in
    let n1 : ℕ = day % 146097 % 36524 % 1461 / 365 in
    year_day-is_date (n1 == 4 || n100 == 4) (n1 == 3 && (not (n4 == 24) || n100 == 3))
      (day % 146097 % 36524 % 1461 % 365) (omega arith)

is_date_bounds :
    (d : ℕ × ℕ) → is_date d ≡ true → ((1 ≤ d.0) × (d.0 ≤ 12)) × ((1 ≤ d.1) × (d.1 ≤ 31))
is_date_bounds (month, day) h = ground arith

pub month_of_bounds : (m : ℕ) → (1 ≤ month_of m) × (month_of m ≤ 12)
unfolding month_of
month_of_bounds m = (is_date_bounds (date_of (m / 1440)) (date_of-is_date (m / 1440))).0

pub day_of_bounds : (m : ℕ) → (1 ≤ day_of m) × (day_of m ≤ 31)
unfolding day_of
day_of_bounds m = (is_date_bounds (date_of (m / 1440)) (date_of-is_date (m / 1440))).1

pub day_of_week-lt : (m : ℕ) → day_of_week m < 7
unfolding day_of_week
day_of_week-lt m = omega arith
