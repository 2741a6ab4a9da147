-- ===== src/Scheduler/Cron/Laws/Days.antt =====
-- The day rule: a field that is left open asks nothing.
use Prim.Native.String.{String}
use mathlib.Core.List.{[], ◌∷◌}
use mimi_agent.Base.{
  ℕ, ◌-◌, ◌≤◌, ◌<◌, ◌≡◌, refl, Bool, true, false, ◌&&◌, ◌||◌, inl, map, contains, arith, string_eq,
  nat_eq, if◌then◌else◌, List,
}
use mimi_agent.Str.{strip, split_on}
use mimi_agent.Str.Laws.{split_on-strip}
use mimi_agent.Scheduler.Calendar.{day_of_week, day_of, clock_minute, clock_hour, month_of}
use mimi_agent.Scheduler.Calendar.Laws.{day_of_bounds, day_of_week-lt}
use mimi_agent.Scheduler.Field.{ok, parse_field, parse_part, Span}
use mimi_agent.Scheduler.Field.Laws.{parse_field_iff}
use mimi_agent.Scheduler.Cron.{CronSchedule, sunday, parse, matches}
use mimi_agent.Scheduler.Cron.Laws.{ComesFrom, parse-ComesFrom}

parse_part-star :
    (expr : String) (lo hi : ℕ)
    → lo ≤ hi
    → parse_part expr lo hi "*" ≡ ok (record { first = lo; last = hi; step = 1 })
unfolding parse_part string_eq nat_eq
parse_part-star expr lo hi h = ground arith

-- The field `*` selects its whole range.
star_selects :
    (s : String) (lo hi v : ℕ) {values : List ℕ}
    → strip s ≡ "*"
    → parse_field s lo hi ≡ ok values
    → lo ≤ v
    → v ≤ hi
    → contains values v ≡ true
star_selects s lo hi v star parsed above below =
    (parse_field_iff s lo hi v parsed).1
      (rw one_piece (inl (whole, read, (v - lo, omega arith, below))))
  where
    whole : Span
    whole = record { first = lo; last = hi; step = 1 }

    one_piece : split_on b',' s ≡ s ∷ []
    one_piece = split_on-strip s (rw star (unfold nat_eq in refl))

    read : parse_part s lo hi (strip s) ≡ ok whole
    read = rw star (parse_part-star s lo hi (omega arith))

contains-sunday :
    (vs : List ℕ) (v : ℕ) → v < 7 → contains vs v ≡ true → contains (map sunday vs) v ≡ true
contains-sunday [] v h m = m
contains-sunday (x ∷ xs) v h m = ground (arith, contains-sunday xs v h)

-- The rule of cron for the day: a field that is left open asks nothing, and of two that are
-- restricted one has to hold.
abbrev pub day_rule : CronSchedule → ℕ → Bool
day_rule c m =
    if c.dom_restricted
    then (if c.dow_restricted
        then contains c.dom (day_of m) || contains c.dow (day_of_week m)
        else contains c.dom (day_of m))
    else if c.dow_restricted
    then contains c.dow (day_of_week m)
    else true

-- A schedule that an expression was parsed to matches a minute exactly when the minute, the hour and
-- the month are selected and the rule for the day holds.
pub matches-day_rule :
    (expr : String) {c : CronSchedule} (m : ℕ)
    → parse expr ≡ ok c
    → matches c m ≡ (
        contains c.minute (clock_minute m)
        && contains c.hour (clock_hour m)
        && contains c.mon (month_of m)
        && day_rule c m)
unfolding matches
matches-day_rule expr {c} m h = ground (arith, open_dom, open_dow)
  where
    f : ComesFrom c
    f = parse-ComesFrom expr h

    open_dom : c.dom_restricted ≡ false → contains c.dom (day_of m) ≡ true
    open_dom e =
        star_selects f.dom_s 1 31 (day_of m) (ground (arith, f.dom_restricted)) f.days
          (day_of_bounds m).0 (day_of_bounds m).1

    open_dow : c.dow_restricted ≡ false → contains c.dow (day_of_week m) ≡ true
    open_dow e = rw f.dow (
        contains-sunday f.dow_raw (day_of_week m) (day_of_week-lt m) (
          star_selects f.dow_s 0 7 (day_of_week m) (ground (arith, f.dow_restricted)) f.weekdays
            (omega arith) (omega (arith, day_of_week-lt m))))
