-- ===== src/Scheduler/Cron/Tests.antt =====
-- Cron expressions and fields at concrete inputs, with the theorems about them.
use mathlib.Core.List.{[], ◌∷◌}
use mimi_agent.Base.{
  ℕ, zero, suc, ◌+◌, ◌*◌, ◌≤◌, ◌≡◌, refl, ◌↔◌, true, false, ◌&&◌, contains, string_eq, nat_eq, leb,
  arith,
}
use mimi_agent.Str.{strip, split_on}
use mimi_agent.Scheduler.Number.{int_of}
use mimi_agent.Scheduler.Calendar.{
  micros_per_minute, minute_of, clock_minute, clock_hour, day_of_week, month_of, day_of, date_of,
}
use mimi_agent.Scheduler.Field.{
  ok, fail, no_match, parse_part, span_values, parse_parts, parse_field,
}
use mimi_agent.Scheduler.Field.Laws.{AnySelects, parse_field_iff, parse_field-bounds}
use mimi_agent.Scheduler.Cron.{CronSchedule, parse, matches, next_loop, search_minutes, next_after}
use mimi_agent.Scheduler.Cron.Laws.{IsWellFormed, parse-IsWellFormed}
use mimi_agent.Scheduler.Cron.Laws.Days.{day_rule, matches-day_rule}
use mimi_agent.Scheduler.Cron.Next.{IsNext, search_limit, next_after-IsNext, next_after-exhausts}

steps_parsed : parse_field "*/20,5" 0 59 ≡ ok (0 ∷ 20 ∷ 40 ∷ 5 ∷ [])
unfolding parse_field parse_parts parse_part span_values int_of string_eq nat_eq strip
steps_parsed = refl

parse_field_iff_example :
    (contains {A = ℕ} (0 ∷ 20 ∷ 40 ∷ 5 ∷ []) 40 ≡ true)
    ↔ AnySelects "*/20,5" 0 59 (split_on b',' "*/20,5") 40
parse_field_iff_example = parse_field_iff "*/20,5" 0 59 40 steps_parsed

parse_field-bounds_example : (0 ≤ 40) × (40 ≤ 59)
parse_field-bounds_example =
    parse_field-bounds "*/20,5" 0 59 40 steps_parsed (unfold nat_eq in refl)

abbrev new_year_or_monday : CronSchedule
new_year_or_monday = record {
  minute = 0 ∷ [];
  hour = 0 ∷ [];
  dom = 1 ∷ [];
  mon = 1 ∷ [];
  dow = 0 ∷ 1 ∷ [];
  dom_restricted = true;
  dow_restricted = true;
  expr = "0 0 1 1 7,1";
}

schedule_parsed : parse "0 0 1 1 7,1" ≡ ok new_year_or_monday
unfolding parse parse_field parse_parts parse_part span_values int_of string_eq nat_eq strip
schedule_parsed = refl

parse-IsWellFormed_example : IsWellFormed new_year_or_monday
parse-IsWellFormed_example = parse-IsWellFormed "0 0 1 1 7,1" schedule_parsed

matches-day_rule_example : matches new_year_or_monday 10080 ≡ (
    contains (0 ∷ []) (clock_minute 10080)
    && contains (0 ∷ []) (clock_hour 10080)
    && contains (1 ∷ []) (month_of 10080)
    && day_rule new_year_or_monday 10080)
matches-day_rule_example = matches-day_rule "0 0 1 1 7,1" 10080 schedule_parsed

-- The first Monday after the first minute of the year 1.
monday_found : matches new_year_or_monday 10080 ≡ true
unfolding matches clock_minute clock_hour day_of_week month_of day_of date_of nat_eq
monday_found = refl

next_loop-found :
    (rounds : ℕ) (c : CronSchedule) (limit m : ℕ)
    → leb (m * micros_per_minute) limit ≡ true
    → matches c m ≡ true
    → next_loop (suc rounds) c limit m ≡ ok m
unfolding next_loop
next_loop-found rounds c limit m within found = rw (within, found, next_loop)

minute_10080_follows : next_after new_year_or_monday (10079 * micros_per_minute) ≡ ok 10080
unfolding next_after minute_of
minute_10080_follows =
    next_loop-found search_minutes new_year_or_monday (search_limit (10079 * micros_per_minute))
      10080 refl monday_found

next_after-IsNext_example :
    IsNext new_year_or_monday
      (search_limit (10079 * micros_per_minute))
      (minute_of (10079 * micros_per_minute) + 1)
      10080
next_after-IsNext_example =
    next_after-IsNext new_year_or_monday (10079 * micros_per_minute) minute_10080_follows

-- A schedule that selects no month.
abbrev never : CronSchedule
never = record new_year_or_monday { mon = [] }

matches-never : (m : ℕ) → matches never m ≡ false
unfolding matches
matches-never m = ground arith

next_loop-never : (rounds limit m : ℕ) → next_loop rounds never limit m ≡ fail no_match
unfolding next_loop
next_loop-never zero limit m = refl
next_loop-never (suc rounds) limit m =
    ground (arith, matches-never m, next_loop-never rounds limit (m + 1))

never_follows : next_after never 0 ≡ fail no_match
unfolding next_after
never_follows = next_loop-never _ _ _

next_after-exhausts_example : matches never 5 ≡ false
next_after-exhausts_example =
    next_after-exhausts never 0 never_follows 5 (unfold minute_of in omega arith) (omega arith)
