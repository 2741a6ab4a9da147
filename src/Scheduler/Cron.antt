-- ===== src/Scheduler/Cron.antt =====
-- scheduler/cron.py: a parsed cron expression, the minutes that it matches and the next of them.
pub mod Laws
pub mod Next
mod Tests
use mathlib.Core.List
use mathlib.Core.List.{[], ◌∷◌}
use mimi_agent.Base.{
  ℕ, zero, suc, ◌+◌, ◌*◌, ◌-◌, String, Bool, true, false, not, ◌&&◌, ◌||◌, Option, none, some, List,
  map, contains, leb, ◌==◌, string_eq, nat_eq, if◌then◌else◌,
}
use mimi_agent.Str.{strip, words}
use mimi_agent.Scheduler.Calendar.{
  Moment, micros_per_minute, minute_of, clock_minute, clock_hour, day_of_week, month_of, day_of,
}
use mimi_agent.Scheduler.Field.{
  CronError, field_count, no_match, Parsed, ok, fail, ◌>>=◌, parse_field,
}

pub record CronSchedule : Type 0 where
  pub minute : List ℕ
  pub hour : List ℕ
  pub dom : List ℕ
  pub mon : List ℕ
  pub dow : List ℕ
  pub dom_restricted : Bool
  pub dow_restricted : Bool
  pub expr : String

-- `0 if v == 7 else v`
abbrev pub sunday : ℕ → ℕ
sunday v = if v == 7 then 0 else v

parse_fields : String → List String → Parsed CronSchedule
parse_fields expr (minute_s ∷ hour_s ∷ dom_s ∷ mon_s ∷ dow_s ∷ []) = do
  minute ← parse_field minute_s 0 59
  hour ← parse_field hour_s 0 23
  dom ← parse_field dom_s 1 31
  mon ← parse_field mon_s 1 12
  dow_raw ← parse_field dow_s 0 7
  ok (record {
    minute = minute;
    hour = hour;
    dom = dom;
    mon = mon;
    dow = map sunday dow_raw;
    dom_restricted = not (strip dom_s == "*");
    dow_restricted = not (strip dow_s == "*");
    expr = expr;
  })
parse_fields expr _ = fail (field_count expr)

unfoldable pub parse : String → Parsed CronSchedule
unfolding parse_fields words
parse expr = parse_fields expr (words expr)

-- `matches`, of the minute in which the moment lies.
unfoldable pub matches : CronSchedule → ℕ → Bool
matches c m =
    let dom_match = contains c.dom (day_of m) in
    let dow_match = contains c.dow (day_of_week m) in
    if not (contains c.minute (clock_minute m))
    then false
    else if not (contains c.hour (clock_hour m))
    then false
    else if not (contains c.mon (month_of m))
    then false
    else if c.dom_restricted && c.dow_restricted
    then dom_match || dow_match
    else dom_match && dow_match

-- The loop `while candidate <= limit`, over minutes. It takes one round more than the minutes that are
-- left, at most: the number counts the rounds.
unfoldable pub next_loop : ℕ → CronSchedule → ℕ → ℕ → Parsed ℕ
next_loop zero c limit candidate = fail no_match
next_loop (suc rounds) c limit candidate =
    let rest = next_loop rounds c limit (candidate + 1) in
    if leb (candidate * micros_per_minute) limit
    then (if matches c candidate then ok candidate else rest)
    else fail no_match

-- 366 days
abbrev pub search_minutes : ℕ
search_minutes = 366 * 1440

unfoldable pub next_after : CronSchedule → Moment → Parsed ℕ
next_after c t =
    next_loop (search_minutes + 1) c (t + search_minutes * micros_per_minute) (minute_of t + 1)
