-- ===== src/Scheduler/Cron/Laws.antt =====
-- A parsed schedule is within bounds, and matches by the rule of cron.
pub mod Days
use mathlib.Core.List
use mathlib.Core.List.{[], ◌∷◌}
use mathlib.Core.Path.{subst}
use mimi_agent.Base.{
  ℕ, zero, suc, ◌+◌, ◌*◌, ◌≤◌, ◌<◌, ◌%◌, String, ◌≡◌, refl, Bool, true, false, not, ◌&&◌, ◌||◌, inl,
  inr, map, contains, arith, Bool-cases, or-eq-true, ◌==◌, string_eq, nat_eq, if◌then◌else◌, List,
}
use mimi_agent.Str.{strip, words, split_on}
use mimi_agent.Scheduler.Calendar.{clock_minute, clock_hour, day_of_week, month_of, day_of}
use mimi_agent.Scheduler.Field.{Parsed, ok, fail, ◌>>=◌, parse_field}
use mimi_agent.Scheduler.Field.Laws.{>>=-eq-ok, parse_field-bounds}
use mimi_agent.Scheduler.Cron.{CronSchedule, sunday, parse_fields, parse, matches}

abbrev pub Within : ℕ → ℕ → List ℕ → Type 0
Within lo hi values = (v : ℕ) → contains values v ≡ true → (lo ≤ v) × (v ≤ hi)

-- Each field of the schedule holds values of its range only; Sunday is 0, and not 7.
pub record IsWellFormed (c : CronSchedule) : Type 0 where
  pub minutes : Within 0 59 c.minute
  pub hours : Within 0 23 c.hour
  pub days : Within 1 31 c.dom
  pub months : Within 1 12 c.mon
  pub weekdays : Within 0 6 c.dow

Within-sunday : (vs : List ℕ) → Within 0 7 vs → Within 0 6 (map sunday vs)
Within-sunday [] w v h = ground arith
Within-sunday (x ∷ xs) w v h = elim (or-eq-true (v == sunday x) _ h) [
  | inl here ↦ ground (arith, w x)
  | inr later ↦ Within-sunday xs (λ y m. w y (ground arith)) v later
]

-- The five words of an accepted expression and what each was parsed to.
pub record ComesFrom (c : CronSchedule) : Type 0 where
  pub minute_s : String
  pub hour_s : String
  pub dom_s : String
  pub mon_s : String
  pub dow_s : String
  pub dow_raw : List ℕ
  pub minutes : parse_field minute_s 0 59 ≡ ok c.minute
  pub hours : parse_field hour_s 0 23 ≡ ok c.hour
  pub days : parse_field dom_s 1 31 ≡ ok c.dom
  pub months : parse_field mon_s 1 12 ≡ ok c.mon
  pub weekdays : parse_field dow_s 0 7 ≡ ok dow_raw
  pub dow : c.dow ≡ map sunday dow_raw
  pub dom_restricted : c.dom_restricted ≡ not (strip dom_s == "*")
  pub dow_restricted : c.dow_restricted ≡ not (strip dow_s == "*")

ok-injective : {a b : CronSchedule} → ok a ≡ ok b → a ≡ b
ok-injective h = cc

parse_fields-ComesFrom :
    (expr : String) (ws : List String) {c : CronSchedule}
    → parse_fields expr ws ≡ ok c
    → ComesFrom c
unfolding parse_fields
parse_fields-ComesFrom expr (minute_s ∷ hour_s ∷ dom_s ∷ mon_s ∷ dow_s ∷ []) h =
    let (minute, minutes, h1) = >>=-eq-ok (parse_field minute_s 0 59) _ h in
    let (hour, hours, h2) = >>=-eq-ok (parse_field hour_s 0 23) _ h1 in
    let (dom, days, h3) = >>=-eq-ok (parse_field dom_s 1 31) _ h2 in
    let (mon, months, h4) = >>=-eq-ok (parse_field mon_s 1 12) _ h3 in
    let (dow_raw, weekdays, h5) = >>=-eq-ok (parse_field dow_s 0 7) _ h4 in
    subst ComesFrom (ok-injective h5) (record {
      minute_s = minute_s;
      hour_s = hour_s;
      dom_s = dom_s;
      mon_s = mon_s;
      dow_s = dow_s;
      dow_raw = dow_raw;
      minutes = minutes;
      hours = hours;
      days = days;
      months = months;
      weekdays = weekdays;
      dow = refl;
      dom_restricted = refl;
      dow_restricted = refl;
    })
parse_fields-ComesFrom expr _ h = cc

pub parse-ComesFrom : (expr : String) {c : CronSchedule} → parse expr ≡ ok c → ComesFrom c
unfolding parse
parse-ComesFrom expr h = parse_fields-ComesFrom expr (words expr) h

-- An accepted expression gives a schedule whose fields hold values of their ranges only.
pub parse-IsWellFormed : (expr : String) {c : CronSchedule} → parse expr ≡ ok c → IsWellFormed c
parse-IsWellFormed expr h =
    let f = parse-ComesFrom expr h in
    record {
      minutes = λ v m. parse_field-bounds f.minute_s 0 59 v f.minutes m;
      hours = λ v m. parse_field-bounds f.hour_s 0 23 v f.hours m;
      days = λ v m. parse_field-bounds f.dom_s 1 31 v f.days m;
      months = λ v m. parse_field-bounds f.mon_s 1 12 v f.months m;
      weekdays = λ v m.
          Within-sunday f.dow_raw (λ w n. parse_field-bounds f.dow_s 0 7 w f.weekdays n) v
            (rw f.dow at m);
    }
