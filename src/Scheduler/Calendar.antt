-- ===== src/Scheduler/Calendar.antt =====
-- The parts of `datetime` that the scheduler reads. A moment is the wall clock of Asia/Tokyo, which
-- has one fixed offset, in microseconds since the beginning of the year 1.
pub mod Laws
use mathlib.Core.List.{List, [], ◌∷◌}
use mimi_agent.Base.{
  ℕ, zero, suc, ◌+◌, ◌-◌, ◌*◌, ◌/◌, ◌%◌, Bool, true, false, not, ◌&&◌, ◌||◌, ltb, leb, ◌==◌, nat_eq,
  if◌then◌else◌,
}

abbrev pub Moment : Type 0
Moment = ℕ

abbrev pub micros_per_minute : ℕ
micros_per_minute = 60000000

-- The minute in which a moment lies: `dt.replace(second=0, microsecond=0)`.
unfoldable pub minute_of : Moment → ℕ
minute_of t = t / micros_per_minute

-- The fields of a minute.
unfoldable pub clock_minute : ℕ → ℕ
clock_minute m = m % 60

unfoldable pub clock_hour : ℕ → ℕ
clock_hour m = m / 60 % 24

-- `dt.isoweekday() % 7`: Sunday is 0. The first day of the year 1 was a Monday.
unfoldable pub day_of_week : ℕ → ℕ
day_of_week m = (m / 1440 + 1) % 7

-- The months with the days before each, without 29 February.
nth : ℕ → List ℕ → ℕ
nth i [] = 0
nth zero (d ∷ ds) = d
nth (suc i) (d ∷ ds) = nth i ds

days_before_month : ℕ → ℕ
days_before_month month =
    nth month (0 ∷ 0 ∷ 31 ∷ 59 ∷ 90 ∷ 120 ∷ 151 ∷ 181 ∷ 212 ∷ 243 ∷ 273 ∷ 304 ∷ 334 ∷ [])

-- Days of the year before the month, in a leap year or not.
preceding : Bool → ℕ → ℕ
preceding leap month = days_before_month month + (if leap && ltb 2 month then 1 else 0)

-- Month and day of the n-th day of a year: the estimate `(n + 50) >> 5` is at most one too large.
month_day : Bool → ℕ → ℕ × ℕ
month_day leap n =
    let month = (n + 50) / 32 in
    if ltb n (preceding leap month)
    then (month - 1, n - preceding leap (month - 1) + 1)
    else (month, n - preceding leap month + 1)

-- The 31 December that ends a cycle of 4 or of 400 years is no multiple of 365 days after its start.
year_day : Bool → Bool → ℕ → ℕ × ℕ
year_day true leap n = (12, 31)
year_day false leap n = month_day leap n

-- `_ord2ymd` of Python's `datetime`, from the days since the first day of the year 1.
unfoldable pub date_of : ℕ → ℕ × ℕ
unfolding year_day month_day preceding days_before_month nth
date_of day =
    let n400 = day % 146097 in
    let n100 = n400 / 36524 in
    let r100 = n400 % 36524 in
    let n4 = r100 / 1461 in
    let r4 = r100 % 1461 in
    let n1 = r4 / 365 in
    let leap = n1 == 3 && (not (n4 == 24) || n100 == 3) in
    year_day (n1 == 4 || n100 == 4) leap (r4 % 365)

unfoldable pub month_of : ℕ → ℕ
month_of m = (date_of (m / 1440)).0

unfoldable pub day_of : ℕ → ℕ
day_of m = (date_of (m / 1440)).1
