-- ===== src/Scheduler/Engine/Laws/Clock.antt =====
-- The pace of `run_forever`: which minute the next round evaluates.
use mimi_agent.Base.{ℕ, ◌+◌, ◌/◌, ◌%◌, ◌≤◌, ◌<◌, ◌≡◌, arith}
use mimi_agent.Scheduler.Calendar.{Moment, micros_per_minute, minute_of}
use mimi_agent.Scheduler.Engine.{sleep_time, wake}

-- A round sleeps for some time, never longer than a minute; a round whose jobs take no time wakes when a
-- minute begins, and one whose jobs take some time wakes as much later.
pub sleep_time_bounds :
    (now : Moment) (took : ℕ)
    → (0 < sleep_time now)
      × (sleep_time now ≤ micros_per_minute)
      × ((now + sleep_time now) % micros_per_minute ≡ 0)
      × (wake now took ≡ now + sleep_time now + took)
unfolding sleep_time minute_of wake
sleep_time_bounds now took = (omega arith, omega arith, omega arith, omega arith)

-- The next round evaluates the following minute, and one more for each whole minute that the jobs
-- took: a round whose jobs take a minute or longer makes the loop miss the following minute, also if
-- they end while it lasts.
pub minute_of-wake :
    (now : Moment) (took : ℕ)
    → minute_of (wake now took) ≡ minute_of now + 1 + took / micros_per_minute
unfolding wake sleep_time minute_of
minute_of-wake now took = omega arith
