-- ===== src/Scheduler/Cron/Next.antt =====
-- `next_after` finds the first minute that matches, or there is none within its limit.
use native.Mathlib.Decide.{dec_lt}
use mimi_agent.Base.{
  ℕ, zero, suc, ◌+◌, ◌*◌, ◌≤◌, ◌<◌, ◌≡◌, true, false, leb, leb→le, arith, inl, inr, Bool-cases,
}
use mimi_agent.Scheduler.Calendar.{Moment, micros_per_minute, minute_of}
use mimi_agent.Scheduler.Field.{ok, fail, CronError}
use mimi_agent.Scheduler.Cron.{CronSchedule, matches, next_loop, search_minutes, next_after}

module _ (c : CronSchedule) (limit : ℕ) where
  -- What the search returns: the least matching minute from the candidate on.
  pub record IsNext (candidate m : ℕ) : Type 0 where
    pub from : candidate ≤ m
    pub to_limit : m * micros_per_minute ≤ limit
    pub found : matches c m ≡ true
    pub least : (j : ℕ) → candidate ≤ j → j < m → matches c j ≡ false

  IsNext-here :
      (candidate : ℕ)
      → leb (candidate * micros_per_minute) limit ≡ true
      → matches c candidate ≡ true
      → IsNext candidate candidate
  IsNext-here candidate within hit = record {
    from = omega arith;
    to_limit = leb→le _ _ within;
    found = hit;
    least = λ j from below. absurd (omega arith);
  }

  IsNext-later :
      (candidate m : ℕ)
      → matches c candidate ≡ false
      → IsNext (candidate + 1) m
      → IsNext candidate m
  IsNext-later candidate m miss n = record {
    from = omega (arith, n.from);
    to_limit = n.to_limit;
    found = n.found;
    least = λ j from below. elim (dec_lt candidate j) [
      | yes later ↦ n.least j (omega arith) below
      | no here ↦ let e : j ≡ candidate = omega arith in rw e miss
    ];
  }

  next_loop-IsNext :
      (rounds candidate : ℕ) {m : ℕ}
      → next_loop rounds c limit candidate ≡ ok m
      → IsNext candidate m
  unfolding next_loop
  next_loop-IsNext zero candidate h = cc
  next_loop-IsNext (suc rounds) candidate {m} h =
      elim (Bool-cases (leb (candidate * micros_per_minute) limit)) [
        | inr past ↦ cc (rw (past, next_loop) at h)
        | inl within ↦ elim (Bool-cases (matches c candidate)) [
          | inl hit ↦
              let e : candidate ≡ m = ground arith in rw (← e) (IsNext-here candidate within hit)
          | inr miss ↦
              IsNext-later candidate m miss
                (next_loop-IsNext rounds (candidate + 1) (rw (within, miss, next_loop) at h))
        ]
      ]

  -- With rounds to pass the limit, a failing search has missed nothing within it.
  next_loop-exhausts :
      (rounds candidate : ℕ) {e : CronError}
      → limit < (candidate + rounds) * micros_per_minute
      → next_loop rounds c limit candidate ≡ fail e
      → (j : ℕ) → candidate ≤ j
      → j * micros_per_minute ≤ limit
      → matches c j ≡ false
  unfolding next_loop
  next_loop-exhausts zero candidate enough h j from within = absurd (omega arith)
  next_loop-exhausts (suc rounds) candidate enough h j from within =
      elim (Bool-cases (leb (candidate * micros_per_minute) limit)) [
        | inr past ↦ absurd (ground arith)
        | inl inside ↦ elim (Bool-cases (matches c candidate)) [
          | inl hit ↦ cc (rw (inside, hit, next_loop) at h)
          | inr miss ↦ elim (dec_lt candidate j) [
            | yes later ↦
                next_loop-exhausts rounds (candidate + 1) (omega arith)
                  (rw (inside, miss, next_loop) at h) j (omega arith) within
            | no here ↦ let e : j ≡ candidate = omega arith in rw e miss
          ]
        ]
      ]

-- The last moment at which a next minute may begin: 366 days after the given one.
abbrev pub search_limit : Moment → ℕ
search_limit t = t + search_minutes * micros_per_minute

-- The minute that `next_after` returns begins after the minute of the given moment and within 366
-- days of that moment, it matches, and no earlier minute after the given one does.
pub next_after-IsNext :
    (c : CronSchedule) (t : Moment) {m : ℕ}
    → next_after c t ≡ ok m
    → IsNext c (search_limit t) (minute_of t + 1) m
unfolding next_after
next_after-IsNext c t h = next_loop-IsNext c (search_limit t) _ _ h

-- Where `next_after` raises, no minute that begins after that of the given moment and within 366 days
-- of the moment matches: the search is never cut short.
pub next_after-exhausts :
    (c : CronSchedule) (t : Moment) {e : CronError}
    → next_after c t ≡ fail e
    → (j : ℕ) → minute_of t < j
    → j * micros_per_minute ≤ search_limit t
    → matches c j ≡ false
unfolding next_after minute_of
next_after-exhausts c t h j from within =
    next_loop-exhausts c (search_limit t) (search_minutes + 1) (minute_of t + 1) (omega arith) h j
      (omega arith) within
