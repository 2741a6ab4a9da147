-- ===== src/Scheduler/Engine/Laws/Retry.antt =====
-- Retries: how often a job is attempted, and what its result says.
use mathlib.Core.List.{[], ◌∷◌}
use mimi_agent.Base.{
  ℕ, zero, suc, ◌+◌, ◌≤◌, ◌<◌, ◌≡◌, ◌≢◌, refl, String, true, Option, none, some, List, arith,
  contains, string_eq, inl, inr, Option-cases,
}
use mimi_agent.Scheduler.Number.{ℤ, pos, negsuc}
use mimi_agent.Scheduler.Engine.{
  succeeded, failed, JobRunResult, JobSpec, Event, attempted, notified, Surroundings, Engine, State,
  max_attempts, attempt_error, attempt_loop, attempt_result, dispatch,
}

-- How many attempts the log holds.
abbrev pub attempts_in : List Event → ℕ
attempts_in [] = 0
attempts_in (attempted name ∷ log) = suc (attempts_in log)
attempts_in (notified result ∷ log) = attempts_in log

max_attempts-pos : (b : ℤ) → 0 < max_attempts b
unfolding max_attempts
max_attempts-pos (pos n) = omega arith
max_attempts-pos (negsuc n) = omega arith

module _ (w : Surroundings) where
  open w use {attempt}

  -- The outcome of a loop that makes up to so many attempts, after some that were made before.
  record Attempts (job : JobSpec) (made limit : ℕ) (s : State) (out : (Option String × ℕ) × State)
      : Type 0 where
    more : made < out.0.1
    within : out.0.1 ≤ limit
    counted : attempts_in out.1.log + made ≡ attempts_in s.log + out.0.1
    exhausted : out.0.0 ≢ none → out.0.1 ≡ limit
    kept : out.1.last_fired ≡ s.last_fired
    last_log : List Event
    last_step : out.1.log ≡ attempted job.name ∷ last_log
    last_error : attempt_error w job (attempt last_log job) ≡ out.0.0

  module _ (job : JobSpec) (made limit : ℕ) (s : State) where
    -- The attempt that returns ends the loop.
    Attempts-done :
        made < limit
        → attempt_error w job (attempt s.log job) ≡ none
        → Attempts job made limit s
            ((none, made + 1), record s { log = attempted job.name ∷ s.log })
    Attempts-done room done = record {
      more = omega arith;
      within = omega arith;
      counted = omega arith;
      exhausted = λ h. absurd (h refl);
      kept = refl;
      last_log = s.log;
      last_step = refl;
      last_error = done;
    }

    -- The last attempt that is left raises.
    Attempts-last :
        (message : String)
        → made + 1 ≡ limit
        → attempt_error w job (attempt s.log job) ≡ some message
        → Attempts job made limit s
            ((some message, made + 1), record s { log = attempted job.name ∷ s.log })
    Attempts-last message e raised = record {
      more = omega arith;
      within = omega arith;
      counted = omega arith;
      exhausted = λ h. e;
      kept = refl;
      last_log = s.log;
      last_step = refl;
      last_error = raised;
    }

    -- An attempt that raises is one more before the rest of the loop.
    Attempts-step :
        (out : (Option String × ℕ) × State)
        → Attempts job (made + 1) limit (record s { log = attempted job.name ∷ s.log }) out
        → Attempts job made limit s out
    Attempts-step out h = record {
      more = omega (arith, h.more);
      within = h.within;
      counted = omega (arith, h.counted);
      exhausted = h.exhausted;
      kept = h.kept;
      last_log = h.last_log;
      last_step = h.last_step;
      last_error = h.last_error;
    }

  attempt_loop-Attempts :
      (remaining : ℕ) (job : JobSpec) (made limit : ℕ) (error : Option String) (s : State)
      → made + suc remaining ≡ limit
      → Attempts job made limit s (attempt_loop w (suc remaining) job made error s)
  unfolding attempt_loop
  attempt_loop-Attempts zero job made limit error s e =
      elim (Option-cases (attempt_error w job (attempt s.log job))) [
        | inl done ↦ rw (done, attempt_loop) (Attempts-done job made limit s (omega arith) done)
        | inr (message, raised) ↦
            rw (raised, attempt_loop) (Attempts-last job made limit s message (omega arith) raised)
      ]
  attempt_loop-Attempts (suc remaining) job made limit error s e =
      elim (Option-cases (attempt_error w job (attempt s.log job))) [
        | inl done ↦ rw (done, attempt_loop) (Attempts-done job made limit s (omega arith) done)
        | inr (message, raised) ↦
            rw (raised, attempt_loop)
              (Attempts-step job made limit s _ (
                attempt_loop-Attempts remaining job (made + 1) limit (some message) _
                  (omega arith)))
      ]

  -- What the result of a job with an executor says, and what was done for it.
  pub record Retried (job : JobSpec) (s : State) (r : JobRunResult) (s' : State) : Type 0 where
    pub attempts : ℕ
    pub reported : r.attempts ≡ some attempts
    pub once : 1 ≤ attempts
    pub limited : attempts ≤ max_attempts job.backoff_limit
    pub performed : attempts_in s'.log ≡ attempts_in s.log + attempts
    pub exhausted : r.status ≢ succeeded → attempts ≡ max_attempts job.backoff_limit
    pub last_log : List Event
    pub last_step : s'.log ≡ attempted job.name ∷ last_log
    pub last_error : attempt_error w job (attempt last_log job) ≡ r.reason
    pub status : r.status ≡ (elim r.reason [ none ↦ succeeded | some message ↦ failed ])

  attempt_result-Retried :
      (job : JobSpec) (s : State) (duration : ℕ) (error : Option String) (k : ℕ) (s' : State)
      → Attempts job 0 (max_attempts job.backoff_limit) s ((error, k), s')
      → Retried job s (attempt_result w job k error duration) s'
  unfolding attempt_result
  attempt_result-Retried job s duration none k s' h = record {
    attempts = k;
    reported = refl;
    once = h.more;
    limited = h.within;
    performed = omega (arith, h.counted);
    exhausted = λ n. absurd (n refl);
    last_log = h.last_log;
    last_step = h.last_step;
    last_error = h.last_error;
    status = refl;
  }
  attempt_result-Retried job s duration (some message) k s' h = record {
    attempts = k;
    reported = refl;
    once = h.more;
    limited = h.within;
    performed = omega (arith, h.counted);
    exhausted = λ n. h.exhausted (λ (e : some message ≡ none). cc);
    last_log = h.last_log;
    last_step = h.last_step;
    last_error = h.last_error;
    status = refl;
  }

  -- A job with an executor is attempted at least once and at most `max(1, backoff_limit + 1)` times,
  -- the result reports that number, a job that fails has used all its attempts, and the result's
  -- reason is the error of the last attempt, or nothing if that attempt returned.
  pub dispatch-Retried :
      (e : Engine) (job : JobSpec) (s : State)
      → contains e.executors job.name ≡ true
      → Retried job s (dispatch w e job s).0 (dispatch w e job s).1
  unfolding dispatch
  dispatch-Retried e job s registered =
      rw (registered, dispatch)
        (attempt_result-Retried job s _ _ _ _
          (loop (max_attempts job.backoff_limit) refl (max_attempts-pos job.backoff_limit)))
    where
      loop :
          (n : ℕ)
          → n ≡ max_attempts job.backoff_limit
          → 0 < n
          → Attempts job 0
              (max_attempts job.backoff_limit)
              s
              (attempt_loop w (max_attempts job.backoff_limit) job 0 none s)
      loop zero e room = absurd (omega arith)
      loop (suc n) e room = rw (← e) (attempt_loop-Attempts n job 0 (suc n) none s (omega arith))
