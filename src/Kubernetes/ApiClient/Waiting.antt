-- ===== src/Kubernetes/ApiClient/Waiting.antt =====
-- The loop that waits for a Job ends.
use mathlib.Core.List.{◌∷◌}
use native.Mathlib.Nat.{suc-mul, mul_assoc, lt-div-mul-add}
use mimi_agent.Base.{
  ℕ, zero, suc, ◌+◌, ◌*◌, ◌/◌, ◌≤◌, ◌<◌, ◌≡◌, ◌≢◌, String, Bool, true, false, Option, none, inl,
  inr, Bool-cases, ltb, arith,
}
use mimi_agent.Base.Exec.{ok, pure, raise, lift, ◌>>=◌, >>=-eq-ok}
use mimi_agent.Base.Exec.Keeps.{Keeps, Keeps-pure, Keeps-lift, Keeps-bind}
use mimi_agent.System.{
  read_clock, slept, System, IsMonotonic, read_text, open_url, monotonic, sleep,
}
use mimi_agent.System.JsonValue.{Value}
use mimi_agent.Kubernetes.ApiClient.{
  ClientOptions, Client, Api, outside, Verdict, running, succeeded, broken, read_token, api_request,
  rest_or_raise, job_path, verdict_of, act_on, poll, poll_rounds, effective_timeout,
  wait_for_completion,
}

module _ (x : System) (options : ClientOptions) where
  abbrev rested : Client → Client
  rested c = record c { history = slept options.poll_interval_seconds ∷ read_clock ∷ c.history }

  -- The rest is reached before the deadline, after a sleep.
  rest_or_raise_lem :
      (ns job_name : String) (timeout deadline : ℕ) (rest : Api Bool) (c t : Client) (b : Bool)
      → rest_or_raise x options ns job_name timeout deadline rest c ≡ (ok b, t)
      → (rest (rested c) ≡ (ok b, t)) × (ltb deadline (x.clock c.history) ≡ false)
  unfolding rest_or_raise outside monotonic sleep ◌>>=◌ raise
  rest_or_raise_lem ns job_name timeout deadline rest c t b h =
      elim (Bool-cases (ltb deadline (x.clock c.history))) [
        | inl late ↦ cc (rw late at h)
        | inr early ↦ (rw early at h, early)
      ]

  -- What the last poll told.
  pub record Succeeded (ns job_name : String) (t : Client) : Type 0 where
    pub asked : Client
    pub job : Value
    pub answer : api_request x options "GET" (job_path ns job_name) none asked ≡ (ok job, t)
    pub reported : verdict_of job ≡ ok succeeded

  act_on_sound :
      (ns job_name : String) (timeout deadline : ℕ) (rest : Api Bool) (verdict : Verdict)
      (asked c t : Client) (job : Value)
      → api_request x options "GET" (job_path ns job_name) none asked ≡ (ok job, c)
      → verdict_of job ≡ ok verdict
      → ((reached : Client) → rest reached ≡ (ok true, t) → Succeeded ns job_name t)
      → act_on x options ns job_name timeout deadline rest verdict c ≡ (ok true, t)
      → Succeeded ns job_name t
  unfolding act_on pure raise
  act_on_sound ns job_name timeout deadline rest succeeded asked c t job answer read ends h =
      record { asked = asked; job = job; answer = cc (answer, h); reported = read }
  act_on_sound ns job_name timeout deadline rest (broken b) asked c t job answer read ends h = cc h
  act_on_sound ns job_name timeout deadline rest running asked c t job answer read ends h =
      ends (rested c) (rest_or_raise_lem ns job_name timeout deadline rest c t true h).0

  poll_sound :
      (rounds : ℕ) (ns job_name : String) (timeout deadline : ℕ) (c t : Client)
      → poll x options rounds ns job_name timeout deadline c ≡ (ok true, t)
      → Succeeded ns job_name t
  unfolding poll lift pure
  poll_sound zero ns job_name timeout deadline c t h = cc h
  poll_sound (suc rounds) ns job_name timeout deadline c t h =
      let (job, asked, h1) = >>=-eq-ok _ _ c h in
      let (verdict, read, h2) = >>=-eq-ok _ _ _ h1 in
      act_on_sound ns job_name timeout deadline _ verdict c _ t job (cc asked) read
        (λ reached. poll_sound rounds ns job_name timeout deadline reached t) h2

  -- Waiting for a Job returns only if the last request asked the API server for this Job, and the Job it
  -- answered with has at least one succeeded Pod in its status.
  pub wait_for_completion_sound :
      (ns job_name : String) (timeout_seconds : Option ℕ) (c t : Client)
      → wait_for_completion x options ns job_name timeout_seconds c ≡ (ok true, t)
      → Succeeded ns job_name t
  unfolding wait_for_completion outside monotonic ◌>>=◌
  wait_for_completion_sound ns job_name timeout_seconds c t h =
      let limit = effective_timeout x options timeout_seconds in
      poll_sound (poll_rounds x options limit) ns job_name limit
        (x.clock c.history + limit * 1000000) (record c { history = read_clock ∷ c.history }) t h

module _ (x : System) (options : ClientOptions) (mono : IsMonotonic x) where
  abbrev pub now : Client → ℕ
  now c = x.clock c.history

  Keeps-read_token : (t : ℕ) → Keeps (λ c. t ≤ now c) (read_token x options)
  unfolding read_token outside read_text
  Keeps-read_token t =
      Keeps-bind _ _ (record { after = λ c h. omega (arith, h, mono.forward c.history _) })
        (λ content. Keeps-pure _)

  pub Keeps-api_request :
      (t : ℕ) (method path : String) (body : Option Value)
      → Keeps (λ c. t ≤ now c) (api_request x options method path body)
  unfolding api_request outside open_url
  Keeps-api_request t method path body = Keeps-bind _ _ (Keeps-read_token t) (λ token.
      Keeps-bind _ _ (record { after = λ c h. omega (arith, h, mono.forward c.history _) })
        (λ response. Keeps-lift _))

  act_on_ends :
      (ns job_name : String) (timeout deadline : ℕ) (rest : Api Bool) (verdict : Verdict)
      (c t : Client)
      → ((reached : Client)
          → now c ≤ deadline
          → now c + options.poll_interval_seconds * 1000000 ≤ now reached
          → rest reached ≢ (ok false, t))
      → act_on x options ns job_name timeout deadline rest verdict c ≢ (ok false, t)
  unfolding act_on pure raise
  act_on_ends ns job_name timeout deadline rest succeeded c t ends h = cc h
  act_on_ends ns job_name timeout deadline rest (broken condition) c t ends h = cc h
  act_on_ends ns job_name timeout deadline rest running c t ends h =
      let (goes_on, early) =
        rest_or_raise_lem x options ns job_name timeout deadline rest c t false h in
      let started = mono.forward c.history read_clock in
      let slept_long = mono.rests (read_clock ∷ c.history) options.poll_interval_seconds in
      ends (rested x options c) (ground arith) (omega (arith, started, slept_long)) goes_on

  -- A round ends the loop if the rounds after it do.
  round_ends :
      (rounds : ℕ) (ns job_name : String) (timeout deadline : ℕ) (c t : Client)
      → ((reached : Client)
          → now c ≤ deadline
          → now c + options.poll_interval_seconds * 1000000 ≤ now reached
          → poll x options rounds ns job_name timeout deadline reached ≢ (ok false, t))
      → poll x options (suc rounds) ns job_name timeout deadline c ≢ (ok false, t)
  unfolding poll lift
  round_ends rounds ns job_name timeout deadline c t ends h =
      let (job, asked, h1) = >>=-eq-ok _ _ c h in
      let (verdict, read, h2) = >>=-eq-ok _ _ _ h1 in
      let later =
        (Keeps-api_request (now c) "GET" (job_path ns job_name) none).after c (omega arith) in
      act_on_ends ns job_name timeout deadline _ verdict _ t
        (λ reached early slept_long.
          ends reached (omega (arith, early, later)) (omega (arith, slept_long, later)))
        h2

  -- Where the rounds reach beyond the deadline, the loop ends before they are used up.
  poll_ends :
      (rounds : ℕ) (ns job_name : String) (timeout deadline : ℕ) (c t : Client)
      → deadline < now c + rounds * (options.poll_interval_seconds * 1000000)
      → poll x options (suc rounds) ns job_name timeout deadline c ≢ (ok false, t)
  poll_ends zero ns job_name timeout deadline c t fits =
      round_ends zero ns job_name timeout deadline c t
        (λ reached early slept_long h. omega (arith, fits, early))
  poll_ends (suc rounds) ns job_name timeout deadline c t fits =
      round_ends (suc rounds) ns job_name timeout deadline c t (λ reached early slept_long.
        poll_ends rounds ns job_name timeout deadline reached t (
          omega
            (arith, fits, slept_long, suc-mul rounds (options.poll_interval_seconds * 1000000))))

  -- On a clock that never goes back and that a sleep moves on by its length, with a poll interval of at
  -- least a second, waiting for a Job returns or raises before the rounds of the model are used up: the
  -- loop of the code ends, whatever the API server answers.
  pub wait_for_completion_ends :
      (ns job_name : String) (timeout_seconds : Option ℕ) (c t : Client)
      → 0 < options.poll_interval_seconds
      → wait_for_completion x options ns job_name timeout_seconds c ≢ (ok false, t)
  unfolding wait_for_completion outside monotonic ◌>>=◌
  wait_for_completion_ends ns job_name timeout_seconds c t positive h =
      let limit = effective_timeout x options timeout_seconds in
      let interval = options.poll_interval_seconds in
      let rounds = limit / interval in
      poll_ends (suc rounds) ns job_name limit _ (record c { history = read_clock ∷ c.history }) t
        (omega (
          arith,
          mono.forward c.history read_clock,
          lt-div-mul-add {a = limit} positive,
          suc-mul rounds (interval * 1000000),
          mul_assoc rounds interval 1000000,
        ))
        h
