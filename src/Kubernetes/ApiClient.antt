-- ===== src/Kubernetes/ApiClient.antt =====
-- runner/k8s_api_client.py: requests to the API server, and the loop that waits for a Job. A time is a
-- whole number of seconds.
pub mod Waiting
use Prim.Native.String.{[], ◌∷◌}
use mathlib.Core.List
use mimi_agent.Base.{
  ℕ, zero, suc, ◌+◌, ◌*◌, ◌/◌, String, ◌<>◌, Bool, true, false, ◌&&◌, Option, none, some, List, ltb,
  leb, ◌==◌, string_eq, if◌then◌else◌,
}
use mimi_agent.Base.Dict.{Dict}
use mimi_agent.Base.Exec.{
  Error, Result, ok, err, Exec, pure, raise, lift, gets, ◌>>=◌, ◌>>◌, try_else, modify,
}
use mimi_agent.Str.{is_nonempty, strip, decimal}
use mimi_agent.Scheduler.Number.{ℤ, pos, negsuc}
use mimi_agent.System.{
  Request, Response, answered, http_error, unreachable, failed, History, System, shown, open_url,
  read_text, monotonic, sleep,
}
use mimi_agent.System.JsonValue.{
  Value, null, text, array, end, object, done, truthy, get, found_or, iterate, int_value,
}

-- The options that both launchers have.
pub record ClientOptions : Type 0 where
  pub api_server : String
  pub ca_cert_path : String
  pub token_path : String
  pub namespace_path : String
  pub namespace : Option String
  pub request_timeout_seconds : ℕ
  pub poll_interval_seconds : ℕ
  pub timeout_seconds : ℕ

-- The caches of a client, beside what happened.
pub record Client : Type 0 where
  pub history : History
  pub namespace_cache : Option String
  pub configmap_name_cache : Option Value

abbrev pub Api : Type 0 → Type 0
Api A = Exec Client A

-- An action on the surroundings, which leaves the caches alone.
unfoldable pub outside : {A : Type 0} → Exec History A → Api A
outside act c = let (outcome, history) = act c.history in (outcome, record c { history = history })

abbrev pub api_error : String → Error
api_error message = record { kind = "RuntimeError"; message = message }

-- `except RuntimeError`
abbrev pub is_runtime_error : Error → Bool
is_runtime_error e = e.kind == "RuntimeError"

-- `if text:` of an optional text.
abbrev pub given : Option String → Bool
given none = false
given (some s) = is_nonempty s

abbrev pub or_blank : Option String → String
or_blank none = ""
or_blank (some s) = s

abbrev data_headers : Option String → Dict String String
data_headers none = List.[]
data_headers (some body) = List.◌∷◌ ("Content-Type", "application/json") List.[]

unfoldable pub api_call : ClientOptions → String → String → Option String → String → Request
api_call options method path body token = record {
  url = options.api_server <> path;
  method = method;
  body = body;
  headers =
      List.◌∷◌ ("Authorization", "Bearer " <> token)
        (List.◌∷◌ ("Accept", "application/json") (data_headers body));
  cafile = some options.ca_cert_path;
  timeout = options.request_timeout_seconds;
}

abbrev pub jobs_path : String → String
jobs_path namespace = "/apis/batch/v1/namespaces/" <> (namespace <> "/jobs")

abbrev pub job_path : String → String → String
job_path namespace job_name = jobs_path namespace <> ("/" <> job_name)

-- What a poll learns of a Job.
pub data Verdict : Type 0 where
  running : Verdict
  succeeded : Verdict
  broken : Option Value → Verdict

unfoldable pub at_least_one : ℤ → Bool
at_least_one (pos n) = leb 1 n
at_least_one (negsuc n) = false

-- `int(status.get(key) or 0)`
unfoldable pub count_of : String → Value → Result ℤ
unfolding get int_value
count_of key status = elim (get key status) [
  | err e ↦ err e
  | ok found ↦ int_value (found_or found (Value.number (pos 0)))
]

-- `next((c for c in conditions if c.get("type") == "Failed"), None)`
abbrev is_failed_type : Option Value → Bool
is_failed_type (some (text s)) = s == "Failed"
is_failed_type other = false

unfoldable pub first_failed : List Value → Result (Option Value)
unfolding get
first_failed List.[] = ok none
first_failed (List.◌∷◌ c cs) =
    let rest = first_failed cs in
    elim (get "type" c) [
      | err e ↦ err e
      | ok kind ↦ if is_failed_type kind then ok (some c) else rest
    ]

failed_of : Result (List Value) → Result Verdict
unfolding first_failed
failed_of (err e) = err e
failed_of (ok conditions) = elim (first_failed conditions) [
  | err e ↦ err e
  | ok found ↦ ok (broken found)
]

-- The failed Job's condition.
unfoldable pub failure_of : Value → Result Verdict
unfolding get iterate failed_of
failure_of status = elim (get "conditions" status) [
  | err e ↦ err e
  | ok found ↦ failed_of (iterate (found_or found (array end)))
]

verdict_of_failed : Value → Result ℤ → Result Verdict
verdict_of_failed status (err e) = err e
verdict_of_failed status (ok n) = if at_least_one n then failure_of status else ok running

verdict_of_count : Value → Result ℤ → Result Verdict
unfolding verdict_of_failed
verdict_of_count status (err e) = err e
verdict_of_count status (ok n) =
    if at_least_one n then ok succeeded else verdict_of_failed status (count_of "failed" status)

-- One round's reading of the Job.
unfoldable pub verdict_of : Value → Result Verdict
unfolding get verdict_of_count count_of at_least_one failure_of
verdict_of job = elim (get "status" job) [
  | err e ↦ err e
  | ok found ↦
      let status = found_or found (object done) in
      verdict_of_count status (count_of "succeeded" status)
]

abbrev no_detail : String
no_detail = "Job reported failed status"

module _ (x : System) (options : ClientOptions) where
  unfoldable pub read_token : Api String
  read_token = do content ← outside (read_text x options.token_path); pure (strip content)

  unfoldable pub namespace_file : Api String
  namespace_file = do
    content ← outside (read_text x options.namespace_path)
    modify (λ c. record c { namespace_cache = some (strip content) })
    pure (strip content)

  cached_namespace : Option String → Api String
  cached_namespace none = namespace_file
  cached_namespace (some name) = pure name

  unfoldable pub namespace : Api String
  unfolding cached_namespace
  namespace =
      if given options.namespace
      then pure (or_blank options.namespace)
      else (do cache ← gets (λ c. c.namespace_cache); cached_namespace cache)

  unfoldable pub decode : String → String → Response → Result Value
  decode method path (answered raw) = if is_nonempty raw then x.loads raw else ok (object done)
  decode method path (http_error code detail) = err (
      api_error (
        "kubernetes API "
        <> (method <> (" " <> (path <> (" failed: " <> (decimal code <> (" " <> detail))))))))
  decode method path (unreachable reason) =
      err (
        api_error
          ("kubernetes API " <> (method <> (" " <> (path <> (" unreachable: " <> reason))))))
  decode method path (failed e) = err e

  abbrev dumped : Option Value → Option String
  dumped none = none
  dumped (some body) = some (x.dumps body)

  unfoldable pub api_request : String → String → Option Value → Api Value
  unfolding decode
  api_request method path body = do
    token ← read_token
    response ← outside (open_url x (api_call options method path (dumped body) token))
    lift (decode method path response)

  -- `condition.get(key)` where there is a condition, and what the code falls back to.
  detail_text : Option Value → Option Value → String
  detail_text reason message =
      let r = found_or reason null in
      let m = found_or message null in
      if truthy r && truthy m
      then shown x r <> (": " <> shown x m)
      else if truthy m
      then shown x m
      else if truthy r
      then shown x r
      else no_detail

  unfoldable pub failed_condition_detail : Option Value → Result String
  unfolding get detail_text
  failed_condition_detail none = ok no_detail
  failed_condition_detail (some condition) =
      if truthy condition
      then elim (get "reason" condition) [
        | err e ↦ err e
        | ok reason ↦ elim (get "message" condition) [
          | err e ↦ err e
          | ok message ↦ ok (detail_text reason message)
        ]
      ]
      else ok no_detail

  unfoldable pub job_failed : String → String → Result String → Error
  job_failed ns job_name (err e) = e
  job_failed ns job_name (ok detail) =
      api_error ("Job " <> (ns <> ("/" <> (job_name <> (" failed: " <> detail)))))

  -- `f"{timeout}s"` of a float.
  unfoldable pub timed_out : String → String → ℕ → Error
  timed_out ns job_name timeout = api_error (
      "Job "
      <> (ns <> ("/" <> (job_name <> (" did not complete within " <> (decimal timeout <> ".0s"))))))

  -- The clock is read, and `rest` goes on after a sleep.
  unfoldable pub rest_or_raise : String → String → ℕ → ℕ → Api Bool → Api Bool
  unfolding timed_out
  rest_or_raise ns job_name timeout deadline rest = do
    now ← outside (monotonic x)
    if ltb deadline now
        then raise (timed_out ns job_name timeout)
        else (do outside (sleep x options.poll_interval_seconds); rest)

  unfoldable pub act_on : String → String → ℕ → ℕ → Api Bool → Verdict → Api Bool
  act_on ns job_name timeout deadline rest succeeded = pure true
  act_on ns job_name timeout deadline rest (broken condition) =
      raise (job_failed ns job_name (failed_condition_detail condition))
  act_on ns job_name timeout deadline rest running = rest_or_raise ns job_name timeout deadline rest

  -- `while True`: true once the Job succeeded, false when the rounds are used up.
  unfoldable pub poll : ℕ → String → String → ℕ → ℕ → Api Bool
  poll zero ns job_name timeout deadline = pure false
  poll (suc rounds) ns job_name timeout deadline = do
    job ← api_request "GET" (job_path ns job_name) none
    verdict ← lift (verdict_of job)
    act_on ns job_name timeout deadline (poll rounds ns job_name timeout deadline) verdict

  abbrev pub effective_timeout : Option ℕ → ℕ
  effective_timeout none = options.timeout_seconds
  effective_timeout (some seconds) = seconds

  -- The rounds that fit before the deadline, and one after it.
  abbrev pub poll_rounds : ℕ → ℕ
  poll_rounds timeout = suc (suc (timeout / options.poll_interval_seconds))

  unfoldable pub wait_for_completion : String → String → Option ℕ → Api Bool
  unfolding poll
  wait_for_completion ns job_name timeout_seconds = do
    start ← outside (monotonic x)
    poll (poll_rounds (effective_timeout timeout_seconds)) ns job_name
        (effective_timeout timeout_seconds) (start + effective_timeout timeout_seconds * 1000000)
