-- ===== src/Digest/Slack.antt =====
-- proxies/slack_notify_client.py.
use mathlib.Core.List.{[], ◌∷◌}
use mimi_agent.Base.{ℕ, String, ◌<>◌, Option, none, some, List, string_eq}
use mimi_agent.Base.Exec.{Error, Result, ok, err, Exec, lift, ◌>>=◌}
use mimi_agent.Scheduler.Number.{ℤ, pos}
use mimi_agent.System.{
  Request, Response, answered, http_error, unreachable, failed, History, System, open_url,
}
use mimi_agent.System.JsonValue.{Value, dict_of, get, int_value}
use mimi_agent.Kubernetes.RunnerJob.{entry}
use mimi_agent.Kubernetes.TaskRun.{value_or}
use mimi_agent.Digest.Texts.{without_slash}

pub record SlackNotifyClient : Type 0 where
  pub base_url : String
  pub session_token : String
  pub timeout_seconds : ℕ

abbrev pub slack_notify_error : String → Error
slack_notify_error message = record {
  kind = "SlackNotifyError";
  message = "slack notify request failed: " <> message;
}

abbrev target_entry : Option String → List (String × Value)
target_entry none = []
target_entry (some target) = entry "target" target ∷ []

-- `int(body.get("chunks", 0))`
unfoldable pub chunks_of : Value → Result ℤ
unfolding get int_value
chunks_of body = elim (get "chunks" body) [
  | err e ↦ err e
  | ok found ↦ int_value (value_or found (Value.number (pos 0)))
]

module _ (x : System) (client : SlackNotifyClient) where
  unfoldable pub notify_request : String → Option String → Request
  notify_request message target = record {
    url = without_slash client.base_url <> "/v1/slack/notify";
    method = "POST";
    body = some (x.dumps (dict_of (entry "text" message ∷ target_entry target)));
    headers =
        ("Content-Type", "application/json")
        ∷ ("Authorization", "Bearer " <> client.session_token)
        ∷ [];
    cafile = none;
    timeout = client.timeout_seconds;
  }

  -- Every exception becomes the one of this client.
  normalized : Result Value → Result Value
  normalized (ok body) = ok body
  normalized (err e) = err (slack_notify_error e.message)

  unfoldable pub notify_body : Response → Result Value
  unfolding normalized
  notify_body (answered raw) = normalized (x.loads raw)
  notify_body (http_error code detail) = err (slack_notify_error (x.http_text code))
  notify_body (unreachable reason) = err (slack_notify_error ("<urlopen error " <> (reason <> ">")))
  notify_body (failed e) = err (slack_notify_error e.message)

  unfoldable pub notify : String → Option String → Exec History ℤ
  unfolding notify_body notify_request chunks_of
  notify message target = do
    response ← open_url x (notify_request message target)
    body ← lift (notify_body response)
    lift (chunks_of body)
