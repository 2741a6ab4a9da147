-- ===== src/Kubernetes/Tests.antt =====
-- A cluster whose Jobs succeed, and the theorems of the launchers at it.
use mathlib.Core.List.{[], ◌∷◌}
use mimi_agent.Base.{
  ◌+◌, ◌*◌, ◌≤◌, ◌≡◌, ◌≢◌, refl, ℕ, true, false, none, arith, nat_eq, string_eq, ◌==◌,
  if◌then◌else◌,
}
use mimi_agent.Base.Exec.{ok, pure, lift, ◌>>=◌}
use mimi_agent.Scheduler.Number.{pos}
use mimi_agent.System.{
  Event, slept, History, System, IsMonotonic, answered, open_url, read_text, monotonic,
}
use mimi_agent.System.JsonValue.{Value, text, dict_of, list_of, find_field}
use mimi_agent.Kubernetes.ApiClient.{
  ClientOptions, Client, outside, read_token, api_request, decode, verdict_of, poll, act_on,
  wait_for_completion,
}
use mimi_agent.Kubernetes.ApiClient.Waiting.{
  Succeeded, wait_for_completion_sound, wait_for_completion_ends,
}
use mimi_agent.Kubernetes.JobName.{name_of}
use mimi_agent.Kubernetes.JobName.Laws.{
  is_alnum, is_label_char, is_id_char, IsLabel, name_of-IsLabel,
}
use mimi_agent.Kubernetes.RunnerJob.{in_cluster_client}

-- Only sleeping takes time.
slept_through : History → ℕ
slept_through [] = 0
slept_through (slept seconds ∷ past) = slept_through past + seconds * 1000000
slept_through (event ∷ past) = slept_through past

slept_through_forward :
    (past : History) (event : Event) → slept_through past ≤ slept_through (event ∷ past)
unfolding slept_through
slept_through_forward past (slept seconds) = omega arith
slept_through_forward past event = omega arith

abbrev pub job_document : Value
job_document = dict_of (
    ("status", dict_of (("succeeded", Value.number (pos 1)) ∷ []))
    ∷ (
      "spec",
      dict_of (
          (
            "volumes",
            list_of (
                dict_of (
                  ("name", text "config")
                  ∷ ("configMap", dict_of (("name", text "settings") ∷ []))
                  ∷ [])
                ∷ []),
          )
          ∷ []),
    )
    ∷ [])

abbrev pub result_document : Value
result_document = dict_of (("status", text "published") ∷ [])

unfoldable pub cluster : System
unfolding slept_through
cluster = record {
  environ =
      ("POD_NAME", "scheduler-0") ∷ ("POD_NAMESPACE", "agents") ∷ ("GITHUB_TOKEN", "secret") ∷ [];
  urlopen = λ past request. answered "{...}";
  file_text = λ past path.
      ok (if path == "/app/.sessions/sess_1/result.json" then "result" else "agents\n");
  file_exists = λ past path. true;
  write = λ past path content. ok tt;
  clock = slept_through;
  run = λ past command. ok (record { returncode = pos 0; stdout = ""; stderr = "" });
  tempdir = λ past. "/tmp/notes";
  mkdir = λ past path. ok tt;
  loads = λ raw. ok (if raw == "result" then result_document else job_document);
  dumps = λ value. "{...}";
  dumps_indented = λ value. "{ ... }";
  show = λ value. "";
  http_text = λ code. "HTTP Error";
}

pub cluster-IsMonotonic : IsMonotonic cluster
unfolding cluster slept_through
cluster-IsMonotonic = record {
  forward = slept_through_forward;
  rests = λ past seconds. omega arith;
}

abbrev pub fresh : Client
fresh = record { history = []; namespace_cache = none; configmap_name_cache = none }

abbrev client : ClientOptions
client = in_cluster_client 900

wait_for_completion_ends_example :
    wait_for_completion cluster client "agents" "job-1" none fresh ≢ (ok false, fresh)
wait_for_completion_ends_example =
    wait_for_completion_ends cluster client cluster-IsMonotonic "agents" "job-1" none fresh fresh
      (omega arith)

abbrev waited_for : Client
waited_for = (wait_for_completion cluster client "agents" "job-1" none fresh).1

wait_succeeds :
    wait_for_completion cluster client "agents" "job-1" none fresh ≡ (ok true, waited_for)
unfolding wait_for_completion cluster poll act_on api_request read_token outside read_text open_url
    monotonic decode verdict_of ◌>>=◌ lift pure string_eq find_field
wait_succeeds = refl

wait_for_completion_sound_example : Succeeded cluster client "agents" "job-1" waited_for
wait_for_completion_sound_example =
    wait_for_completion_sound cluster client "agents" "job-1" none fresh waited_for wait_succeeds

name_of-IsLabel_example : IsLabel (name_of "7mimi-agent-runner" "sess_20260101_AB")
name_of-IsLabel_example =
    name_of-IsLabel "7mimi-agent-runner" "sess_20260101_AB"
      (unfold is_label_char is_alnum nat_eq in refl) (unfold is_alnum in refl)
      (unfold is_id_char is_label_char is_alnum nat_eq in refl)
