-- ===== src/Security/PolicyEngine/Tests.antt =====
-- Runs of the policy engine, and its theorem at a concrete policy.
use mathlib.Core.List.{[], ◌∷◌}
use mimi_agent.Base.{◌≡◌, refl, some, string_eq, nat_eq, option_eq}
use mimi_agent.Base.Dict.{lookup}
use mimi_agent.Security.Fnmatch.{fnmatch}
use mimi_agent.Security.PolicyEngine.{
  Policy, RolePolicy, RepoPolicy, Arguments, allowed, writes_documents, find_repo_policy,
  decide_tool_call,
}
use mimi_agent.Security.PolicyEngine.Laws.{permitted, allowed-decide_tool_call}

abbrev notes : RepoPolicy
notes = record { repo = some "notes"; allowed_paths = "daily/**" ∷ []; denied_paths = [] }

abbrev writer : RolePolicy
writer = record { allow = "document.*" ∷ []; deny = "shell.*" ∷ [] }

abbrev policy : Policy
policy = record {
  role_tool_policy = ("writer", writer) ∷ [];
  document_repositories = ("a", notes) ∷ [];
}

abbrev daily : Arguments
daily = record { repo = some "notes"; path = some "daily/x.md" }

unknown_repo_run :
    (decide_tool_call policy "writer" "document.write_markdown"
      (record { repo = some "other"; path = some "daily/x.md" })).reason
    ≡ "unknown document repository: other"
unfolding decide_tool_call find_repo_policy writes_documents fnmatch lookup string_eq nat_eq
    option_eq
unknown_repo_run = refl

denied_tool_run :
    (decide_tool_call policy "writer" "shell.exec" daily).reason
    ≡ "tool denied for role writer: shell.*"
unfolding decide_tool_call fnmatch lookup string_eq nat_eq
denied_tool_run = refl

allowed-decide_tool_call_example :
    allowed (decide_tool_call policy "writer" "document.write_markdown" daily)
    ≡ permitted policy (lookup "writer" policy.role_tool_policy) "document.write_markdown" daily
allowed-decide_tool_call_example =
    allowed-decide_tool_call policy "writer" "document.write_markdown" daily
