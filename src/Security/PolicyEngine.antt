-- ===== src/Security/PolicyEngine.antt =====
-- security/policy_engine.py: the local decision on a tool call. The parsed policy file is taken in
-- the shape that it documents: lists of text, and a missing or null entry as an empty one.
pub mod Laws
mod Tests
use mathlib.Core.List
use mimi_agent.Base.{
  String, ◌<>◌, Bool, true, false, not, ◌&&◌, ◌||◌, Option, none, some, List, any, contains, ◌==◌,
  string_eq, option_eq, if◌then◌else◌,
}
use mimi_agent.Base.Dict.{Dict, lookup}
use mimi_agent.Str.{is_nonempty}
use mimi_agent.Security.Fnmatch.{fnmatch}
use mimi_agent.Security.PathPolicy.{is_path_allowed}

pub record PolicyDecision : Type 0 where
  pub decision : String
  pub reason : String
  pub policy_version : String

-- The property `allowed`.
unfoldable pub allowed : PolicyDecision → Bool
allowed d = d.decision == "allow"

abbrev pub decided : String → String → PolicyDecision
decided decision reason = record { decision = decision; reason = reason; policy_version = "1" }

pub record RolePolicy : Type 0 where
  pub allow : List String
  pub deny : List String

pub record RepoPolicy : Type 0 where
  pub repo : Option String
  pub allowed_paths : List String
  pub denied_paths : List String

pub record Policy : Type 0 where
  pub role_tool_policy : Dict String RolePolicy
  pub document_repositories : Dict String RepoPolicy

-- The arguments of a tool call that the engine reads.
pub record Arguments : Type 0 where
  pub repo : Option String
  pub path : Option String

unfoldable pub find_repo_policy : String → Dict String RepoPolicy → Option RepoPolicy
find_repo_policy repo List.[] = none
find_repo_policy repo (List.◌∷◌ (name, policy) rest) =
    if policy.repo == some repo then some policy else find_repo_policy repo rest

-- The document tools, whose path is looked at too.
unfoldable pub writes_documents : String → Bool
writes_documents tool_name =
    tool_name == "document.write_markdown" || tool_name == "document.commit_and_push_markdown_repo"

decide_repo : Option RepoPolicy → String → String → PolicyDecision
decide_repo none repo path = decided "block" ("unknown document repository: " <> repo)
decide_repo (some policy) repo path =
    let decision = is_path_allowed path policy.allowed_paths policy.denied_paths in
    if not decision.allowed then decided "block" decision.reason else decided "allow" "allowed"

decide_document : Policy → Option String → Option String → PolicyDecision
decide_document policy (some repo) (some path) =
    if is_nonempty repo && is_nonempty path
    then decide_repo (find_repo_policy repo policy.document_repositories) repo path
    else decided "allow" "allowed"
decide_document policy _ _ = decided "allow" "allowed"

decide_allow : Policy → RolePolicy → String → String → Arguments → PolicyDecision
decide_allow policy role_policy role tool_name arguments =
    if not (any (fnmatch tool_name) role_policy.allow)
    then decided "block" ("tool not allowed for role " <> (role <> (": " <> tool_name)))
    else if writes_documents tool_name
    then decide_document policy arguments.repo arguments.path
    else decided "allow" "allowed"

-- The loop over the denied patterns, and what follows it.
decide_deny : List String → Policy → RolePolicy → String → String → Arguments → PolicyDecision
decide_deny List.[] policy role_policy role tool_name arguments =
    decide_allow policy role_policy role tool_name arguments
decide_deny (List.◌∷◌ pattern patterns) policy role_policy role tool_name arguments =
    if fnmatch tool_name pattern
    then decided "block" ("tool denied for role " <> (role <> (": " <> pattern)))
    else decide_deny patterns policy role_policy role tool_name arguments

decide_role : Option RolePolicy → Policy → String → String → Arguments → PolicyDecision
decide_role none policy role tool_name arguments =
    decided "block" ("unknown role or missing role_tool_policy: " <> role)
decide_role (some role_policy) policy role tool_name arguments =
    decide_deny role_policy.deny policy role_policy role tool_name arguments

unfoldable pub decide_tool_call : Policy → String → String → Arguments → PolicyDecision
unfolding decide_role decide_deny decide_allow decide_document decide_repo
decide_tool_call policy role tool_name arguments =
    decide_role (lookup role policy.role_tool_policy) policy role tool_name arguments
