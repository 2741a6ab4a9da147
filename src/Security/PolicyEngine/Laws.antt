-- ===== src/Security/PolicyEngine/Laws.antt =====
-- When the policy engine allows a tool call.
use mimi_agent.Base.{
  String, ◌≡◌, refl, ◌≢◌, Bool, true, false, not, ◌&&◌, ◌||◌, Option, none, some, List, any,
  string_eq, differ, arith,
}
use mimi_agent.Base.Dict.{lookup}
use mimi_agent.Str.{is_nonempty}
use mimi_agent.Security.Fnmatch.{fnmatch}
use mimi_agent.Security.PathPolicy.{is_path_allowed}
use mimi_agent.Security.PolicyEngine.{
  Policy, RolePolicy, RepoPolicy, Arguments, allowed, writes_documents, find_repo_policy,
  decide_repo, decide_document, decide_allow, decide_deny, decide_role, decide_tool_call,
}

pub block-ne-allow : ◌≢◌ {A = String} "block" "allow"
block-ne-allow = differ "block" "allow" refl

-- The path policy of a repository that the policy names.
abbrev pub repo_permits : Option RepoPolicy → String → Bool
repo_permits none path = false
repo_permits (some policy) path =
    (is_path_allowed path policy.allowed_paths policy.denied_paths).allowed

-- What is asked of a document tool: if it names both a repository and a path, the policy knows the
-- repository and its path policy allows the path.
abbrev pub document_permitted : Policy → Option String → Option String → Bool
document_permitted policy (some repo) (some path) =
    not (is_nonempty repo && is_nonempty path)
    || repo_permits (find_repo_policy repo policy.document_repositories) path
document_permitted policy _ _ = true

-- What is asked of a role whose policy is given.
abbrev pub role_permitted : Policy → RolePolicy → String → Arguments → Bool
role_permitted policy rp tool_name arguments =
    not (any (fnmatch tool_name) rp.deny)
    && any (fnmatch tool_name) rp.allow
    && (not (writes_documents tool_name) || document_permitted policy arguments.repo arguments.path)

abbrev pub permitted : Policy → Option RolePolicy → String → Arguments → Bool
permitted policy none tool_name arguments = false
permitted policy (some rp) tool_name arguments = role_permitted policy rp tool_name arguments

module _ (policy : Policy) where
  allowed-decide_repo :
      (found : Option RepoPolicy) (repo path : String)
      → allowed (decide_repo found repo path) ≡ repo_permits found path
  unfolding allowed decide_tool_call
  allowed-decide_repo none repo path = ground (arith, block-ne-allow)
  allowed-decide_repo (some p) repo path = ground (arith, block-ne-allow)

  allowed-decide_document :
      (repo path : Option String)
      → allowed (decide_document policy repo path) ≡ document_permitted policy repo path
  unfolding allowed decide_document
  allowed-decide_document (some r) (some p) =
      ground (arith, allowed-decide_repo (find_repo_policy r policy.document_repositories) r p)
  allowed-decide_document (some r) none = ground arith
  allowed-decide_document none path = ground arith

  allowed-decide_deny :
      (patterns : List String) (rp : RolePolicy) (role tool : String) (a : Arguments)
      → allowed (decide_deny patterns policy rp role tool a) ≡ (
          not (any (fnmatch tool) patterns)
          && any (fnmatch tool) rp.allow
          && (not (writes_documents tool) || document_permitted policy a.repo a.path))
  unfolding allowed decide_deny decide_allow
  allowed-decide_deny List.[] rp role tool a =
      ground (arith, block-ne-allow, allowed-decide_document a.repo a.path)
  allowed-decide_deny (List.◌∷◌ p ps) rp role tool a =
      ground (arith, block-ne-allow, allowed-decide_deny ps rp role tool a)

  allowed-decide_role :
      (found : Option RolePolicy) (role tool : String) (a : Arguments)
      → allowed (decide_role found policy role tool a) ≡ permitted policy found tool a
  unfolding decide_role allowed
  allowed-decide_role none role tool a = ground (arith, block-ne-allow)
  allowed-decide_role (some rp) role tool a = allowed-decide_deny rp.deny rp role tool a

  -- A call is allowed exactly when the role has a policy, none of its denied patterns matches the
  -- tool, one of its allowed patterns does, and, for a document tool that names both a repository
  -- and a path, the repository is known and its path policy allows the path.
  pub allowed-decide_tool_call :
      (role tool : String) (a : Arguments)
      → allowed (decide_tool_call policy role tool a)
        ≡ permitted policy (lookup role policy.role_tool_policy) tool a
  unfolding decide_tool_call
  allowed-decide_tool_call role tool a =
      allowed-decide_role (lookup role policy.role_tool_policy) role tool a
