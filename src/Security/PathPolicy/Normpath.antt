-- ===== src/Security/PathPolicy/Normpath.antt =====
-- `posixpath.normpath` of Python's standard library.
use mathlib.Core.List.{reverse}
use mimi_agent.Base.{
  ℕ, zero, suc, String, ◌<>◌, not, ◌&&◌, ◌||◌, List, ◌==◌, nat_eq, string_eq, if◌then◌else◌,
}
use mimi_agent.Str.{starts, split_on, join, is_nonempty}

-- One slash, or exactly two, at the head of the path are kept.
leading_slashes : String → ℕ
leading_slashes path =
    if starts path "/" then (if starts path "//" && not (starts path "///") then 2 else 1) else 0

-- One component, onto the stack of those kept so far, the last one first.
pub push_component : ℕ → String → List String → List String
push_component slashes comp List.[] =
    if comp == "" || comp == "."
    then List.[]
    else if not (comp == "..") || slashes == 0
    then List.◌∷◌ comp List.[]
    else List.[]
push_component slashes comp (List.◌∷◌ top stack) =
    if comp == "" || comp == "."
    then List.◌∷◌ top stack
    else if not (comp == "..") || top == ".."
    then List.◌∷◌ comp (List.◌∷◌ top stack)
    else stack

pub push_all : ℕ → List String → List String → List String
push_all slashes List.[] stack = stack
push_all slashes (List.◌∷◌ comp comps) stack =
    push_all slashes comps (push_component slashes comp stack)

slashes_text : ℕ → String
slashes_text zero = ""
slashes_text (suc n) = "/" <> slashes_text n

unfoldable pub normpath : String → String
unfolding leading_slashes push_component push_all slashes_text starts split_on join
normpath path =
    let slashes = leading_slashes path in
    let body = join "/" (reverse (push_all slashes (split_on b'/' path) List.[])) in
    let whole = slashes_text slashes <> body in
    if not (is_nonempty path) || not (is_nonempty whole) then "." else whole
