-- ===== src/PrPolicy.antt =====
-- The repository's pull-request policy, src/baton_harness/pr_policy.py. The two regular expressions
-- run in Python's re: their matches, str.casefold and the texts of numbers are `Patterns`.
-- A raised PolicyRuntimeError is `inl` of its message.
use baton_harness.Base.{
  ℕ, String, ◌⊎◌, inl, inr, Bool, true, false, not, ◌&&◌, ◌||◌, Option, none, some, List, [], ◌∷◌,
  ◌++◌, map, if◌then◌else◌, string_eq, nat_eq, ◌==◌, insert, concat, contains, lookup,
}
use mathlib.Core.Option
use baton_harness.Json
use baton_harness.Json.{Json, Fields, get}
pub mod Verdict

-- One match of CLOSING_PATTERN: the groups `repository` and `issue`.

pub record ClosingMatch : Type 0 where
  pub repository : Option String
  pub issue : String

pub record Patterns : Type 0 where
  -- BRANCH_PATTERN.fullmatch(head_ref), with the group `issue`
  pub branch_match : String → Option String
  -- CLOSING_PATTERN.finditer(body)
  pub closing_matches : String → List ClosingMatch
  pub casefold : String → String
  pub int_of : String → ℕ
  pub str_of : ℕ → String

pub record PullRequestEvent : Type 0 where
  head_ref : String
  body : String
  pub repository : String

unfoldable pub parse_branch_issue : Patterns → String → Option ℕ
parse_branch_issue re head_ref = Option.map re.int_of (re.branch_match head_ref)

-- A qualified match of another repository is passed over.
abbrev pub is_foreign : Patterns → String → Option String → Bool
is_foreign re repository none = false
is_foreign re repository (some qualified) =
    not (qualified == "") && not (re.casefold qualified == re.casefold repository)

abbrev pub closing_loop : Patterns → String → List ClosingMatch → List ℕ → List ℕ
closing_loop re repository [] numbers = numbers
closing_loop re repository (m ∷ ms) numbers =
    let number = re.int_of m.issue in
    let passed = closing_loop re repository ms numbers in
    let taken = closing_loop re repository ms (numbers ++ number ∷ []) in
    if is_foreign re repository m.repository || contains numbers number then passed else taken

unfoldable pub parse_closing_issues : Patterns → String → String → List ℕ
parse_closing_issues re body repository = closing_loop re repository (re.closing_matches body) []

-- The errors of the branch and of the closing directives
abbrev pub branch_errors : Patterns → String → Option ℕ → List String
branch_errors re head_ref none = concat ("invalid source branch: " ∷ head_ref ∷ []) ∷ []
branch_errors re head_ref (some n) = []

abbrev pub closing_errors : Patterns → Option ℕ → List ℕ → List String
closing_errors re branch_issue [] = "PR body has no closing directive for this repository" ∷ []
closing_errors re none (n ∷ ns) = []
closing_errors re (some issue) (n ∷ ns) =
    if contains (n ∷ ns) issue
    then []
    else concat ("branch issue #" ∷ re.str_of issue ∷ " is not closed by the PR body" ∷ []) ∷ []

abbrev pub milestone_error : Patterns → ℕ → Option Bool → List String
milestone_error re n none =
    concat ("unable to verify milestone for closing issue #" ∷ re.str_of n ∷ []) ∷ []
milestone_error re n (some false) =
    concat ("closing issue #" ∷ re.str_of n ∷ " has no milestone" ∷ []) ∷ []
milestone_error re n (some true) = []

abbrev pub milestone_errors : Patterns → List (ℕ × Bool) → List ℕ → List String
milestone_errors re known [] = []
milestone_errors re known (n ∷ ns) =
    milestone_error re n (lookup known n) ++ milestone_errors re known ns

unfoldable pub evaluate_pr_policy :
    Patterns → String → String → String → List (ℕ × Bool) → List String
evaluate_pr_policy re head_ref body repository issue_has_milestone =
    let branch_issue = parse_branch_issue re head_ref in
    let closing_issues = parse_closing_issues re body repository in
    branch_errors re head_ref branch_issue
    ++ closing_errors re branch_issue closing_issues
    ++ milestone_errors re issue_has_milestone closing_issues

-- isinstance(value, dict), with the dict
abbrev pub as_dict : Option Json → Option Fields
as_dict (some (Json.obj fields)) = some fields
as_dict _ = none

abbrev pub as_str : Option Json → Option String
as_str (some (Json.str s)) = some s
as_str _ = none

-- The response of the issue's metadata: `none` where the request, its decoding or its parsing raised
unfoldable pub request_json : Option Json → String ⊎ Fields
request_json none = inl "GitHub issue metadata request failed"
request_json (some (Json.obj fields)) = inr fields
request_json (some _) = inl "GitHub issue metadata was not a JSON object"

abbrev pub milestone_of : Option Json → String ⊎ Bool
milestone_of none = inl "GitHub issue metadata is missing milestone"
milestone_of (some Json.null) = inr false
milestone_of (some (Json.obj fields)) = inr true
milestone_of (some _) = inl "GitHub issue metadata has invalid milestone"

unfoldable pub fetch_issue_has_milestone : (ℕ → Option Json) → ℕ → String ⊎ Bool
fetch_issue_has_milestone respond issue_number = elim (request_json (respond issue_number)) [
  | inl message ↦ inl message
  | inr metadata ↦ milestone_of (get "milestone" metadata)
]

-- What the event's file holds: a document, text that does not decode, or an OSError or a
-- JSONDecodeError with its message
pub data EventFile : Type 0 where
  document : Json → EventFile
  undecodable : EventFile
  unreadable : String → EventFile

-- The body is a text, null or absent.
abbrev pub body_text : Option Json → Option String
body_text none = some ""
body_text (some Json.null) = some ""
body_text (some (Json.str s)) = some s
body_text (some _) = none

abbrev pub event_fields : Option String → Option String → String → String ⊎ PullRequestEvent
event_fields (some ref) (some text) full_name =
    inr (record { head_ref = ref; body = text; repository = full_name })
event_fields _ _ full_name = inl "GitHub event has invalid PR fields"

abbrev pub event_metadata : Option Fields → Option String → Option Json → String ⊎ PullRequestEvent
event_metadata (some head) (some full_name) body =
    event_fields (as_str (get "ref" head)) (body_text body) full_name
event_metadata _ _ body = inl "GitHub event has invalid PR metadata"

abbrev pub event_parts : Option Fields → Option Fields → String ⊎ PullRequestEvent
event_parts (some repository) (some pull_request) =
    event_metadata (as_dict (get "head" pull_request)) (as_str (get "full_name" repository))
      (get "body" pull_request)
event_parts _ _ = inl "GitHub event is missing PR metadata"

unfoldable pub load_pull_request_event : EventFile → String ⊎ PullRequestEvent
load_pull_request_event (document (Json.obj payload)) =
    event_parts (as_dict (get "repository" payload)) (as_dict (get "pull_request" payload))
load_pull_request_event (document _) = inl "GitHub event was not a JSON object"
load_pull_request_event undecodable = inl "GitHub event read failed"
load_pull_request_event (unreadable message) = inl message

abbrev pub record_milestone : ℕ → String ⊎ Bool → List (ℕ × Bool) → List (ℕ × Bool)
record_milestone n (inl message) known = known
record_milestone n (inr assigned) known = insert n assigned known

-- The milestones of the closing issues; one whose metadata cannot be read is left out.
abbrev pub fetch_milestones : (ℕ → Option Json) → List ℕ → List (ℕ × Bool) → List (ℕ × Bool)
fetch_milestones respond [] known = known
fetch_milestones respond (n ∷ ns) known =
    fetch_milestones respond ns (record_milestone n (fetch_issue_has_milestone respond n) known)

-- The lines that main prints and its exit code
abbrev pub report : List String → List String × ℕ
report [] = ([], 0)
report (error ∷ errors) = (map (λ e. concat ("PR policy: " ∷ e ∷ [])) (error ∷ errors), 1)

-- Whether an environment variable is set to more than the empty text
abbrev pub is_given : Option String → Bool
is_given none = false
is_given (some s) = not (s == "")

abbrev pub judge :
    Patterns
    → String
    → (String → String → ℕ → Option Json)
    → String ⊎ PullRequestEvent
    → List String × ℕ
judge re token respond (inl message) = (concat ("PR policy: " ∷ message ∷ []) ∷ [], 1)
judge re token respond (inr event) =
    let closing_issues = parse_closing_issues re event.body event.repository in
    let milestones = fetch_milestones (respond event.repository token) closing_issues [] in
    report (evaluate_pr_policy re event.head_ref event.body event.repository milestones)

-- `read` gives the file at a path, `respond` GitHub's answer for a repository, a token and an issue.
unfoldable pub main :
    Patterns
    → Option String
    → Option String
    → (String → EventFile)
    → (String → String → ℕ → Option Json)
    → List String × ℕ
main re (some event_path) (some token) read respond =
    if is_given (some event_path) && is_given (some token)
    then judge re token respond (load_pull_request_event (read event_path))
    else ("PR policy: required GitHub environment is missing" ∷ [], 1)
main re _ _ read respond = ("PR policy: required GitHub environment is missing" ∷ [], 1)
