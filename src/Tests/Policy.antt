-- ===== src/Tests/Policy.antt =====
-- A pull request's event and GitHub's answers for its issues, for the pull-request policy.
use baton_harness.Base.{
  ℕ, String, ◌≡◌, refl, ◌↔◌, Option, none, some, [], ◌∷◌, if◌then◌else◌, string_eq, nat_eq, ◌==◌,
}
use baton_harness.Json.{Json, Fields}
use baton_harness.PrPolicy.{
  parse_branch_issue, parse_closing_issues, evaluate_pr_policy, request_json,
  fetch_issue_has_milestone, load_pull_request_event, main, Patterns, document,
}
use baton_harness.PrPolicy.Verdict.{main-zero, IsAccepted}
use baton_harness.Tests.Numerals.{str_of}

abbrev patterns : Patterns
patterns = record {
  branch_match = λ head_ref. some "7";
  closing_matches = λ body.
      record { repository = none; issue = "7" }
      ∷ record { repository = some "o/other"; issue = "9" }
      ∷ record { repository = some "o/r"; issue = "8" }
      ∷ [];
  casefold = λ s. s;
  int_of = λ s. if s == "7" then 7 else if s == "8" then 8 else 9;
  str_of = str_of;
}

abbrev event : Json
event = Json.obj (
    Fields.field "repository" (Json.obj (Fields.field "full_name" (Json.str "o/r") Fields.end)) (
      Fields.field "pull_request"
        (Json.obj (
          Fields.field "head" (Json.obj (Fields.field "ref" (Json.str "bug/7-x") Fields.end))
            (Fields.field "body" (Json.str "closes #7, o/other#9, o/r#8") Fields.end)))
        Fields.end))

-- Only issue 7 has a milestone.
abbrev respond : String → String → ℕ → Option Json
respond repository token number = some (
    Json.obj (
      Fields.field "milestone" (if number == 7 then Json.obj Fields.end else Json.null) Fields.end))

closing_of_event : parse_closing_issues patterns "closes #7, o/other#9, o/r#8" "o/r" ≡ 7 ∷ 8 ∷ []
unfolding parse_closing_issues
closing_of_event = refl

refused : (main patterns (some "/event") (some "t") (λ path. document event) respond).1 ≡ 1
unfolding main load_pull_request_event evaluate_pr_policy parse_closing_issues parse_branch_issue
    fetch_issue_has_milestone request_json str_of
refused = refl

main-zero_example :
    ((main patterns (some "/event") (some "t") (λ path. document event) respond).1 ≡ 0)
    ↔ IsAccepted patterns "t" respond (load_pull_request_event (document event))
main-zero_example = main-zero patterns "/event" "t" (λ path. document event) respond refl refl
