-- ===== src/Tests/Gate.antt =====
-- The CI gate and the merge on concrete jobs.
use baton_harness.Base.{
  ℕ, zero, suc, ◌+◌, ◌*◌, ◌<◌, String, ◌≡◌, refl, ◌≢◌, ◌↔◌, ◌⊎◌, inr, Bool, true, not, Option, none,
  some, List, [], ◌∷◌, arith, string_eq, nat_eq, ◌==◌, All, insert,
}
use baton_harness.CiGate.{
  job_by_name, classify_check_runs, fresh_diagnostic, evaluate_ci, Job, Poll, CiOutcome, green, red,
  verdict,
}
use baton_harness.CiGate.Verdict.{
  classify_check_runs-green, classify_check_runs-red, absent_hides_failure, Passed, FirstFailure,
}
use baton_harness.CiGate.Polling.{Explains, IsOpen, evaluate_ci-Explains, evaluate_ci-ends}
use baton_harness.CiGate.Diagnosis.{}
use baton_harness.Merge.{
  merge_issue_branch, merge_loop, Command, Remote, Gate, State, Request, merged, merge_conflict,
  merge_no_ff, returned,
}
use baton_harness.Merge.Commands.{GreenRun, GreenAt, merge_issue_branch-GreenRun}
use baton_harness.Merge.Batch.{attempt, attempted, merge_loop-stops}

abbrev job : String → String → Option String → Job
job name status conclusion = record { name = name; status = status; conclusion = conclusion }

abbrev lint_passed : Job
lint_passed = job "Lint" "completed" (some "success")

abbrev test_failed : Job
test_failed = job "Test" "completed" (some "failure")

abbrev required_checks : List String
required_checks = "Lint" ∷ "Test" ∷ []

classify_check_runs-green_example :
    (classify_check_runs (lint_passed ∷ []) ("Lint" ∷ []) ≡ some green)
    ↔ All (Passed (lint_passed ∷ [])) ("Lint" ∷ [])
classify_check_runs-green_example = classify_check_runs-green (lint_passed ∷ []) ("Lint" ∷ [])

classify_check_runs-red_example :
    (classify_check_runs (lint_passed ∷ test_failed ∷ []) required_checks ≡ some red)
    ↔ FirstFailure (lint_passed ∷ test_failed ∷ []) required_checks
classify_check_runs-red_example =
    classify_check_runs-red (lint_passed ∷ test_failed ∷ []) required_checks

absent_hides_failure_example : classify_check_runs (test_failed ∷ []) ("Lint" ∷ "Test" ∷ []) ≡ none
unfolding job_by_name
absent_hides_failure_example =
    absent_hides_failure (test_failed ∷ []) [] "Lint" [] "Test" [] tt refl
      (record { job = test_failed; found = refl; failing = refl })

-- The first poll sees no job, the second a green one; the deadline is far.
abbrev polls_green : ℕ → Poll
polls_green zero = record { runs = some []; now = 1; now_again = 1 }
polls_green (suc k) = record { runs = some (lint_passed ∷ []); now = 2; now_again = 2 }

green_run :
    evaluate_ci ("Lint" ∷ []) 0 100 true polls_green 5 fresh_diagnostic
    ≡ some (verdict green fresh_diagnostic)
unfolding evaluate_ci classify_check_runs job_by_name
green_run = refl

evaluate_ci-Explains_example :
    (k : ℕ) × (k < 5)
    × Explains ("Lint" ∷ []) (0 + 100) true (polls_green k) (verdict green fresh_diagnostic)
    × ((j : ℕ) → j < k → IsOpen ("Lint" ∷ []) (0 + 100) true (polls_green j))
evaluate_ci-Explains_example =
    evaluate_ci-Explains ("Lint" ∷ []) 0 100 true polls_green 5 fresh_diagnostic
      (verdict green fresh_diagnostic) green_run

-- No job is ever seen, and the clock runs on.
abbrev polls_nothing : ℕ → Poll
polls_nothing k = record { runs = some []; now = k * 30; now_again = k * 30 }

evaluate_ci-ends_example :
    (o : CiOutcome) × (evaluate_ci ("Lint" ∷ []) 0 100 true polls_nothing 5 fresh_diagnostic
      ≡ some o)
evaluate_ci-ends_example =
    evaluate_ci-ends ("Lint" ∷ []) 0 100 true polls_nothing 4 fresh_diagnostic (omega arith)

-- A remote on which every command but the merge of "bad" succeeds and CI is green at once; its state
-- counts the commands.
abbrev run_counting : Command → ℕ → ℕ × Bool
run_counting (merge_no_ff message branch) w = (suc w, not (branch == "bad"))
run_counting _ w = (suc w, true)

abbrev remote : Remote ℕ
remote = record {
  run = run_counting;
  polls = λ sha w k. polls_green (suc k);
  polled = λ sha w. w;
  now = λ w. 0;
  merge_message = λ issue issue_branch feature_branch. issue_branch;
  marker = λ issue sha. sha;
}

abbrev gate : Gate
gate = record { required = "Lint" ∷ []; limit = 100; sleeps = true; rounds = 5 }

abbrev request : ℕ → String → Request
request issue branch = record { issue = issue; pr_head_sha = "abc"; issue_branch = branch }

abbrev start : State ℕ
start = record { world = 0; issued = [] }

merge_issue_branch-GreenRun_example :
    (commands : List Command) × ((merge_issue_branch remote gate
        (request 7 "good")
        "feature/x"
        fresh_diagnostic
        start).0.issued
      ≡ commands)
    × (((commands ≡ [])
          × ((merge_issue_branch remote gate
                (request 7 "good")
                "feature/x"
                fresh_diagnostic
                start).1
              ≢ returned merged))
        ⊎ ((text.Mathlib.Text.starts_with "feature/x" "feature/" ≡ true)
            × GreenAt remote (request 7 "good") "feature/x" gate start
            × GreenRun remote
                (request 7 "good")
                "feature/x"
                commands
                (merge_issue_branch remote gate
                  (request 7 "good")
                  "feature/x"
                  fresh_diagnostic
                  start).1))
merge_issue_branch-GreenRun_example =
    merge_issue_branch-GreenRun remote (request 7 "good") "feature/x" gate fresh_diagnostic start

first_merges : (attempt remote gate "feature/x" (request 7 "good") start).1 ≡ returned merged
unfolding merge_issue_branch evaluate_ci classify_check_runs job_by_name
first_merges = refl

second_conflicts :
    (attempt remote gate "feature/x"
      (request 8 "bad")
      (attempted remote gate "feature/x" (request 7 "good" ∷ []) start)).1
    ≡ returned merge_conflict
unfolding merge_issue_branch evaluate_ci classify_check_runs job_by_name
second_conflicts = refl

merge_loop-stops_example :
    merge_loop remote gate "feature/x"
      (request 7 "good" ∷ request 8 "bad" ∷ request 9 "good" ∷ [])
      start
      []
    ≡ (
      (attempt remote gate "feature/x"
          (request 8 "bad")
          (attempted remote gate "feature/x" (request 7 "good" ∷ []) start)).0,
      inr (insert 8 merge_conflict ((7, merged) ∷ [])),
    )
merge_loop-stops_example =
    merge_loop-stops remote gate "feature/x" (request 7 "good" ∷ []) (request 9 "good" ∷ [])
      (request 8 "bad") start merge_conflict (first_merges, tt) second_conflicts (λ e. ground arith)
