-- ===== src/PrPolicy/Verdict.antt =====
-- When `evaluate_pr_policy` and `main` of src/baton_harness/pr_policy.py let a pull request pass.
use mathlib.Core.Path.{subst}
use baton_harness.Base.{
  ℕ, String, ◌≡◌, refl, ◌↔◌, ◌⊎◌, inl, inr, Bool, true, false, Option, none, some, List, [], ◌∷◌,
  ◌++◌, arith, if◌then◌else◌, nat_beq_iff, Bool-cases, string_eq, nat_eq, ◌==◌, ==_refl, All,
  lookup-insert, contains, ◌∈◌, lookup,
}
use baton_harness.Json.{Json}
use baton_harness.PrPolicy.{
  parse_branch_issue, parse_closing_issues, branch_errors, closing_errors, milestone_error,
  milestone_errors, evaluate_pr_policy, fetch_issue_has_milestone, load_pull_request_event,
  record_milestone, fetch_milestones, report, is_given, judge, main, Patterns, PullRequestEvent,
  EventFile,
}

append-nil {ℓ} : {A : Type ℓ} (xs ys : List A) → (xs ++ ys ≡ []) → (xs ≡ []) × (ys ≡ [])
append-nil [] ys e = (refl, e)
append-nil (x ∷ xs) ys e = absurd (ground (arith, e))

branch_errors-nil :
    (re : Patterns) (head_ref : String) (o : Option ℕ)
    → branch_errors re head_ref o ≡ []
    → (issue : ℕ) × (o ≡ some issue)
branch_errors-nil re head_ref none e = absurd (ground (arith, e))
branch_errors-nil re head_ref (some n) e = (n, refl)

closing_errors-nil :
    (re : Patterns) (issue : ℕ) (ns : List ℕ)
    → (closing_errors re (some issue) ns ≡ []) ↔ (issue ∈ ns)
closing_errors-nil re issue [] = ground arith
closing_errors-nil re issue (n ∷ ns) = elim (Bool-cases (contains (n ∷ ns) issue)) [
  | inl inside ↦ (λ e. inside, λ h. ground (arith, inside))
  | inr outside ↦
      (λ e. absurd (ground (arith, outside, e)), λ h. absurd (ground (arith, outside, h)))
]

milestone_error-nil :
    (re : Patterns) (n : ℕ) (o : Option Bool) → (milestone_error re n o ≡ []) ↔ (o ≡ some true)
milestone_error-nil re n none = ground arith
milestone_error-nil re n (some false) = ground arith
milestone_error-nil re n (some true) = ground arith

milestone_errors-nil :
    (re : Patterns) (known : List (ℕ × Bool)) (ns : List ℕ)
    → (milestone_errors re known ns ≡ []) ↔ All (λ n. lookup known n ≡ some true) ns
milestone_errors-nil re known [] = (λ e. tt, λ h. refl)
milestone_errors-nil re known (n ∷ ns) =
    let here = milestone_error-nil re n (lookup known n) in
    let later = milestone_errors-nil re known ns in
    (
      λ e.
          let parts = append-nil (milestone_error re n (lookup known n)) _ e in
          (here.0 parts.0, later.0 parts.1),
      λ h. rw (here.1 h.0) (later.1 h.1),
    )

-- The pull request's branch names an issue that its body closes, and every issue that it closes in
-- the repository has a milestone.
Passes : Patterns → String → String → String → (ℕ → Type 0) → Type 0
Passes re head_ref body repository HasMilestone =
    ((issue : ℕ) × ((parse_branch_issue re head_ref ≡ some issue)
        × (issue ∈ parse_closing_issues re body repository)))
    × All HasMilestone (parse_closing_issues re body repository)

-- The policy reports no error exactly if the branch's name gives an issue, the issue is among those
-- the body closes in the repository, and each of those is known to have a milestone.
evaluate_pr_policy-nil :
    (re : Patterns) (head_ref body repository : String) (known : List (ℕ × Bool))
    → (evaluate_pr_policy re head_ref body repository known ≡ [])
      ↔ Passes re head_ref body repository (λ n. lookup known n ≡ some true)
unfolding evaluate_pr_policy Passes
evaluate_pr_policy-nil re head_ref body repository known =
    let branch = parse_branch_issue re head_ref in
    let closing = parse_closing_issues re body repository in
    (
      λ e.
          let outer =
            append-nil (branch_errors re head_ref branch ++ closing_errors re branch closing) _ e in
          let parts = append-nil (branch_errors re head_ref branch) _ outer.0 in
          let named = branch_errors-nil re head_ref branch parts.0 in
          (
            (
              named.0,
              (
                named.1,
                (closing_errors-nil re named.0 closing).0
                    (subst (λ o. closing_errors re o closing ≡ []) named.1 parts.1),
              ),
            ),
            (milestone_errors-nil re known closing).0 outer.1,
          ),
      λ h.
          rw (h.0.1.0, (closing_errors-nil re h.0.0 closing).1 h.0.1.1)
            ((milestone_errors-nil re known closing).1 h.1),
    )

-- What a fetched milestone leaves of an earlier entry
abbrev fetched : String ⊎ Bool → Option Bool → Option Bool
fetched (inl message) earlier = earlier
fetched (inr assigned) earlier = some assigned

lookup-record_milestone :
    (n j : ℕ) (answer : String ⊎ Bool) (known : List (ℕ × Bool))
    → lookup (record_milestone n answer known) j
      ≡ (if j == n then fetched answer (lookup known j) else lookup known j)
lookup-record_milestone n j (inl message) known = ground arith
lookup-record_milestone n j (inr assigned) known = ground (arith, lookup-insert n j assigned known)

fetched_twice :
    (answer : String ⊎ Bool) (o : Option Bool)
    → fetched answer (fetched answer o) ≡ fetched answer o
fetched_twice (inl message) o = refl
fetched_twice (inr assigned) o = refl

lookup-fetch_milestones :
    (respond : ℕ → Option Json) (ns : List ℕ) (known : List (ℕ × Bool)) (j : ℕ)
    → lookup (fetch_milestones respond ns known) j ≡ (
        if contains ns j
        then fetched (fetch_issue_has_milestone respond j) (lookup known j)
        else lookup known j)
lookup-fetch_milestones respond [] known j = refl
lookup-fetch_milestones respond (n ∷ ns) known j = ground (
  arith,
  lookup-fetch_milestones respond ns
      (record_milestone n (fetch_issue_has_milestone respond n) known) j,
  lookup-record_milestone n j (fetch_issue_has_milestone respond n) known,
  fetched_twice (fetch_issue_has_milestone respond n) (lookup known n),
  nat_beq_iff j n,
)

fetched-true : (answer : String ⊎ Bool) → (fetched answer none ≡ some true) ↔ (answer ≡ inr true)
fetched-true (inl message) = ground arith
fetched-true (inr assigned) = ground arith

known-true :
    (respond : ℕ → Option Json) (ns : List ℕ) (j : ℕ)
    → j ∈ ns
    → (lookup (fetch_milestones respond ns []) j ≡ some true)
      ↔ (fetch_issue_has_milestone respond j ≡ inr true)
known-true respond ns j h =
    rw (lookup-fetch_milestones respond ns [] j, h)
      (fetched-true (fetch_issue_has_milestone respond j))

All-among {ℓ} :
    (P Q : ℕ → Type ℓ) (ns : List ℕ) → ((n : ℕ) → n ∈ ns → P n → Q n) → All P ns → All Q ns
All-among P Q [] f h = tt
All-among P Q (n ∷ ns) f h = (
  f n (ground (arith, ==_refl n)) h.0,
  All-among P Q ns (λ m inside. f m (ground (arith, inside))) h.1,
)

report-zero : (errors : List String) → ((report errors).1 ≡ 0) ↔ (errors ≡ [])
report-zero [] = ground arith
report-zero (error ∷ errors) = (λ e. absurd (ground (arith, e)), λ e. absurd (ground (arith, e)))

All-known :
    (respond : ℕ → Option Json) (ns : List ℕ)
    → All (λ n. lookup (fetch_milestones respond ns []) n ≡ some true) ns
      ↔ All (λ n. fetch_issue_has_milestone respond n ≡ inr true) ns
All-known respond ns = (
  All-among _ _ ns (λ n inside. (known-true respond ns n inside).0),
  All-among _ _ ns (λ n inside. (known-true respond ns n inside).1),
)

-- The event is one of a pull request that passes, by GitHub's own answers.
pub IsAccepted :
    Patterns → String → (String → String → ℕ → Option Json) → String ⊎ PullRequestEvent → Type 0
IsAccepted re token respond (inl message) = ⊥
IsAccepted re token respond (inr event) =
    Passes re event.head_ref event.body event.repository
      (λ n. fetch_issue_has_milestone (respond event.repository token) n ≡ inr true)

judge-zero :
    (re : Patterns) (token : String) (respond : String → String → ℕ → Option Json)
    (loaded : String ⊎ PullRequestEvent)
    → ((judge re token respond loaded).1 ≡ 0) ↔ IsAccepted re token respond loaded
unfolding IsAccepted Passes
judge-zero re token respond (inl message) = (λ e. absurd (ground (arith, e)), λ h. absurd h)
judge-zero re token respond (inr event) =
    let closing = parse_closing_issues re event.body event.repository in
    let known = fetch_milestones (respond event.repository token) closing [] in
    let policy = evaluate_pr_policy-nil re event.head_ref event.body event.repository known in
    let fetched_all = All-known (respond event.repository token) closing in
    let errors = evaluate_pr_policy re event.head_ref event.body event.repository known in
    (
      λ e. let h = policy.0 ((report-zero errors).0 e) in (h.0, fetched_all.0 h.1),
      λ h. (report-zero errors).1 (policy.1 (h.0, fetched_all.1 h.1)),
    )

-- Where the path of the event's file and the token are given, `main` exits with 0 exactly if the
-- file holds a pull request's event and the pull request passes: its branch's name gives an issue,
-- its body closes that issue in the repository, and GitHub's answer for every issue that the body
-- closes there has a milestone. An answer that cannot be read is never taken for a milestone.
pub main-zero :
    (re : Patterns) (event_path token : String) (read : String → EventFile)
    (respond : String → String → ℕ → Option Json)
    → is_given (some event_path) ≡ true
    → is_given (some token) ≡ true
    → ((main re (some event_path) (some token) read respond).1 ≡ 0)
      ↔ IsAccepted re token respond (load_pull_request_event (read event_path))
unfolding main
main-zero re event_path token read respond path_given token_given =
    rw (path_given, token_given)
      (judge-zero re token respond (load_pull_request_event (read event_path)))
