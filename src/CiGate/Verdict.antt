-- ===== src/CiGate/Verdict.antt =====
-- The green predicate of src/baton_harness/chain/merge.py over one snapshot of the jobs.
use baton_harness.Base.{
  String, ◌≡◌, refl, sym, ap, ◌∙◌, ◌↔◌, ◌⊎◌, inl, inr, true, false, none, some, List, [], ◌∷◌, ◌++◌,
  arith, eq_iff, Bool-cases, Option-cases, ◌==◌, nat_eq, string_eq, All, contains,
}
use baton_harness.CiGate.{
  pass_conclusions, fail_conclusions, job_by_name, or_empty, has_failed, has_passed,
  classify_check_runs, Job, green, red,
}

-- A passing conclusion is no failing one.
pass_not_fail :
    (s : String) → contains pass_conclusions s ≡ true → contains fail_conclusions s ≡ false
pass_not_fail s h = elim (Bool-cases (s == "success")) [
  | inl e ↦ rw ((eq_iff s "success").0 e)
  | inr n ↦ elim (Bool-cases (s == "neutral")) [
    | inl e ↦ rw ((eq_iff s "neutral").0 e)
    | inr m ↦ rw ((eq_iff s "skipped").0 (ground arith))
  ]
]

-- The last job of this name is completed with a passing conclusion.
pub record Passed (runs : List Job) (check : String) : Type 0 where
  pub job : Job
  pub found : job_by_name runs check ≡ some job
  pub passing : has_passed job ≡ true

-- The last job of this name has a failing conclusion.
pub record Failed (runs : List Job) (check : String) : Type 0 where
  pub job : Job
  pub found : job_by_name runs check ≡ some job
  pub failing : has_failed job ≡ true

passed_not_failed : (job : Job) → has_passed job ≡ true → has_failed job ≡ false
passed_not_failed job h = ground (arith, pass_not_fail (or_empty job.conclusion))

classify-cons-Passed :
    (runs : List Job) (check : String) (required : List String)
    → Passed runs check
    → classify_check_runs runs (check ∷ required) ≡ classify_check_runs runs required
unfolding classify_check_runs
classify-cons-Passed runs check required p =
    ground (arith, p.found, passed_not_failed p.job p.passing, p.passing)

-- The verdict turns on the first required check that has not passed.
classify-cons :
    (runs : List Job) (check : String) (required : List String)
    → Passed runs check
      ⊎ (Failed runs check × (classify_check_runs runs (check ∷ required) ≡ some red))
      ⊎ (classify_check_runs runs (check ∷ required) ≡ none)
unfolding classify_check_runs
classify-cons runs check required = elim (Option-cases (job_by_name runs check)) [
  | inl missing ↦ inr (inr (ground arith))
  | inr (job, found) ↦ elim (Bool-cases (has_failed job)) [
    | inl bad ↦ inr (inl (record { job = job; found = found; failing = bad }, ground arith))
    | inr ok ↦ elim (Bool-cases (has_passed job)) [
      | inl good ↦ inl (record { job = job; found = found; passing = good })
      | inr waiting ↦ inr (inr (ground arith))
    ]
  ]
]

green_sound :
    (runs : List Job) (required : List String)
    → classify_check_runs runs required ≡ some green
    → All (Passed runs) required
green_sound runs [] h = tt
green_sound runs (check ∷ required) h = elim (classify-cons runs check required) [
  | inl p ↦ (p, green_sound runs required (sym (classify-cons-Passed runs check required p) ∙ h))
  | inr (inl (f, e)) ↦ cc
  | inr (inr e) ↦ cc
]

green_complete :
    (runs : List Job) (required : List String)
    → All (Passed runs) required
    → classify_check_runs runs required ≡ some green
unfolding classify_check_runs
green_complete runs [] h = refl
green_complete runs (check ∷ required) h =
    classify-cons-Passed runs check required h.0 ∙ green_complete runs required h.1

-- The verdict is green exactly if every required check's last job is completed with a passing
-- conclusion.
pub classify_check_runs-green :
    (runs : List Job) (required : List String)
    → (classify_check_runs runs required ≡ some green) ↔ All (Passed runs) required
classify_check_runs-green runs required = (green_sound runs required, green_complete runs required)

-- The first required check that has not passed, and those before it.
pub record FirstFailure (runs : List Job) (required : List String) : Type 0 where
  pub before : List String
  pub check : String
  pub after : List String
  pub split : required ≡ before ++ check ∷ after
  pub passed : All (Passed runs) before
  pub failed : Failed runs check

red_sound :
    (runs : List Job) (required : List String)
    → classify_check_runs runs required ≡ some red
    → FirstFailure runs required
unfolding classify_check_runs
red_sound runs [] h = cc
red_sound runs (check ∷ required) h = elim (classify-cons runs check required) [
  | inl p ↦
      let f = red_sound runs required (sym (classify-cons-Passed runs check required p) ∙ h) in
      record {
        before = check ∷ f.before;
        check = f.check;
        after = f.after;
        split = ap (λ (l : List String). check ∷ l) f.split;
        passed = (p, f.passed);
        failed = f.failed;
      }
  | inr (inl (f, e)) ↦ record {
    before = [];
    check = check;
    after = required;
    split = refl;
    passed = tt;
    failed = f;
  }
  | inr (inr e) ↦ cc
]

red_complete :
    (runs : List Job) (before : List String) (check : String) (after : List String)
    → All (Passed runs) before
    → Failed runs check
    → classify_check_runs runs (before ++ check ∷ after) ≡ some red
unfolding classify_check_runs
red_complete runs [] check after p f = ground (arith, f.found, f.failing)
red_complete runs (b ∷ before) check after p f =
    classify-cons-Passed runs b (before ++ check ∷ after) p.0
    ∙ red_complete runs before check after p.1 f

-- The verdict is red exactly if some required check's last job has a failing conclusion and all
-- required checks listed before it have passed.
pub classify_check_runs-red :
    (runs : List Job) (required : List String)
    → (classify_check_runs runs required ≡ some red) ↔ FirstFailure runs required
classify_check_runs-red runs required = (
  red_sound runs required,
  λ f. rw f.split (red_complete runs f.before f.check f.after f.passed f.failed),
)

-- A required check that has failed gives no verdict while one listed before it has no job yet.
pub absent_hides_failure :
    (runs : List Job) (before : List String) (missing : String) (between : List String)
    (check : String) (after : List String)
    → All (Passed runs) before
    → job_by_name runs missing ≡ none
    → Failed runs check
    → classify_check_runs runs (before ++ missing ∷ (between ++ check ∷ after)) ≡ none
unfolding classify_check_runs
absent_hides_failure runs [] missing between check after p e f = ground arith
absent_hides_failure runs (b ∷ before) missing between check after p e f =
    classify-cons-Passed runs b _ p.0
    ∙ absent_hides_failure runs before missing between check after p.1 e f
