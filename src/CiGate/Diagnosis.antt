-- ===== src/CiGate/Diagnosis.antt =====
-- The diagnostic of a CI verdict, src/baton_harness/chain/merge.py, and its classifier.
use baton_harness.Base.{
  ℕ, String, ◌≡◌, refl, sym, ◌≢◌, inl, inr, true, false, Option, none, some, List, [], ◌∷◌, arith,
  eq_iff, Bool-cases, ◌==◌, nat_eq, string_eq, filter, contains, ◌∈◌,
}
use baton_harness.CiGate.{
  fail_conclusions, job_by_name, or_empty, has_failed, state_of, counts_as_failed, observed_states,
  build_ci_diagnostic, is_empty, classifier, Job, ObservedState, absent_from_final, seen,
  check_failed,
}

failed-timeout :
    (states : List (String × ObservedState))
    → filter (λ entry. counts_as_failed false entry.1) states ≡ []
failed-timeout [] = refl
failed-timeout ((name, absent_from_final) ∷ states) = failed-timeout states
failed-timeout ((name, seen status conclusion) ∷ states) = failed-timeout states

counts_seen :
    (status : String) (conclusion : Option String)
    → status == "completed" ≡ true
    → contains fail_conclusions (or_empty conclusion) ≡ true
    → counts_as_failed true (seen status (elim conclusion [ none ↦ "--" | some c ↦ c ])) ≡ true
counts_seen status none c b = absurd (ground arith)
counts_seen status (some s) c b = ground (arith, c, b)

counts_state_of :
    (job : Job)
    → job.status == "completed" ≡ true
    → has_failed job ≡ true
    → counts_as_failed true (state_of (some job)) ≡ true
counts_state_of job c b = counts_seen job.status job.conclusion c b

failed-red :
    (observed : List String)
    → (runs : List Job) → (required : List String) → (check : String) → (job : Job)
    → check ∈ required
    → check ∈ observed
    → job_by_name runs check ≡ some job
    → job.status == "completed" ≡ true
    → has_failed job ≡ true
    → is_empty
        (filter (λ entry. counts_as_failed true entry.1) (observed_states observed runs required))
      ≡ false
unfolding observed_states is_empty
failed-red observed runs [] check job m o f c b = absurd (ground arith)
failed-red observed runs (name ∷ required) check job m o f c b =
    let rest = failed-red observed runs required check job in
    elim (Bool-cases (check == name)) [
      | inl e ↦
          let q = (eq_iff check name).0 e in ground (arith, q, sym q, f, counts_state_of job c b)
      | inr n ↦ elim (Bool-cases (contains observed name)) [
        | inl y ↦ elim (Bool-cases (counts_as_failed true (state_of (job_by_name runs name)))) [
          | inl t ↦ ground (arith, t, y)
          | inr u ↦ ground (arith, u, y, rest)
        ]
        | inr x ↦ ground (arith, x, rest)
      ]
    ]

-- The diagnostic of a TIMEOUT never says that a required check failed.
pub classifier-timeout :
    (required ever_observed : List String) (runs : List Job) (polls elapsed_s : ℕ)
    → classifier (build_ci_diagnostic required ever_observed runs polls elapsed_s false)
      ≢ check_failed
unfolding classifier build_ci_diagnostic is_empty
classifier-timeout required ever_observed runs polls elapsed_s =
    ground (arith, failed-timeout (observed_states ever_observed runs required))

-- The diagnostic of a RED says that a required check failed whenever one was observed whose last job is
-- completed with a failing conclusion.
pub classifier-red :
    (required ever_observed : List String) (runs : List Job) (polls elapsed_s : ℕ) (check : String)
    (job : Job)
    → check ∈ required
    → check ∈ ever_observed
    → job_by_name runs check ≡ some job
    → job.status == "completed" ≡ true
    → has_failed job ≡ true
    → classifier (build_ci_diagnostic required ever_observed runs polls elapsed_s true)
      ≡ check_failed
unfolding classifier build_ci_diagnostic is_empty
classifier-red required ever_observed runs polls elapsed_s check job m o f c b =
    ground (arith, failed-red ever_observed runs required check job m o f c b)
