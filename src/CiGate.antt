-- ===== src/CiGate.antt =====
-- src/baton_harness/chain/merge.py, the CI gate: the verdict over one snapshot of the jobs, the
-- diagnostic, and the polling loop. Times are numbers of one unit of the monotonic clock.
pub mod Verdict
pub mod Polling
pub mod Diagnosis
use baton_harness.Base.{
  ℕ, zero, suc, ◌+◌, ◌-◌, String, Bool, true, false, not, ◌&&◌, Option, none, some, List, [], ◌∷◌,
  ◌++◌, leb, if◌then◌else◌, ◌==◌, nat_eq, string_eq, filter, contains,
}

pub data CiResult : Type 0 where
  green red timeout : CiResult

-- A job of the Actions API: its name, status and conclusion, texts as `str` renders them.
pub record Job : Type 0 where
  pub name : String
  pub status : String
  pub conclusion : Option String

-- _PASS_CONCLUSIONS
abbrev pub pass_conclusions : List String
pass_conclusions = "success" ∷ "neutral" ∷ "skipped" ∷ []

-- _FAIL_CONCLUSIONS
abbrev pub fail_conclusions : List String
fail_conclusions = "failure" ∷ "cancelled" ∷ "timed_out" ∷ "action_required" ∷ []

-- {name: job for job in runs}: the last job of a name counts.
unfoldable pub job_by_name : List Job → String → Option Job
job_by_name [] name = none
job_by_name (job ∷ runs) name = elim (job_by_name runs name) [
  | some later ↦ some later
  | none ↦ if name == job.name then some job else none
]

abbrev pub or_empty : Option String → String
or_empty none = ""
or_empty (some s) = s

abbrev pub has_failed : Job → Bool
has_failed job = contains fail_conclusions (or_empty job.conclusion)

abbrev pub has_passed : Job → Bool
has_passed job = job.status == "completed" && contains pass_conclusions (or_empty job.conclusion)

-- `_classify_check_runs`; `none` is its NOT-YET.
unfoldable pub classify_check_runs : List Job → (required : List String) → Option CiResult
classify_check_runs runs [] = some green
classify_check_runs runs (check ∷ required) =
    let rest = classify_check_runs runs required in
    elim (job_by_name runs check) [
      | none ↦ none
      | some job ↦ if has_failed job then some red else if not (has_passed job) then none else rest
    ]

-- The text of a required check in a diagnostic: gone by the last poll, or its status and conclusion.
pub data ObservedState : Type 0 where
  absent_from_final : ObservedState
  seen : (status conclusion : String) → ObservedState

pub record CiDiagnostic : Type 0 where
  pub required : List String
  pub never_observed : List String
  pub other_observed : List String
  pub states : List (String × ObservedState)
  pub failed : List (String × ObservedState)
  pub polls : ℕ
  pub elapsed_s : ℕ
  pub populated : Bool

unfoldable pub fresh_diagnostic : CiDiagnostic
fresh_diagnostic = record {
  required = [];
  never_observed = [];
  other_observed = [];
  states = [];
  failed = [];
  polls = 0;
  elapsed_s = 0;
  populated = false;
}

abbrev pub state_of : Option Job → ObservedState
state_of none = absent_from_final
state_of (some job) = seen job.status (elim job.conclusion [ none ↦ "--" | some c ↦ c ])

abbrev pub counts_as_failed : Bool → ObservedState → Bool
counts_as_failed is_red absent_from_final = false
counts_as_failed is_red (seen status conclusion) =
    is_red && status == "completed" && contains fail_conclusions conclusion

-- The loop over the required names that were observed.
unfoldable pub observed_states :
    (observed : List String) → List Job → List String → List (String × ObservedState)
observed_states observed last_runs [] = []
observed_states observed last_runs (name ∷ required) =
    let rest = observed_states observed last_runs required in
    if contains observed name then (name, state_of (job_by_name last_runs name)) ∷ rest else rest

unfoldable pub build_ci_diagnostic :
    (required ever_observed : List String)
    → (last_runs : List Job) → (polls elapsed_s : ℕ) → (is_red : Bool) → CiDiagnostic
unfolding observed_states
build_ci_diagnostic required ever_observed last_runs polls elapsed_s is_red =
    let states = observed_states ever_observed last_runs required in
    record {
      required = required;
      never_observed = filter (λ name. not (contains ever_observed name)) required;
      other_observed = filter (λ name. not (contains required name)) ever_observed;
      states = states;
      failed = filter (λ entry. counts_as_failed is_red entry.1) states;
      polls = polls;
      elapsed_s = elapsed_s;
      populated = true;
    }

pub data Classifier : Type 0 where
  unpopulated check_failed no_jobs never_appeared partially_missing never_completed : Classifier

-- self.never_observed == self.required
unfoldable pub same_names : List String → List String → Bool
same_names [] [] = true
same_names [] (y ∷ ys) = false
same_names (x ∷ xs) [] = false
same_names (x ∷ xs) (y ∷ ys) = x == y && same_names xs ys

unfoldable pub is_empty {ℓ} : {A : Type ℓ} → List A → Bool
is_empty [] = true
is_empty (x ∷ xs) = false

-- `CiDiagnostic.classifier`
unfoldable pub classifier : CiDiagnostic → Classifier
unfolding same_names is_empty
classifier d =
    if not d.populated
    then unpopulated
    else if not (is_empty d.failed)
    then check_failed
    else if same_names d.never_observed d.required
    then (if is_empty d.other_observed then no_jobs else never_appeared)
    else if not (is_empty d.never_observed)
    then partially_missing
    else never_completed

-- What one round of the loop sees: the jobs, or `none` where the query raises, and the clock when it
-- is read after the query, at a return of RED, and again where no interval is slept.
pub record Poll : Type 0 where
  pub runs : Option (List Job)
  pub now : ℕ
  pub now_again : ℕ

-- ever_observed[name] = None for every job: a dict keeps the order of first insertion.
unfoldable pub observe : List Job → List String → List String
observe [] seen_names = seen_names
observe (job ∷ runs) seen_names =
    observe runs (if contains seen_names job.name then seen_names else seen_names ++ job.name ∷ [])

pub data CiOutcome : Type 0 where
  raised : CiOutcome
  verdict : CiResult → CiDiagnostic → CiOutcome

module _ (required : List String) (start deadline : ℕ) (sleeps : Bool) (poll : ℕ → Poll)
    (diagnostic : CiDiagnostic) where
  -- One round of the `while True` loop of `evaluate_ci`: what it raises or returns, or `none` where it
  -- sleeps and polls again.
  unfoldable pub poll_round : Poll → (polls : ℕ) → List String → Option CiOutcome
  poll_round p polls ever_observed = elim p.runs [
    | none ↦ some raised
    | some runs ↦
        let diagnose = λ (now : ℕ) (is_red : Bool).
          build_ci_diagnostic required (observe runs ever_observed) runs (suc polls) (now - start)
            is_red in
        elim (classify_check_runs runs required) [
          | some green ↦ some (verdict green diagnostic)
          | some red ↦ some (verdict red (diagnose p.now true))
          | _ ↦
              if leb deadline p.now
              then some (verdict timeout (diagnose p.now false))
              else if not sleeps && leb deadline p.now_again
              then some (verdict timeout (diagnose p.now_again false))
              else none
        ]
  ]

  -- `ever_observed` after a round.
  unfoldable pub observed_after : Poll → List String → List String
  observed_after p ever_observed = elim p.runs [
    | none ↦ ever_observed
    | some runs ↦ observe runs ever_observed
  ]

  -- The loop from round `polls` on. `none`: the fuel ran out.
  unfoldable pub poll_loop : (fuel polls : ℕ) → List String → Option CiOutcome
  unfolding poll_round observed_after
  poll_loop zero polls ever_observed = none
  poll_loop (suc fuel) polls ever_observed = elim (poll_round (poll polls) polls ever_observed) [
    | some outcome ↦ some outcome
    | none ↦ poll_loop fuel (suc polls) (observed_after (poll polls) ever_observed)
  ]

-- `diagnostic` is the caller's, filled only at RED and TIMEOUT; a caller that hands over none has no use
-- for what the model fills in.
unfoldable pub evaluate_ci :
    (required : List String)
    → (start limit : ℕ) → (sleeps : Bool) → (ℕ → Poll)
    → (fuel : ℕ) → CiDiagnostic
    → Option CiOutcome
unfolding poll_loop
evaluate_ci required start limit sleeps poll fuel diagnostic =
    poll_loop required start (start + limit) sleeps poll diagnostic fuel 0 []
