-- ===== src/Merge.antt =====
-- src/baton_harness/chain/merge.py: the merge of an issue branch behind the CI gate, what it records of
-- it on the issue, and the batch. The module's commands are recorded in the order in which it issues
-- them; the log lines are left out.
pub mod Commands
pub mod Batch
use text.Mathlib.Text.{starts_with}
use baton_harness.Base.{
  ℕ, String, ◌⊎◌, inl, inr, Bool, not, ◌&&◌, Option, none, some, List, [], ◌∷◌, ◌++◌, nat_beq,
  if◌then◌else◌, nat_eq, string_eq, length, insert,
}
use baton_harness.CiGate.{
  fresh_diagnostic, evaluate_ci, CiDiagnostic, Poll, CiOutcome, green, red, timeout, raised,
  verdict,
}

pub data MergeOutcome : Type 0 where
  merged ci_failed ci_timeout merge_conflict : MergeOutcome

pub data Command : Type 0 where
  checkout : (branch : String) → Command
  merge_no_ff : (message branch : String) → Command
  merge_abort : Command
  -- gh issue edit --add-label agent-merged
  add_merged_label : (issue : ℕ) → Command
  comment : (issue : ℕ) → (body : String) → Command

-- What a call comes to: a value, an exception, or no end within the rounds of polling that it is given.
pub data Result : Type 0 where
  returned : MergeOutcome → Result
  raises_value_error raises_runtime_error raises_query_error unfinished : Result

-- Git and GitHub as the module meets them.
pub record Remote (W : Type 0) : Type 0 where
  -- was the exit status zero?
  pub run : Command → W → W × Bool
  -- The rounds that a poll of the jobs of a commit sees from now on, and the world after it.
  pub polls : (sha : String) → W → ℕ → Poll
  pub polled : (sha : String) → W → W
  pub now : W → ℕ
  -- f"Merge branch '{issue_branch}' into {feature_branch}\n\nBaton-Harness-Merge: issue-{issue} ci=green"
  pub merge_message : (issue : ℕ) → (issue_branch feature_branch : String) → String
  -- f"baton-harness: CI-green-at-merge sha={sha} issue={issue} label=agent-merged"
  pub marker : (issue : ℕ) → (sha : String) → String

-- The settings of the gate: the required checks, the limit of the wait, whether an interval is slept
-- between two rounds, and the rounds allowed.
pub record Gate : Type 0 where
  pub required : List String
  pub limit : ℕ
  pub sleeps : Bool
  pub rounds : ℕ

pub record State (W : Type 0) : Type 0 where
  pub world : W
  pub issued : List Command

pub record Request : Type 0 where
  pub issue : ℕ
  pub pr_head_sha : String
  pub issue_branch : String

-- zip(issues, pr_head_shas, issue_branches)
unfoldable pub requests_of : List ℕ → List String → List String → List Request
requests_of (i ∷ issues) (sha ∷ shas) (b ∷ branches) =
    record { issue = i; pr_head_sha = sha; issue_branch = b } ∷ requests_of issues shas branches
requests_of _ _ _ = []

module _ {W : Type 0} (remote : Remote W) where
  open remote use {run, polls, polled, now, merge_message, marker}

  -- _run
  unfoldable pub perform : Command → State W → State W × Bool
  perform command s =
      let (w, succeeded) = run command s.world in
      (record { world = w; issued = s.issued ++ command ∷ [] }, succeeded)

  -- Both records are attempted whatever the first one comes to.
  unfoldable pub persist_ci_green : (issue : ℕ) → (sha : String) → State W → State W × Bool
  unfolding perform
  persist_ci_green issue sha s =
      let (s1, labelled) = perform (add_merged_label issue) s in
      let (s2, commented) = perform (comment issue (marker issue sha)) s1 in
      (s2, labelled && commented)

  -- The steps of `merge_issue_branch` behind a GREEN verdict.
  unfoldable pub merge_green : Request → (feature_branch : String) → State W → State W × Result
  unfolding persist_ci_green
  merge_green request feature_branch s =
      let (s1, checked_out) = perform (checkout feature_branch) s in
      if not checked_out
      then (s1, raises_runtime_error)
      else (let message = merge_message request.issue request.issue_branch feature_branch in
          let (s2, succeeded) = perform (merge_no_ff message request.issue_branch) s1 in
          if not succeeded
          then (let (s3, aborted) = perform merge_abort s2 in (s3, returned merge_conflict))
          else (let (s3, persisted) = persist_ci_green request.issue request.pr_head_sha s2 in
              (s3, returned merged)))

  -- The state once the jobs of the request's commit have been polled.
  unfoldable pub gated : Request → State W → State W
  gated request s = record { world = polled request.pr_head_sha s.world; issued = s.issued }

  unfoldable pub ci_verdict : Gate → Request → CiDiagnostic → State W → Option CiOutcome
  ci_verdict gate request diagnostic s =
      evaluate_ci gate.required (now s.world) gate.limit gate.sleeps
        (polls request.pr_head_sha s.world) gate.rounds diagnostic

  unfoldable pub merge_issue_branch :
      Gate → Request → (feature_branch : String) → CiDiagnostic → State W → State W × Result
  unfolding merge_green gated ci_verdict
  merge_issue_branch gate request feature_branch diagnostic s =
      if not (starts_with feature_branch "feature/")
      then (s, raises_value_error)
      else elim (ci_verdict gate request diagnostic s) [
        | none ↦ (gated request s, unfinished)
        | some raised ↦ (gated request s, raises_query_error)
        | some (verdict red d) ↦ (gated request s, returned ci_failed)
        | some (verdict timeout d) ↦ (gated request s, returned ci_timeout)
        | some (verdict green d) ↦ merge_green request feature_branch (gated request s)
      ]

  -- What the batch comes to: the outcomes by issue, or the exception of a call.
  unfoldable pub merge_loop :
      Gate
      → (feature_branch : String) → List Request
      → State W
      → (outcomes : List (ℕ × MergeOutcome)) → State W × (Result ⊎ List (ℕ × MergeOutcome))
  unfolding merge_issue_branch
  merge_loop gate feature_branch [] s outcomes = (s, inr outcomes)
  merge_loop gate feature_branch (request ∷ requests) s outcomes =
      let (s', result) = merge_issue_branch gate request feature_branch fresh_diagnostic s in
      elim result [
        | returned merged ↦
            merge_loop gate feature_branch requests s' (insert request.issue merged outcomes)
        | returned other ↦ (s', inr (insert request.issue other outcomes))
        | raising ↦ (s', inl raising)
      ]

  unfoldable pub merge_issue_branches :
      Gate
      → (issues : List ℕ) → (pr_head_shas issue_branches : List String) → (feature_branch : String)
      → State W
      → State W × (Result ⊎ List (ℕ × MergeOutcome))
  unfolding requests_of merge_loop
  merge_issue_branches gate issues pr_head_shas issue_branches feature_branch s =
      if not (
        nat_beq (length issues) (length pr_head_shas)
        && nat_beq (length pr_head_shas) (length issue_branches))
      then (s, inl raises_value_error)
      else merge_loop gate feature_branch (requests_of issues pr_head_shas issue_branches) s []
