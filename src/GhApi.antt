-- ===== src/GhApi.antt =====
-- src/baton_harness/chain/daemon/gh_api_helpers.py: what the daemon asks GitHub for an issue. A reply is
-- `none` where the command failed or its output could not be parsed. The gate helper `_run_ci_gate` is in
-- WorkUnit/MergeGate.
pub mod Lookup
use text.Mathlib.Text.{starts_with}
use baton_harness.Base.{
  ℕ, String, Bool, not, ◌&&◌, Option, none, some, List, [], ◌∷◌, if◌then◌else◌, string_eq, nat_eq,
  ◌==◌, concat,
}
use baton_harness.Recovery.{Texts}

-- An entry of `gh pr list --json number,headRefName,headRefOid`, a field that is missing as the empty text.
pub record PullRequest : Type 0 where
  pub head_ref_name : String
  pub head_ref_oid : String

-- The part of `Issue` that the daemon reads.
pub record Issue : Type 0 where
  pub number : ℕ
  pub title : String

module _ (texts : Texts) where
  open texts use {ends_with, concat, str_of}

  -- The loop of `_find_issue_pr`: the first pull request of the issue, with its branch and its commit.
  unfoldable pub find_pr : ℕ → List PullRequest → Option (String × String)
  find_pr issue [] = none
  find_pr issue (pr ∷ prs) =
      let rest = find_pr issue prs in
      if starts_with pr.head_ref_name "baton/"
        && ends_with pr.head_ref_name (concat "-" (str_of issue))
      then some (pr.head_ref_name, pr.head_ref_oid)
      else rest

  unfoldable pub find_issue_pr : ℕ → Option (List PullRequest) → Option (String × String)
  unfolding find_pr
  find_issue_pr issue none = none
  find_issue_pr issue (some prs) = find_pr issue prs

-- REQUIRED_CHECKS of src/baton_harness/chain/merge.py
abbrev pub required_checks_default : List String
required_checks_default =
    "Lint (ruff)" ∷ "Lint (shellcheck)" ∷ "Test (pytest)" ∷ "Type check (mypy)" ∷ []

unfoldable pub effective_required_checks : List String → List String
effective_required_checks [] = required_checks_default
effective_required_checks (c ∷ cs) = c ∷ cs

-- The numbers of the milestone's open issues; a failed listing reads as the empty set.
unfoldable pub fetch_full_milestone_members : Option (List ℕ) → List ℕ
fetch_full_milestone_members none = []
fetch_full_milestone_members (some numbers) = numbers

-- What `gh pr create` answers: its exit status, and the address that it printed, stripped.
pub record Created : Type 0 where
  pub succeeded : Bool
  pub already_exists : Bool
  pub stdout : String

unfoldable pub open_pr : Created → Option String
open_pr created =
    if not created.succeeded && not created.already_exists
    then none
    else if created.stdout == ""
    then none
    else some created.stdout
