-- ===== src/Recovery.antt =====
-- src/baton_harness/chain/recovery.py: what the daemon reads off git and GitHub when it starts; the sweep
-- over left worktrees is in Recovery/Sweep. The log lines and the entries of the run log are left out;
-- a negative number, which no issue has, reads as no number.
pub mod Places
pub mod Sweep
pub mod Orphans
pub mod Reclaimed
pub mod Branches
use text.Mathlib.Text.{starts_with}
use Prim.Native.String.{slice, len}
use baton_harness.Base.{
  ℕ, String, Bool, not, ◌&&◌, Option, none, some, List, [], ◌∷◌, if◌then◌else◌, string_eq, nat_eq,
  ◌==◌, any, contains, add,
}
use baton_harness.Labels.{agent_done, blocked, agent_in_progress}

-- Python's operations on texts, as the module uses them.
pub record Texts : Type 0 where
  pub strip : String → String
  pub splitlines : String → List String
  pub ends_with : String → String → Bool
  -- stdout.split("\x1e")
  pub split_records : String → List String
  -- the second part of record.split("\x1f", 1), if there is one
  pub body_of : String → Option String
  -- rest.split()[0] if rest.split() else ""
  pub first_word : String → String
  pub int_of : String → Option ℕ
  pub str_of : ℕ → String
  pub concat : String → String → String

abbrev pub provenance_prefix : String
provenance_prefix = "Baton-Harness-Merge: issue-"

abbrev pub baton_branch_prefix : String
baton_branch_prefix = "refs/heads/baton/"

abbrev pub agent_merged : String
agent_merged = "agent-merged"

-- line[len(prefix):]
abbrev pub behind : String → String → String
behind prefix line = slice line (len prefix) (len line)

pub record RecoveryResult : Type 0 where
  pub done : List ℕ
  pub parked_seed : List ℕ
  pub ci_gate_reentry : List ℕ
  pub redispatch : List ℕ

module _ (texts : Texts) where
  open texts use {
    strip, splitlines, ends_with, split_records, body_of, first_word, int_of, str_of, concat,
  }

  -- The loop over the lines of a commit message.
  unfoldable pub issues_of_lines : List String → List ℕ → List ℕ
  issues_of_lines [] found = found
  issues_of_lines (raw ∷ lines) found =
      let line = strip raw in
      issues_of_lines lines (
        if starts_with line provenance_prefix
        then elim (int_of (first_word (behind provenance_prefix line))) [
          | none ↦ found
          | some issue_num ↦ add issue_num found
        ]
        else found)

  -- The loop over the records of `git log`.
  unfoldable pub issues_of_records : List String → List ℕ → List ℕ
  unfolding issues_of_lines
  issues_of_records [] found = found
  issues_of_records (raw ∷ records) found =
      let record_text = strip raw in
      issues_of_records records (
        if record_text == "" then found else elim (body_of record_text) [
          | none ↦ found
          | some body ↦ issues_of_lines (splitlines body) found
        ])

  -- `_fetch_provenance_merges`, on the output of `git log`, `none` where it failed.
  unfoldable pub provenance_merges : Option String → List ℕ
  unfolding issues_of_records
  provenance_merges none = []
  provenance_merges (some stdout) = issues_of_records (split_records stdout) []

  unfoldable pub has_open_pr : ℕ → List String → Bool
  has_open_pr issue open_pr_heads =
      any (λ h. starts_with h "baton/" && ends_with h (concat "-" (str_of issue))) open_pr_heads

abbrev pub nothing_found : RecoveryResult
nothing_found = record { done = []; parked_seed = []; ci_gate_reentry = []; redispatch = [] }

-- The rules of `reconstruct` for one issue, in their order; what it is added to.
pub data Place : Type 0 where
  in_done in_parked_seed in_ci_gate_reentry in_redispatch fresh : Place

unfoldable pub place : (has_provenance_merge has_pr : Bool) → (labels : List String) → Place
place has_provenance_merge has_pr labels =
    if has_provenance_merge && contains labels agent_merged
    then in_done
    else if has_provenance_merge && not (contains labels agent_merged)
    then in_ci_gate_reentry
    else if contains labels blocked
    then in_parked_seed
    else if contains labels agent_done && has_pr
    then in_ci_gate_reentry
    else if contains labels agent_in_progress
    then in_redispatch
    else fresh

unfoldable pub put : ℕ → Place → RecoveryResult → RecoveryResult
put n in_done r = record {
  done = add n r.done;
  parked_seed = r.parked_seed;
  ci_gate_reentry = r.ci_gate_reentry;
  redispatch = r.redispatch;
}
put n in_parked_seed r = record {
  done = r.done;
  parked_seed = add n r.parked_seed;
  ci_gate_reentry = r.ci_gate_reentry;
  redispatch = r.redispatch;
}
put n in_ci_gate_reentry r = record {
  done = r.done;
  parked_seed = r.parked_seed;
  ci_gate_reentry = add n r.ci_gate_reentry;
  redispatch = r.redispatch;
}
put n in_redispatch r = record {
  done = r.done;
  parked_seed = r.parked_seed;
  ci_gate_reentry = r.ci_gate_reentry;
  redispatch = add n r.redispatch;
}
put n fresh r = r

-- What recovery reaches outside, `none` where a command failed or its output could not be parsed.
pub record Outside (W : Type 0) : Type 0 where
  pub git_log_merges : W → W × Option String
  pub open_pr_heads : W → W × Option (List String)
  -- `_fetch_labels`
  pub fetch_labels : ℕ → W → W × List String
  -- git worktree list, `none` for a non-zero exit
  pub worktree_list : W → W × Option String
  -- `_fetch_issue_state_and_labels`: the issue's state, `none` where it could not be read, and its labels
  pub state_and_labels : ℕ → W → W × (Option String × List String)
  -- git status --porcelain and git log @{u}..: `none` for a non-zero exit, else the stripped output
  pub status_of : String → W → W × Option String
  pub unpushed_of : String → W → W × Option String
  pub alert_orphan : ℕ → String → W → W
  -- cleanup_worktree: did it return?
  pub cleanup_worktree : ℕ → W → W × Bool

abbrev pub or_empty_list {ℓ} : {A : Type ℓ} → Option (List A) → List A
or_empty_list none = []
or_empty_list (some xs) = xs

module _ {W : Type 0} (outside : Outside W) (texts : Texts) where
  open outside use {git_log_merges, open_pr_heads, fetch_labels}

  unfoldable pub reconstruct_loop :
      (merges : List ℕ) → (heads : List String) → List ℕ → W → RecoveryResult → W × RecoveryResult
  unfolding place put has_open_pr
  reconstruct_loop merges heads [] w r = (w, r)
  reconstruct_loop merges heads (n ∷ membership) w r =
      let (w', labels) = fetch_labels n w in
      reconstruct_loop merges heads membership w'
        (put n (place (contains merges n) (has_open_pr texts n heads) labels) r)

  unfoldable pub reconstruct : (membership : List ℕ) → W → W × RecoveryResult
  unfolding provenance_merges reconstruct_loop
  reconstruct membership w =
      let (w1, log) = git_log_merges w in
      let (w2, heads) = open_pr_heads w1 in
      reconstruct_loop (provenance_merges texts log) (or_empty_list heads) membership w2
        nothing_found
