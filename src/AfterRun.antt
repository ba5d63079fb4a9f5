-- ===== src/AfterRun.antt =====
-- src/baton_harness/after_run.py, the hook that runs when a worker has stopped, with
-- `fetch_after_run_labels` of src/baton_harness/chain/label_ops.py: it classifies how the run ended and
-- moves the issue's labels. The log lines and the waits between two attempts are left out.
pub mod Attempts
pub mod Applied
pub mod Settled
use baton_harness.Base.{
  ℕ, zero, suc, String, Bool, true, false, not, ◌&&◌, Option, none, some, List, if◌then◌else◌, ◌==◌,
  nat_eq, string_eq, any, contains,
}
use baton_harness.Labels.{agent_ready, agent_done, blocked}

pub data RunOutcome : Type 0 where
  uncommitted_changes no_commits committed_no_pr pr_opened transient_error worker_tried_merge :
      RunOutcome

-- The commands that the hook hands to `_run`.
pub data Command : Type 0 where
  git_status : Command
  git_rev_parse : (ref : String) → Command
  git_current_branch : Command
  git_cherry : (base_sha : String) → Command
  gh_pr_list : (branch : String) → Command
  add_label remove_label : (issue : ℕ) → (label : String) → Command

-- A completed process: was its exit status zero, and its output.
pub record Completed : Type 0 where
  pub succeeded : Bool
  pub stdout : String

-- The answer to `gh issue view --json labels`: a non-zero exit, an output that is not JSON, a JSON value
-- of another shape, or the names of the labels.
pub data ViewReply : Type 0 where
  view_failed not_json bad_shape : ViewReply
  label_names : List String → ViewReply

-- What the hook reaches outside: processes, the file system, the environment, and Python's own
-- operations on texts.
pub record Hook (W : Type 0) : Type 0 where
  pub run : Command → W → W × Completed
  pub view_labels : ℕ → W → W × ViewReply
  pub sentinel_exists : W → Bool
  -- CHAIN_BASE_BRANCH
  pub base_branch : Option String
  -- The guarded call of `alert`, whatever it comes to.
  pub escalate : ℕ → W → W
  pub strip : String → String
  pub splitlines : String → List String
  -- line.startswith("+")
  pub is_ahead : String → Bool
  -- json.loads, `none` where it raises, and whether the list of pull requests is non-empty
  pub parse_prs : String → Option Bool

pub data Exit : Type 0 where
  code : ℕ → Exit
  raised : Exit

pub data Fetched : Type 0 where
  no_labels fetch_raised : Fetched
  fetched : List String → Fetched

unfoldable pub labels_of_reply : ViewReply → Fetched
labels_of_reply view_failed = no_labels
labels_of_reply not_json = no_labels
labels_of_reply bad_shape = fetch_raised
labels_of_reply (label_names ls) = fetched ls

-- The label that a run that ended this way sets.
unfoldable pub target_of : RunOutcome → String
target_of pr_opened = agent_done
target_of _ = blocked

-- if outcome == RunOutcome.TRANSIENT_ERROR: return 1
unfoldable pub exit_of : RunOutcome → Exit → Exit
exit_of transient_error (code zero) = code 1
exit_of _ e = e

module _ {W : Type 0} (hook : Hook W) where
  open hook use {
    run, view_labels, sentinel_exists, base_branch, escalate, strip, splitlines, is_ahead,
    parse_prs,
  }

  unfoldable pub resolve_base_sha : W → W × String
  resolve_base_sha w =
      let base_ref : String = elim base_branch [ none ↦ "origin/main" | some b ↦ b ] in
      let (w', result) = run (git_rev_parse base_ref) w in
      (
        w',
        (if result.succeeded && not (strip result.stdout == "")
            then strip result.stdout
            else base_ref),
      )

  -- The loop over the attempts at `gh pr list`, with `attempts` of them left.
  unfoldable pub pr_list_loop : (attempts : ℕ) → String → W → W × RunOutcome
  pr_list_loop zero branch w = (w, transient_error)
  pr_list_loop (suc attempts) branch w =
      let (w', result) = run (gh_pr_list branch) w in
      let rest = pr_list_loop attempts branch w' in
      if not result.succeeded then rest else elim (parse_prs result.stdout) [
        | none ↦ rest
        | some true ↦ (w', pr_opened)
        | some false ↦ (w', committed_no_pr)
      ]

  -- The steps of `_classify` from the query of the base on.
  unfoldable pub classify_commits : W → W × RunOutcome
  unfolding resolve_base_sha pr_list_loop
  classify_commits w =
      let (w1, base_sha) = resolve_base_sha w in
      let (w2, cherry) = run (git_cherry base_sha) w1 in
      if not cherry.succeeded
      then (w2, transient_error)
      else if not (any is_ahead (splitlines cherry.stdout))
      then (w2, no_commits)
      else (let (w3, branch) = run git_current_branch w2 in pr_list_loop 3 (strip branch.stdout) w3)

  unfoldable pub classify : W → W × RunOutcome
  unfolding classify_commits
  classify w =
      if sentinel_exists w
      then (w, worker_tried_merge)
      else (let (w', status) = run git_status w in
          if not (strip status.stdout == "")
          then (w', uncommitted_changes)
          else classify_commits w')

  -- if LABEL_AGENT_READY in labels: _run([.. "--remove-label", LABEL_AGENT_READY])
  unfoldable pub remove_ready : ℕ → List String → W → W × Bool
  remove_ready issue labels w =
      if contains labels agent_ready
      then (let (w', result) = run (remove_label issue agent_ready) w in (w', result.succeeded))
      else (w, true)

  -- The steps of `_reconcile_labels` on the labels that were read.
  unfoldable pub settle_labels : ℕ → RunOutcome → List String → W → W × Exit
  unfolding remove_ready target_of
  settle_labels issue outcome labels w =
      let (w', removed) = remove_ready issue labels w in
      if not removed
      then (w', code 1)
      else if contains labels blocked
      then (w', code 0)
      else (let (w'', result) = run (add_label issue (target_of outcome)) w' in
          (w'', (if result.succeeded then code 0 else code 1)))

  -- The steps of `_reconcile_labels` behind the return for a transient error.
  unfoldable pub reconcile_with : ℕ → RunOutcome → W → W × Exit
  unfolding labels_of_reply settle_labels
  reconcile_with issue outcome w =
      let (w', reply) = view_labels issue w in
      elim (labels_of_reply reply) [
        | no_labels ↦ (w', code 1)
        | fetch_raised ↦ (w', raised)
        | fetched labels ↦ settle_labels issue outcome labels w'
      ]

  unfoldable pub reconcile_labels : ℕ → RunOutcome → W → W × Exit
  unfolding reconcile_with
  reconcile_labels issue transient_error w = (w, code 0)
  reconcile_labels issue worker_tried_merge w =
      reconcile_with issue worker_tried_merge (escalate issue w)
  reconcile_labels issue outcome w = reconcile_with issue outcome w

  -- `main`, on the issue number that the working directory gives, if it gives one.
  unfoldable pub main : Option ℕ → W → W × Exit
  unfolding classify reconcile_labels exit_of
  main none w = (w, code 1)
  main (some issue) w =
      let (w1, outcome) = classify w in
      let (w2, reconciled) = reconcile_labels issue outcome w1 in (w2, exit_of outcome reconciled)
