-- ===== src/Poll.antt =====
-- src/baton_harness/chain/daemon/poll.py: one tick of the poll loop, `_poll_and_run`, with the choice of a
-- work unit. The drain of the ready issues is in Poll/Drain, the scan for orphans in Poll/Scan. The log
-- lines are left out.
pub mod Select
pub mod Drain
pub mod Scan
pub mod Draining
pub mod Covered
use baton_harness.Base.{
  ℕ, String, Bool, false, not, ◌&&◌, Option, none, some, List, [], ◌∷◌, if◌then◌else◌, string_eq,
  nat_eq, ◌==◌, filter, any, concat, contains, add,
}
use baton_harness.Labels.{agent_ready, blocked, agent_failed, agent_in_progress, state_labels_in}
use baton_harness.FailureTally
use baton_harness.FailureTally.{FailureTally}
use baton_harness.World.{reported, fetch_daemon_labels, critical, block, debug, skipped_blocked}
use baton_harness.WorkUnit.{with_report, edit_labels_turn, Services, UnitState}
use baton_harness.WorkUnit.Dispatch.{dispatch_exclude_labels}

pub record Milestone : Type 0 where
  pub number : ℕ
  -- with the default "milestone-<number>" for a title that is missing
  pub title : String

-- An entry of the issue list, its labels in lower case.
pub record RawIssue : Type 0 where
  pub number : ℕ
  pub title : String
  pub labels : List String
  pub milestone : Option Milestone

-- GitHub's lists of open issues by label, `none` where the command or the parsing failed; the open issues of
-- a milestone; and the sweep over left worktrees, whose exceptions are swallowed.
pub record Listings (W : Type 0) : Type 0 where
  pub list_ready : W → W × Option (List RawIssue)
  pub list_in_progress : W → W × Option (List RawIssue)
  pub list_milestone : Milestone → W → W × Option (List ℕ)
  pub sweep : (running : List ℕ) → W → W
  pub slugify : String → String
  -- does the write of `set_alerted` come through?
  pub alerted_written : W → Bool

-- The records shared by the units of a tick, and what the tick keeps.
pub record TickState : Type 0 where
  pub unit : UnitState
  pub dispatched_issue_nums : List ℕ
  pub processed_ms_nums : List ℕ
  pub processed_issue_nums : List ℕ

-- xs | ys
unfoldable pub update_set : List ℕ → List ℕ → List ℕ
update_set [] ys = ys
update_set (x ∷ xs) ys = add x (update_set xs ys)

-- Do the labels hold "blocked" or "agent-failed"?
abbrev pub has_exclude : List String → Bool
has_exclude labels = any (contains labels) dispatch_exclude_labels

module _ {W : Type 0} (services : Services W) (listings : Listings W) where
  open services use {gh, texts}

  -- An issue with "agent-ready" and "agent-failed" is alerted once.
  unfoldable pub alert_excluded : RawIssue → UnitState → W → W × UnitState
  alert_excluded issue s w =
      let told : Bool = elim s.context.failure_tally [
        | none ↦ false
        | some t ↦ FailureTally.has_alerted t issue.number
      ] in
      if contains issue.labels agent_ready && contains issue.labels agent_failed && not told
      then (let text = concat (
            "Issue #"
            ∷ texts.str_of issue.number
            ∷ " is excluded from dispatch by 'agent-failed'. Remove the 'agent-failed' label after operator"
            ∷ " triage to re-enable dispatch."
            ∷ []) in
          let (w', alerted) = gh.alert issue.number critical debug text w in
          (
            w',
            record s {
              context = record s.context {
                failure_tally = elim s.context.failure_tally [
                  | none ↦ none
                  | some t ↦
                      if alerted
                      then some (
                          FailureTally.set_alerted texts.str_of texts.int_of
                            (listings.alerted_written w') t issue.number)
                      else some t
                ];
              };
            },
          ))
      else (w, s)

  -- The loop over the listed issues: those without an exclude label, in their order.
  unfoldable pub ready_of_snapshot : List RawIssue → UnitState → W → W × UnitState × List RawIssue
  unfolding alert_excluded
  ready_of_snapshot [] s w = (w, s, [])
  ready_of_snapshot (issue ∷ issues) s w =
      let (w₁, s₁) = alert_excluded issue s w in
      let excluded = has_exclude issue.labels in
      let skipped =
        ready_of_snapshot issues
          (with_report (reported (skipped_blocked issue.number issue.title) s₁.context.report) s₁)
          w₁ in
      let (w₂, s₂, rest) = ready_of_snapshot issues s w in
      if excluded then skipped else (w₂, s₂, issue ∷ rest)

  -- `none` for labels that could not be read: the issue stays.
  abbrev pub is_live_excluded : Option (List String) → Bool
  is_live_excluded none = false
  is_live_excluded (some labels) = has_exclude labels && contains labels agent_ready

  -- Two state labels or more are alerted.
  unfoldable pub alert_malformed : ℕ → (labels : List String) → W → W
  alert_malformed n labels w = elim (state_labels_in labels) [
    | x ∷ y ∷ rest ↦
        let extra = filter (λ l. not (l == blocked)) (x ∷ y ∷ rest) in
        (gh.alert n critical block
          (concat (
            "Issue #"
            ∷ texts.str_of n
            ∷ " has malformed multi-state labels: "
            ∷ services.renderings.labels_text (x ∷ y ∷ rest)
            ∷ "; extra state labels beyond 'blocked': "
            ∷ services.renderings.labels_text extra
            ∷ " — operator action required."
            ∷ []))
          w).0
    | _ ↦ w
  ]

  -- The branch for an issue whose labels have changed since the listing.
  unfoldable pub skip_live : RawIssue → Option (List String) → UnitState → W → W × UnitState
  unfolding alert_malformed
  skip_live issue none s w = (w, s)
  skip_live issue (some labels) s w =
      let s₁ : UnitState =
        with_report (reported (skipped_blocked issue.number issue.title) s.context.report) s in
      edit_labels_turn services issue.number [] (agent_in_progress ∷ []) s₁
        (alert_malformed issue.number labels w)

  -- The live check of each listed issue.
  unfoldable pub ready_live : List RawIssue → UnitState → W → W × UnitState × List RawIssue
  unfolding skip_live
  ready_live [] s w = (w, s, [])
  ready_live (issue ∷ issues) s w =
      let (w₁, labels) = fetch_daemon_labels gh issue.number w in
      let (w₂, s₂) = skip_live issue labels s w₁ in
      let skipped = ready_live issues s₂ w₂ in
      let (w₃, s₃, rest) = ready_live issues s w₁ in
      if is_live_excluded labels then skipped else (w₃, s₃, issue ∷ rest)
