-- ===== src/WorkUnit.antt =====
-- src/baton_harness/chain/daemon/work_unit.py: what drives the issues of one work unit, in the modules
-- below. This one holds the state of a work unit, the services it reaches, and the steps that its branches
-- share. The log lines and the entries of the run log are left out.
pub mod MergeGate
pub mod Recovered
pub mod Dispatch
pub mod Afterwards
pub mod Loop
pub mod Whole
pub mod Endings
pub mod Turns
pub mod Invariant
pub mod Queue
pub mod Rounds
pub mod Runs
pub mod Outcome
pub mod Coverage
pub mod Launches
pub mod Clearance
pub mod Driven
pub mod Accounts
use baton_harness.Base.{ℕ, String, Bool, Option, none, some, List, [], ◌∷◌, ◌++◌, string_eq, nat_eq}
use baton_harness.Labels.{agent_done, agent_in_progress, Violation}
use baton_harness.Dag.{Graph}
use baton_harness.Scheduler.{mark_done, IssueScheduler}
use baton_harness.FailureTally
use baton_harness.FailureTally.{FailureTally}
use baton_harness.Redispatch.{RedispatchTally}
use baton_harness.Heartbeat
use baton_harness.Heartbeat.{LivenessState}
use baton_harness.World.{label_edit_call, Severity, Kind, Github, ReportEntry}
use baton_harness.CiGate.{CiDiagnostic}
use baton_harness.Merge.{MergeOutcome, Result, Remote, Gate}
use baton_harness.Recovery.{Texts, Outside}
use baton_harness.LaunchGate.{Comparison, Probe}
use baton_harness.GhApi.{PullRequest, Issue, Created}
use baton_harness.Park.{cleared, park_issue, ParkClass, ParkState}

-- What `_run_worker` of the vendored orchestrator comes to: the times at which it reported a turn, and the
-- text of an exception or of the result.
pub data WorkerResult : Type 0 where
  worker_raised worker_returned : String → WorkerResult

pub record WorkerReply : Type 0 where
  pub progress : List ℕ
  pub result : WorkerResult

-- Texts that the source renders of values: repr of a list of labels and of an optional text, a violation, an
-- exception, and the description of a diagnostic.
pub record Renderings : Type 0 where
  pub labels_text : List String → String
  pub app_id_text : Option String → String
  pub violation_text : Violation → String
  pub exception_text : Result → String
  pub comparison_error : String
  pub cycle_text : Graph → String
  pub describe : CiDiagnostic → String

-- The world as a work unit meets it, `none` and false for a command that failed.
pub record Services (W : Type 0) : Type 0 where
  pub gh : Github W
  pub remote : Remote W
  pub outside : Outside W
  pub texts : Texts
  pub renderings : Renderings
  pub now : W → ℕ
  -- does the write of a tally come through?
  pub charge_written : W → Bool
  pub reset_written : W → Bool
  pub redispatch_written : W → Bool
  -- the alert of a park that leaves no single state label
  pub park_alert : ℕ → W → String
  pub pr_list : W → W × Option (List PullRequest)
  pub fetch_issue : ℕ → W → W × Option Issue
  -- `none` where it raises
  pub fetch_blocked_by : ℕ → W → W × Option (List ℕ)
  pub create_feature_branch : String → W → W × Bool
  pub push : String → W → W × Bool
  pub checkout_feature_branch : String → W → W × Bool
  pub record_cut_point : String → W → W × Option String
  pub has_git_dir : W → Bool
  pub compare_rulesets : W → W × Comparison
  pub probe_push : String → W → W × Probe
  pub post_slack_alert : String → W → W
  -- with CHAIN_BASE_BRANCH and BH_FEATURE_BRANCH of its environment
  pub run_worker : Issue → (base_branch feature_branch : String) → W → W × WorkerReply
  pub commits_over_main : String → W → W × Option String
  pub create_pr : (branch title body : String) → W → W × Created

-- The arguments of `_run_work_unit`; `observability` is the alert address of `obs`, where there is an `obs`.
pub record Settings : Type 0 where
  pub owner : String
  pub repo : String
  pub repo_root : String
  pub branch_name : String
  pub slug : String
  pub agent_ready_issues : List ℕ
  pub gate : Gate
  pub app_id : Option String
  pub observability : Option (Option String)

-- What the turn of one issue changes. `dispatched` lists the issues handed to `_run_worker`, in order.
pub record UnitState : Type 0 where
  pub context : ParkState
  pub tally : Option RedispatchTally
  pub merged_issues : List ℕ
  pub dispatched : List ℕ

-- How a turn ends: the loop goes on, an exception leaves it, or a gate sees no end within its rounds;
-- `out_of_fuel` is the loop's own.
pub data Flow : Type 0 where
  continues raises hangs out_of_fuel : Flow

pub record Turn (W : Type 0) : Type 0 where
  pub world : W
  pub unit : UnitState
  pub flow : Flow

abbrev pub with_report : Option (List ReportEntry) → UnitState → UnitState
with_report report s = record s { context = record s.context { report = report } }

abbrev pub with_sched : IssueScheduler → UnitState → UnitState
with_sched sched s = record s { context = record s.context { sched = sched } }

abbrev pub with_liveness : Option LivenessState → UnitState → UnitState
with_liveness liveness s = record s { context = record s.context { liveness_state = liveness } }

abbrev pub started_at : String → String → ℕ → ℕ → Bool → Option LivenessState → Option LivenessState
started_at owner repo n now active none = none
started_at owner repo n now active (some l) =
    some (Heartbeat.mark_in_progress owner repo n now active l)

module _ {W : Type 0} (services : Services W) where
  open services use {gh, texts, charge_written, reset_written, park_alert, now}

  -- A branch that parks the issue and goes on with the loop.
  unfoldable pub park_turn :
      ParkClass
      → (reason : String) → (detail : Option String) → Severity
      → Kind
      → ℕ
      → UnitState
      → W
      → Turn W
  park_turn class reason detail severity kind n s w =
      let (w', context) =
        park_issue gh texts.str_of texts.int_of n class reason detail severity kind (park_alert n w)
          (charge_written w) (reset_written w) s.context w in
      record { world = w'; unit = record s { context = context }; flow = continues }

  unfoldable pub edit_labels_turn : ℕ → (adds removes : List String) → UnitState → W → W × UnitState
  edit_labels_turn n adds removes s w =
      let (w', edited) = label_edit_call gh n adds removes s.context.report w in
      (w', with_report edited.0 s)

  -- liveness_state.mark_in_progress, where there is a record.
  unfoldable pub mark_started : Settings → ℕ → Bool → UnitState → W → UnitState
  mark_started settings n active s w =
      with_liveness
        (started_at settings.owner settings.repo n (now w) active s.context.liveness_state) s

  abbrev pub reset_tally : Bool → ℕ → Option FailureTally → Option FailureTally
  reset_tally written n none = none
  reset_tally written n (some t) = some (FailureTally.reset texts.str_of texts.int_of written t n)

  -- The branch behind MERGED, which the re-entry and `_run_ci_gate` share.
  unfoldable pub complete_merged : ℕ → UnitState → W → Turn W
  unfolding edit_labels_turn
  complete_merged n s w =
      let (w', s₁) = edit_labels_turn n [] (agent_in_progress ∷ agent_done ∷ []) s w in
      let s₂ : UnitState = with_liveness (cleared s₁.context.liveness_state) s₁ in
      elim (mark_done s₂.context.sched n) [
        | none ↦ record { world = w'; unit = s₂; flow = raises }
        | some sched ↦ record {
          world = w';
          unit = record s₂ {
            context = record s₂.context {
              sched = sched;
              failure_tally = reset_tally (reset_written w') n s₂.context.failure_tally;
            };
            merged_issues = s₂.merged_issues ++ n ∷ [];
          };
          flow = continues;
        }
      ]
