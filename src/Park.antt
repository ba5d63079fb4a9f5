-- ===== src/Park.antt =====
-- src/baton_harness/chain/daemon/park.py: the one transition that parks an issue. The mutable
-- objects of `ParkContext` are the fields of `ParkState`. With a call goes whether a write of the
-- failure tally comes through, for its charge and for its reset.
pub mod SingleState
pub mod Charging
use baton_harness.Base.{
  ℕ, String, Bool, false, not, ◌&&◌, Option, none, some, List, [], ◌∷◌, ◌++◌, if◌then◌else◌, ◌==◌,
  nat_eq, string_eq, filter, insert,
}
use baton_harness.Labels.{
  agent_ready, agent_failed, agent_in_progress, state_labels, state_labels_in, assert_single_state,
}
use baton_harness.Scheduler.{IssueScheduler, mark_parked}
use baton_harness.FailureTally
use baton_harness.FailureTally.{FailureTally}
use baton_harness.Heartbeat
use baton_harness.Heartbeat.{LivenessState}
use baton_harness.World.{
  fetch_daemon_labels, label_edit_call, Severity, Kind, Github, ReportEntry, critical, block,
  escalation,
}

pub data ParkClass : Type 0 where
  charged uncharged state_intact unknown_state terminal : ParkClass

pub record ParkState : Type 0 where
  pub sched : IssueScheduler
  pub liveness_state : Option LivenessState
  pub parked_reasons : List (ℕ × String)
  pub failure_tally : Option FailureTally
  pub report : Option (List ReportEntry)

abbrev pub cleared : Option LivenessState → Option LivenessState
cleared none = none
cleared (some l) = some (Heartbeat.clear l)

-- The state labels other than the target that the edit takes off: those seen, or all of them when
-- the labels could not be read.
unfoldable pub other_state_labels : Option (List String) → String → List String
other_state_labels labels target =
    filter (λ l. not (l == target))
      (elim labels [ none ↦ state_labels | some ls ↦ state_labels_in ls ])

-- The label that a charged or terminal park leaves.
abbrev pub charged_target : Bool → String
charged_target exhausted = if exhausted then agent_failed else agent_ready

-- What the edit adds and removes; `dict.fromkeys(remove)` finds no duplicates to drop, since
-- agent-in-progress is no state label.
unfoldable pub label_plan : ParkClass → Bool → Option (List String) → List String × List String
unfolding other_state_labels
label_plan charged exhausted labels =
    let target = charged_target exhausted in
    (target ∷ [], agent_in_progress ∷ other_state_labels labels target)
label_plan terminal exhausted labels =
    (agent_failed ∷ [], agent_in_progress ∷ other_state_labels labels agent_failed)
label_plan uncharged exhausted none = ([], agent_in_progress ∷ [])
label_plan uncharged exhausted (some ls) =
    (elim (state_labels_in ls) [ [] ↦ agent_ready ∷ [] | x ∷ xs ↦ [] ], agent_in_progress ∷ [])
label_plan _ exhausted labels = ([], agent_in_progress ∷ [])

-- {LABEL_AGENT_FAILED}
abbrev only_failed : List String → Bool
only_failed (l ∷ []) = l == agent_failed
only_failed _ = false

module _ {W : Type 0} (gh : Github W) (str_of : ℕ → String) (int_of : String → Option ℕ) where
  -- A charge is recorded only for a charged park, and only where there is a tally.
  unfoldable pub charge : ParkClass → Bool → Option FailureTally → ℕ → Option FailureTally × Bool
  charge charged written (some t) issue =
      let (t', result) = FailureTally.record_and_check str_of int_of written t issue in
      (some t', result.1)
  charge _ written tally issue = (tally, false)

  -- The alert and the report of a park with a detail text; an empty text counts as none.
  unfoldable pub announce : ℕ → Option String → Severity → Kind → ParkState → W → W × ParkState
  announce issue none severity kind s w = (w, s)
  announce issue (some detail) severity kind s w = if detail == "" then (w, s) else (
    (gh.alert issue severity kind detail w).0,
    record s {
      report = elim s.report [
        | none ↦ none
        | some entries ↦ some (entries ++ escalation issue kind severity detail ∷ [])
      ];
    },
  )

  -- The post-condition: the tally is reset once an exhausted issue verifiably carries agent-failed
  -- alone, and a violated single-state invariant is alerted with `violation_text`.
  unfoldable pub verify :
      ℕ
      → String
      → (exhausted edit_succeeded reset_written : Bool) → Option (List String)
      → ParkState
      → W
      → W × ParkState
  verify issue violation_text exhausted edit_succeeded reset_written none s w = (w, s)
  verify issue violation_text exhausted edit_succeeded reset_written (some post) s w = (
    elim (assert_single_state post) [
      | none ↦ w
      | some violation ↦ (gh.alert issue critical block violation_text w).0
    ],
    record s {
      failure_tally = elim s.failure_tally [
        | none ↦ none
        | some t ↦
            if exhausted && edit_succeeded && only_failed (state_labels_in post)
            then some (FailureTally.reset str_of int_of reset_written t issue)
            else some t
      ];
    },
  )

  unfoldable pub park_issue :
      ℕ
      → ParkClass
      → (reason : String) → (detail : Option String) → Severity
      → Kind
      → (violation_text : String) → (charge_written reset_written : Bool) → ParkState
      → W
      → W × ParkState
  unfolding label_plan
  park_issue issue class reason detail severity kind violation_text charge_written reset_written s
        w =
      let (w₁, labels) = fetch_daemon_labels gh issue w in
      let (tally, exhausted) = charge class charge_written s.failure_tally issue in
      let (adds, removes) = label_plan class exhausted labels in
      let (w₂, edited) = label_edit_call gh issue adds removes s.report w₁ in
      let s₂ : ParkState = record s {
        sched = mark_parked s.sched issue;
        liveness_state = cleared s.liveness_state;
        parked_reasons = insert issue reason s.parked_reasons;
        failure_tally = tally;
        report = edited.0;
      } in
      let (w₃, s₃) = announce issue detail severity kind s₂ w₂ in
      let (w₄, post) = fetch_daemon_labels gh issue w₃ in
      verify issue violation_text exhausted edited.1 reset_written post s₃ w₄
