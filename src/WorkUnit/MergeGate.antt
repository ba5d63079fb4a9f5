-- ===== src/WorkUnit/MergeGate.antt =====
-- `_run_ci_gate` of src/baton_harness/chain/daemon/gh_api_helpers.py: the merge of an issue behind the CI
-- gate, and what becomes of the issue.
use baton_harness.Base.{
  ℕ, String, Bool, true, false, none, some, [], ◌∷◌, if◌then◌else◌, string_eq, nat_eq, ◌==◌, concat,
}
use baton_harness.World.{reported, warn, critical, debug, merge_gate}
use baton_harness.CiGate.{
  fresh_diagnostic, classifier, CiDiagnostic, Classifier, unpopulated, check_failed, no_jobs,
  never_appeared, partially_missing, never_completed, verdict,
}
use baton_harness.Merge.{
  ci_verdict, merge_issue_branch, MergeOutcome, Result, Request, merged, ci_failed, ci_timeout,
  merge_conflict, returned, unfinished,
}
use baton_harness.Park.{state_intact}
use baton_harness.WorkUnit.{
  with_report, park_turn, complete_merged, Services, Settings, UnitState, Turn, continues, hangs,
}

-- MergeOutcome.name
unfoldable pub outcome_name : MergeOutcome → String
outcome_name merged = "MERGED"
outcome_name ci_failed = "CI_FAILED"
outcome_name ci_timeout = "CI_TIMEOUT"
outcome_name merge_conflict = "MERGE_CONFLICT"

unfoldable pub park_reason_of : MergeOutcome → String
park_reason_of ci_failed = "CI check failed"
park_reason_of ci_timeout = "CI timed out"
park_reason_of _ = "merge conflict"

abbrev pub classifier_text : Classifier → String
classifier_text unpopulated = ""
classifier_text check_failed = "required check failed"
classifier_text no_jobs = "no jobs observed"
classifier_text never_appeared = "required checks never appeared"
classifier_text partially_missing = "required checks partially missing"
classifier_text never_completed = "required checks never completed"

module _ {W : Type 0} (services : Services W) (settings : Settings) where
  open services use {remote, texts, renderings}

  -- The diagnostic after `merge_issue_branch`, fresh where it was not filled in.
  abbrev pub gate_diagnostic : Request → W → CiDiagnostic
  gate_diagnostic request w =
      elim (ci_verdict remote settings.gate request fresh_diagnostic
        (record { world = w; issued = [] })) [ some (verdict result d) ↦ d | _ ↦ fresh_diagnostic ]

  unfoldable pub attempt : Request → W → W × Result
  attempt request w =
      let (s, result) =
        merge_issue_branch remote settings.gate request settings.branch_name fresh_diagnostic
          (record { world = w; issued = [] }) in
      (s.world, result)

  -- The park behind an outcome that is no merge.
  unfoldable pub park_outcome : MergeOutcome → CiDiagnostic → ℕ → UnitState → W → Turn W
  unfolding outcome_name park_reason_of
  park_outcome outcome diag n s w =
      let name = outcome_name outcome in
      let line = concat (
        "Issue #"
        ∷ texts.str_of n
        ∷ " parked: "
        ∷ park_reason_of outcome
        ∷ " ("
        ∷ name
        ∷ ")."
        ∷ []) in
      let detail = if diag.populated then renderings.describe diag else "" in
      let summary = if detail == "" then line else concat (line ∷ "\n\n" ∷ detail ∷ []) in
      let suffix =
        if diag.populated
        then concat (" (" ∷ classifier_text (classifier diag) ∷ ")" ∷ [])
        else "" in
      park_turn services state_intact (concat ("CI gate: " ∷ name ∷ suffix ∷ [])) (some summary)
        critical debug n s w

  -- What becomes of the issue by the result of the merge.
  unfoldable pub gate_result : Result → CiDiagnostic → ℕ → UnitState → W → Turn W × MergeOutcome
  unfolding park_outcome
  gate_result (returned merged) diag n s w = (complete_merged services n s w, merged)
  gate_result (returned outcome) diag n s w = (park_outcome outcome diag n s w, outcome)
  gate_result unfinished diag n s w = (record { world = w; unit = s; flow = hangs }, ci_failed)
  gate_result exception diag n s w =
      let text = renderings.exception_text exception in
      (
        park_turn services state_intact (concat ("merge exception: " ∷ text ∷ []))
            (some
              (concat ("Issue #" ∷ texts.str_of n ∷ " merge raised an exception: " ∷ text ∷ [])))
            warn debug n s w,
        ci_failed,
      )

  unfoldable pub run_ci_gate : Request → UnitState → W → Turn W × MergeOutcome
  unfolding attempt gate_result
  run_ci_gate request s w =
      let (w', result) = attempt request w in
      gate_result result (gate_diagnostic request w) request.issue s w'

  abbrev pub is_merged : MergeOutcome → Bool
  is_merged merged = true
  is_merged _ = false

  -- The calls of `_run_ci_gate` in the loop, with the entry on the report that follows.
  unfoldable pub gate_turn : Request → UnitState → W → Turn W
  unfolding run_ci_gate
  gate_turn request s w =
      let (t, outcome) = run_ci_gate request s w in
      let sha = if is_merged outcome then some request.pr_head_sha else none in
      let entry = merge_gate request.issue (outcome_name outcome) sha in
      elim t.flow [
        | continues ↦ record t { unit = with_report (reported entry t.unit.context.report) t.unit }
        | _ ↦ t
      ]
