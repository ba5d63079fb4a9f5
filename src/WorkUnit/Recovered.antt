-- ===== src/WorkUnit/Recovered.antt =====
-- The turn of an issue that recovery has placed: the branches of the loop of `_run_work_unit` in
-- src/baton_harness/chain/daemon/work_unit.py before a dispatch.
use baton_harness.Base.{
  ℕ, String, Bool, false, none, some, [], ◌∷◌, ◌++◌, string_eq, nat_eq, concat,
}
use baton_harness.Labels.{agent_in_progress}
use baton_harness.Scheduler.{mark_done}
use baton_harness.World.{reported, Severity, warn, critical, block, debug, escalation}
use baton_harness.Redispatch
use baton_harness.Merge.{Result, Request, merged, returned, unfinished}
use baton_harness.GhApi.{find_issue_pr}
use baton_harness.Park.{uncharged, state_intact, terminal}
use baton_harness.WorkUnit.{
  with_report, with_sched, park_turn, edit_labels_turn, mark_started, complete_merged, Services,
  Settings, UnitState, Turn, continues, raises, hangs,
}
use baton_harness.WorkUnit.MergeGate.{outcome_name, attempt}

module _ {W : Type 0} (services : Services W) (settings : Settings) where
  open services use {gh, texts, renderings, redispatch_written, pr_list}

  -- if n in recovery_result.done
  unfoldable pub recovered_done : ℕ → UnitState → W → Turn W
  recovered_done n s w = elim (mark_done s.context.sched n) [
    | none ↦ record { world = w; unit = s; flow = raises }
    | some sched ↦ record {
      world = w;
      unit = record (with_sched sched s) { merged_issues = s.merged_issues ++ n ∷ [] };
      flow = continues;
    }
  ]

  -- if n in recovery_result.parked_seed
  unfoldable pub recovered_parked : ℕ → UnitState → W → Turn W
  recovered_parked n s w =
      park_turn services state_intact "blocked (recovery)" none warn block n s w

  abbrev park_reentry : String → String → Severity → ℕ → UnitState → W → Turn W
  park_reentry reason detail severity n s w =
      park_turn services uncharged reason (some detail) severity debug n s w

  -- What the re-entry makes of the result of `merge_issue_branch`.
  unfoldable pub reenter_result : Result → ℕ → UnitState → W → Turn W
  unfolding outcome_name
  reenter_result (returned merged) n s w = complete_merged services n s w
  reenter_result (returned outcome) n s w =
      let name = outcome_name outcome in
      park_reentry (concat ("ci_gate_reentry: " ∷ name ∷ []))
        (concat ("Issue #" ∷ texts.str_of n ∷ " CI-gate re-entry failed: " ∷ name ∷ [])) critical n
        s w
  reenter_result unfinished n s w = record { world = w; unit = s; flow = hangs }
  reenter_result exception n s w =
      let text = renderings.exception_text exception in
      park_reentry (concat ("merge exception (ci_gate): " ∷ text ∷ []))
        (concat ("Issue #" ∷ texts.str_of n ∷ " merge failed (ci_gate_reentry): " ∷ text ∷ [])) warn
        n s w

  -- if n in recovery_result.ci_gate_reentry
  unfoldable pub reenter_ci_gate : ℕ → UnitState → W → Turn W
  unfolding reenter_result attempt
  reenter_ci_gate n s w =
      let (w₁, prs) = pr_list w in
      elim (find_issue_pr texts n prs) [
        | none ↦
            park_reentry "ci_gate_reentry: no open PR"
              (concat
                ("Issue #" ∷ texts.str_of n ∷ " needs CI-gate re-entry but has no open PR." ∷ []))
              critical n s w₁
        | some (branch, sha) ↦
            let s₁ : UnitState = mark_started services settings n false s w₁ in
            let request : Request = record {
              issue = n;
              pr_head_sha = sha;
              issue_branch = branch;
            } in
            let (w₂, result) = attempt services settings request w₁ in reenter_result result n s₁ w₂
      ]

  -- tally is not None and tally.record_and_check(n)
  unfoldable pub redispatch_breach : ℕ → UnitState → W → UnitState × Bool
  redispatch_breach n s w = elim s.tally [
    | none ↦ (s, false)
    | some t ↦
        let (t', breach) =
          Redispatch.record_and_check texts.str_of texts.int_of (redispatch_written w) t n in
        (record s { tally = some t' }, breach)
  ]

  -- The branch behind a breach of the window.
  unfoldable pub park_redispatch_loop : ℕ → UnitState → W → Turn W
  park_redispatch_loop n s w =
      let detail = concat (
        "Issue #"
        ∷ texts.str_of n
        ∷ " hit the re-dispatch loop threshold — parked to prevent infinite crash-restart cycle."
        ∷ []) in
      let w₁ = (gh.alert n critical block detail w).0 in
      let s₁ : UnitState =
        with_report (reported (escalation n block critical detail) s.context.report) s in
      park_turn services terminal "redispatch loop" none critical block n s₁ w₁

  -- Outside a breach the orphaned label is taken off before the dispatch.
  abbrev pub clear_orphan : ℕ → UnitState → W → W × UnitState
  clear_orphan n s w = edit_labels_turn services n [] (agent_in_progress ∷ []) s w
