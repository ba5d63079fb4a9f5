-- ===== src/WorkUnit/Whole.antt =====
-- `_run_work_unit` of src/baton_harness/chain/daemon/work_unit.py from start to end: the graph and the
-- feature branch before the loop, the pull request behind it.
use mathlib.Core.Option
use baton_harness.Base.{
  ℕ, suc, String, Bool, false, Option, none, some, List, [], ◌∷◌, map, if◌then◌else◌, string_eq,
  nat_eq, ◌==◌, length, concat, join, count,
}
use baton_harness.Dag.{Graph, build_dag}
use baton_harness.Scheduler
use baton_harness.Scheduler.{IssueScheduler}
use baton_harness.World.{reported, ReportEntry, warn, block, escalation, pull_request, outcomes}
use baton_harness.Recovery.{RecoveryResult, reconstruct}
use baton_harness.GhApi.{open_pr}
use baton_harness.WorkUnit.{
  with_report, with_sched, Services, Settings, UnitState, Turn, continues, raises,
}
use baton_harness.WorkUnit.Loop.{loop}

-- _CLAUDE_ATTRIBUTION
abbrev pub claude_attribution : String
claude_attribution = "\n\n🤖 *Generated by Claude Code on behalf of @cbeaulieu-gt*"

unfoldable pub record_prs : List ℕ → String → Option (List ReportEntry) → Option (List ReportEntry)
record_prs [] url report = report
record_prs (n ∷ merged_issues) url report =
    record_prs merged_issues url (reported (pull_request n url) report)

module _ {W : Type 0} (services : Services W) (settings : Settings) where
  open services use {
    outside, texts, renderings, gh, fetch_blocked_by, create_feature_branch, push,
    commits_over_main, create_pr,
  }

  -- "\n".join(f"Closes #{n}" for n in merged_issues)
  unfoldable pub merged_section : List ℕ → String
  merged_section [] = "(none)"
  merged_section (n ∷ ns) =
      join "\n" (map (λ m. concat ("Closes #" ∷ texts.str_of m ∷ [])) (n ∷ ns))

  unfoldable pub parked_list : List (ℕ × String) → String
  parked_list parked_reasons =
      let lines = join "\n" (
        map (λ entry. concat ("- #" ∷ texts.str_of entry.0 ∷ ": " ∷ entry.1 ∷ []))
          parked_reasons) in
      if lines == "" then "(none)" else lines

  unfoldable pub pr_body : (merged_issues : List ℕ) → (parked_reasons : List (ℕ × String)) → String
  unfolding merged_section parked_list
  pr_body merged_issues parked_reasons = concat (
      "## Work unit: "
      ∷ settings.slug
      ∷ "\n\n### Issues merged\n\n"
      ∷ merged_section merged_issues
      ∷ "\n\n### Issues parked (need human attention)\n\n"
      ∷ parked_list parked_reasons
      ∷ "\n"
      ∷ claude_attribution
      ∷ [])

  abbrev no_commits : Option String → Bool
  no_commits none = false
  no_commits (some stdout) = stdout == "0"

  -- A failed push is only logged.
  unfoldable pub complete_work_unit : UnitState → W → W × UnitState
  unfolding pr_body record_prs
  complete_work_unit s w =
      let (w₁, pushed) = push settings.branch_name w in
      let (w₂, count) = commits_over_main settings.branch_name w₁ in
      if no_commits count
      then (w₂, s)
      else (let (w₃, created) =
            create_pr settings.branch_name (concat ("[daemon] " ∷ settings.slug ∷ []))
              (pr_body s.merged_issues s.context.parked_reasons) w₂ in
          (
            w₃,
            elim (open_pr created) [
              | none ↦ s
              | some url ↦ with_report (record_prs s.merged_issues url s.context.report) s
            ],
          ))

  -- The blockers of each member; a dict has one entry for each. `none`: a query raised, which ends the loop.
  unfoldable pub fetch_blockers : List ℕ → W → W × Option Graph
  fetch_blockers [] w = (w, some [])
  fetch_blockers (m ∷ membership) w =
      let (w₁, blocked_by) = fetch_blocked_by m w in
      let (w₂, rest) = fetch_blockers membership w₁ in
      elim blocked_by [
        | none ↦ (w₁, none)
        | some numbers ↦ (w₂, Option.map (λ entries. (m, numbers) ∷ entries) rest)
      ]

  -- `none` where `create_feature_branch` raises; a failed push is only logged.
  unfoldable pub setup_feature_branch : List ℕ → W → W × Option RecoveryResult
  setup_feature_branch membership w =
      let (w₁, created) = create_feature_branch settings.branch_name w in
      let (w₂, pushed) = push settings.branch_name w₁ in
      let (w₃, found) = reconstruct outside texts membership w₂ in
      if created then (w₃, some found) else (w₁, none)

  -- The branch for a graph with a cycle.
  unfoldable pub report_cycle : (membership : List ℕ) → Graph → UnitState → W → Turn W
  report_cycle [] graph s w = record { world = w; unit = s; flow = raises }
  report_cycle (m ∷ membership) graph s w =
      let detail = concat (
        "Cyclic dependency detected in work unit '"
        ∷ settings.slug
        ∷ "': "
        ∷ renderings.cycle_text graph
        ∷ []) in
      record {
        world = (gh.alert m warn block detail w).0;
        unit = with_report (reported (escalation m block warn detail) s.context.report) s;
        flow = continues;
      }

  -- Behind a loop that ended of itself.
  unfoldable pub conclude : Turn W → Turn W
  unfolding complete_work_unit
  conclude t = elim t.flow [
    | continues ↦
        let (w', s') = complete_work_unit t.unit t.world in
        record { world = w'; unit = s'; flow = continues }
    | _ ↦ t
  ]

  -- The loop and what follows it, with a scheduler that is prepared. Every round takes an issue off
  -- `pending`, and each member stands there once at most, so the fuel is never used up.
  unfoldable pub drive : List ℕ → UnitState → W → Turn W
  unfolding setup_feature_branch conclude
  drive membership s w =
      let (w₁, found) = setup_feature_branch membership w in
      elim found [
        | none ↦ record { world = w₁; unit = s; flow = raises }
        | some recovered ↦
            conclude (loop services settings recovered (suc (length membership)) [] [] s w₁)
      ]

  -- finally: report.set_outcomes(...)
  unfoldable pub set_outcomes : Turn W → Turn W
  set_outcomes t =
      let entry = outcomes t.unit.merged_issues t.unit.context.parked_reasons in
      record t { unit = with_report (reported entry t.unit.context.report) t.unit }

  -- merged_issues = []; parked_reasons = {}
  abbrev pub begun : UnitState → UnitState
  begun s = record s { context = record s.context { parked_reasons = [] }; merged_issues = [] }

  -- From the blockers on; the scheduler is built here.
  unfoldable pub run_over : List ℕ → Graph → UnitState → W → Turn W
  unfolding report_cycle drive
  run_over membership blocked_by s w =
      let graph = (build_dag membership blocked_by).graph in
      elim (Scheduler.prepare (Scheduler.init graph)) [
        | none ↦ report_cycle membership graph s w
        | some sched ↦ drive membership (with_sched sched s) w
      ]

  -- With what the daemon hands over.
  unfoldable pub run_with : List ℕ → UnitState → W → Turn W
  unfolding fetch_blockers run_over
  run_with membership s w =
      let (w₁, fetched) = fetch_blockers membership w in
      elim fetched [
        | none ↦ record { world = w₁; unit = s; flow = raises }
        | some blocked_by ↦ run_over membership blocked_by s w₁
      ]

  unfoldable pub run_work_unit : List ℕ → UnitState → W → Turn W
  unfolding run_with set_outcomes
  run_work_unit membership s w = set_outcomes (run_with membership (begun s) w)
