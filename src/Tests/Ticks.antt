-- ===== src/Tests/Ticks.antt =====
-- A tick of the poll loop on one ready issue, over the services of the work unit's tests.
use baton_harness.Base.{ℕ, ◌≡◌, refl, ◌≢◌, true, none, some, [], ◌∷◌, string_eq, nat_eq, All}
use baton_harness.Labels.{assert_single_state}
use baton_harness.Dag.{build_dag}
use baton_harness.Scheduler.Edges.{blockers, dependents}
use baton_harness.Scheduler.Sorter
use baton_harness.Scheduler
use baton_harness.Scheduler.{init, is_active, mark_done}
use baton_harness.Recovery.{reconstruct}
use baton_harness.World.{fetch_daemon_labels, label_edit_call}
use baton_harness.CiGate.{evaluate_ci, classify_check_runs, job_by_name}
use baton_harness.Merge.{merge_issue_branch}
use baton_harness.GhApi.{find_issue_pr, open_pr}
use baton_harness.LaunchGate.{should_launch_worker}
use baton_harness.WorkUnit.{complete_merged, mark_started, continues, out_of_fuel}
use baton_harness.WorkUnit.MergeGate.{gate_turn}
use baton_harness.WorkUnit.Afterwards.{after_worker}
use baton_harness.WorkUnit.Dispatch.{dispatch}
use baton_harness.WorkUnit.Loop.{loop}
use baton_harness.WorkUnit.Whole.{run_work_unit}
use baton_harness.Poll.{RawIssue, Listings}
use baton_harness.Poll.Select.{select_work_unit}
use baton_harness.Poll.Drain.{drain, Tick}
use baton_harness.Poll.Scan.{fresh_tick, poll_and_run}
use baton_harness.Poll.Draining.{poll_and_run-flow}
use baton_harness.Poll.Covered.{IsVisited, drain-IsVisited}
use baton_harness.Tests.Numerals.{str_of}
use baton_harness.Tests.Units.{services, settings, handed}

abbrev ready_issue : RawIssue
ready_issue = record { number = 7; title = "t"; labels = "agent-ready" ∷ []; milestone = none }

abbrev listings : Listings ℕ
listings = record {
  list_ready = λ w. (w, some (ready_issue ∷ []));
  list_in_progress = λ w. (w, some (ready_issue ∷ []));
  list_milestone = λ ms w. (w, none);
  sweep = λ running w. w;
  slugify = λ s. s;
  alerted_written = λ w. true;
}

poll_and_run-flow_example : (poll_and_run services listings settings handed 0).flow ≢ out_of_fuel
poll_and_run-flow_example = poll_and_run-flow services listings settings handed 0

abbrev drained : Tick ℕ
drained =
    drain services listings settings 2 true (7 ∷ []) (ready_issue ∷ [])
      (fresh_tick services listings settings handed) 0

drain_continues : drained.flow ≡ continues
unfolding drain select_work_unit run_work_unit Scheduler.prepare Sorter.prepare Sorter.has_cycle
    Sorter.nodes init build_dag blockers dependents is_active Scheduler.get_ready Sorter.get_ready
    Sorter.create mark_done Sorter.done reconstruct loop fetch_daemon_labels label_edit_call
    should_launch_worker assert_single_state find_issue_pr merge_issue_branch evaluate_ci
    classify_check_runs job_by_name dispatch after_worker gate_turn complete_merged mark_started
    open_pr str_of
drain_continues = refl

drain-IsVisited_example : All (IsVisited drained.state) (ready_issue ∷ [])
drain-IsVisited_example =
    drain-IsVisited services listings settings 2 true (7 ∷ []) (ready_issue ∷ [])
      (fresh_tick services listings settings handed) 0 drain_continues
