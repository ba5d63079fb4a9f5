-- ===== src/Tests/Units.antt =====
-- A work unit of two issues, the second of which waits for the first. The world is the list of the commands
-- of the merges so far; labels and every other answer stay as they are.
use baton_harness.Base.{
  ℕ, suc, String, ◌≡◌, refl, ◌≢◌, ◌⊎◌, true, false, ◌||◌, none, some, List, [], ◌∷◌, map,
  if◌then◌else◌, string_eq, nat_eq, ◌==◌, contains, ◌∈◌, ◌∉◌,
}
use baton_harness.Labels.{agent_done, assert_single_state}
use baton_harness.Dag.{Graph, build_dag}
use baton_harness.Scheduler.Edges.{blockers, dependents}
use baton_harness.Scheduler.Sorter
use baton_harness.Scheduler
use baton_harness.Scheduler.{init, is_active, mark_done}
use baton_harness.Recovery.{reconstruct, RecoveryResult, nothing_found, has_open_pr}
use baton_harness.World.{fetch_daemon_labels, label_edit_call, names}
use baton_harness.CiGate.{job_by_name, classify_check_runs, evaluate_ci, Poll}
use baton_harness.Merge.{merge_issue_branch}
use baton_harness.GhApi.Lookup.{IsFirstFor, find_issue_pr-has_open_pr}
use baton_harness.GhApi.{find_issue_pr, open_pr, PullRequest}
use baton_harness.LaunchGate.{should_launch_worker, match_, status, probed}
use baton_harness.WorkUnit.{
  with_sched, mark_started, complete_merged, Services, Settings, UnitState, Turn, worker_returned,
  continues, out_of_fuel,
}
use baton_harness.WorkUnit.Loop.{is_actionable, turn, loop}
use baton_harness.WorkUnit.Whole.{fetch_blockers, run_work_unit}
use baton_harness.WorkUnit.MergeGate.{gate_turn}
use baton_harness.WorkUnit.Afterwards.{after_worker}
use baton_harness.WorkUnit.Dispatch.{dispatch}
use baton_harness.WorkUnit.Endings.{Ends}
use baton_harness.WorkUnit.Turns.{turn-Handled}
use baton_harness.WorkUnit.Invariant.{IsKept}
use baton_harness.WorkUnit.Outcome.{EndsWell}
use baton_harness.WorkUnit.Driven.{loop-EndsWell}
use baton_harness.Scheduler.Frontier.{started}
use baton_harness.WorkUnit.Clearance.{turn-Launched, Launched}
use baton_harness.WorkUnit.Accounts.{
  run_work_unit-Accounts, run_work_unit-settles, Accounts, graph_of,
}
use baton_harness.Tests.Numerals.{str_of, int_of}

abbrev green_poll : Poll
green_poll = record {
  runs = some (record { name = "Lint"; status = "completed"; conclusion = some "success" } ∷ []);
  now = 1;
  now_again = 1;
}

-- Every issue has the branch "baton/1", that of its pull request.
abbrev pub services : Services ℕ
services = record {
  gh = record {
    lower = λ s. s;
    casefold = λ s. s;
    view_labels = λ n w. (w, names (agent_done ∷ []));
    edit_labels = λ n adds removes w. (w, true);
    alert = λ n severity kind text w. (w, true);
  };
  remote = record {
    run = λ command w. (suc w, true);
    polls = λ sha w k. green_poll;
    polled = λ sha w. w;
    now = λ w. 0;
    merge_message = λ issue issue_branch feature_branch. issue_branch;
    marker = λ issue sha. sha;
  };
  outside = record {
    git_log_merges = λ w. (w, none);
    open_pr_heads = λ w. (w, none);
    fetch_labels = λ n w. (w, []);
    worktree_list = λ w. (w, none);
    state_and_labels = λ n w. (w, (none, []));
    status_of = λ path w. (w, none);
    unpushed_of = λ path w. (w, none);
    alert_orphan = λ n path w. w;
    cleanup_worktree = λ n w. (w, true);
  };
  texts = record {
    strip = λ s. s;
    splitlines = λ s. s ∷ [];
    ends_with = λ s t. true;
    split_records = λ s. s ∷ [];
    body_of = λ s. none;
    first_word = λ s. s;
    int_of = int_of;
    str_of = str_of;
    concat = λ s t. s;
  };
  renderings = record {
    labels_text = λ ls. "";
    app_id_text = λ id. "";
    violation_text = λ v. "";
    exception_text = λ r. "";
    comparison_error = "";
    cycle_text = λ g. "";
    describe = λ d. "";
  };
  now = λ w. w;
  charge_written = λ w. true;
  reset_written = λ w. true;
  redispatch_written = λ w. true;
  park_alert = λ n w. "";
  pr_list = λ w. (w, some (record { head_ref_name = "baton/1"; head_ref_oid = "abc" } ∷ []));
  fetch_issue = λ n w. (w, some (record { number = n; title = "t" }));
  fetch_blocked_by = λ n w. (w, some (if n == 8 then 7 ∷ [] else []));
  create_feature_branch = λ b w. (w, true);
  push = λ b w. (w, true);
  checkout_feature_branch = λ b w. (w, true);
  record_cut_point = λ b w. (w, some "abc");
  has_git_dir = λ w. true;
  compare_rulesets = λ w. (w, status match_);
  probe_push = λ p w. (w, probed true);
  post_slack_alert = λ u w. w;
  run_worker = λ issue base branch w.
      (w, record { progress = w ∷ []; result = worker_returned "pr_created" });
  commits_over_main = λ b w. (w, some "2");
  create_pr = λ b t body w. (w, record { succeeded = true; already_exists = false; stdout = "u" });
}

abbrev pub settings : Settings
settings = record {
  owner = "o";
  repo = "r";
  repo_root = "/r";
  branch_name = "feature/x";
  slug = "x";
  agent_ready_issues = 7 ∷ 8 ∷ [];
  gate = record { required = "Lint" ∷ []; limit = 100; sleeps = true; rounds = 5 };
  app_id = some "1";
  observability = some none;
}

abbrev pub handed : UnitState
handed = record {
  context = record {
    sched = init [];
    liveness_state = none;
    parked_reasons = [];
    failure_tally = none;
    report = none;
  };
  tally = none;
  merged_issues = [];
  dispatched = [];
}

abbrev unit_run : Turn ℕ
unit_run = run_work_unit services settings (7 ∷ 8 ∷ []) handed 0

all_merged : unit_run.unit.merged_issues ≡ 7 ∷ 8 ∷ []
unfolding run_work_unit Scheduler.prepare Sorter.prepare Sorter.has_cycle Sorter.nodes init
    build_dag blockers dependents is_active Scheduler.get_ready Sorter.get_ready Sorter.create
    mark_done Sorter.done reconstruct loop fetch_daemon_labels label_edit_call should_launch_worker
    assert_single_state find_issue_pr merge_issue_branch evaluate_ci classify_check_runs job_by_name
    dispatch after_worker gate_turn complete_merged mark_started open_pr
all_merged = refl

unit_continues : unit_run.flow ≡ continues
unfolding run_work_unit Scheduler.prepare Sorter.prepare Sorter.has_cycle Sorter.nodes init
    build_dag blockers dependents is_active Scheduler.get_ready Sorter.get_ready Sorter.create
    mark_done Sorter.done reconstruct loop fetch_daemon_labels label_edit_call should_launch_worker
    assert_single_state find_issue_pr merge_issue_branch evaluate_ci classify_check_runs job_by_name
    dispatch after_worker gate_turn complete_merged mark_started open_pr
unit_continues = refl

unit_acyclic : Sorter.has_cycle (graph_of services settings (7 ∷ 8 ∷ []) 0) ≡ false
unfolding Sorter.has_cycle Sorter.nodes build_dag blockers fetch_blockers
unit_acyclic = refl

run_work_unit-Accounts_example :
    (unit_run.flow ≢ out_of_fuel)
    × ((recovered : RecoveryResult) × (w' : ℕ) × (recovered
          ≡ (reconstruct services.outside services.texts (7 ∷ 8 ∷ []) w').1)
        × Accounts services settings recovered
            (graph_of services settings (7 ∷ 8 ∷ []) 0)
            unit_run.unit)
run_work_unit-Accounts_example = run_work_unit-Accounts services settings (7 ∷ 8 ∷ []) handed 0

run_work_unit-settles_example :
    (contains unit_run.unit.merged_issues 8 || contains unit_run.unit.context.sched.parked 8) ≡ true
run_work_unit-settles_example =
    run_work_unit-settles services settings (7 ∷ 8 ∷ []) handed 0 (λ v k. k) unit_acyclic
      unit_continues 8 refl

turn-Handled_example :
    Ends services settings nothing_found 7 handed.context.sched handed.context.parked_reasons
      handed.merged_issues
      (turn services settings nothing_found 7 handed 0)
turn-Handled_example = turn-Handled services settings nothing_found 7 handed 0

turn-Launched_example :
    let t = turn services settings nothing_found 7 handed 0 in
    (t.unit.dispatched ≡ [])
    ⊎ ((7 ∉ nothing_found.done)
        × (7 ∉ nothing_found.parked_seed)
        × (7 ∉ nothing_found.ci_gate_reentry)
        × (handed.dispatched ≡ handed.dispatched)
        × Launched services settings 7 handed 0 t.unit.dispatched)
turn-Launched_example = turn-Launched services settings nothing_found 7 handed 0

abbrev heads : List PullRequest
heads = record { head_ref_name = "baton/1"; head_ref_oid = "abc" } ∷ []

find_issue_pr-has_open_pr_example :
    ((find_issue_pr services.texts 7 (some heads) ≡ none)
      × (has_open_pr services.texts 7 (map (λ pr. pr.head_ref_name) heads) ≡ false))
    ⊎ ((branch sha : String) × ((find_issue_pr services.texts 7 (some heads) ≡ some (branch, sha))
          × IsFirstFor services.texts 7 heads branch sha))
find_issue_pr-has_open_pr_example = find_issue_pr-has_open_pr services.texts 7 heads

abbrev two_graph : Graph
two_graph = (build_dag (7 ∷ 8 ∷ []) ((7, []) ∷ (8, 7 ∷ []) ∷ [])).graph

two_prepared : Scheduler.prepare (init two_graph) ≡ some (started two_graph)
unfolding Scheduler.prepare Sorter.prepare Sorter.has_cycle Sorter.nodes init build_dag blockers
    started Sorter.create
two_prepared = refl

loop-EndsWell_example :
    let t =
      loop services settings nothing_found 3 [] [] (with_sched (started two_graph) handed) 0 in
    IsKept services settings nothing_found two_graph t.unit
    × EndsWell services settings t
    × (((v : ℕ) → v ∈ 7 ∷ 8 ∷ [] → is_actionable nothing_found settings.agent_ready_issues v ≡ true)
        → t.flow ≡ continues
        → is_active t.unit.context.sched ≡ false)
loop-EndsWell_example =
    loop-EndsWell services settings (7 ∷ 8 ∷ []) ((7, []) ∷ (8, 7 ∷ []) ∷ []) nothing_found handed 0
      two_prepared (refl, refl)
