-- ===== src/WorkUnit/Launches.antt =====
-- When a turn of the loop of src/baton_harness/chain/daemon/work_unit.py hands an issue to a worker.
use baton_harness.Base.{
  ℕ, String, ◌≡◌, refl, inl, inr, not, ◌&&◌, List, arith, Bool-cases, Option-cases, string_eq,
  nat_eq, ◌==◌, contains,
}
use baton_harness.Labels.{blocked, state_labels_in, assert_single_state, Violation}
use baton_harness.Scheduler.{mark_done}
use baton_harness.World.{fetch_daemon_labels}
use baton_harness.CiGate.{is_empty}
use baton_harness.Merge.{
  Result, Request, merged, ci_failed, ci_timeout, merge_conflict, returned, raises_value_error,
  raises_runtime_error, raises_query_error, unfinished,
}
use baton_harness.GhApi.{find_issue_pr}
use baton_harness.WorkUnit.{
  park_turn, edit_labels_turn, mark_started, complete_merged, Services, Settings, UnitState,
}
use baton_harness.WorkUnit.MergeGate.{
  gate_diagnostic, attempt, park_outcome, gate_result, run_ci_gate, gate_turn,
}
use baton_harness.WorkUnit.Recovered.{reenter_result, reenter_ci_gate}
use baton_harness.WorkUnit.Afterwards.{
  park_violation, converge, violated, pr_created, not_created, judge, after_worker,
}
use baton_harness.WorkUnit.Dispatch.{
  after_launch, Launch, not_launched, launch_raised, launch_returned,
}

module _ {W : Type 0} (services : Services W) (settings : Settings) where
  open services use {texts}

  complete_merged-dispatched :
      (n : ℕ) (s : UnitState) (w : W)
      → (complete_merged services n s w).unit.dispatched ≡ s.dispatched
  unfolding complete_merged
  complete_merged-dispatched n s w = elim (Option-cases (mark_done s.context.sched n)) [
    | inl e ↦ rw (complete_merged, e) refl
    | inr (sched, e) ↦ rw (complete_merged, e) refl
  ]

  gate_result-dispatched :
      (request : Request) (w : W) (result : Result) (s : UnitState) (w' : W)
      → (gate_result services settings result
          (gate_diagnostic services settings request w)
          request.issue
          s
          w').0.unit.dispatched
        ≡ s.dispatched
  unfolding gate_result park_outcome park_turn
  gate_result-dispatched request w (returned merged) s w' =
      complete_merged-dispatched request.issue s w'
  gate_result-dispatched request w (returned ci_failed) s w' = refl
  gate_result-dispatched request w (returned ci_timeout) s w' = refl
  gate_result-dispatched request w (returned merge_conflict) s w' = refl
  gate_result-dispatched request w unfinished s w' = refl
  gate_result-dispatched request w raises_value_error s w' = refl
  gate_result-dispatched request w raises_runtime_error s w' = refl
  gate_result-dispatched request w raises_query_error s w' = refl

  gate_turn-dispatched :
      (request : Request) (s : UnitState) (w : W)
      → (gate_turn services settings request s w).unit.dispatched ≡ s.dispatched
  unfolding gate_turn run_ci_gate
  gate_turn-dispatched request s w =
      let attempted = attempt services settings request w in
      let kept = gate_result-dispatched request w attempted.1 s attempted.0 in ground (arith, kept)

  reenter_result-dispatched :
      (result : Result) (n : ℕ) (s : UnitState) (w : W)
      → (reenter_result services settings result n s w).unit.dispatched ≡ s.dispatched
  unfolding reenter_result park_turn
  reenter_result-dispatched (returned merged) n s w = complete_merged-dispatched n s w
  reenter_result-dispatched (returned ci_failed) n s w = refl
  reenter_result-dispatched (returned ci_timeout) n s w = refl
  reenter_result-dispatched (returned merge_conflict) n s w = refl
  reenter_result-dispatched unfinished n s w = refl
  reenter_result-dispatched raises_value_error n s w = refl
  reenter_result-dispatched raises_runtime_error n s w = refl
  reenter_result-dispatched raises_query_error n s w = refl

  pub reenter_ci_gate-dispatched :
      (n : ℕ) (s : UnitState) (w : W)
      → (reenter_ci_gate services settings n s w).unit.dispatched ≡ s.dispatched
  unfolding reenter_ci_gate mark_started park_turn
  reenter_ci_gate-dispatched n s w =
      elim (Option-cases (find_issue_pr texts n (services.pr_list w).1)) [
        | inl e ↦ rw (reenter_ci_gate, e) refl
        | inr ((branch, sha), e) ↦ rw (reenter_ci_gate, e) (reenter_result-dispatched _ n _ _)
      ]

  violated-dispatched :
      (n : ℕ) (violation : Violation) (post : List String) (s : UnitState) (w : W)
      → (violated services settings n violation post s w).unit.dispatched ≡ s.dispatched
  unfolding violated park_violation converge edit_labels_turn park_turn
  violated-dispatched n violation post s w =
      elim (Bool-cases (is_empty (state_labels_in post) && not (contains post blocked))) [
        | inr f ↦ rw f refl
        | inl y ↦ elim (Option-cases (find_issue_pr texts n (services.pr_list w).1)) [
          | inl e ↦ rw y (rw e refl)
          | inr ((branch, sha), e) ↦ rw y (rw e (gate_turn-dispatched _ _ _))
        ]
      ]

  judge-dispatched :
      (n : ℕ) (result : String) (post : List String) (s : UnitState) (w : W)
      → (judge services settings n result post s w).unit.dispatched ≡ s.dispatched
  unfolding judge pr_created not_created park_turn
  judge-dispatched n result post s w = elim (Option-cases (assert_single_state post)) [
    | inr (violation, e) ↦ rw (judge, e) (violated-dispatched n violation post s w)
    | inl e ↦ elim (Bool-cases (result == "pr_created" && not (contains post blocked))) [
      | inl y ↦ elim (Option-cases (find_issue_pr texts n (services.pr_list w).1)) [
        | inl p ↦ rw (judge, e) (rw y (rw (pr_created, p) refl))
        | inr ((branch, sha), p) ↦
            rw (judge, e) (rw y (rw (pr_created, p) (gate_turn-dispatched _ s _)))
      ]
      | inr f ↦ rw (judge, e) (rw f (ground arith))
    ]
  ]

  pub after_launch-dispatched :
      (n : ℕ) (result : Launch) (s : UnitState) (w : W)
      → (after_launch services settings n result s w).unit.dispatched ≡ s.dispatched
  unfolding after_launch after_worker park_turn
  after_launch-dispatched n not_launched s w = refl
  after_launch-dispatched n (launch_raised text) s w = refl
  after_launch-dispatched n (launch_returned text) s w =
      elim (Option-cases (fetch_daemon_labels services.gh n w).1) [
        | inl e ↦ rw (after_worker, e) refl
        | inr (post, e) ↦ rw (after_worker, e) (judge-dispatched n text post s _)
      ]
