-- ===== src/WorkUnit/Turns.antt =====
-- The turn of an issue in the loop of src/baton_harness/chain/daemon/work_unit.py, branch by branch.
use mathlib.Core.Path.{subst}
use baton_harness.Base.{
  ℕ, String, ◌≡◌, refl, ◌⊎◌, inl, inr, Bool, true, false, not, ◌&&◌, Option, none, some, List, [],
  ◌∷◌, arith, Bool-cases, Option-cases, string_eq, nat_eq, ◌==◌, contains,
}
use baton_harness.Labels.{
  agent_ready, blocked, agent_in_progress, state_labels_in, assert_single_state, Violation,
}
use baton_harness.Scheduler.{}
use baton_harness.World.{fetch_daemon_labels}
use baton_harness.CiGate.{is_empty, raised}
use baton_harness.Merge.{}
use baton_harness.Recovery.{RecoveryResult}
use baton_harness.LaunchGate.{Decision, launch, refuse, raised}
use baton_harness.GhApi.{find_issue_pr, Issue}
use baton_harness.Park.{}
use baton_harness.Park.Charging.{}
use baton_harness.WorkUnit.{
  with_report, edit_labels_turn, mark_started, Services, Settings, UnitState, Turn,
}
use baton_harness.WorkUnit.MergeGate.{}
use baton_harness.WorkUnit.Recovered.{
  recovered_parked, redispatch_breach, park_redispatch_loop, clear_orphan,
}
use baton_harness.WorkUnit.Afterwards.{
  park_violation, converge, violated, pr_created, not_created, judge, after_worker,
}
use baton_harness.WorkUnit.Dispatch.{
  ask_gate, launch_worker, refuse_launch, launch_one_issue, after_launch, dispatch_checked,
  dispatch_fetched, dispatch_from, prepare_dispatch, is_excluded, dispatch, Launch, not_launched,
  launch_raised, launch_returned,
}
use baton_harness.WorkUnit.Loop.{redispatch_turn, turn}
use baton_harness.WorkUnit.Endings.{
  park_turn-Handles, gate_turn-Handles, recovered_done-Handles, reenter_ci_gate-Handles, Ends,
  leaves,
}

pub decision_cases : (d : Decision) → (d ≡ launch) ⊎ ((d ≡ refuse) ⊎ (d ≡ raised))
decision_cases launch = inl refl
decision_cases refuse = inr (inl refl)
decision_cases raised = inr (inr refl)

module _ {W : Type 0} (services : Services W) (settings : Settings)
    (recovered : RecoveryResult) where
  open services use {texts}

  abbrev Handled : ℕ → UnitState → Turn W → Type 0
  Handled n s t =
      Ends services settings recovered n s.context.sched s.context.parked_reasons s.merged_issues t

  violated-Handled :
      (n : ℕ) (violation : Violation) (post : List String) (s : UnitState) (w : W)
      → Handled n s (violated services settings n violation post s w)
  unfolding violated park_violation converge edit_labels_turn
  violated-Handled n violation post s w =
      let (w₁, prs) = services.pr_list w in
      elim (Bool-cases (is_empty (state_labels_in post) && not (contains post blocked))) [
        | inr f ↦ rw f (park_turn-Handles services settings recovered _ _ _ _ _ n s w)
        | inl y ↦ elim (Option-cases (find_issue_pr texts n prs)) [
          | inl e ↦ rw y (rw e (park_turn-Handles services settings recovered _ _ _ _ _ n s w₁))
          | inr ((branch, sha), e) ↦
              rw y (rw e (gate_turn-Handles services settings recovered _ _ _))
        ]
      ]

  pr_created-Handled :
      (n : ℕ) (s : UnitState) (w : W) → Handled n s (pr_created services settings n s w)
  unfolding pr_created
  pr_created-Handled n s w =
      let (w₁, prs) = services.pr_list w in
      elim (Option-cases (find_issue_pr texts n prs)) [
        | inl e ↦
            rw (pr_created, e) (park_turn-Handles services settings recovered _ _ _ _ _ n s w₁)
        | inr ((branch, sha), e) ↦
            rw (pr_created, e) (gate_turn-Handles services settings recovered _ s w₁)
      ]

  not_created-Handled :
      (n : ℕ) (has_blocked : Bool) (s : UnitState) (w : W)
      → Handled n s (not_created services settings n has_blocked s w)
  unfolding not_created
  not_created-Handled n true s w = park_turn-Handles services settings recovered _ _ _ _ _ n s w
  not_created-Handled n false s w = park_turn-Handles services settings recovered _ _ _ _ _ n s w

  judge-Handled :
      (n : ℕ) (result : String) (post : List String) (s : UnitState) (w : W)
      → Handled n s (judge services settings n result post s w)
  unfolding judge
  judge-Handled n result post s w = elim (Option-cases (assert_single_state post)) [
    | inr (violation, e) ↦ rw (judge, e) (violated-Handled n violation post s w)
    | inl e ↦ elim (Bool-cases (result == "pr_created" && not (contains post blocked))) [
      | inl y ↦ rw (judge, e) (rw y (pr_created-Handled n s w))
      | inr f ↦ rw (judge, e) (rw f (not_created-Handled n _ s w))
    ]
  ]

  after_worker-Handled :
      (n : ℕ) (result : String) (s : UnitState) (w : W)
      → Handled n s (after_worker services settings n result s w)
  unfolding after_worker
  after_worker-Handled n result s w =
      let (w₁, labels) = fetch_daemon_labels services.gh n w in
      elim (Option-cases labels) [
        | inl e ↦
            rw (after_worker, e) (park_turn-Handles services settings recovered _ _ _ _ _ n s w₁)
        | inr (post, e) ↦ rw (after_worker, e) (judge-Handled n result post s w₁)
      ]

  after_launch-Handled :
      (n : ℕ) (result : Launch) (s : UnitState) (w : W)
      → Handled n s (after_launch services settings n result s w)
  unfolding after_launch
  after_launch-Handled n not_launched s w =
      park_turn-Handles services settings recovered _ _ _ _ _ n s w
  after_launch-Handled n (launch_raised text) s w =
      park_turn-Handles services settings recovered _ _ _ _ _ n s w
  after_launch-Handled n (launch_returned text) s w = after_worker-Handled n text s w

  -- A launch leaves the scheduler, the reasons and the merged issues alone.
  launch_one_issue-keeps :
      (issue : Issue) (base : String) (url : Option String) (s : UnitState) (w : W)
      → let s' = (launch_one_issue services settings issue base url s w).1 in
        (s'.context.sched ≡ s.context.sched)
        × (s'.context.parked_reasons ≡ s.context.parked_reasons)
        × (s'.merged_issues ≡ s.merged_issues)
  unfolding launch_one_issue refuse_launch launch_worker edit_labels_turn
  launch_one_issue-keeps issue base url s w =
      elim (decision_cases (ask_gate services settings url w).1) [
        | inl e ↦ (ground (arith, e), ground (arith, e), ground (arith, e))
        | inr (inl e) ↦ (ground (arith, e), ground (arith, e), ground (arith, e))
        | inr (inr e) ↦ (ground (arith, e), ground (arith, e), ground (arith, e))
      ]

  dispatch_checked-Handled :
      (n : ℕ) (issue : Issue) (base : String) (app_id : Option String)
      (observability : Option (Option String)) (s : UnitState) (w : W)
      → Handled n s (dispatch_checked services settings n issue base app_id observability s w)
  unfolding dispatch_checked
  dispatch_checked-Handled n issue base none observability s w =
      park_turn-Handles services settings recovered _ _ _ _ _ n s w
  dispatch_checked-Handled n issue base (some id) none s w =
      park_turn-Handles services settings recovered _ _ _ _ _ n s w
  dispatch_checked-Handled n issue base (some id) (some url) s w =
      let (w', s', result) = launch_one_issue services settings issue base url s w in
      let (a, b, c) = launch_one_issue-keeps issue base url s w in
      rw (a, b, c) at (after_launch-Handled n result s' w')

  dispatch_fetched-Handled :
      (n : ℕ) (issue : Issue) (base : String) (s : UnitState) (w : W)
      → Handled n s (dispatch_fetched services settings n issue base s w)
  unfolding dispatch_fetched
  dispatch_fetched-Handled n issue base s w = dispatch_checked-Handled n issue base _ _ s w

  dispatch_from-Handled :
      (n : ℕ) (cut_point : String) (s : UnitState) (w : W)
      → Handled n s (dispatch_from services settings n cut_point s w)
  unfolding dispatch_from edit_labels_turn mark_started
  dispatch_from-Handled n cut_point s w =
      elim (Option-cases
        (services.fetch_issue n
          (edit_labels_turn services n (agent_in_progress ∷ []) (agent_ready ∷ []) s w).0).1) [
            | inl e ↦
                rw (dispatch_from, e)
                  (park_turn-Handles services settings recovered _ _ _ _ _ n _ _)
            | inr (issue, e) ↦
                rw (dispatch_from, e) (dispatch_fetched-Handled n issue cut_point _ _)
          ]

  prepare_dispatch-Handled :
      (n : ℕ) (s : UnitState) (w : W) → Handled n s (prepare_dispatch services settings n s w)
  unfolding prepare_dispatch
  prepare_dispatch-Handled n s w =
      let (w₁, checked_out) = services.checkout_feature_branch settings.slug w in
      let (w₂, cut_point) = services.record_cut_point settings.slug w₁ in
      elim (Bool-cases checked_out) [
        | inr f ↦ rw (prepare_dispatch, f) (leaves (inl (refl, inr (w, inl f))) refl refl refl)
        | inl y ↦ elim (Option-cases cut_point) [
          | inl e ↦
              rw (prepare_dispatch, y, e) (leaves (inl (refl, inr (w₁, inr e))) refl refl refl)
          | inr (base, e) ↦ rw (prepare_dispatch, y, e) (dispatch_from-Handled n base s w₂)
        ]
      ]

  dispatch-Handled :
      (n : ℕ) (s : UnitState) (w : W) → Handled n s (dispatch services settings n s w)
  unfolding dispatch
  dispatch-Handled n s w =
      let (w₁, labels) = fetch_daemon_labels services.gh n w in
      elim (Option-cases labels) [
        | inl e ↦ rw (dispatch, e) (park_turn-Handles services settings recovered _ _ _ _ _ n s w₁)
        | inr (pre, e) ↦ elim (Bool-cases (is_excluded services settings pre)) [
          | inl y ↦
              rw (dispatch, e, y) (park_turn-Handles services settings recovered _ _ _ _ _ n s w₁)
          | inr f ↦ rw (dispatch, e, f) (prepare_dispatch-Handled n s w₁)
        ]
      ]

  redispatch_breach-keeps :
      (n : ℕ) (s : UnitState) (w : W)
      → (redispatch_breach services settings n s w).0.context ≡ s.context
  unfolding redispatch_breach
  redispatch_breach-keeps n s w = elim (Option-cases s.tally) [
    | inl e ↦ ground (arith, e)
    | inr (t, e) ↦ ground (arith, e)
  ]

  redispatch_breach-merged :
      (n : ℕ) (s : UnitState) (w : W)
      → (redispatch_breach services settings n s w).0.merged_issues ≡ s.merged_issues
  unfolding redispatch_breach
  redispatch_breach-merged n s w = elim (Option-cases s.tally) [
    | inl e ↦ ground (arith, e)
    | inr (t, e) ↦ ground (arith, e)
  ]

  keep_end :
      (n : ℕ) (s s' : UnitState) (t : Turn W)
      → s'.context ≡ s.context
      → s'.merged_issues ≡ s.merged_issues
      → Handled n s' t
      → Handled n s t
  keep_end n s s' t c m h =
      subst (λ c. Ends services settings recovered n c.sched c.parked_reasons s.merged_issues t) c
        (subst
          (λ l. Ends services settings recovered n s'.context.sched s'.context.parked_reasons l t) m
          h)

  park_redispatch_loop-Handled :
      (n : ℕ) (s : UnitState) (w : W) → Handled n s (park_redispatch_loop services settings n s w)
  unfolding park_redispatch_loop
  park_redispatch_loop-Handled n s w =
      park_turn-Handles services settings recovered _ _ _ _ _ n (with_report _ s) _

  redispatch_turn-Handled :
      (n : ℕ) (s : UnitState) (w : W)
      → Handled n s (redispatch_turn services settings recovered n s w)
  unfolding redispatch_turn park_redispatch_loop edit_labels_turn
  redispatch_turn-Handled n s w =
      let (s', breach) = redispatch_breach services settings n s w in
      let kept = redispatch_breach-keeps n s w in
      let merged_kept = redispatch_breach-merged n s w in
      elim (Bool-cases breach) [
        | inl y ↦
            rw (redispatch_turn, y)
              (keep_end n s s' _ kept merged_kept (park_redispatch_loop-Handled n s' w))
        | inr f ↦
            rw (redispatch_turn, f)
              (keep_end n s s' _ kept merged_kept (
                dispatch-Handled n (clear_orphan services settings n s' w).1
                  (clear_orphan services settings n s' w).0))
      ]

  -- The turn of an issue parks it, or marks it done because it was merged, or leaves the loop, and with it
  -- the scheduler, the reasons and the merged issues as they were: on an exception of the scheduler's
  -- `mark_done` or of a git command on the feature branch, or on a gate that sees no end.
  pub turn-Handled :
      (n : ℕ) (s : UnitState) (w : W) → Handled n s (turn services settings recovered n s w)
  unfolding turn recovered_parked
  turn-Handled n s w = elim (Bool-cases (contains recovered.done n)) [
    | inl d ↦ rw (turn, d) (recovered_done-Handles services settings recovered n s w d)
    | inr d ↦ elim (Bool-cases (contains recovered.parked_seed n)) [
      | inl p ↦ rw (turn, d, p) (park_turn-Handles services settings recovered _ _ _ _ _ n s w)
      | inr p ↦ elim (Bool-cases (contains recovered.ci_gate_reentry n)) [
        | inl c ↦ rw (turn, d, p, c) (reenter_ci_gate-Handles services settings recovered n s w)
        | inr c ↦ elim (Bool-cases (contains recovered.redispatch n)) [
          | inl r ↦ rw (turn, d, p, c, r) (redispatch_turn-Handled n s w)
          | inr r ↦ rw (turn, d, p, c, r) (dispatch-Handled n s w)
        ]
      ]
    ]
  ]
