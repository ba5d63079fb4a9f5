-- ===== src/WorkUnit/Endings.antt =====
-- How a turn of the loop of src/baton_harness/chain/daemon/work_unit.py ends: the issue is parked or marked
-- done, or the turn leaves the loop and the scheduler as it was.
use baton_harness.Base.{
  ℕ, String, ◌≡◌, refl, ◌⊎◌, inl, inr, false, Option, none, some, List, [], ◌∷◌, ◌++◌, arith,
  if◌then◌else◌, Option-cases, string_eq, nat_eq, ◌==◌, ◌∈◌, lookup,
}
use baton_harness.Scheduler.{IssueScheduler, mark_done, mark_parked}
use baton_harness.World.{Severity, Kind}
use baton_harness.Merge.{
  Result, Request, merged, ci_failed, ci_timeout, merge_conflict, returned, raises_value_error,
  raises_runtime_error, raises_query_error, unfinished,
}
use baton_harness.Recovery.{RecoveryResult}
use baton_harness.GhApi.{find_issue_pr}
use baton_harness.Park.{ParkClass}
use baton_harness.Park.Charging.{park_issue_parks}
use baton_harness.WorkUnit.{
  park_turn, mark_started, complete_merged, Services, Settings, UnitState, Turn, continues, raises,
  hangs,
}
use baton_harness.WorkUnit.MergeGate.{
  gate_diagnostic, attempt, park_outcome, gate_result, run_ci_gate, gate_turn,
}
use baton_harness.WorkUnit.Recovered.{recovered_done, reenter_result, reenter_ci_gate}

-- Why an issue may be marked done: recovery found its merge, or a merge of it has just come back MERGED.
abbrev pub MergedFor : {W : Type 0} → Services W → Settings → RecoveryResult → ℕ → Type 0
MergedFor services settings recovered n =
    (n ∈ recovered.done)
    ⊎ ((request : Request) × (w : _) × (request.issue ≡ n)
        × ((attempt services settings request w).1 ≡ returned merged))

-- A checkout of the feature branch or its cut point failed.
abbrev pub BranchFails : {W : Type 0} → Services W → Settings → Type 0
BranchFails services settings =
    (w : _) × (((services.checkout_feature_branch settings.slug w).1 ≡ false)
      ⊎ ((services.record_cut_point settings.slug w).1 ≡ none))

-- The end of the turn of issue `n`, begun with that scheduler, those reasons and those merged issues.
pub data Ends {W : Type 0} (services : Services W) (settings : Settings)
    (recovered : RecoveryResult) (n : ℕ) (sched : IssueScheduler) (reasons : List (ℕ × String))
    (merged_issues : List ℕ) (t : Turn W) : Type 0 where
  parks :
      (reason : String)
      → t.flow ≡ continues
      → t.unit.context.sched ≡ mark_parked sched n
      → ((j : ℕ)
          → lookup t.unit.context.parked_reasons j
            ≡ (if j == n then some reason else lookup reasons j))
      → t.unit.merged_issues ≡ merged_issues
      → Ends services settings recovered n sched reasons merged_issues t
  completes :
      MergedFor services settings recovered n
      → t.flow ≡ continues
      → mark_done sched n ≡ some t.unit.context.sched
      → t.unit.context.parked_reasons ≡ reasons
      → t.unit.merged_issues ≡ merged_issues ++ n ∷ []
      → Ends services settings recovered n sched reasons merged_issues t
  leaves :
      ((t.flow ≡ raises) × ((mark_done sched n ≡ none) ⊎ BranchFails services settings))
        ⊎ ((t.flow ≡ hangs)
            × ((request : Request) × (w : W) × ((attempt services settings request w).1
                  ≡ unfinished)))
      → t.unit.context.sched ≡ sched
      → t.unit.context.parked_reasons ≡ reasons
      → t.unit.merged_issues ≡ merged_issues
      → Ends services settings recovered n sched reasons merged_issues t

module _ {W : Type 0} (services : Services W) (settings : Settings)
    (recovered : RecoveryResult) where
  open services use {texts}

  abbrev pub Handles : ℕ → UnitState → Turn W → Type 0
  Handles n s t =
      Ends services settings recovered n s.context.sched s.context.parked_reasons s.merged_issues t

  pub park_turn-Handles :
      (class : ParkClass) (reason : String) (detail : Option String) (severity : Severity)
      (kind : Kind) (n : ℕ) (s : UnitState) (w : W)
      → Handles n s (park_turn services class reason detail severity kind n s w)
  unfolding park_turn
  park_turn-Handles class reason detail severity kind n s w =
      let (parked, reasons, live) =
        park_issue_parks services.gh texts.str_of texts.int_of n class reason detail severity kind
          (services.park_alert n w) (services.charge_written w) (services.reset_written w) s.context
          w in
      parks reason refl parked reasons refl

  pub complete_merged-Handles :
      (n : ℕ) (s : UnitState) (w : W)
      → MergedFor services settings recovered n
      → Handles n s (complete_merged services n s w)
  unfolding complete_merged
  complete_merged-Handles n s w m = elim (Option-cases (mark_done s.context.sched n)) [
    | inl e ↦
        leaves (inl (ground (arith, e), inl e)) (ground (arith, e)) (ground (arith, e))
          (ground (arith, e))
    | inr (sched, e) ↦
        completes m (ground (arith, e)) (ground (arith, e)) (ground (arith, e)) (ground (arith, e))
  ]

  pub gate_result-Handles :
      (request : Request) (w : W) (result : Result)
      → (attempt services settings request w).1 ≡ result
      → (s : UnitState) (w' : W)
      → Handles request.issue s
          (gate_result services settings result
            (gate_diagnostic services settings request w)
            request.issue
            s
            w').0
  unfolding gate_result park_outcome
  gate_result-Handles request w (returned merged) e s w' =
      complete_merged-Handles request.issue s w' (inr (request, w, refl, e))
  gate_result-Handles request w (returned ci_failed) e s w' =
      park_turn-Handles _ _ _ _ _ request.issue s w'
  gate_result-Handles request w (returned ci_timeout) e s w' =
      park_turn-Handles _ _ _ _ _ request.issue s w'
  gate_result-Handles request w (returned merge_conflict) e s w' =
      park_turn-Handles _ _ _ _ _ request.issue s w'
  gate_result-Handles request w unfinished e s w' =
      leaves (inr (refl, (request, w, e))) refl refl refl
  gate_result-Handles request w raises_value_error e s w' =
      park_turn-Handles _ _ _ _ _ request.issue s w'
  gate_result-Handles request w raises_runtime_error e s w' =
      park_turn-Handles _ _ _ _ _ request.issue s w'
  gate_result-Handles request w raises_query_error e s w' =
      park_turn-Handles _ _ _ _ _ request.issue s w'

  -- A change that keeps the scheduler, the reasons and the merged issues of a turn's end.
  pub gate_turn-Handles :
      (request : Request) (s : UnitState) (w : W)
      → Handles request.issue s (gate_turn services settings request s w)
  unfolding gate_turn run_ci_gate
  gate_turn-Handles request s w =
      elim (gate_result-Handles request w (attempt services settings request w).1 refl s
        (attempt services settings request w).0) [
          | parks reason f a b c ↦
              parks reason (ground (arith, f)) (ground (arith, f, a)) (λ j. ground (arith, f, b j))
                (ground (arith, f, c))
          | completes m f a b c ↦
              completes m (ground (arith, f)) (ground (arith, f, a)) (ground (arith, f, b))
                (ground (arith, f, c))
          | leaves (inl (f, why)) a b c ↦
              leaves (inl (ground (arith, f), why)) (ground (arith, f, a)) (ground (arith, f, b))
                (ground (arith, f, c))
          | leaves (inr (f, why)) a b c ↦
              leaves (inr (ground (arith, f), why)) (ground (arith, f, a)) (ground (arith, f, b))
                (ground (arith, f, c))
        ]

  pub recovered_done-Handles :
      (n : ℕ) (s : UnitState) (w : W)
      → n ∈ recovered.done
      → Handles n s (recovered_done services settings n s w)
  unfolding recovered_done
  recovered_done-Handles n s w m = elim (Option-cases (mark_done s.context.sched n)) [
    | inl e ↦ rw (recovered_done, e) (leaves (inl (refl, inl e)) refl refl refl)
    | inr (sched, e) ↦ rw (recovered_done, e) (completes (inl m) refl e refl refl)
  ]

  pub reenter_result-Handles :
      (request : Request) (w : W) (result : Result)
      → (attempt services settings request w).1 ≡ result
      → (s : UnitState) (w' : W)
      → Handles request.issue s (reenter_result services settings result request.issue s w')
  unfolding reenter_result
  reenter_result-Handles request w (returned merged) e s w' =
      complete_merged-Handles request.issue s w' (inr (request, w, refl, e))
  reenter_result-Handles request w (returned ci_failed) e s w' =
      park_turn-Handles _ _ _ _ _ request.issue s w'
  reenter_result-Handles request w (returned ci_timeout) e s w' =
      park_turn-Handles _ _ _ _ _ request.issue s w'
  reenter_result-Handles request w (returned merge_conflict) e s w' =
      park_turn-Handles _ _ _ _ _ request.issue s w'
  reenter_result-Handles request w unfinished e s w' =
      leaves (inr (refl, (request, w, e))) refl refl refl
  reenter_result-Handles request w raises_value_error e s w' =
      park_turn-Handles _ _ _ _ _ request.issue s w'
  reenter_result-Handles request w raises_runtime_error e s w' =
      park_turn-Handles _ _ _ _ _ request.issue s w'
  reenter_result-Handles request w raises_query_error e s w' =
      park_turn-Handles _ _ _ _ _ request.issue s w'

  pub reenter_ci_gate-Handles :
      (n : ℕ) (s : UnitState) (w : W) → Handles n s (reenter_ci_gate services settings n s w)
  unfolding reenter_ci_gate mark_started
  reenter_ci_gate-Handles n s w =
      let (w₁, prs) = services.pr_list w in
      elim (Option-cases (find_issue_pr texts n prs)) [
        | inl e ↦ rw (reenter_ci_gate, e) (park_turn-Handles _ _ _ _ _ n s w₁)
        | inr ((branch, sha), e) ↦
            let request : Request = record {
              issue = n;
              pr_head_sha = sha;
              issue_branch = branch;
            } in
            let attempted = attempt services settings request w₁ in
            rw (reenter_ci_gate, e)
              (reenter_result-Handles request w₁ attempted.1 refl
                (mark_started services settings n false s w₁) attempted.0)
      ]
