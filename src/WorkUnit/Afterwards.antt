-- ===== src/WorkUnit/Afterwards.antt =====
-- What `_run_work_unit` of src/baton_harness/chain/daemon/work_unit.py does once a worker has returned: the
-- labels decide whether the issue goes to the CI gate or is parked.
use baton_harness.Base.{
  ℕ, String, Bool, true, false, not, ◌&&◌, none, some, List, [], ◌∷◌, if◌then◌else◌, string_eq,
  nat_eq, ◌==◌, filter, concat, contains,
}
use baton_harness.Labels.{
  blocked, agent_in_progress, state_labels_in, assert_single_state, target_state_from_observed,
  Violation,
}
use baton_harness.World.{fetch_daemon_labels, warn, critical, block, debug}
use baton_harness.Merge.{Request}
use baton_harness.GhApi.{find_issue_pr}
use baton_harness.Park.{charged, state_intact, unknown_state}
use baton_harness.CiGate.{is_empty}
use baton_harness.WorkUnit.{park_turn, edit_labels_turn, Services, Settings, UnitState, Turn}
use baton_harness.WorkUnit.MergeGate.{gate_turn}

module _ {W : Type 0} (services : Services W) (settings : Settings) where
  open services use {gh, texts, renderings, pr_list}

  abbrev issue_text : ℕ → List String → String
  issue_text n rest = concat ("Issue #" ∷ texts.str_of n ∷ rest)

  unfoldable pub park_violation : ℕ → Violation → UnitState → W → Turn W
  park_violation n violation s w =
      let text = renderings.violation_text violation in
      park_turn services unknown_state (concat ("label invariant violation: " ∷ text ∷ []))
        (some (issue_text n (" failed the single-state label invariant: " ∷ text ∷ []))) critical
        block n s w

  -- The backstop for an issue without any state label and with an open pull request.
  unfoldable pub converge : ℕ → (present : List String) → Request → UnitState → W → Turn W
  converge n present request s w =
      let target = target_state_from_observed false true in
      let removes = agent_in_progress ∷ filter (λ l. not (l == target)) present in
      let (w', s') = edit_labels_turn services n (target ∷ []) removes s w in
      gate_turn services settings request s' w'

  -- A violated single-state invariant.
  unfoldable pub violated : ℕ → Violation → (post_labels : List String) → UnitState → W → Turn W
  unfolding park_violation converge
  violated n violation post_labels s w =
      let present = state_labels_in post_labels in
      if is_empty present && not (contains post_labels blocked)
      then (let (w', prs) = pr_list w in
          elim (find_issue_pr texts n prs) [
            | none ↦ park_violation n violation s w'
            | some (branch, sha) ↦
                converge n present (record { issue = n; pr_head_sha = sha; issue_branch = branch })
                  s w'
          ])
      else park_violation n violation s w

  -- "pr_created" without the label "blocked".
  unfoldable pub pr_created : ℕ → UnitState → W → Turn W
  pr_created n s w =
      let (w', prs) = pr_list w in
      elim (find_issue_pr texts n prs) [
        | none ↦
            park_turn services charged "pr_created but no PR located"
              (some (issue_text n (" returned pr_created but no PR found." ∷ []))) warn debug n s w'
        | some (branch, sha) ↦
            gate_turn services settings
              (record { issue = n; pr_head_sha = sha; issue_branch = branch }) s w'
      ]

  unfoldable pub not_created : ℕ → (has_blocked : Bool) → UnitState → W → Turn W
  not_created n has_blocked s w =
      let reason_text =
        if has_blocked then "blocked label set" else "no PR created (agent may have failed)" in
      let detail = issue_text n (" parked: " ∷ reason_text ∷ "." ∷ []) in
      if has_blocked
      then park_turn services state_intact reason_text (some detail) warn block n s w
      else park_turn services charged reason_text (some detail) warn debug n s w

  unfoldable pub judge :
      ℕ → (worker_result : String) → (post_labels : List String) → UnitState → W → Turn W
  unfolding violated pr_created not_created
  judge n worker_result post_labels s w = elim (assert_single_state post_labels) [
    | some violation ↦ violated n violation post_labels s w
    | none ↦
        let has_blocked = contains post_labels blocked in
        if worker_result == "pr_created" && not has_blocked
        then pr_created n s w
        else not_created n has_blocked s w
  ]

  unfoldable pub after_worker : ℕ → (worker_result : String) → UnitState → W → Turn W
  unfolding judge
  after_worker n worker_result s w =
      let (w', labels) = fetch_daemon_labels gh n w in
      elim labels [
        | none ↦
            park_turn services unknown_state "labels unreadable"
              (some (
                issue_text n
                  (" labels unreadable; cannot verify single-state invariant — parking." ∷ [])))
              critical block n s w'
        | some post_labels ↦ judge n worker_result post_labels s w'
      ]
