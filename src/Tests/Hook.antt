-- ===== src/Tests/Hook.antt =====
-- The after-run hook and the single-state check on concrete issues.
use baton_harness.Base.{
  ℕ, String, ◌≡◌, refl, ◌≢◌, ◌↔◌, ◌⊎◌, true, false, not, none, some, List, [], ◌∷◌, arith, eq_iff,
  string_eq, nat_eq, ◌==◌, filter, ◌∈◌, ◌∉◌, add, contains-filter, contains-add,
}
use baton_harness.Labels.{agent_ready, agent_done, blocked, assert_single_state}
use baton_harness.Labels.Single.{assert_single_state-none, IsSingle}
use baton_harness.AfterRun.{
  reconcile_labels, Command, Completed, Hook, no_commits, pr_opened, add_label, remove_label,
  label_names, code,
}
use baton_harness.AfterRun.Applied.{KeepsLabels}
use baton_harness.AfterRun.Settled.{
  AtMostOne, reconcile_labels-AtMostOne, reconcile_labels-target, reconcile_labels-agent_done,
}

assert_single_state-none_example :
    (assert_single_state (agent_ready ∷ "bug" ∷ []) ≡ none)
    ↔ ((l : String) × IsSingle (agent_ready ∷ "bug" ∷ []) l)
assert_single_state-none_example = assert_single_state-none (agent_ready ∷ "bug" ∷ [])

-- The labels of the only issue are the world; every command succeeds.
abbrev apply : Command → List String → List String × Completed
apply (add_label n l) w = (add l w, record { succeeded = true; stdout = "" })
apply (remove_label n l) w =
    (filter (λ k. not (k == l)) w, record { succeeded = true; stdout = "" })
apply _ w = (w, record { succeeded = true; stdout = "" })

abbrev hook : Hook (List String)
hook = record {
  run = apply;
  view_labels = λ n w. (w, label_names w);
  sentinel_exists = λ w. false;
  base_branch = none;
  escalate = λ n w. w;
  strip = λ s. s;
  splitlines = λ s. s ∷ [];
  is_ahead = λ s. true;
  parse_prs = λ s. some true;
}

abbrev actual : List String → ℕ → List String
actual w n = w

keeps : KeepsLabels hook actual
keeps = record {
  view_shows = λ n w ls e k. ground (arith, e);
  view_keeps = λ n w k. refl;
  add_applies = λ n l w k. contains-add l w k;
  remove_applies = λ n l w k. contains-filter (λ j. not (j == l)) w k;
  escalate_keeps = λ n w k. refl;
}

ready_AtMostOne : AtMostOne (agent_ready ∷ [])
ready_AtMostOne j k jh kh jp kp = ground (arith, eq_iff j agent_ready, eq_iff k agent_ready)

reconcile_labels-AtMostOne_example :
    AtMostOne (actual (reconcile_labels hook 7 pr_opened (agent_ready ∷ [])).0 7)
reconcile_labels-AtMostOne_example =
    reconcile_labels-AtMostOne hook actual keeps 7 pr_opened (agent_ready ∷ []) ready_AtMostOne
      (λ m. refl)

reconcile_returns : (reconcile_labels hook 7 no_commits (agent_ready ∷ [])).1 ≡ code 0
unfolding reconcile_labels
reconcile_returns = refl

reconcile_labels-target_example :
    let after = actual (reconcile_labels hook 7 no_commits (agent_ready ∷ [])).0 7 in
    (agent_ready ∉ after)
    × (((blocked ∈ agent_ready ∷ []) × (blocked ∈ after))
        ⊎ (((blocked ∉ agent_ready ∷ []) × (no_commits ≡ pr_opened) × (agent_done ∈ after))
            ⊎ ((blocked ∉ agent_ready ∷ []) × (no_commits ≢ pr_opened) × (blocked ∈ after))))
reconcile_labels-target_example =
    reconcile_labels-target hook actual keeps 7 no_commits (agent_ready ∷ []) (λ e. ground arith)
      reconcile_returns

done_returns : (reconcile_labels hook 7 no_commits (agent_done ∷ [])).1 ≡ code 0
unfolding reconcile_labels
done_returns = refl

reconcile_labels-agent_done_example :
    (agent_done ∈ actual (reconcile_labels hook 7 no_commits (agent_done ∷ [])).0 7)
    × (blocked ∈ actual (reconcile_labels hook 7 no_commits (agent_done ∷ [])).0 7)
reconcile_labels-agent_done_example =
    reconcile_labels-agent_done hook actual keeps 7 no_commits (agent_done ∷ []) (λ e. ground arith)
      (λ e. ground arith) refl refl done_returns
