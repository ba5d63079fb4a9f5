-- ===== src/AfterRun/Settled.antt =====
-- The labels that the hook leaves on an issue.
use baton_harness.Base.{
  ℕ, String, ◌≡◌, refl, sym, ap, ◌∙◌, ◌≢◌, ◌⊎◌, inl, inr, true, false, not, ◌&&◌, ◌||◌, List, [],
  ◌∷◌, arith, eq_iff, Bool-cases, string_eq, nat_eq, ◌==◌, ==_refl, contains, ◌∈◌, ◌∉◌,
}
use baton_harness.Labels.{agent_ready, agent_done, blocked}
use baton_harness.AfterRun.{
  target_of, reconcile_labels, RunOutcome, Hook, uncommitted_changes, no_commits, committed_no_pr,
  pr_opened, transient_error, worker_tried_merge, code,
}
use baton_harness.AfterRun.Applied.{Applied, reconcile_labels-applies, KeepsLabels}

-- The labels that the hook moves between.
abbrev pub hook_labels : List String
hook_labels = agent_ready ∷ agent_done ∷ blocked ∷ []

abbrev pub AtMostOne : List String → Type 0
AtMostOne labels =
    (j k : String) → j ∈ hook_labels → k ∈ hook_labels → j ∈ labels → k ∈ labels → j ≡ k

module _ {W : Type 0} (hook : Hook W) (actual : W → ℕ → List String)
    (keeps : KeepsLabels hook actual) where
  target-cases :
      (outcome : RunOutcome)
      → ((outcome ≡ pr_opened) × (target_of outcome ≡ agent_done))
        ⊎ ((outcome ≢ pr_opened) × (target_of outcome ≡ blocked))
  unfolding target_of
  target-cases pr_opened = inl (refl, refl)
  target-cases uncommitted_changes = inr (λ e. ground arith, refl)
  target-cases no_commits = inr (λ e. ground arith, refl)
  target-cases committed_no_pr = inr (λ e. ground arith, refl)
  target-cases transient_error = inr (λ e. ground arith, refl)
  target-cases worker_tried_merge = inr (λ e. ground arith, refl)

  target_is_hook_label : (outcome : RunOutcome) → target_of outcome ∈ hook_labels
  unfolding target_of
  target_is_hook_label pr_opened = ==_refl agent_done
  target_is_hook_label uncommitted_changes = ==_refl blocked
  target_is_hook_label no_commits = ==_refl blocked
  target_is_hook_label committed_no_pr = ==_refl blocked
  target_is_hook_label transient_error = ==_refl blocked
  target_is_hook_label worker_tried_merge = ==_refl blocked

  -- A label of the hook that is left on an issue that was not blocked is the target.
  left_is_target :
      (outcome : RunOutcome) (before : List String) (j : String)
      → contains before blocked ≡ false
      → (agent_done ∈ before → outcome ≡ pr_opened)
      → j ∈ hook_labels
      → (j == target_of outcome || contains before j && not (j == agent_ready)) ≡ true
      → j ≡ target_of outcome
  left_is_target outcome before j b d m h = elim (Bool-cases (j == target_of outcome)) [
    | inl e ↦ (eq_iff j (target_of outcome)).0 e
    | inr other ↦ elim (target-cases outcome) [
      | inl (o, t) ↦
          ground (arith, t, other, b, eq_iff j agent_ready, eq_iff j agent_done, eq_iff j blocked)
      | inr (o, t) ↦ absurd (
          ground
            (arith, t, o, other, b, d, eq_iff j agent_ready, eq_iff j agent_done, eq_iff j blocked))
    ]
  ]

  settled-AtMostOne :
      (n : ℕ) (outcome : RunOutcome) (w : W)
      → outcome ≢ transient_error
      → AtMostOne (actual w n)
      → (agent_done ∈ actual w n → outcome ≡ pr_opened)
      → AtMostOne (actual (reconcile_labels hook n outcome w).0 n)
  unfolding Applied
  settled-AtMostOne n outcome w h one d =
      elim (reconcile_labels-applies hook actual keeps n outcome w h) [
        | inl (x, a) ↦ elim (Bool-cases (contains (actual w n) blocked)) [
          | inl b ↦ λ j k jh kh jp kp.
              one j k jh kh (ground (arith, a j, b, jp)) (ground (arith, a k, b, kp))
          | inr u ↦
              let is_target : (j : String)
                  → j ∈ hook_labels
                  → j ∈ actual (reconcile_labels hook n outcome w).0 n
                  → j ≡ target_of outcome =
                λ j jh jp.
                  left_is_target outcome (actual w n) j u d jh (ground (arith, a j, u, jp)) in
              λ j k jh kh jp kp. is_target j jh jp ∙ sym (is_target k kh kp)
        ]
        | inr (x, a) ↦ λ j k jh kh jp kp. one j k jh kh (a j jp) (a k kp)
      ]

  -- The three labels of the hook are exclusive after `_reconcile_labels`, whatever the outcome of the run
  -- and whatever it returns, when they were before and "agent-done" was not on an issue whose run opened no
  -- pull request.
  pub reconcile_labels-AtMostOne :
      (n : ℕ) (outcome : RunOutcome) (w : W)
      → AtMostOne (actual w n)
      → (agent_done ∈ actual w n → outcome ≡ pr_opened)
      → AtMostOne (actual (reconcile_labels hook n outcome w).0 n)
  unfolding reconcile_labels
  reconcile_labels-AtMostOne n transient_error w one d = one
  reconcile_labels-AtMostOne n pr_opened w one d = settled-AtMostOne n pr_opened w (λ e. cc) one d
  reconcile_labels-AtMostOne n no_commits w one d = settled-AtMostOne n no_commits w (λ e. cc) one d
  reconcile_labels-AtMostOne n committed_no_pr w one d =
      settled-AtMostOne n committed_no_pr w (λ e. cc) one d
  reconcile_labels-AtMostOne n uncommitted_changes w one d =
      settled-AtMostOne n uncommitted_changes w (λ e. cc) one d
  reconcile_labels-AtMostOne n worker_tried_merge w one d =
      settled-AtMostOne n worker_tried_merge w (λ e. cc) one d

  -- Where `_reconcile_labels` returns 0 for a run that was no transient error, "agent-ready" is off the
  -- issue, and one of three holds: it was "blocked" and is still; it was not, the run opened a pull request,
  -- and it is "agent-done"; it was not, the run opened none, and it is "blocked".
  pub reconcile_labels-target :
      (n : ℕ) (outcome : RunOutcome) (w : W)
      → outcome ≢ transient_error
      → (reconcile_labels hook n outcome w).1 ≡ code 0
      → let after = actual (reconcile_labels hook n outcome w).0 n in
        (agent_ready ∉ after)
        × (((blocked ∈ actual w n) × (blocked ∈ after))
            ⊎ (((blocked ∉ actual w n) × (outcome ≡ pr_opened) × (agent_done ∈ after))
                ⊎ ((blocked ∉ actual w n) × (outcome ≢ pr_opened) × (blocked ∈ after))))
  unfolding Applied
  reconcile_labels-target n outcome w h e =
      elim (reconcile_labels-applies hook actual keeps n outcome w h) [
        | inr (x, a) ↦ absurd (x e)
        | inl (x, a) ↦ elim (Bool-cases (contains (actual w n) blocked)) [
          | inl b ↦ (
            ground (arith, a agent_ready, b, ==_refl agent_ready),
            inl (b, ground (arith, a blocked, b, eq_iff blocked agent_ready)),
          )
          | inr u ↦ elim (target-cases outcome) [
            | inl (o, t) ↦ (
              ground (arith, a agent_ready, u, ap (λ l. agent_ready == l) t),
              inr (inl (u, o, ground (arith, a agent_done, u, ap (λ l. agent_done == l) t))),
            )
            | inr (o, t) ↦ (
              ground (arith, a agent_ready, u, ap (λ l. agent_ready == l) t),
              inr (inr (u, o, ground (arith, a blocked, u, ap (λ l. blocked == l) t))),
            )
          ]
        ]
      ]

  -- An issue that is already "agent-done" and whose next run opens no pull request ends with both
  -- "agent-done" and "blocked" whenever `_reconcile_labels` returns 0.
  pub reconcile_labels-agent_done :
      (n : ℕ) (outcome : RunOutcome) (w : W)
      → outcome ≢ transient_error
      → outcome ≢ pr_opened
      → agent_done ∈ actual w n
      → blocked ∉ actual w n
      → (reconcile_labels hook n outcome w).1 ≡ code 0
      → (agent_done ∈ actual (reconcile_labels hook n outcome w).0 n)
        × (blocked ∈ actual (reconcile_labels hook n outcome w).0 n)
  unfolding Applied
  reconcile_labels-agent_done n outcome w h o d b e =
      elim (reconcile_labels-applies hook actual keeps n outcome w h) [
        | inr (x, a) ↦ absurd (x e)
        | inl (x, a) ↦ elim (target-cases outcome) [
          | inl (p, t) ↦ absurd (o p)
          | inr (p, t) ↦ (
            ground (arith, a agent_done, d, eq_iff agent_done agent_ready),
            ground (arith, a blocked, t, b, eq_iff blocked (target_of outcome)),
          )
        ]
      ]
