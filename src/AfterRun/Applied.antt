-- ===== src/AfterRun/Applied.antt =====
-- How the hook of src/baton_harness/after_run.py moves the labels of an issue.
use baton_harness.Base.{
  ℕ, String, ◌≡◌, refl, sym, ◌∙◌, ◌≢◌, ◌⊎◌, inl, inr, true, not, ◌&&◌, ◌||◌, List, arith, eq_iff,
  Bool-cases, string_eq, nat_eq, ◌==◌, contains,
}
use baton_harness.Labels.{agent_ready, blocked}
use baton_harness.AfterRun.{
  labels_of_reply, target_of, remove_ready, settle_labels, reconcile_with, reconcile_labels,
  RunOutcome, ViewReply, Hook, Exit, transient_error, worker_tried_merge, add_label, remove_label,
  view_failed, not_json, bad_shape, label_names, code,
}

-- GitHub keeps the labels of each issue: a view shows them, a successful command edits one label, a
-- failed one none, and an alert leaves them alone.
pub record KeepsLabels {W : Type 0} (hook : Hook W) (actual : W → ℕ → List String) : Type 0 where
  pub view_shows :
      (n : ℕ) (w : W) (ls : List String)
      → (hook.view_labels n w).1 ≡ label_names ls
      → (k : String) → contains ls k ≡ contains (actual w n) k
  pub view_keeps :
      (n : ℕ) (w : W) (k : String)
      → contains (actual (hook.view_labels n w).0 n) k ≡ contains (actual w n) k
  pub add_applies :
      (n : ℕ) (l : String) (w : W) (k : String)
      → contains (actual (hook.run (add_label n l) w).0 n) k
        ≡ ((hook.run (add_label n l) w).1.succeeded && k == l || contains (actual w n) k)
  pub remove_applies :
      (n : ℕ) (l : String) (w : W) (k : String)
      → contains (actual (hook.run (remove_label n l) w).0 n) k
        ≡ (contains (actual w n) k && not ((hook.run (remove_label n l) w).1.succeeded && k == l))
  pub escalate_keeps :
      (n : ℕ) (w : W) (k : String)
      → contains (actual (hook.escalate n w) n) k ≡ contains (actual w n) k

module _ {W : Type 0} (hook : Hook W) (actual : W → ℕ → List String)
    (keeps : KeepsLabels hook actual) where
  remove_ready-applies :
      (n : ℕ) (labels : List String) (w : W)
      → ((k : String) → contains labels k ≡ contains (actual w n) k)
      → (k : String)
      → contains (actual (remove_ready hook n labels w).0 n) k
        ≡ (contains (actual w n) k && not ((remove_ready hook n labels w).1 && k == agent_ready))
  unfolding remove_ready
  remove_ready-applies n labels w h k = elim (Bool-cases (contains labels agent_ready)) [
    | inl r ↦ ground (arith, r, keeps.remove_applies n agent_ready w k)
    | inr m ↦ ground (arith, m, h agent_ready, eq_iff k agent_ready)
  ]

  -- What becomes of each label when the labels read are those of the issue.
  settle_labels-applies :
      (n : ℕ) (outcome : RunOutcome) (labels : List String) (w : W)
      → ((k : String) → contains labels k ≡ contains (actual w n) k)
      → (((settle_labels hook n outcome labels w).1 ≡ code 0)
          × ((k : String)
              → contains (actual (settle_labels hook n outcome labels w).0 n) k ≡ (
                  not (contains labels blocked) && k == target_of outcome
                  || contains (actual w n) k && not (k == agent_ready))))
        ⊎ (((settle_labels hook n outcome labels w).1 ≡ code 1)
            × ((k : String)
                → contains (actual (settle_labels hook n outcome labels w).0 n) k ≡ true
                → contains (actual w n) k ≡ true))
  unfolding settle_labels
  settle_labels-applies n outcome labels w h =
      let r = remove_ready hook n labels w in
      let removed = remove_ready-applies n labels w h in
      let added = keeps.add_applies n (target_of outcome) r.0 in
      elim (Bool-cases r.1) [
        | inr m ↦ inr (ground (arith, m), λ k. ground (arith, m, removed k))
        | inl ok ↦ elim (Bool-cases (contains labels blocked)) [
          | inl b ↦ inl (ground (arith, ok, b), λ k. ground (arith, ok, b, removed k))
          | inr u ↦ elim (Bool-cases (hook.run (add_label n (target_of outcome)) r.0).1.succeeded) [
            | inl a ↦
                inl (ground (arith, ok, u, a), λ k. ground (arith, ok, u, a, removed k, added k))
            | inr f ↦
                inr (ground (arith, ok, u, f), λ k. ground (arith, ok, u, f, removed k, added k))
          ]
        ]
      ]

  -- Either the labels move as `settle_labels` moves them, or the exit is not 0 and none is gained.
  unfoldable pub Applied : ℕ → RunOutcome → List String → W × Exit → Type 0
  Applied n outcome before r =
      ((r.1 ≡ code 0)
        × ((k : String)
            → contains (actual r.0 n) k ≡ (
                not (contains before blocked) && k == target_of outcome
                || contains before k && not (k == agent_ready))))
      ⊎ ((r.1 ≢ code 0)
          × ((k : String) → contains (actual r.0 n) k ≡ true → contains before k ≡ true))

  reconcile_with-reply :
      (n : ℕ) (outcome : RunOutcome) (before : List String) (w : W)
      → ((k : String) → contains (actual w n) k ≡ contains before k)
      → (reply : ViewReply) → (hook.view_labels n w).1 ≡ reply
      → Applied n outcome before (reconcile_with hook n outcome w)
  unfolding Applied reconcile_with labels_of_reply
  reconcile_with-reply n outcome before w h view_failed e =
      inr (ground (arith, e), λ k. ground (arith, e, h k, keeps.view_keeps n w k))
  reconcile_with-reply n outcome before w h not_json e =
      inr (ground (arith, e), λ k. ground (arith, e, h k, keeps.view_keeps n w k))
  reconcile_with-reply n outcome before w h bad_shape e =
      inr (ground (arith, e), λ k. ground (arith, e, h k, keeps.view_keeps n w k))
  reconcile_with-reply n outcome before w h (label_names ls) e =
      elim (settle_labels-applies n outcome ls (hook.view_labels n w).0
        (λ k. keeps.view_shows n w ls e k ∙ sym (keeps.view_keeps n w k))) [
          | inl (x, a) ↦ inl (
            ground (arith, e, x),
            λ k. ground (
              arith,
              e,
              a k,
              h k,
              h blocked,
              keeps.view_keeps n w k,
              keeps.view_shows n w ls e blocked,
              keeps.view_keeps n w blocked,
            ),
          )
          | inr (x, a) ↦
              inr (ground (arith, e, x), λ k. ground (arith, e, a k, h k, keeps.view_keeps n w k))
        ]

  pub reconcile_labels-applies :
      (n : ℕ) (outcome : RunOutcome) (w : W)
      → outcome ≢ transient_error
      → Applied n outcome (actual w n) (reconcile_labels hook n outcome w)
  unfolding reconcile_labels
  reconcile_labels-applies n transient_error w h = absurd (h refl)
  reconcile_labels-applies n worker_tried_merge w h =
      reconcile_with-reply n worker_tried_merge (actual w n) (hook.escalate n w)
        (keeps.escalate_keeps n w) (hook.view_labels n (hook.escalate n w)).1 refl
  reconcile_labels-applies n outcome w h =
      reconcile_with-reply n outcome (actual w n) w (λ k. refl) (hook.view_labels n w).1 refl
