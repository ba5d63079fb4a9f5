-- ===== src/AfterRun/Attempts.antt =====
-- The attempts of the hook at `gh pr list`.
use baton_harness.Base.{
  ℕ, zero, suc, ◌<◌, String, ◌≡◌, refl, ◌∙◌, ◌⊎◌, inl, inr, Bool, true, false, Option, none, some,
  arith, if◌then◌else◌, Option-cases, nat_eq, string_eq,
}
use baton_harness.AfterRun.{
  pr_list_loop, RunOutcome, Hook, committed_no_pr, pr_opened, transient_error, gh_pr_list,
}

module _ {W : Type 0} (hook : Hook W) (branch : String) where
  -- What one attempt answers: are there open pull requests? `none` where it counts as transient.
  abbrev pub answer : W → Option Bool
  answer w =
      let (w', result) = hook.run (gh_pr_list branch) w in
      if result.succeeded then hook.parse_prs result.stdout else none

  -- The world after `k` attempts.
  pub attempted : (k : ℕ) → W → W
  attempted zero w = w
  attempted (suc k) w = attempted k (hook.run (gh_pr_list branch) w).0

  abbrev pub outcome_of : Bool → RunOutcome
  outcome_of has_prs = if has_prs then pr_opened else committed_no_pr

  pr_list_loop-none :
      (attempts : ℕ) (w : W)
      → answer w ≡ none
      → pr_list_loop hook (suc attempts) branch w
        ≡ pr_list_loop hook attempts branch (hook.run (gh_pr_list branch) w).0
  unfolding pr_list_loop
  pr_list_loop-none attempts w e = ground (arith, e)

  pr_list_loop-some :
      (attempts : ℕ) (w : W) (has_prs : Bool)
      → answer w ≡ some has_prs
      → pr_list_loop hook (suc attempts) branch w
        ≡ ((hook.run (gh_pr_list branch) w).0, outcome_of has_prs)
  unfolding pr_list_loop
  pr_list_loop-some attempts w true e = ground (arith, e)
  pr_list_loop-some attempts w false e = ground (arith, e)

  unanswered-suc :
      (k : ℕ) (w : W)
      → answer w ≡ none
      → ((j : ℕ) → j < k → answer (attempted j (hook.run (gh_pr_list branch) w).0) ≡ none)
      → (j : ℕ) → j < suc k
      → answer (attempted j w) ≡ none
  unfolding attempted
  unanswered-suc k w e before zero l = e
  unanswered-suc k w e before (suc j) l = before j (omega arith)

  -- The first attempt that answers decides, and is the last one made; where none of them answers the
  -- outcome is the transient error, after all of them.
  pub pr_list_loop-first :
      (attempts : ℕ) (w : W)
      → ((k : ℕ) × (has_prs : Bool) × (k < attempts)
          × ((j : ℕ) → j < k → answer (attempted j w) ≡ none)
          × (answer (attempted k w) ≡ some has_prs)
          × (pr_list_loop hook attempts branch w ≡ (attempted (suc k) w, outcome_of has_prs)))
        ⊎ (((j : ℕ) → j < attempts → answer (attempted j w) ≡ none)
            × (pr_list_loop hook attempts branch w ≡ (attempted attempts w, transient_error)))
  unfolding pr_list_loop attempted
  pr_list_loop-first zero w = inr (λ j l. absurd (omega arith), refl)
  pr_list_loop-first (suc attempts) w =
      let w' = (hook.run (gh_pr_list branch) w).0 in
      elim (Option-cases (answer w)) [
        | inl e ↦ elim (pr_list_loop-first attempts w') [
          | inl (k, has_prs, l, before, here, r) ↦ inl (
            suc k,
            has_prs,
            omega arith,
            unanswered-suc k w e before,
            here,
            pr_list_loop-none attempts w e ∙ r,
          )
          | inr (before, r) ↦
              inr (unanswered-suc attempts w e before, pr_list_loop-none attempts w e ∙ r)
        ]
        | inr (has_prs, e) ↦ inl (
          0,
          has_prs,
          omega arith,
          λ j l. absurd (omega arith),
          e,
          pr_list_loop-some attempts w has_prs e,
        )
      ]
