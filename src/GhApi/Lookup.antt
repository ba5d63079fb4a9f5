-- ===== src/GhApi/Lookup.antt =====
-- The pull request that `_find_issue_pr` of src/baton_harness/chain/daemon/gh_api_helpers.py finds.
use mathlib.Core.Path.{subst}
use baton_harness.Base.{
  ℕ, String, ◌≡◌, refl, ap, ◌↔◌, ◌⊎◌, inl, inr, true, false, none, some, List, [], ◌∷◌, ◌++◌, map,
  arith, Bool-cases, Option-cases, string_eq, nat_eq,
}
use baton_harness.Recovery.{has_open_pr, Texts}
use baton_harness.GhApi.{find_pr, find_issue_pr, PullRequest}

-- The pull request is the first one of the list whose branch the rule on names gives to the issue.
abbrev pub IsFirstFor : Texts → ℕ → List PullRequest → String → String → Type 0
IsFirstFor texts n prs branch sha =
    (before after : List PullRequest) × ((pr : PullRequest) × (prs ≡ before ++ pr ∷ after)
      × (pr.head_ref_name ≡ branch)
      × (pr.head_ref_oid ≡ sha)
      × (has_open_pr texts n (branch ∷ []) ≡ true)
      × (has_open_pr texts n (map (λ p. p.head_ref_name) before) ≡ false))

module _ (texts : Texts) where
  find_pr-IsFirstFor :
      (n : ℕ) (prs : List PullRequest) (branch sha : String)
      → find_pr texts n prs ≡ some (branch, sha)
      → IsFirstFor texts n prs branch sha
  unfolding find_pr has_open_pr
  find_pr-IsFirstFor n [] branch sha e = absurd (ground (arith, e))
  find_pr-IsFirstFor n (pr ∷ prs) branch sha e =
      elim (Bool-cases (has_open_pr texts n (pr.head_ref_name ∷ []))) [
        | inl own ↦
            let named : pr.head_ref_name ≡ branch = ground (arith, e, own) in
            let found : pr.head_ref_oid ≡ sha = ground (arith, e, own) in
            (
              [],
              prs,
              (
                pr,
                refl,
                named,
                found,
                subst (λ b. has_open_pr texts n (b ∷ []) ≡ true) named own,
                refl,
              ),
            )
        | inr other ↦
            let (before, after, (found, is, named, at, own, none_before)) =
              find_pr-IsFirstFor n prs branch sha (ground (arith, e, other)) in
            (
              pr ∷ before,
              after,
              (found, ap (λ ps. pr ∷ ps) is, named, at, own, ground (arith, other, none_before)),
            )
      ]

  find_pr-none :
      (n : ℕ) (prs : List PullRequest)
      → (find_pr texts n prs ≡ none)
        ↔ (has_open_pr texts n (map (λ pr. pr.head_ref_name) prs) ≡ false)
  unfolding find_pr has_open_pr
  find_pr-none n [] = ground arith
  find_pr-none n (pr ∷ prs) = ground (arith, find_pr-none n prs)

  -- Either no pull request is found and recovery's test finds no branch of the issue among the listed ones,
  -- or the branch and the commit are those of the first listed pull request whose branch the test finds.
  pub find_issue_pr-has_open_pr :
      (n : ℕ) (prs : List PullRequest)
      → ((find_issue_pr texts n (some prs) ≡ none)
          × (has_open_pr texts n (map (λ pr. pr.head_ref_name) prs) ≡ false))
        ⊎ ((branch sha : String) × ((find_issue_pr texts n (some prs) ≡ some (branch, sha))
              × IsFirstFor texts n prs branch sha))
  unfolding find_issue_pr
  find_issue_pr-has_open_pr n prs = elim (Option-cases (find_pr texts n prs)) [
    | inl e ↦ inl (e, (find_pr-none n prs).0 e)
    | inr ((branch, sha), e) ↦ inr (branch, sha, (e, find_pr-IsFirstFor n prs branch sha e))
  ]
