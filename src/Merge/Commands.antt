-- ===== src/Merge/Commands.antt =====
-- The commands that one merge issues, and what it takes for it to issue them.
use mathlib.Core.Path.{subst}
use text.Mathlib.Text.{starts_with}
use baton_harness.Base.{
  ℕ, ◌<◌, String, ◌≡◌, refl, sym, ap, ◌∙◌, ◌≢◌, ◌⊎◌, inl, inr, true, some, List, [], ◌∷◌, ◌++◌,
  arith, Bool-cases, Option-cases, string_eq, nat_eq, All, append_nil,
}
use baton_harness.CiGate.{Job, CiDiagnostic, green, red, timeout, raised, verdict}
use baton_harness.CiGate.Verdict.{classify_check_runs-green, Passed}
use baton_harness.CiGate.Polling.{evaluate_ci-Explains}
use baton_harness.Merge.{
  perform, persist_ci_green, merge_green, gated, ci_verdict, merge_issue_branch, Command, Result,
  Remote, Gate, State, Request, merged, merge_conflict, checkout, merge_no_ff, merge_abort,
  add_merged_label, comment, returned, raises_runtime_error,
}

snoc-append {ℓ} :
    {A : Type ℓ} (xs : List A) (a : A) (ys : List A) → (xs ++ a ∷ []) ++ ys ≡ xs ++ a ∷ ys
snoc-append [] a ys = refl
snoc-append (x ∷ xs) a ys = ap (λ l. x ∷ l) (snoc-append xs a ys)

snoc-append_3 {ℓ} :
    {A : Type ℓ} (xs : List A) (a b c : A)
    → ((xs ++ a ∷ []) ++ b ∷ []) ++ c ∷ [] ≡ xs ++ a ∷ b ∷ c ∷ []
snoc-append_3 xs a b c = snoc-append (xs ++ a ∷ []) b (c ∷ []) ∙ snoc-append xs a (b ∷ c ∷ [])

module _ {W : Type 0} (remote : Remote W) (request : Request) (feature_branch : String) where
  -- The commands of a merge behind a GREEN verdict, by what it comes to: the issue is labelled only
  -- behind a merge, and a failed merge is aborted.
  abbrev pub GreenRun : List Command → Result → Type 0
  GreenRun commands result =
      let message = remote.merge_message request.issue request.issue_branch feature_branch in
      let merge = merge_no_ff message request.issue_branch in
      ((commands ≡ checkout feature_branch ∷ []) × (result ≡ raises_runtime_error))
      ⊎ ((commands ≡ checkout feature_branch ∷ merge ∷ merge_abort ∷ [])
          × (result ≡ returned merge_conflict))
      ⊎ ((commands
            ≡ checkout feature_branch
              ∷ merge
              ∷ add_merged_label request.issue
              ∷ comment request.issue (remote.marker request.issue request.pr_head_sha)
              ∷ [])
          × (result ≡ returned merged))

  merge_green-GreenRun :
      (s : State W)
      → (commands : List Command) × ((merge_green remote request feature_branch s).0.issued
          ≡ s.issued ++ commands)
        × GreenRun commands (merge_green remote request feature_branch s).1
  unfolding merge_green persist_ci_green perform
  merge_green-GreenRun s =
      let message = remote.merge_message request.issue request.issue_branch feature_branch in
      let merge = merge_no_ff message request.issue_branch in
      let s1 = (perform remote (checkout feature_branch) s).0 in
      elim (Bool-cases (perform remote (checkout feature_branch) s).1) [
        | inr f ↦ (checkout feature_branch ∷ [], ground (arith, f), inl (refl, ground (arith, f)))
        | inl c ↦ elim (Bool-cases (perform remote merge s1).1) [
          | inr f ↦ (
            checkout feature_branch ∷ merge ∷ merge_abort ∷ [],
            ground
                (arith, c, f, snoc-append_3 s.issued (checkout feature_branch) merge merge_abort),
            inr (inl (refl, ground (arith, c, f))),
          )
          | inl m ↦
              let label = add_merged_label request.issue in
              let marked =
                comment request.issue (remote.marker request.issue request.pr_head_sha) in
              let four =
                snoc-append s.issued (checkout feature_branch) (merge ∷ label ∷ marked ∷ []) in
              let three =
                snoc-append (s.issued ++ checkout feature_branch ∷ []) merge
                  (label ∷ marked ∷ []) in
              let two =
                snoc-append ((s.issued ++ checkout feature_branch ∷ []) ++ merge ∷ []) label
                  (marked ∷ []) in
              (
                checkout feature_branch ∷ merge ∷ label ∷ marked ∷ [],
                ground (arith, c, m, two, three, four),
                inr (inr (refl, ground (arith, c, m))),
              )
        ]
      ]

  -- What the gate saw when it said GREEN: a round in which every required check had passed.
  abbrev pub GreenAt : Gate → State W → Type 0
  GreenAt gate s =
      (round : ℕ) × (runs : List Job) × (round < gate.rounds)
      × ((remote.polls request.pr_head_sha s.world round).runs ≡ some runs)
      × All (Passed runs) gate.required

  green_at :
      (gate : Gate) (s : State W) (diagnostic d : CiDiagnostic)
      → ci_verdict remote gate request diagnostic s ≡ some (verdict green d)
      → GreenAt gate s
  unfolding ci_verdict
  green_at gate s diagnostic d h =
      let (k, l, explained, before) =
        evaluate_ci-Explains gate.required (remote.now s.world) gate.limit gate.sleeps
          (remote.polls request.pr_head_sha s.world) gate.rounds diagnostic (verdict green d) h in
      let (runs, e, g) = explained in
      (k, runs, l, e, (classify_check_runs-green runs gate.required).0 g)

  -- `merge_issue_branch` issues no command at all unless the feature branch starts with "feature/" and, in
  -- some round of the gate, every required check had passed; then it checks the branch out and merges,
  -- aborts a merge that failed, and labels the issue only behind a merge that succeeded, which it reports.
  pub merge_issue_branch-GreenRun :
      (gate : Gate) (diagnostic : CiDiagnostic) (s : State W)
      → (commands : List Command) × ((merge_issue_branch remote gate request feature_branch
            diagnostic s).0.issued
          ≡ s.issued ++ commands)
        × (((commands ≡ [])
              × ((merge_issue_branch remote gate request feature_branch diagnostic s).1
                  ≢ returned merged))
            ⊎ ((starts_with feature_branch "feature/" ≡ true)
                × GreenAt gate s
                × GreenRun commands
                    (merge_issue_branch remote gate request feature_branch diagnostic s).1))
  unfolding merge_issue_branch
  merge_issue_branch-GreenRun gate diagnostic s =
      elim (Bool-cases (starts_with feature_branch "feature/")) [
        | inr f ↦ ([], ground (arith, f, append_nil s.issued), inl (refl, ground (arith, f)))
        | inl y ↦ elim (Option-cases (ci_verdict remote gate request diagnostic s)) [
          | inl e ↦
              ([], ground (arith, y, e, append_nil s.issued), inl (refl, ground (arith, y, e)))
          | inr (raised, e) ↦
              ([], ground (arith, y, e, append_nil s.issued), inl (refl, ground (arith, y, e)))
          | inr (verdict red d, e) ↦
              ([], ground (arith, y, e, append_nil s.issued), inl (refl, ground (arith, y, e)))
          | inr (verdict timeout d, e) ↦
              ([], ground (arith, y, e, append_nil s.issued), inl (refl, ground (arith, y, e)))
          | inr (verdict green d, e) ↦
              let (commands, i, g) = merge_green-GreenRun (gated remote request s) in
              let same : merge_issue_branch remote gate request feature_branch diagnostic s
                  ≡ merge_green remote request feature_branch (gated remote request s) =
                ground (arith, y, e) in
              (
                commands,
                ap (λ r. r.0.issued) same ∙ i,
                inr (
                  y,
                  green_at gate s diagnostic d e,
                  subst (λ r. GreenRun commands r.1) (sym same) g,
                ),
              )
        ]
      ]
