-- ===== src/Merge/Batch.antt =====
-- The order in which a batch merges, and where it stops.
use baton_harness.Base.{
  ℕ, String, ◌≡◌, refl, ◌∙◌, ◌≢◌, inr, List, [], ◌∷◌, ◌++◌, arith, nat_eq, string_eq, insert,
}
use baton_harness.CiGate.{fresh_diagnostic}
use baton_harness.Merge.{
  merge_issue_branch, merge_loop, MergeOutcome, Result, Remote, Gate, State, Request, merged,
  ci_failed, ci_timeout, merge_conflict, returned,
}

module _ {W : Type 0} (remote : Remote W) (gate : Gate) (feature_branch : String) where
  abbrev pub attempt : Request → State W → State W × Result
  attempt request s = merge_issue_branch remote gate request feature_branch fresh_diagnostic s

  -- The state once the requests have been attempted, in order.
  abbrev pub attempted : List Request → State W → State W
  attempted [] s = s
  attempted (request ∷ requests) s = attempted requests (attempt request s).0

  abbrev pub AllMerged : List Request → State W → Type 0
  AllMerged [] s = Unit
  AllMerged (request ∷ requests) s =
      ((attempt request s).1 ≡ returned merged) × AllMerged requests (attempt request s).0

  -- The outcomes once these requests have all been merged.
  abbrev pub record_merged : List Request → List (ℕ × MergeOutcome) → List (ℕ × MergeOutcome)
  record_merged [] outcomes = outcomes
  record_merged (request ∷ requests) outcomes =
      record_merged requests (insert request.issue merged outcomes)

  merge_loop-merged :
      (front rest : List Request) (s : State W) (outcomes : List (ℕ × MergeOutcome))
      → AllMerged front s
      → merge_loop remote gate feature_branch (front ++ rest) s outcomes
        ≡ merge_loop remote gate feature_branch rest
            (attempted front s)
            (record_merged front outcomes)
  unfolding merge_loop
  merge_loop-merged [] rest s outcomes m = refl
  merge_loop-merged (request ∷ front) rest s outcomes m =
      let later =
        merge_loop-merged front rest (attempt request s).0 (insert request.issue merged outcomes)
          m.1 in
      ground (arith, m.0, later)

  merge_loop-stop :
      (stop : Request) (rest : List Request) (s : State W) (outcomes : List (ℕ × MergeOutcome))
      → (o : MergeOutcome) → (attempt stop s).1 ≡ returned o
      → o ≢ merged
      → merge_loop remote gate feature_branch (stop ∷ rest) s outcomes
        ≡ ((attempt stop s).0, inr (insert stop.issue o outcomes))
  unfolding merge_loop
  merge_loop-stop stop rest s outcomes merged e n = absurd (n refl)
  merge_loop-stop stop rest s outcomes ci_failed e n = ground (arith, e)
  merge_loop-stop stop rest s outcomes ci_timeout e n = ground (arith, e)
  merge_loop-stop stop rest s outcomes merge_conflict e n = ground (arith, e)

  -- The batch merges in order up to the first request that is not merged, and leaves every later one
  -- alone: it ends in the state that this request's attempt leaves, with the outcomes so far and this
  -- one's.
  pub merge_loop-stops :
      (front rest : List Request) (stop : Request) (s : State W) (o : MergeOutcome)
      → AllMerged front s
      → (attempt stop (attempted front s)).1 ≡ returned o
      → o ≢ merged
      → merge_loop remote gate feature_branch (front ++ stop ∷ rest) s []
        ≡ ((attempt stop (attempted front s)).0, inr (insert stop.issue o (record_merged front [])))
  merge_loop-stops front rest stop s o m e n =
      merge_loop-merged front (stop ∷ rest) s [] m
      ∙ merge_loop-stop stop rest (attempted front s) (record_merged front []) o e n
