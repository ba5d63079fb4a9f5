-- ===== src/Scheduler/Edges.antt =====
-- The edges of a dependency graph, read in both directions: the blockers of an issue and the
-- issues that wait for it. `dependents` is the reverse adjacency that both `IssueScheduler` and
-- `TopologicalSorter` build.
use baton_harness.Base.{
  ℕ, zero, suc, ◌+◌, ◌≡◌, refl, List, [], ◌∷◌, ◌++◌, arith, if◌then◌else◌, ◌==◌, nat_eq, string_eq,
  length, replicate, count, count-append,
}
use baton_harness.Dag.{Graph}

-- All blockers that the graph lists for an issue.
unfoldable pub blockers : Graph → ℕ → List ℕ
blockers [] v = []
blockers ((w, bs) ∷ g) v = if v == w then bs ++ blockers g v else blockers g v

-- `for issue, blockers in graph.items(): for b in blockers: dependents[b].append(issue)`
unfoldable pub dependents : Graph → ℕ → List ℕ
dependents [] u = []
dependents ((w, bs) ∷ g) u = replicate (count u bs) w ++ dependents g u

unfoldable pub edge_count : Graph → ℕ
edge_count [] = 0
edge_count ((w, bs) ∷ g) = length bs + edge_count g

count-replicate : (v w n : ℕ) → count v (replicate n w) ≡ (if v == w then n else 0)
count-replicate v w zero = ground arith
count-replicate v w (suc n) = ground (arith, count-replicate v w n)

-- An issue depends on a blocker as often as the blocker is listed for it.
pub count-dependents : (g : Graph) (u v : ℕ) → count v (dependents g u) ≡ count u (blockers g v)
unfolding dependents blockers
count-dependents [] u v = refl
count-dependents ((w, bs) ∷ g) u v = ground (
  arith,
  count-append v (replicate (count u bs) w) (dependents g u),
  count-replicate v w (count u bs),
  count-append u bs (blockers g v),
  count-dependents g u v,
)
