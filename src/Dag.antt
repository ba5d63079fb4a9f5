-- ===== src/Dag.antt =====
-- src/baton_harness/chain/dag.py: the dependency graph of a work unit, scoped to its members.
-- A dict is an association list in insertion order, a frozenset a list read by membership.
use baton_harness.Base.{
  ℕ, ◌≡◌, refl, ap, none, some, List, [], ◌∷◌, map, arith, if◌then◌else◌, nat_eq, string_eq, filter,
  contains, lookup,
}

abbrev pub Graph : Type 0
Graph = List (ℕ × List ℕ)

pub record DagResult : Type 0 where
  pub graph : Graph
  pub membership : List ℕ

abbrev pub keys : Graph → List ℕ
keys g = map (λ entry. entry.0) g

-- d.get(issue, [])
abbrev pub get_or_empty : Graph → ℕ → List ℕ
get_or_empty g issue = elim (lookup g issue) [ none ↦ [] | some bs ↦ bs ]

-- The loop of `build_dag` over the members still to visit.
unfoldable pub scope : List ℕ → Graph → List ℕ → Graph
scope membership blocked_by [] = []
scope membership blocked_by (issue ∷ rest) =
    let in_scope = filter (contains membership) (get_or_empty blocked_by issue) in
    (issue, in_scope) ∷ scope membership blocked_by rest

unfoldable pub build_dag : List ℕ → Graph → DagResult
unfolding scope
build_dag membership blocked_by = record {
  graph = scope membership blocked_by membership;
  membership = membership;
}

keys-scope : (m : List ℕ) (b : Graph) (rest : List ℕ) → keys (scope m b rest) ≡ rest
unfolding scope
keys-scope m b [] = refl
keys-scope m b (x ∷ rest) = ap (λ (l : List ℕ). x ∷ l) (keys-scope m b rest)

-- The keys of the graph are exactly the members, in their order.
pub keys-build_dag : (m : List ℕ) (b : Graph) → keys (build_dag m b).graph ≡ m
unfolding build_dag
keys-build_dag m b = keys-scope m b m

lookup-scope :
    (m : List ℕ) (b : Graph) (rest : List ℕ) (n : ℕ)
    → lookup (scope m b rest) n
      ≡ (if contains rest n then some (filter (contains m) (get_or_empty b n)) else none)
unfolding scope
lookup-scope m b [] n = refl
lookup-scope m b (x ∷ rest) n = ground (arith, lookup-scope m b rest n)

-- A member's blockers in the graph are those fetched for it that are members themselves; an issue
-- outside the unit has no entry.
pub lookup-build_dag :
    (m : List ℕ) (b : Graph) (n : ℕ)
    → lookup (build_dag m b).graph n
      ≡ (if contains m n then some (filter (contains m) (get_or_empty b n)) else none)
unfolding build_dag
lookup-build_dag m b n = lookup-scope m b m n
