-- ===== src/Scheduler.antt =====
-- src/baton_harness/chain/scheduler.py: the ready frontier of a work unit with sub-tree parking.
-- The sets of the class are lists read by membership (the frontier, too, which the loop of a work unit goes
-- through in the order of the list), and the `TopologicalSorter` that it wraps is
-- the one of `Scheduler.Sorter`. The proofs are in the modules below.
pub mod Sorter
pub mod Edges
pub mod Stack
pub mod Counters
pub mod Parking
pub mod Frontier
pub mod Progress
pub mod Overlap
pub mod Liveness
pub mod Members
use mathlib.Core.List.{reverse}
use baton_harness.Base.{
  ℕ, zero, suc, Bool, true, false, not, ◌||◌, Option, none, some, List, [], ◌∷◌, ◌++◌, string_eq,
  nat_eq, filter, all, contains, add,
}
use baton_harness.Dag.{Graph, keys}
use baton_harness.Scheduler.Edges.{dependents, edge_count}

pub record IssueScheduler : Type 0 where
  pub graph : Graph
  pub sorter : Sorter.Sorter
  pub parked : List ℕ
  pub all_nodes : List ℕ
  pub done : List ℕ
  pub consumed : List ℕ

-- `__init__`. The dict `_dependents` is a function of the graph, `Edges.dependents`.
unfoldable pub init : Graph → IssueScheduler
init graph = record {
  graph = graph;
  sorter = Sorter.create graph;
  parked = [];
  all_nodes = keys graph;
  done = [];
  consumed = [];
}

unfoldable pub prepare : IssueScheduler → Option IssueScheduler
prepare s = elim (Sorter.prepare s.graph s.sorter) [
  | none ↦ none
  | some sorter ↦ some (record s { sorter = sorter })
]

unfoldable pub get_ready : IssueScheduler → IssueScheduler × List ℕ
get_ready s =
    let (sorter, ready_raw) = Sorter.get_ready s.sorter in
    (
      record s { sorter = sorter; consumed = ready_raw ++ s.consumed },
      filter (λ n. not (contains s.parked n)) ready_raw,
    )

-- The exception of the sorter is the caller's; the scheduler is left as it was.
unfoldable pub mark_done : IssueScheduler → ℕ → Option IssueScheduler
mark_done s issue = elim (Sorter.done s.graph s.sorter issue) [
  | none ↦ none
  | some sorter ↦ some (record s { sorter = sorter; done = add issue s.done })
]

-- The `while to_park` loop of `mark_parked`. The list is Python's stack with its end first, so
-- `extend` puts the dependents in front, the last one first.
unfoldable pub park_loop : Graph → List ℕ → ℕ → List ℕ → List ℕ → List ℕ
park_loop graph done zero to_park parked = parked
park_loop graph done (suc fuel) [] parked = parked
park_loop graph done (suc fuel) (node ∷ rest) parked =
    elim (contains parked node || contains done node) [
      | true ↦ park_loop graph done fuel rest parked
      | false ↦ park_loop graph done fuel (reverse (dependents graph node) ++ rest) (node ∷ parked)
    ]

-- Each round takes one entry off the stack, and every edge of the graph puts one there at most, so
-- this fuel is never used up.
abbrev pub park_fuel : Graph → ℕ
park_fuel graph = suc (suc (edge_count graph))

unfoldable pub mark_parked : IssueScheduler → ℕ → IssueScheduler
unfolding park_loop
mark_parked s issue = record s {
  parked = park_loop s.graph s.done (park_fuel s.graph) (issue ∷ []) s.parked;
}

unfoldable pub is_active : IssueScheduler → Bool
is_active s = not (all (λ n. contains s.done n || contains s.parked n) s.all_nodes)
