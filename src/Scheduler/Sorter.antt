-- ===== src/Scheduler/Sorter.antt =====
-- `graphlib.TopologicalSorter` of Python's standard library, as `IssueScheduler` uses it: for each
-- node the number of blockers not yet marked done, and the nodes that are ready to be passed out.
-- `none` is the exception that a call raises.
use baton_harness.Base.{
  ℕ, zero, suc, Bool, true, false, Option, none, some, List, [], ◌∷◌, ◌++◌, if◌then◌else◌, ◌==◌,
  nat_eq, string_eq, length, filter, any, contains, add,
}
use baton_harness.Dag.{Graph}
use baton_harness.Scheduler.Edges.{blockers, dependents}

-- `npredecessors`: a count, or the marks _NODE_OUT and _NODE_DONE.
pub data Status : Type 0 where
  waiting : ℕ → Status
  passed_out finished : Status

pub record Sorter : Type 0 where
  pub status : ℕ → Status
  pub ready : List ℕ

abbrev pub update : (ℕ → Status) → ℕ → Status → ℕ → Status
update f n x m = if m == n then x else f m

unfoldable pub add_all : List ℕ → List ℕ → List ℕ
add_all [] ns = ns
add_all (b ∷ bs) ns = add b (add_all bs ns)

-- Every node that stands in the graph, as a key or as a blocker, once.
unfoldable pub nodes : Graph → List ℕ
unfolding add_all
nodes [] = []
nodes ((w, bs) ∷ g) = add w (add_all bs (nodes g))

unfoldable pub create : Graph → Sorter
create g = record { status = λ n. waiting (length (blockers g n)); ready = [] }

-- A round of peeling keeps the nodes that have a blocker among those left.
unfoldable pub peel : Graph → ℕ → List ℕ → List ℕ
peel g zero left = left
peel g (suc fuel) left = peel g fuel (filter (λ n. any (contains left) (blockers g n)) left)

-- A graph has a cycle exactly if peeling never empties it.
unfoldable pub has_cycle : Graph → Bool
unfolding peel
has_cycle g = elim (peel g (length (nodes g)) (nodes g)) [ [] ↦ false | x ∷ xs ↦ true ]

abbrev pub is_free : Status → Bool
is_free (waiting zero) = true
is_free _ = false

-- Raises `CycleError` on a cycle; else the nodes without blockers are ready.
unfoldable pub prepare : Graph → Sorter → Option Sorter
prepare g s =
    if has_cycle g
    then none
    else some (record s { ready = filter (λ n. is_free (s.status n)) (nodes g) })

-- for node in result: npredecessors = _NODE_OUT
unfoldable pub pass_out : List ℕ → (ℕ → Status) → ℕ → Status
pass_out [] f = f
pass_out (n ∷ ns) f = pass_out ns (update f n passed_out)

unfoldable pub get_ready : Sorter → Sorter × List ℕ
unfolding pass_out
get_ready s = (record { status = pass_out s.ready s.status; ready = [] }, s.ready)

-- One more blocker of the node is done. The counters of nodes passed out are never reached here,
-- which the invariant of `Scheduler.Frontier` shows.
abbrev pub release_node : ℕ → Status → Sorter → Sorter
release_node v (waiting zero) s = s
release_node v (waiting (suc zero)) s = record {
  status = update s.status v (waiting 0);
  ready = s.ready ++ v ∷ [];
}
release_node v (waiting (suc (suc k))) s = record s { status = update s.status v (waiting (suc k)) }
release_node v _ s = s

-- for successor in nodeinfo.successors
unfoldable pub release : List ℕ → Sorter → Sorter
release [] s = s
release (v ∷ vs) s = release vs (release_node v (s.status v) s)

-- Raises `ValueError` for a node that was not passed out, or is done already.
unfoldable pub done : Graph → Sorter → ℕ → Option Sorter
unfolding release
done g s n = elim (s.status n) [
  | passed_out ↦ some (release (dependents g n) (record s { status = update s.status n finished }))
  | _ ↦ none
]
