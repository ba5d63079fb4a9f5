-- ===== src/Tests/Scheduling.antt =====
-- The graph and the scheduler on a work unit of two issues, 2 behind 1.
use baton_harness.Base.{
  ℕ, ◌≡◌, refl, ◌↔◌, ◌⊎◌, false, some, List, [], ◌∷◌, arith, string_eq, nat_eq, ◌∈◌, ◌∉◌,
}
use baton_harness.Dag.{Graph, keys, build_dag, keys-build_dag}
use baton_harness.Scheduler.{
  init, prepare, get_ready, mark_done, mark_parked, is_active, IssueScheduler,
}
use baton_harness.Scheduler.Edges.{blockers, dependents, edge_count}
use baton_harness.Scheduler.Sorter
use baton_harness.Scheduler.Parking.{mem-mark_parked, WaitsFor}
use baton_harness.Scheduler.Frontier.{started}
use baton_harness.Scheduler.Progress.{Run-IsSound, get_ready-mem, Run, fetch, park, begin, next}
use baton_harness.Scheduler.Liveness.{get_ready-nil}
use baton_harness.Scheduler.Overlap.{
  Calls-IsConsistent, IsConsistent, prepared, fetched, completed, parked_too,
}

abbrev members : List ℕ
members = 1 ∷ 2 ∷ []

abbrev fetched_blockers : Graph
fetched_blockers = (1, []) ∷ (2, 1 ∷ 9 ∷ []) ∷ []

abbrev unit_graph : Graph
unit_graph = (build_dag members fetched_blockers).graph

unit_graph_value : unit_graph ≡ (1, []) ∷ (2, 1 ∷ []) ∷ []
unfolding build_dag
unit_graph_value = refl

keys-build_dag_example : keys (build_dag members fetched_blockers).graph ≡ members
keys-build_dag_example = keys-build_dag members fetched_blockers

prepared_unit : prepare (init unit_graph) ≡ some (started unit_graph)
unfolding started prepare init build_dag Sorter.prepare Sorter.has_cycle Sorter.nodes blockers
prepared_unit = refl

begun : Run unit_graph (started unit_graph)
begun = begin prepared_unit

first_frontier : (get_ready (started unit_graph)).1 ≡ 1 ∷ []
unfolding get_ready started init build_dag Sorter.get_ready Sorter.nodes blockers
first_frontier = refl

get_ready-mem_example :
    ((b : ℕ) → b ∈ blockers unit_graph 1 → b ∈ (started unit_graph).done)
    × (1 ∉ (started unit_graph).parked)
    × (1 ∉ (started unit_graph).done)
    × (1 ∉ (started unit_graph).consumed)
get_ready-mem_example = get_ready-mem 1 begun (rw first_frontier refl)

abbrev fetched_once : IssueScheduler
fetched_once = (get_ready (started unit_graph)).0

mem-mark_parked_example :
    (2 ∈ (mark_parked fetched_once 1).parked)
    ↔ ((2 ∈ fetched_once.parked) ⊎ WaitsFor fetched_once.graph fetched_once.done 1 2)
mem-mark_parked_example = mem-mark_parked fetched_once 1 2 (Run-IsSound (next begun fetch)).settled

parked_both : (mark_parked fetched_once 1).parked ≡ 2 ∷ 1 ∷ []
unfolding mark_parked get_ready started baton_harness.Scheduler.Edges.dependents build_dag
    baton_harness.Scheduler.Edges.edge_count
parked_both = refl

second_frontier : (get_ready (mark_parked fetched_once 1)).1 ≡ []
unfolding mark_parked get_ready Sorter.get_ready
second_frontier = refl

consumed_once : (mark_parked fetched_once 1).consumed ≡ 1 ∷ []
unfolding mark_parked get_ready Sorter.get_ready started Sorter.nodes build_dag blockers
consumed_once = refl

get_ready-nil_example : is_active (mark_parked fetched_once 1) ≡ false
get_ready-nil_example =
    get_ready-nil members fetched_blockers (mark_parked fetched_once 1)
      (next (next begun fetch) (park 1)) (λ v m. ground (arith, m, consumed_once, parked_both))
      second_frontier

-- Issue 1 is passed out, parked with issue 2 behind it, and marked done all the same.
abbrev overtaken : IssueScheduler
overtaken = mark_parked fetched_once 1

done_late : (t : IssueScheduler) × (mark_done overtaken 1 ≡ some t)
unfolding mark_done mark_parked get_ready started Sorter.done Sorter.get_ready Sorter.nodes
    build_dag blockers
done_late = (_, refl)

Calls-IsConsistent_example : IsConsistent unit_graph done_late.0 (1 ∷ [])
unfolding mark_parked get_ready started dependents build_dag edge_count
Calls-IsConsistent_example =
    Calls-IsConsistent (completed 1 (parked_too 1 (fetched (prepared prepared_unit))) done_late.1)
