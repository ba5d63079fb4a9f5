-- ===== src/Scheduler/Liveness.antt =====
-- src/baton_harness/chain/scheduler.py: while a scheduler is active and nothing is in flight, its
-- next call of `get_ready` has an issue to dispatch.
use baton_harness.Scheduler.Counters.{all_done_unfinished}
use baton_harness.Base.{
  ℕ, ◌<◌, ◌≡◌, refl, ap, ◌∙◌, inl, inr, true, false, not, ◌||◌, List, [], ◌∷◌, arith, Bool-cases,
  string_eq, nat_eq, filter, all, any, contains, ◌∈◌, count, contains-append, contains-filter,
  any-true, any-false, all_of_mem, filter-nil,
}
use baton_harness.Dag.{Graph, keys, get_or_empty, scope, build_dag, keys-build_dag}
use baton_harness.Scheduler.Edges.{blockers, dependents, count-dependents}
use baton_harness.Scheduler.Sorter
use baton_harness.Scheduler.Sorter.{Status, waiting, passed_out, finished, nodes}
use baton_harness.Scheduler.{IssueScheduler, prepare, init, get_ready, is_active}
use baton_harness.Scheduler.Frontier.{}
use baton_harness.Scheduler.Progress.{
  Run, begin, next, IsSound, Run-IsSound, keys-nodes, blockers_induction,
}

pub count_of_mem : (xs : List ℕ) (a : ℕ) → a ∈ xs → 0 < count a xs
count_of_mem [] a m = cc
count_of_mem (x ∷ xs) a m = ground (arith, count_of_mem xs a)

pub mem_of_count : (xs : List ℕ) (a : ℕ) → 0 < count a xs → a ∈ xs
mem_of_count [] a m = absurd (omega arith)
mem_of_count (x ∷ xs) a m = ground (arith, mem_of_count xs a)

-- A blocker's dependents are the issues that list it.
mem-dependents : (g : Graph) (b v : ℕ) → b ∈ blockers g v → v ∈ dependents g b
mem-dependents g b v m =
    mem_of_count (dependents g b) v
      (omega (arith, count-dependents g b v, count_of_mem (blockers g v) b m))

blockers-scope :
    (m : List ℕ) (bb : Graph) (rest : List ℕ) (v b : ℕ) → b ∈ blockers (scope m bb rest) v → b ∈ m
unfolding blockers scope
blockers-scope m bb [] v b h = cc
blockers-scope m bb (x ∷ rest) v b h = ground (
  arith,
  contains-append (filter (contains m) (get_or_empty bb x)) (blockers (scope m bb rest) v) b,
  contains-filter (contains m) (get_or_empty bb x) b,
  blockers-scope m bb rest v b,
)

-- Every blocker in a work unit's graph is one of its keys.
blockers-build_dag :
    (m : List ℕ) (bb : Graph) (v b : ℕ)
    → b ∈ blockers (build_dag m bb).graph v
    → b ∈ keys (build_dag m bb).graph
unfolding build_dag
blockers-build_dag m bb v b h = rw (keys-build_dag m bb) (blockers-scope m bb m v b h)

Run-acyclic : {g : Graph} {s : IssueScheduler} → Run g s → Sorter.has_cycle g ≡ false
unfolding prepare init Sorter.prepare
Run-acyclic (begin e) = ground arith
Run-acyclic (next r st) = Run-acyclic r

abbrev IsTerminal : IssueScheduler → ℕ → Type 0
IsTerminal s v = (contains s.done v || contains s.parked v) ≡ true

module _ (g : Graph) (s : IssueScheduler) (h : IsSound g s)
    (idle : (v : ℕ) → v ∈ s.consumed → IsTerminal s v) (empty : (get_ready s).1 ≡ []) where
  -- A node passed out is consumed, so it is terminal; a ready one would have been returned.
  status-IsTerminal :
      (v : ℕ) (x : Status)
      → s.sorter.status v ≡ x
      → v ∈ keys g
      → ((b : ℕ) → b ∈ blockers g v → b ∈ s.done)
      → IsTerminal s v
  unfolding get_ready Sorter.get_ready
  status-IsTerminal v (waiting k) e m blockers_done =
      let none_left = all_done_unfinished s.done (blockers g v) blockers_done in
      let zero_left : k ≡ 0 = h.counted.counted v k e ∙ rw h.same_graph none_left in
      let ready =
        h.counted.free_ready v (rw h.same_graph (keys-nodes g v m)) (e ∙ ap waiting zero_left) in
      ground (arith, filter-nil (λ n. not (contains s.parked n)) s.sorter.ready v empty ready)
  status-IsTerminal v passed_out e m blockers_done =
      idle v (h.counted.out_consumed v (λ w. ground arith))
  status-IsTerminal v finished e m blockers_done =
      idle v (h.counted.out_consumed v (λ w. ground arith))

  blocked-IsTerminal : (v b : ℕ) → b ∈ blockers g v → b ∈ s.parked → IsTerminal s v
  blocked-IsTerminal v b m p =
      ground (arith, h.settled.closed b v p (rw h.same_graph (mem-dependents g b v m)))

  all-IsTerminal :
      Sorter.has_cycle g ≡ false
      → ((v b : ℕ) → b ∈ blockers g v → b ∈ keys g)
      → (v : ℕ) → v ∈ keys g
      → IsTerminal s v
  all-IsTerminal fine within =
      blockers_induction g (λ v. v ∈ keys g → IsTerminal s v) fine
        λ v ih m. elim (Bool-cases (any (contains s.parked) (blockers g v))) [
          | inl found ↦
              let (b, mb, p) = any-true (contains s.parked) (blockers g v) found in
              blocked-IsTerminal v b mb p
          | inr clear ↦ status-IsTerminal v (s.sorter.status v) refl m (λ b mb. ground (
            arith,
            ih b mb (within v b mb),
            any-false (contains s.parked) (blockers g v) b clear mb,
          ))
        ]

-- The loop of a work unit never stalls: in a scheduler that its calls reach over the unit's graph,
-- with every issue passed out so far done or parked, an empty frontier means that each member of
-- the unit is done or parked, so that the scheduler is no longer active.
pub get_ready-nil :
    (m : List ℕ) (bb : Graph) (s : IssueScheduler)
    → Run (build_dag m bb).graph s
    → ((v : ℕ) → v ∈ s.consumed → (contains s.done v || contains s.parked v) ≡ true)
    → (get_ready s).1 ≡ []
    → is_active s ≡ false
unfolding is_active
get_ready-nil m bb s r idle empty =
    let g = (build_dag m bb).graph in
    let h = Run-IsSound r in
    let terminal : all (λ n. contains s.done n || contains s.parked n) s.all_nodes ≡ true =
      all_of_mem (λ n. contains s.done n || contains s.parked n) s.all_nodes
        (λ v k.
          all-IsTerminal g s h idle empty (Run-acyclic r) (blockers-build_dag m bb) v
            (rw h.same_nodes at k)) in
    rw terminal
