-- ===== src/Scheduler/Members.antt =====
-- src/baton_harness/chain/scheduler.py on the graph of a work unit: what is ready is a member of the unit,
-- and `mark_done` returns on what was passed out.
use mathlib.Core.Path.{subst}
use baton_harness.Base.{
  ℕ, zero, suc, ◌≡◌, refl, sym, ap, ◌≢◌, inl, inr, true, ◌||◌, none, some, List, [], ◌∷◌, arith,
  Bool-cases, string_eq, nat_eq, ◌==◌, filter, contains, ◌∈◌, ◌∉◌, add, contains-append,
  contains-filter, contains-add,
}
use baton_harness.Dag.{Graph, keys, get_or_empty, scope, build_dag, keys-build_dag}
use baton_harness.Scheduler.Edges.{blockers, dependents, count-dependents}
use baton_harness.Scheduler.Sorter
use baton_harness.Scheduler.Sorter.{
  Status, Sorter, waiting, passed_out, finished, nodes, add_all, release, release_node,
}
use baton_harness.Scheduler.Counters.{unfinished_zero}
use baton_harness.Scheduler.Frontier.{
  started, prepare-eq-some, finish, mark_done-eq-some, IsCounted,
}
use baton_harness.Scheduler.Progress.{
  Run-IsSound, contains-add_all, Run, fetch, complete, park, begin, next,
}
use baton_harness.Scheduler.Liveness.{count_of_mem}
use baton_harness.Scheduler.{init, get_ready, mark_done, mark_parked, IssueScheduler}

ready-release_node :
    (u : ℕ) (x : Status) (s : Sorter) (v : ℕ)
    → v ∈ (release_node u x s).ready
    → (contains s.ready v || v == u) ≡ true
ready-release_node u (waiting zero) s v h = ground arith
ready-release_node u (waiting (suc zero)) s v h = ground (arith, contains-append s.ready (u ∷ []) v)
ready-release_node u (waiting (suc (suc k))) s v h = ground arith
ready-release_node u passed_out s v h = ground arith
ready-release_node u finished s v h = ground arith

ready-release :
    (vs : List ℕ) (s : Sorter) (v : ℕ)
    → v ∈ (release vs s).ready
    → (contains s.ready v || contains vs v) ≡ true
unfolding release
ready-release [] s v h = ground arith
ready-release (u ∷ vs) s v h = ground (
  arith,
  ready-release vs (release_node u (s.status u) s) v h,
  ready-release_node u (s.status u) s v,
)

blockers_unkeyed : (g : Graph) (v : ℕ) → v ∉ keys g → blockers g v ≡ []
unfolding blockers
blockers_unkeyed [] v h = refl
blockers_unkeyed ((w, bs) ∷ g) v h = ground (arith, blockers_unkeyed g v)

dependents-keys : (g : Graph) (n v : ℕ) → v ∈ dependents g n → v ∈ keys g
dependents-keys g n v h = elim (Bool-cases (contains (keys g) v)) [
  | inl y ↦ y
  | inr f ↦ absurd (
      ground
        (arith, count-dependents g n v, count_of_mem (dependents g n) v h, blockers_unkeyed g v f))
]

nodes-scope :
    (m : List ℕ) (bb : Graph) (rest : List ℕ) (v : ℕ)
    → ((u : ℕ) → u ∈ rest → u ∈ m)
    → v ∈ nodes (scope m bb rest)
    → v ∈ m
unfolding nodes scope
nodes-scope m bb [] v h k = cc
nodes-scope m bb (x ∷ rest) v h k =
    let in_scope = filter (contains m) (get_or_empty bb x) in
    ground (
      arith,
      contains-add x (add_all in_scope (nodes (scope m bb rest))) v,
      contains-add_all in_scope (nodes (scope m bb rest)) v,
      contains-filter (contains m) (get_or_empty bb x) v,
      nodes-scope m bb rest v (λ u k'. h u (ground arith)),
      h v,
    )

nodes-build_dag : (m : List ℕ) (bb : Graph) (v : ℕ) → v ∈ nodes (build_dag m bb).graph → v ∈ m
unfolding build_dag
nodes-build_dag m bb v k = nodes-scope m bb m v (λ u h. h) k

ready-finish :
    (s : IssueScheduler) (n v : ℕ)
    → v ∈ (finish s n).sorter.ready
    → (contains s.sorter.ready v || contains (dependents s.graph n) v) ≡ true
unfolding finish
ready-finish s n v k = ready-release (dependents s.graph n) _ v k

-- What a scheduler of a work unit has ready is a member of the unit.
pub Run-ready :
    (m : List ℕ) (bb : Graph) {s : IssueScheduler} (v : ℕ)
    → Run (build_dag m bb).graph s
    → v ∈ s.sorter.ready
    → v ∈ m
unfolding get_ready Sorter.get_ready mark_parked
Run-ready m bb v (begin e) k = nodes-build_dag m bb v (
    unfold started in
    ground (
      arith,
      prepare-eq-some (build_dag m bb).graph e,
      contains-filter (λ n. Sorter.is_free ((Sorter.create (build_dag m bb).graph).status n))
          (nodes (build_dag m bb).graph) v,
    ))
Run-ready m bb v (next r fetch) k = cc
Run-ready m bb v (next r (park n)) k = Run-ready m bb v r k
Run-ready m bb v (next {s} r (complete n u e)) k =
    let (out, is) = mark_done-eq-some s n e in
    let g = (build_dag m bb).graph in
    let member : v ∈ dependents s.graph n → v ∈ m = λ d.
      rw (keys-build_dag m bb) at (dependents-keys g n v (rw (Run-IsSound r).same_graph at d)) in
    ground
      (arith, ready-finish s n v (subst (λ x. v ∈ x.sorter.ready) is k), member, Run-ready m bb v r)

-- So is whatever was passed out.
pub Run-consumed :
    (m : List ℕ) (bb : Graph) {s : IssueScheduler} (v : ℕ)
    → Run (build_dag m bb).graph s
    → v ∈ s.consumed
    → v ∈ m
unfolding get_ready Sorter.get_ready mark_parked
Run-consumed m bb v (begin e) k =
    absurd (unfold started init in ground (arith, prepare-eq-some (build_dag m bb).graph e))
Run-consumed m bb v (next {s} r fetch) k =
    ground (
      arith,
      contains-append s.sorter.ready s.consumed v,
      Run-ready m bb v r,
      Run-consumed m bb v r,
    )
Run-consumed m bb v (next r (park n)) k = Run-consumed m bb v r k
Run-consumed m bb v (next {s} r (complete n u e)) k =
    Run-consumed m bb v r
      (unfold finish in subst (λ x. v ∈ x.consumed) (mark_done-eq-some s n e).1 k)

-- What `mark_done` changes.
pub mark_done_fields :
    (s : IssueScheduler) (n : ℕ) {t : IssueScheduler}
    → mark_done s n ≡ some t
    → (t.done ≡ add n s.done) × (t.parked ≡ s.parked) × (t.consumed ≡ s.consumed)
mark_done_fields s n e =
    let (out, is) = mark_done-eq-some s n e in
    unfold finish in
    (
      ap (λ (x : IssueScheduler). x.done) is,
      ap (λ (x : IssueScheduler). x.parked) is,
      ap (λ (x : IssueScheduler). x.consumed) is,
    )

-- An issue is passed out only once its blockers are done.
pub Run-blockers :
    {g : Graph} {s : IssueScheduler} (v b : ℕ)
    → Run g s
    → v ∈ s.consumed
    → b ∈ blockers g v
    → b ∈ s.done
unfolding get_ready Sorter.get_ready mark_parked
Run-blockers {g} v b (begin e) k m =
    absurd (unfold started init in ground (arith, prepare-eq-some g e))
Run-blockers {g} v b (next {s} r fetch) k m = elim (Bool-cases (contains s.consumed v)) [
  | inl old ↦ Run-blockers v b r old m
  | inr new_one ↦
      let h = Run-IsSound r in
      let raw : v ∈ s.sorter.ready = ground (arith, contains-append s.sorter.ready s.consumed v) in
      unfinished_zero s.done (blockers g v) b
        (rw h.same_graph at (sym (h.counted.counted v 0 (h.counted.ready_free v raw)))) m
]
Run-blockers v b (next r (park n)) k m = Run-blockers v b r k m
Run-blockers v b (next {s} r (complete n u e)) k m =
    let (d, p, o) = mark_done_fields s n e in
    rw d (ground (arith, contains-add n s.done b, Run-blockers v b r (rw o at k) m))

-- Marking done what was passed out and is not done raises nothing.
pub mark_done_total :
    (s : IssueScheduler) (n : ℕ) → IsCounted s → n ∈ s.consumed → n ∉ s.done → mark_done s n ≢ none
unfolding mark_done Sorter.done
mark_done_total s n h c d e = ground (arith, h.consumed_out n c, h.finished_done n)
