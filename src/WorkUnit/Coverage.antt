-- ===== src/WorkUnit/Coverage.antt =====
-- The loop of src/baton_harness/chain/daemon/work_unit.py loses no issue: where every member may be worked
-- on, it ends of itself only once each of them is done or parked.
use baton_harness.Base.{
  ℕ, String, ◌≡◌, refl, inl, inr, true, false, not, ◌||◌, List, [], ◌∷◌, arith, nat_beq_iff,
  Bool-cases, string_eq, nat_eq, filter, contains, ◌∈◌, ◌∉◌, contains-append, contains-filter,
  contains-add, any-false,
}
use baton_harness.Dag.{Graph, build_dag}
use baton_harness.Scheduler.Sorter
use baton_harness.Scheduler.{get_ready, is_active, IssueScheduler}
use baton_harness.Scheduler.Parking.{IsSettled}
use baton_harness.Scheduler.Progress.{Run-IsSound, Run}
use baton_harness.Scheduler.Members.{Run-consumed, mark_done_fields}
use baton_harness.Scheduler.Liveness.{get_ready-nil}
use baton_harness.Merge.{}
use baton_harness.Recovery.{RecoveryResult}
use baton_harness.WorkUnit.{Services, Settings, UnitState, Turn, continues}
use baton_harness.WorkUnit.MergeGate.{}
use baton_harness.WorkUnit.Loop.{collect, is_actionable, frontier}
use baton_harness.WorkUnit.Endings.{Ends, parks, completes, leaves}
use baton_harness.WorkUnit.Turns.{turn-Handled}
use baton_harness.WorkUnit.Invariant.{
  mark_parked_fields, parked_self, parked_before, IsKept, IsQueued,
}
use baton_harness.WorkUnit.Queue.{collect_covers, frontier-IsQueued}
use baton_harness.WorkUnit.Rounds.{
  choose-leave, fetched, frontier-IsKept, taken_open, taken, Rounds, inactive, leaving, skipping,
  taking, stopping,
}

-- What was passed out is done, parked, or in the queue.
abbrev pub IsCovered : List ℕ → IssueScheduler → Type 0
IsCovered pending sched =
    (v : ℕ)
    → v ∈ sched.consumed
    → (contains sched.done v || contains sched.parked v || contains pending v) ≡ true

frontier-IsCovered :
    (g : Graph) (s : IssueScheduler) (pending seen : List ℕ)
    → Run g s
    → IsQueued s pending seen
    → IsCovered pending s
    → let (s', pending', seen') = frontier s pending seen in IsCovered pending' s'
unfolding frontier get_ready Sorter.get_ready
frontier-IsCovered g s pending seen r q c v k =
    let raw = contains-filter (λ n. not (contains s.parked n)) s.sorter.ready v in
    let collected =
      (collect (filter (λ n. not (contains s.parked n)) s.sorter.ready) pending seen).0 in
    let kept = contains-filter (λ n. not (contains s.parked n)) collected v in
    let taken_in =
      collect_covers (filter (λ n. not (contains s.parked n)) s.sorter.ready) pending seen v in
    elim (Bool-cases (contains s.consumed v)) [
      | inl old ↦ ground (arith, c v old, kept, taken_in)
      | inr new_one ↦
          ground
            (arith, raw, kept, taken_in, contains-append s.sorter.ready s.consumed v, q.passed v)
    ]

-- Straight after a call of `get_ready` another one returns nothing.
get_ready_twice :
    (s : IssueScheduler) (pending seen : List ℕ) → (get_ready (frontier s pending seen).0).1 ≡ []
unfolding frontier get_ready Sorter.get_ready
get_ready_twice s pending seen = refl

module _ {W : Type 0} (services : Services W) (settings : Settings)
    (recovered : RecoveryResult) where
  Ends-IsCovered :
      (n : ℕ) (rest : List ℕ) (sched : IssueScheduler) (reasons : List (ℕ × String))
      (merged_issues : List ℕ) (t : Turn W)
      → Ends services settings recovered n sched reasons merged_issues t
      → t.flow ≡ continues
      → IsSettled sched
      → n ∉ sched.done
      → IsCovered (n ∷ rest) sched
      → IsCovered rest t.unit.context.sched
  Ends-IsCovered n rest sched reasons merged_issues t (parks reason f a b m) e h u c v k =
      let (d, o) = mark_parked_fields sched n in
      rw a (
        ground (
          arith,
          d,
          c v (rw o at (rw a at k)),
          parked_self sched n h u,
          parked_before sched n v h,
          nat_beq_iff v n,
        ))
  Ends-IsCovered n rest sched reasons merged_issues t (completes m f a b l) e h u c v k =
      let (d, p, o) = mark_done_fields sched n a in
      ground (arith, c v (rw o at k), contains-add n sched.done v, d, p)
  Ends-IsCovered n rest sched reasons merged_issues t (leaves (inl (f, why)) a b l) e h u c v k = cc
  Ends-IsCovered n rest sched reasons merged_issues t (leaves (inr (f, why)) a b l) e h u c v k = cc

  module _ (m : List ℕ) (bb : Graph) where
    pub Rounds-is_active :
        {pending seen : List ℕ} {s : UnitState} {t : Turn W}
        → Rounds services settings recovered pending seen s t
        → ((v : ℕ) → v ∈ m → is_actionable recovered settings.agent_ready_issues v ≡ true)
        → IsCovered pending s.context.sched
        → IsKept services settings recovered (build_dag m bb).graph s
        → IsQueued s.context.sched pending seen
        → t.flow ≡ continues
        → is_active t.unit.context.sched ≡ false
    Rounds-is_active (inactive w f) act c k q e = f
    Rounds-is_active {pending} {seen} {s} (leaving w e) act c k q f =
        let g = (build_dag m bb).graph in
        let (sched, pending', seen') = frontier s.context.sched pending seen in
        let k' = frontier-IsKept m bb services settings recovered s pending seen k in
        let (q', free) = frontier-IsQueued g s.context.sched pending seen k.run q in
        let c' = frontier-IsCovered g s.context.sched pending seen k.run q c in
        get_ready-nil m bb sched k'.run
          (λ v passed. ground (
            arith,
            c' v passed,
            any-false (is_actionable recovered settings.agent_ready_issues) pending' v
                (choose-leave recovered settings.agent_ready_issues pending' e),
            act v (Run-consumed m bb v k'.run passed),
          ))
          (get_ready_twice s.context.sched pending seen)
    Rounds-is_active {pending} {seen} {s} (skipping n rest is idle next_rounds) act c k q f =
        let k' = frontier-IsKept m bb services settings recovered s pending seen k in
        let (undone, unparked, passed) =
          taken_open m bb services settings recovered pending seen s n rest k q is in
        absurd (ground (arith, idle, act n (Run-consumed m bb n k'.run passed)))
    Rounds-is_active {pending} {seen} {s} (taking n rest w is a go next_rounds) act c k q f =
        let g = (build_dag m bb).graph in
        let k₁ = frontier-IsKept m bb services settings recovered s pending seen k in
        let c₁ = frontier-IsCovered g s.context.sched pending seen k.run q c in
        let (undone, unparked, passed) =
          taken_open m bb services settings recovered pending seen s n rest k q is in
        let (k', q') = taken m bb services settings recovered pending seen s n rest w k q is in
        let c' =
          Ends-IsCovered n rest _ _ _ _
            (turn-Handled services settings recovered n (fetched pending seen s) w) go
            (Run-IsSound k₁.run).settled undone (rw is at c₁) in
        Rounds-is_active next_rounds act c' k' q' f
    Rounds-is_active (stopping n rest w is a stop) act c k q f = absurd (stop f)
