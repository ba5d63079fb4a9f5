-- ===== src/WorkUnit/Runs.antt =====
-- The loop of src/baton_harness/chain/daemon/work_unit.py runs through its rounds to an end.
use baton_harness.Base.{
  ℕ, zero, suc, ◌+◌, ◌<◌, ◌≡◌, refl, ◌⊎◌, inl, inr, List, arith, Bool-cases, string_eq, nat_eq,
  length,
}
use baton_harness.Dag.{Graph, build_dag}
use baton_harness.Scheduler.{is_active}
use baton_harness.Scheduler.Progress.{}
use baton_harness.Scheduler.Members.{}
use baton_harness.Merge.{}
use baton_harness.Recovery.{RecoveryResult}
use baton_harness.WorkUnit.{
  with_sched, Services, Settings, UnitState, Flow, continues, raises, hangs, out_of_fuel,
}
use baton_harness.WorkUnit.MergeGate.{}
use baton_harness.WorkUnit.Loop.{choose, frontier, turn, loop, Choice, leave, skip, take}
use baton_harness.WorkUnit.Endings.{}
use baton_harness.WorkUnit.Turns.{}
use baton_harness.WorkUnit.Invariant.{IsKept, IsQueued}
use baton_harness.WorkUnit.Queue.{unseen}
use baton_harness.WorkUnit.Rounds.{
  choose-take, choose-skip, frontier_measure, skipped, taken, Rounds, inactive, leaving, skipping,
  taking, stopping,
}

choice_cases :
    (c : Choice)
    → (c ≡ leave)
      ⊎ (((rest : List ℕ) × (c ≡ skip rest)) ⊎ ((n : ℕ) × (rest : List ℕ) × (c ≡ take n rest)))
choice_cases leave = inl refl
choice_cases (skip rest) = inr (inl (rest, refl))
choice_cases (take n rest) = inr (inr (n, rest, refl))

pub flow_cases : (f : Flow) → (f ≡ continues) ⊎ ((f ≡ raises) ⊎ ((f ≡ hangs) ⊎ (f ≡ out_of_fuel)))
flow_cases continues = inl refl
flow_cases raises = inr (inl refl)
flow_cases hangs = inr (inr (inl refl))
flow_cases out_of_fuel = inr (inr (inr refl))

module _ (m : List ℕ) (bb : Graph) {W : Type 0} (services : Services W) (settings : Settings)
    (recovered : RecoveryResult) where
  -- With more fuel than there are members not yet seen and issues in the queue, the loop is such a run.
  pub loop-Rounds :
      (fuel : ℕ) (pending seen : List ℕ) (s : UnitState) (w : W)
      → unseen m seen + length pending < fuel
      → IsKept services settings recovered (build_dag m bb).graph s
      → IsQueued s.context.sched pending seen
      → Rounds services settings recovered pending seen s
          (loop services settings recovered fuel pending seen s w)
  unfolding loop
  loop-Rounds zero pending seen s w lt k q = absurd (omega arith)
  loop-Rounds (suc fuel) pending seen s w lt k q =
      let (sched, pending', seen') = frontier s.context.sched pending seen in
      let s' : UnitState = with_sched sched s in
      let lt' = frontier_measure m bb s.context.sched pending seen k.run in
      let chosen = choose recovered settings.agent_ready_issues pending' in
      elim (Bool-cases (is_active s.context.sched)) [
        | inr f ↦ rw (loop, f) (inactive w f)
        | inl y ↦ elim (choice_cases chosen) [
          | inl e ↦ rw (loop, y, e) (leaving w e)
          | inr (inl (rest, e)) ↦
              let (n, is, idle) =
                choose-skip recovered settings.agent_ready_issues pending' rest e in
              let (k', q') =
                skipped m bb services settings recovered pending seen s n rest k q is in
              rw (loop, y, e)
                (skipping n rest is idle
                  (loop-Rounds fuel rest seen' s' w (ground (arith, is)) k' q'))
          | inr (inr (n, rest, e)) ↦
              let (is, act) = choose-take recovered settings.agent_ready_issues pending' n rest e in
              let t = turn services settings recovered n s' w in
              let (k', q') =
                taken m bb services settings recovered pending seen s n rest w k q is in
              elim (flow_cases t.flow) [
                | inl f ↦
                    rw (loop, y, e, f)
                      (taking n rest w is act f
                        (loop-Rounds fuel rest seen' t.unit t.world (ground (arith, is)) k' q'))
                | inr (inl f) ↦ rw (loop, y, e, f) (stopping n rest w is act (λ c. cc))
                | inr (inr (inl f)) ↦ rw (loop, y, e, f) (stopping n rest w is act (λ c. cc))
                | inr (inr (inr f)) ↦ rw (loop, y, e, f) (stopping n rest w is act (λ c. cc))
              ]
        ]
      ]
