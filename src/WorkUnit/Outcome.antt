-- ===== src/WorkUnit/Outcome.antt =====
-- What the loop of src/baton_harness/chain/daemon/work_unit.py comes to.
use baton_harness.Base.{ℕ, ◌≡◌, refl, ◌⊎◌, inl, inr, List, string_eq, nat_eq, ◌∈◌, ◌∉◌}
use baton_harness.Dag.{Graph, build_dag}
use baton_harness.Scheduler.Progress.{Run-IsSound, Run}
use baton_harness.Scheduler.Members.{mark_done_total}
use baton_harness.Merge.{Request, unfinished}
use baton_harness.Recovery.{RecoveryResult}
use baton_harness.WorkUnit.{Services, Settings, UnitState, Turn, continues, raises, hangs}
use baton_harness.WorkUnit.MergeGate.{attempt}
use baton_harness.WorkUnit.Loop.{turn}
use baton_harness.WorkUnit.Endings.{BranchFails, parks, completes, leaves}
use baton_harness.WorkUnit.Turns.{turn-Handled}
use baton_harness.WorkUnit.Invariant.{IsKept, IsQueued}
use baton_harness.WorkUnit.Rounds.{
  fetched, frontier-IsKept, skipped, taken_open, taken, Rounds, inactive, leaving, skipping, taking,
  stopping,
}

-- Some merge is attempted whose gate sees no end.
abbrev pub Hangs : {W : Type 0} → Services W → Settings → Type 0
Hangs services settings =
    (request : Request) × (w : _) × ((attempt services settings request w).1 ≡ unfinished)

-- How the loop may end.
abbrev pub EndsWell : {W : Type 0} → Services W → Settings → Turn W → Type 0
EndsWell services settings t =
    (t.flow ≡ continues)
    ⊎ (((t.flow ≡ raises) × BranchFails services settings)
        ⊎ ((t.flow ≡ hangs) × Hangs services settings))

module _ {W : Type 0} (services : Services W) (settings : Settings)
    (recovered : RecoveryResult) where
  -- A turn on an issue that was passed out and is not done ends well.
  turn-EndsWell :
      (g : Graph) (n : ℕ) (s : UnitState) (w : W)
      → Run g s.context.sched
      → n ∈ s.context.sched.consumed
      → n ∉ s.context.sched.done
      → EndsWell services settings (turn services settings recovered n s w)
  turn-EndsWell g n s w r c d = elim (turn-Handled services settings recovered n s w) [
    | parks reason f a b m ↦ inl f
    | completes m f a b l ↦ inl f
    | leaves (inl (f, inl refused)) a b m ↦
        absurd (mark_done_total s.context.sched n (Run-IsSound r).counted c d refused)
    | leaves (inl (f, inr failed)) a b m ↦ inr (inl (f, failed))
    | leaves (inr hung) a b m ↦ inr (inr hung)
  ]

  module _ (m : List ℕ) (bb : Graph) where
    -- A run of the loop keeps the state of the unit, and ends of itself, on a failed git command of the
    -- feature branch, or in a gate without end.
    pub Rounds-EndsWell :
        {pending seen : List ℕ} {s : UnitState} {t : Turn W}
        → Rounds services settings recovered pending seen s t
        → IsKept services settings recovered (build_dag m bb).graph s
        → IsQueued s.context.sched pending seen
        → IsKept services settings recovered (build_dag m bb).graph t.unit
          × EndsWell services settings t
    Rounds-EndsWell (inactive w f) k q = (k, inl refl)
    Rounds-EndsWell {pending} {seen} {s} (leaving w e) k q =
        (frontier-IsKept m bb services settings recovered s pending seen k, inl refl)
    Rounds-EndsWell {pending} {seen} {s} (skipping n rest is idle next_rounds) k q =
        let (k', q') = skipped m bb services settings recovered pending seen s n rest k q is in
        Rounds-EndsWell next_rounds k' q'
    Rounds-EndsWell {pending} {seen} {s} (taking n rest w is act f next_rounds) k q =
        let (k', q') = taken m bb services settings recovered pending seen s n rest w k q is in
        Rounds-EndsWell next_rounds k' q'
    Rounds-EndsWell {pending} {seen} {s} (stopping n rest w is act f) k q =
        let (undone, unparked, passed) =
          taken_open m bb services settings recovered pending seen s n rest k q is in
        (
          (taken m bb services settings recovered pending seen s n rest w k q is).0,
          turn-EndsWell (build_dag m bb).graph n (fetched pending seen s) w
              (frontier-IsKept m bb services settings recovered s pending seen k).run passed undone,
        )
