-- ===== src/WorkUnit/Rounds.antt =====
-- One round of the loop of src/baton_harness/chain/daemon/work_unit.py, and runs of rounds.
use baton_harness.Base.{
  ℕ, ◌+◌, ◌≤◌, ◌≡◌, refl, ◌≢◌, true, false, not, List, [], ◌∷◌, arith, string_eq, nat_eq, ==_refl,
  length, any, contains, ◌∈◌, ◌∉◌,
}
use baton_harness.Dag.{Graph, build_dag}
use baton_harness.Scheduler.{get_ready, is_active, IssueScheduler}
use baton_harness.Scheduler.Progress.{Run, fetch, next}
use baton_harness.Scheduler.Members.{Run-ready}
use baton_harness.Recovery.{RecoveryResult}
use baton_harness.WorkUnit.{with_sched, Services, Settings, UnitState, Turn, continues}
use baton_harness.WorkUnit.Loop.{collect, is_actionable, choose, frontier, turn, leave, skip, take}
use baton_harness.WorkUnit.Turns.{turn-Handled}
use baton_harness.WorkUnit.Invariant.{Ends-IsKept, Ends-IsQueued, IsKept, IsQueued}
use baton_harness.WorkUnit.Queue.{
  unseen, collect_measure, length-filter_le, ready_raw, frontier-IsQueued,
}

module _ (recovered : RecoveryResult) (agent_ready_issues : List ℕ) where
  pub choose-take :
      (pending : List ℕ) (n : ℕ) (rest : List ℕ)
      → choose recovered agent_ready_issues pending ≡ take n rest
      → (pending ≡ n ∷ rest) × (is_actionable recovered agent_ready_issues n ≡ true)
  unfolding choose
  choose-take [] n rest e = absurd (ground arith)
  choose-take (x ∷ xs) n rest e = (ground arith, ground arith)

  pub choose-skip :
      (pending rest : List ℕ)
      → choose recovered agent_ready_issues pending ≡ skip rest
      → (n : ℕ) × (pending ≡ n ∷ rest) × (is_actionable recovered agent_ready_issues n ≡ false)
  unfolding choose
  choose-skip [] rest e = absurd (ground arith)
  choose-skip (x ∷ xs) rest e = (x, ground arith, ground arith)

  pub choose-leave :
      (pending : List ℕ)
      → choose recovered agent_ready_issues pending ≡ leave
      → any (is_actionable recovered agent_ready_issues) pending ≡ false
  unfolding choose
  choose-leave [] e = refl
  choose-leave (x ∷ xs) e = ground arith

IsQueued-tail :
    {sched : IssueScheduler} {n : ℕ} {rest seen : List ℕ}
    → IsQueued sched (n ∷ rest) seen
    → IsQueued sched rest seen
IsQueued-tail {rest = rest} q = record {
  passed = q.passed;
  undone = λ v k. q.undone v (ground arith);
  known = λ v k. q.known v (ground arith);
  once = λ v. ground (arith, q.once v);
}

-- The state once a round has called `get_ready`.
abbrev pub fetched : (pending seen : List ℕ) → UnitState → UnitState
fetched pending seen s = with_sched (frontier s.context.sched pending seen).0 s

-- A run of the loop from a queue, the issues seen and a state: one constructor for each way that a round goes.
pub data Rounds {W : Type 0} (services : Services W) (settings : Settings)
    (recovered : RecoveryResult) : List ℕ → List ℕ → UnitState → Turn W → Type 0 where
  inactive :
      {pending seen : List ℕ} {s : UnitState} (w : W)
      → is_active s.context.sched ≡ false
      → Rounds services settings recovered pending seen s
          (record { world = w; unit = s; flow = continues })
  leaving :
      {pending seen : List ℕ} {s : UnitState} (w : W)
      → choose recovered settings.agent_ready_issues (frontier s.context.sched pending seen).1
        ≡ leave
      → Rounds services settings recovered pending seen s
          (record { world = w; unit = fetched pending seen s; flow = continues })
  skipping :
      {pending seen : List ℕ} {s : UnitState} {t : Turn W} (n : ℕ) (rest : List ℕ)
      → (frontier s.context.sched pending seen).1 ≡ n ∷ rest
      → is_actionable recovered settings.agent_ready_issues n ≡ false
      → Rounds services settings recovered rest
          (frontier s.context.sched pending seen).2
          (fetched pending seen s)
          t
      → Rounds services settings recovered pending seen s t
  taking :
      {pending seen : List ℕ} {s : UnitState} {t : Turn W} (n : ℕ) (rest : List ℕ) (w : W)
      → (frontier s.context.sched pending seen).1 ≡ n ∷ rest
      → is_actionable recovered settings.agent_ready_issues n ≡ true
      → (turn services settings recovered n (fetched pending seen s) w).flow ≡ continues
      → Rounds services settings recovered rest
          (frontier s.context.sched pending seen).2
          (turn services settings recovered n (fetched pending seen s) w).unit
          t
      → Rounds services settings recovered pending seen s t
  stopping :
      {pending seen : List ℕ} {s : UnitState} (n : ℕ) (rest : List ℕ) (w : W)
      → (frontier s.context.sched pending seen).1 ≡ n ∷ rest
      → is_actionable recovered settings.agent_ready_issues n ≡ true
      → (turn services settings recovered n (fetched pending seen s) w).flow ≢ continues
      → Rounds services settings recovered pending seen s
          (turn services settings recovered n (fetched pending seen s) w)

module _ (m : List ℕ) (bb : Graph) where
  pub frontier_measure :
      (s : IssueScheduler) (pending seen : List ℕ)
      → Run (build_dag m bb).graph s
      → let (s', pending', seen') = frontier s pending seen in
        unseen m seen' + length pending' ≤ unseen m seen + length pending
  unfolding frontier
  frontier_measure s pending seen r =
      let (s', ready) = get_ready s in
      omega (
        arith,
        collect_measure m ready pending seen (λ v k. Run-ready m bb v r (ready_raw s v k).0),
        length-filter_le (λ n. not (contains s'.parked n)) (collect ready pending seen).0,
      )

  module _ {W : Type 0} (services : Services W) (settings : Settings)
      (recovered : RecoveryResult) where
    pub frontier-IsKept :
        (s : UnitState) (pending seen : List ℕ)
        → IsKept services settings recovered (build_dag m bb).graph s
        → IsKept services settings recovered
            (build_dag m bb).graph
            (with_sched (frontier s.context.sched pending seen).0 s)
    unfolding frontier
    frontier-IsKept s pending seen k = record {
      run = next k.run fetch;
      merged_done = λ v. unfold get_ready in k.merged_done v;
      earned = k.earned;
      reasons_parked = λ v r e. unfold get_ready in k.reasons_parked v r e;
    }

    -- After a round that drops the first issue.
    pub skipped :
        (pending seen : List ℕ) (s : UnitState) (n : ℕ) (rest : List ℕ)
        → IsKept services settings recovered (build_dag m bb).graph s
        → IsQueued s.context.sched pending seen
        → let (sched, pending', seen') = frontier s.context.sched pending seen in
          pending' ≡ n ∷ rest
          → IsKept services settings recovered (build_dag m bb).graph (with_sched sched s)
            × IsQueued sched rest seen'
    skipped pending seen s n rest k q e =
        let (q', free) =
          frontier-IsQueued (build_dag m bb).graph s.context.sched pending seen k.run q in
        (frontier-IsKept s pending seen k, IsQueued-tail (rw e at q'))

    -- The issue that a round takes is neither done nor parked.
    pub taken_open :
        (pending seen : List ℕ) (s : UnitState) (n : ℕ) (rest : List ℕ)
        → IsKept services settings recovered (build_dag m bb).graph s
        → IsQueued s.context.sched pending seen
        → let (sched, pending', seen') = frontier s.context.sched pending seen in
          pending' ≡ n ∷ rest → (n ∉ sched.done) × (n ∉ sched.parked) × (n ∈ sched.consumed)
    taken_open pending seen s n rest k q e =
        let (q', free) =
          frontier-IsQueued (build_dag m bb).graph s.context.sched pending seen k.run q in
        let here : n ∈ (frontier s.context.sched pending seen).1 =
          rw e (ground (arith, ==_refl n)) in
        (q'.undone n here, free n here, q'.passed n (q'.known n here))

    -- After a round that takes the first issue.
    pub taken :
        (pending seen : List ℕ) (s : UnitState) (n : ℕ) (rest : List ℕ) (w : W)
        → IsKept services settings recovered (build_dag m bb).graph s
        → IsQueued s.context.sched pending seen
        → let (sched, pending', seen') = frontier s.context.sched pending seen in
          pending' ≡ n ∷ rest
          → let t = turn services settings recovered n (with_sched sched s) w in
            IsKept services settings recovered (build_dag m bb).graph t.unit
            × IsQueued t.unit.context.sched rest seen'
    taken pending seen s n rest w k q e =
        let g = (build_dag m bb).graph in
        let (sched, pending', seen') = frontier s.context.sched pending seen in
        let s' : UnitState = with_sched sched s in
        let (q', free) = frontier-IsQueued g s.context.sched pending seen k.run q in
        let (undone, unparked, passed) = taken_open pending seen s n rest k q e in
        let ends = turn-Handled services settings recovered n s' w in
        (
          Ends-IsKept services settings recovered g n s' (turn services settings recovered n s' w)
              ends undone unparked (frontier-IsKept s pending seen k),
          Ends-IsQueued services settings recovered g n rest seen' sched s.context.parked_reasons
              s.merged_issues (turn services settings recovered n s' w) ends (rw e at q'),
        )
