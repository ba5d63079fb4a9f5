-- ===== src/WorkUnit/Accounts.antt =====
-- What a whole work unit of src/baton_harness/chain/daemon/work_unit.py accounts for: every issue that it
-- reports as merged was merged, in the order of the dependencies, and no issue is left over.
use mathlib.Core.Path.{subst}
use baton_harness.Base.{
  ℕ, ◌≡◌, refl, sym, ◌∙◌, ◌≢◌, inl, inr, true, false, ◌||◌, none, some, List, [], ◌∷◌, arith,
  Option-cases, string_eq, nat_eq, contains, ◌∈◌, lookup, all-true,
}
use baton_harness.Dag.{Graph, build_dag, keys-build_dag}
use baton_harness.Scheduler.Edges.{blockers}
use baton_harness.Scheduler.Sorter
use baton_harness.Scheduler
use baton_harness.Scheduler.{init, prepare, is_active, IssueScheduler}
use baton_harness.Scheduler.Frontier.{IsCounted}
use baton_harness.Scheduler.Progress.{Run-IsSound}
use baton_harness.Scheduler.Members.{Run-blockers}
use baton_harness.Recovery.{RecoveryResult, reconstruct, or_empty_list}
use baton_harness.WorkUnit.{
  with_sched, Services, Settings, UnitState, Turn, continues, raises, out_of_fuel,
}
use baton_harness.WorkUnit.Loop.{}
use baton_harness.WorkUnit.Whole.{
  fetch_blockers, report_cycle, drive, set_outcomes, begun, run_over, run_with, run_work_unit,
}
use baton_harness.WorkUnit.Endings.{MergedFor}
use baton_harness.WorkUnit.Invariant.{IsKept}
use baton_harness.WorkUnit.Queue.{}
use baton_harness.WorkUnit.Rounds.{}
use baton_harness.WorkUnit.Outcome.{}
use baton_harness.WorkUnit.Coverage.{}
use baton_harness.WorkUnit.Driven.{IsFresh, drive-Ended}

done_consumed : (s : IssueScheduler) (v : ℕ) → IsCounted s → v ∈ s.done → v ∈ s.consumed
done_consumed s v h d = h.out_consumed v (λ o. ground (arith, h.done_finished v d))

module _ {W : Type 0} (services : Services W) (settings : Settings) where
  open services use {outside, texts}

  -- What the merged issues of a unit have going for them: each was found merged by recovery or came back
  -- MERGED, each one's blockers are merged too, and none of them is reported as parked.
  abbrev pub Accounts : RecoveryResult → Graph → UnitState → Type 0
  Accounts recovered g s =
      ((v : ℕ) → v ∈ s.merged_issues → MergedFor services settings recovered v)
      × ((v b : ℕ) → v ∈ s.merged_issues → b ∈ blockers g v → b ∈ s.merged_issues)
      × ((v : ℕ) → v ∈ s.merged_issues → lookup s.context.parked_reasons v ≡ none)

  IsKept-Accounts :
      (recovered : RecoveryResult) (g : Graph) (s : UnitState)
      → IsKept services settings recovered g s
      → Accounts recovered g s
  IsKept-Accounts recovered g s k =
      let h = Run-IsSound k.run in
      (
        k.earned,
        λ v b m l. ground (
          arith,
          k.merged_done v,
          k.merged_done b,
          Run-blockers v b k.run
              (done_consumed s.context.sched v h.counted (ground (arith, k.merged_done v))) l,
        ),
        λ v m. elim (Option-cases (lookup s.context.parked_reasons v)) [
          | inl e ↦ e
          | inr (r, e) ↦
              absurd
                (ground (arith, h.settled.disjoint v (k.reasons_parked v r e), k.merged_done v))
        ],
      )

  run_with-drive :
      (m : List ℕ) (s : UnitState) (w : W) {bb : Graph} {sched : IssueScheduler}
      → (fetch_blockers services settings m w).1 ≡ some bb
      → Scheduler.prepare (init (build_dag m bb).graph) ≡ some sched
      → run_with services settings m s w
        ≡ drive services settings m (with_sched sched s) (fetch_blockers services settings m w).0
  unfolding run_with run_over
  run_with-drive m s w read e = rw (run_with, read, run_over, e) refl

  run_with-report_cycle :
      (m : List ℕ) (s : UnitState) (w : W) {bb : Graph}
      → (fetch_blockers services settings m w).1 ≡ some bb
      → Scheduler.prepare (init (build_dag m bb).graph) ≡ none
      → run_with services settings m s w
        ≡ report_cycle services settings m
            (build_dag m bb).graph
            s
            (fetch_blockers services settings m w).0
  unfolding run_with run_over
  run_with-report_cycle m s w read e = rw (run_with, read, run_over, e) refl

  abbrev unread_end : List ℕ → UnitState → W → Turn W
  unread_end m s w = record {
    world = (fetch_blockers services settings m w).0;
    unit = s;
    flow = raises;
  }

  run_with-raises :
      (m : List ℕ) (s : UnitState) (w : W)
      → (fetch_blockers services settings m w).1 ≡ none
      → run_with services settings m s w ≡ unread_end m s w
  unfolding run_with
  run_with-raises m s w unread = rw (run_with, unread) refl

  -- A cycle in the graph ends the unit with nothing merged.
  report_cycle-Accounts :
      (m : List ℕ) (g : Graph) (s : UnitState) (w : W)
      → IsFresh s
      → let t = report_cycle services settings m g s w in
        (t.flow ≢ out_of_fuel) × (t.unit.merged_issues ≡ [])
  unfolding report_cycle
  report_cycle-Accounts [] g s w (nothing, reasons) = (λ o. cc, nothing)
  report_cycle-Accounts (x ∷ m) g s w (nothing, reasons) = (λ o. cc, nothing)

  abbrev AccountsEnd : List ℕ → Graph → Turn W → Type 0
  AccountsEnd m g t =
      (t.flow ≢ out_of_fuel)
      × ((recovered : RecoveryResult) × (w : W) × (recovered ≡ (reconstruct outside texts m w).1)
          × Accounts recovered g t.unit)

  -- Where nothing is merged, there is nothing to account for.
  nothing-AccountsEnd :
      (m : List ℕ) (g : Graph) (t : Turn W) (w : W)
      → t.flow ≢ out_of_fuel
      → t.unit.merged_issues ≡ []
      → AccountsEnd m g t
  nothing-AccountsEnd m g t w fuel nothing = (
    fuel,
    (
      (reconstruct outside texts m w).1,
      w,
      refl,
      (
        λ v k. absurd (ground (arith, nothing)),
        λ v b k. absurd (ground (arith, nothing)),
        λ v k. absurd (ground (arith, nothing)),
      ),
    ),
  )

  run_over-Accounts :
      (m : List ℕ) (s : UnitState) (w : W) (bb : Graph)
      → (fetch_blockers services settings m w).1 ≡ some bb
      → IsFresh s
      → AccountsEnd m (build_dag m bb).graph (run_with services settings m s w)
  run_over-Accounts m s w bb read fresh =
      let w₁ = (fetch_blockers services settings m w).0 in
      let g = (build_dag m bb).graph in
      elim (Option-cases (Scheduler.prepare (init g))) [
        | inl e ↦
            let (fuel, nothing) = report_cycle-Accounts m g s w₁ fresh in
            subst (AccountsEnd m g) (sym (run_with-report_cycle m s w read e))
              (nothing-AccountsEnd m g (report_cycle services settings m g s w₁) w fuel nothing)
        | inr (sched, e) ↦
            let (recovered, w', is, k, fuel, all_done) =
              drive-Ended services settings m bb s w₁ e fresh in
            subst (AccountsEnd m g) (sym (run_with-drive m s w read e))
              (fuel, (recovered, w', is, IsKept-Accounts recovered g _ k))
      ]

  -- The graph of the blockers that were fetched; the one without edges where a query raised.
  abbrev pub graph_of : List ℕ → W → Graph
  graph_of m w = (build_dag m (or_empty_list (fetch_blockers services settings m w).1)).graph

  run_with-Accounts :
      (m : List ℕ) (s : UnitState) (w : W)
      → IsFresh s
      → AccountsEnd m (graph_of m w) (run_with services settings m s w)
  run_with-Accounts m s w fresh = elim (Option-cases (fetch_blockers services settings m w).1) [
    | inl unread ↦
        subst (AccountsEnd m (graph_of m w)) (sym (run_with-raises m s w unread))
          (nothing-AccountsEnd m (graph_of m w) (unread_end m s w) w (λ o. cc) fresh.0)
    | inr (bb, read) ↦
        subst
          (λ r.
            AccountsEnd m (build_dag m (or_empty_list r)).graph (run_with services settings m s w))
          (sym read) (run_over-Accounts m s w bb read fresh)
  ]

  prepare-eq-some_acyclic :
      (g : Graph)
      → Sorter.has_cycle g ≡ false
      → (sched : IssueScheduler) × (Scheduler.prepare (init g) ≡ some sched)
  unfolding Scheduler.prepare Sorter.prepare init
  prepare-eq-some_acyclic g fine = elim (Option-cases (Scheduler.prepare (init g))) [
    | inl e ↦ absurd (ground (arith, fine, e))
    | inr prepared ↦ prepared
  ]

  -- Each member of a unit whose scheduler is not active is merged or parked.
  settled_member :
      (m : List ℕ) (bb : Graph) (recovered : RecoveryResult) (v : ℕ) (t : Turn W)
      → IsKept services settings recovered (build_dag m bb).graph t.unit
      → is_active t.unit.context.sched ≡ false
      → v ∈ m
      → (contains t.unit.merged_issues v || contains t.unit.context.sched.parked v) ≡ true
  unfolding is_active
  settled_member m bb recovered v t kept idle k =
      let sched = t.unit.context.sched in
      let nodes_eq : sched.all_nodes ≡ m =
        (Run-IsSound kept.run).same_nodes ∙ keys-build_dag m bb in
      let terminal =
        all-true (λ n. contains sched.done n || contains sched.parked n) sched.all_nodes v
          (ground arith) (rw nodes_eq k) in
      ground (arith, kept.merged_done v, terminal)

  -- A whole work unit is given fuel enough, whatever the world answers. There are the results of recovery in
  -- some world such that each issue that the unit counts as merged was among those found merged, or a merge of
  -- it came back MERGED; each blocker of a merged issue is merged; and no merged issue is reported as parked.
  pub run_work_unit-Accounts :
      (m : List ℕ) (s : UnitState) (w : W)
      → let t = run_work_unit services settings m s w in
        (t.flow ≢ out_of_fuel)
        × ((recovered : RecoveryResult) × (w' : W) × (recovered
              ≡ (reconstruct outside texts m w').1)
            × Accounts recovered (graph_of m w) t.unit)
  unfolding run_work_unit set_outcomes
  run_work_unit-Accounts m s w = run_with-Accounts m (begun services settings s) w (refl, refl)

  -- In a unit whose graph has no cycle and whose members are all agent-ready, a run that neither raises nor
  -- waits at a gate without end leaves each member merged, or parked in its scheduler.
  pub run_work_unit-settles :
      (m : List ℕ) (s : UnitState) (w : W)
      → ((v : ℕ) → v ∈ m → v ∈ settings.agent_ready_issues)
      → Sorter.has_cycle (graph_of m w) ≡ false
      → let t = run_work_unit services settings m s w in
        t.flow ≡ continues
        → (v : ℕ) → v ∈ m
        → (contains t.unit.merged_issues v || contains t.unit.context.sched.parked v) ≡ true
  unfolding run_work_unit set_outcomes is_active
  run_work_unit-settles m s w ready fine c v k =
      let w₁ = (fetch_blockers services settings m w).0 in
      let s₀ : UnitState = begun services settings s in
      elim (Option-cases (fetch_blockers services settings m w).1) [
        | inl unread ↦ absurd (ground (arith, run_with-raises m s₀ w unread, c))
        | inr (bb, read) ↦
            let fine_read =
              subst (λ r. Sorter.has_cycle (build_dag m (or_empty_list r)).graph ≡ false) read
                fine in
            let (sched, e) = prepare-eq-some_acyclic (build_dag m bb).graph fine_read in
            let (recovered, w', is, kept, fuel, all_done) =
              drive-Ended services settings m bb s₀ w₁ e (refl, refl) in
            let same = run_with-drive m s₀ w read e in
            let t = drive services settings m (with_sched sched s₀) w₁ in
            rw same (settled_member m bb recovered v t kept (all_done ready (rw same at c)) k)
      ]
