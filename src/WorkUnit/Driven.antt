-- ===== src/WorkUnit/Driven.antt =====
-- The loop of a work unit of src/baton_harness/chain/daemon/work_unit.py from its fresh state, with what stands
-- around it.
use baton_harness.Base.{
  ℕ, suc, ◌≡◌, refl, sym, ap, ◌∙◌, ◌≢◌, inl, inr, true, false, some, List, [], arith, Bool-cases,
  Option-cases, string_eq, nat_eq, length, ◌∈◌,
}
use baton_harness.Dag.{Graph, build_dag}
use baton_harness.Scheduler
use baton_harness.Scheduler.{init, prepare, is_active, IssueScheduler}
use baton_harness.Scheduler.Frontier.{started, prepare-eq-some}
use baton_harness.Scheduler.Progress.{begin}
use baton_harness.Recovery.{RecoveryResult, reconstruct}
use baton_harness.WorkUnit.{with_sched, Services, Settings, UnitState, Turn, continues, out_of_fuel}
use baton_harness.WorkUnit.Loop.{is_actionable, loop}
use baton_harness.WorkUnit.Whole.{complete_work_unit, setup_feature_branch, conclude, drive}
use baton_harness.WorkUnit.Invariant.{IsKept, IsQueued}
use baton_harness.WorkUnit.Queue.{unseen_le}
use baton_harness.WorkUnit.Runs.{loop-Rounds}
use baton_harness.WorkUnit.Outcome.{EndsWell, Rounds-EndsWell}
use baton_harness.WorkUnit.Coverage.{Rounds-is_active}

-- Before the first round nothing is done, parked or passed out.
prepared_empty :
    (g : Graph) {sched : IssueScheduler}
    → Scheduler.prepare (init g) ≡ some sched
    → (sched.done ≡ []) × (sched.consumed ≡ [])
unfolding started init
prepared_empty g e = (
  ap (λ (x : IssueScheduler). x.done) (prepare-eq-some g e),
  ap (λ (x : IssueScheduler). x.consumed) (prepare-eq-some g e),
)

queue_empty : (sched : IssueScheduler) → IsQueued sched [] []
queue_empty sched = record {
  passed = λ v k. cc;
  undone = λ v k. cc;
  known = λ v k. cc;
  once = λ v. omega arith;
}

-- A unit that has just begun.
abbrev pub IsFresh : UnitState → Type 0
IsFresh s = (s.merged_issues ≡ []) × (s.context.parked_reasons ≡ [])

module _ {W : Type 0} (services : Services W) (settings : Settings) where
  open services use {outside, texts}

  IsFresh-IsKept :
      (recovered : RecoveryResult) (g : Graph) (s : UnitState) {sched : IssueScheduler}
      → Scheduler.prepare (init g) ≡ some sched
      → IsFresh s
      → IsKept services settings recovered g (with_sched sched s)
  IsFresh-IsKept recovered g s {sched} e (nothing, no_reasons) =
      let (undone, unpassed) = prepared_empty g e in
      record {
        run = begin e;
        merged_done = λ v. ground (arith, nothing, undone);
        earned = λ v m. absurd (ground (arith, nothing));
        reasons_parked = λ v r l. absurd (ground (arith, no_reasons));
      }

  -- The loop over a unit that has just begun, with a round more than there are members, comes to an end: of
  -- itself, on a git command of the feature branch that failed, or in a gate that sees no end. It never runs
  -- out of fuel, and the scheduler never refuses to mark an issue done. It keeps the state of the unit, and
  -- where it ends of itself and every member may be worked on, the scheduler is no longer active.
  pub loop-EndsWell :
      (m : List ℕ) (bb : Graph) (recovered : RecoveryResult) (s : UnitState) (w : W)
      {sched : IssueScheduler}
      → Scheduler.prepare (init (build_dag m bb).graph) ≡ some sched
      → IsFresh s
      → let t = loop services settings recovered (suc (length m)) [] [] (with_sched sched s) w in
        IsKept services settings recovered (build_dag m bb).graph t.unit
        × EndsWell services settings t
        × (((v : ℕ) → v ∈ m → is_actionable recovered settings.agent_ready_issues v ≡ true)
            → t.flow ≡ continues
            → is_active t.unit.context.sched ≡ false)
  loop-EndsWell m bb recovered s w {sched} e fresh =
      let s₀ : UnitState = with_sched sched s in
      let k = IsFresh-IsKept recovered (build_dag m bb).graph s e fresh in
      let q = queue_empty sched in
      let rounds =
        loop-Rounds m bb services settings recovered (suc (length m)) [] [] s₀ w
          (omega (arith, unseen_le m [])) k q in
      let (kept, ends) = Rounds-EndsWell services settings recovered m bb rounds k q in
      let (undone, unpassed) = prepared_empty (build_dag m bb).graph e in
      (
        kept,
        ends,
        λ act f.
            Rounds-is_active services settings recovered m bb rounds act
              (λ v c. absurd (ground (arith, unpassed))) k q f,
      )

  -- Two ends of a turn that differ in the world, the report and the records alone.
  abbrev Same : Turn W → Turn W → Type 0
  Same t t' =
      (t'.flow ≡ t.flow)
      × (t'.unit.context.sched ≡ t.unit.context.sched)
      × (t'.unit.merged_issues ≡ t.unit.merged_issues)
      × (t'.unit.context.parked_reasons ≡ t.unit.context.parked_reasons)

  -- How a unit ends whose graph has no cycle.
  abbrev pub Ended : List ℕ → Graph → Turn W → Type 0
  Ended m bb t =
      (recovered : RecoveryResult) × (w : W) × (recovered ≡ (reconstruct outside texts m w).1)
      × IsKept services settings recovered (build_dag m bb).graph t.unit
      × (t.flow ≢ out_of_fuel)
      × (((v : ℕ) → v ∈ m → v ∈ settings.agent_ready_issues)
          → t.flow ≡ continues
          → is_active t.unit.context.sched ≡ false)

  keep_end : (m : List ℕ) (bb : Graph) (t t' : Turn W) → Same t t' → Ended m bb t → Ended m bb t'
  keep_end m bb t t' (f, a, b, c) (recovered, w, is, k, fuel, all_done) = (
    recovered,
    w,
    is,
    record {
      run = rw a k.run;
      merged_done = λ v. ground (arith, a, b, k.merged_done v);
      earned = λ v m'. k.earned v (rw b at m');
      reasons_parked = λ v r e. rw a (k.reasons_parked v r (rw c at e));
    },
    λ e. fuel (sym f ∙ e),
    λ ready e. rw a (all_done ready (sym f ∙ e)),
  )

  EndsWell-flow : (t : Turn W) → EndsWell services settings t → t.flow ≢ out_of_fuel
  EndsWell-flow t (inl e) o = cc
  EndsWell-flow t (inr (inl (e, why))) o = cc
  EndsWell-flow t (inr (inr (e, why))) o = cc

  conclude-Same : (t : Turn W) → Same t (conclude services settings t)
  unfolding conclude complete_work_unit
  conclude-Same t = (ground arith, ground arith, ground arith, ground arith)

  ready_actionable :
      (recovered : RecoveryResult) (v : ℕ)
      → v ∈ settings.agent_ready_issues
      → is_actionable recovered settings.agent_ready_issues v ≡ true
  unfolding is_actionable
  ready_actionable recovered v r = ground arith

  setup_feature_branch-some :
      (m : List ℕ) (w : W) (recovered : RecoveryResult)
      → (setup_feature_branch services settings m w).1 ≡ some recovered
      → (w' : W) × (recovered ≡ (reconstruct outside texts m w').1)
  unfolding setup_feature_branch
  setup_feature_branch-some m w recovered e =
      let (w₁, created) = services.create_feature_branch settings.branch_name w in
      let (w₂, pushed) = services.push settings.branch_name w₁ in
      elim (Bool-cases created) [
        | inl y ↦ (w₂, ground (arith, y))
        | inr f ↦ absurd (ground (arith, f))
      ]

  pub drive-Ended :
      (m : List ℕ) (bb : Graph) (s : UnitState) (w : W) {sched : IssueScheduler}
      → Scheduler.prepare (init (build_dag m bb).graph) ≡ some sched
      → IsFresh s
      → Ended m bb (drive services settings m (with_sched sched s) w)
  unfolding drive
  drive-Ended m bb s w {sched} e fresh =
      let (w₁, found) = setup_feature_branch services settings m w in
      elim (Option-cases found) [
        | inl n ↦
            rw (drive, n)
              (
                (reconstruct outside texts m w).1,
                w,
                refl,
                IsFresh-IsKept (reconstruct outside texts m w).1 (build_dag m bb).graph s e fresh,
                λ o. cc,
                λ ready c. cc,
              )
        | inr (recovered, y) ↦
            let t =
              loop services settings recovered (suc (length m)) [] [] (with_sched sched s) w₁ in
            let (k, ends, all_done) = loop-EndsWell m bb recovered s w₁ e fresh in
            let (w', is) = setup_feature_branch-some m w recovered y in
            rw (drive, y)
              (keep_end m bb t (conclude services settings t) (conclude-Same t) (
                recovered,
                w',
                is,
                k,
                EndsWell-flow t ends,
                λ ready c. all_done (λ v v'. ready_actionable recovered v (ready v v')) c,
              ))
      ]
