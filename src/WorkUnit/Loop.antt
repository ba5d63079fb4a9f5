-- ===== src/WorkUnit/Loop.antt =====
-- The loop of `_run_work_unit` in src/baton_harness/chain/daemon/work_unit.py over the ready frontier.
use baton_harness.Base.{
  ℕ, zero, suc, Bool, true, false, not, ◌||◌, List, [], ◌∷◌, ◌++◌, if◌then◌else◌, string_eq, nat_eq,
  filter, any, contains,
}
use baton_harness.Scheduler.{get_ready, is_active, IssueScheduler}
use baton_harness.Recovery.{RecoveryResult}
use baton_harness.WorkUnit.{with_sched, Services, Settings, UnitState, Turn, continues, out_of_fuel}
use baton_harness.WorkUnit.Recovered.{
  recovered_done, recovered_parked, reenter_ci_gate, redispatch_breach, park_redispatch_loop,
  clear_orphan,
}
use baton_harness.WorkUnit.Dispatch.{dispatch}

-- for n in sched.get_ready(): the issues not seen before are appended to `pending`.
unfoldable pub collect : List ℕ → (pending seen : List ℕ) → List ℕ × List ℕ
collect [] pending seen = (pending, seen)
collect (n ∷ ready) pending seen =
    if contains seen n
    then collect ready pending seen
    else collect ready (pending ++ n ∷ []) (n ∷ seen)

-- What a round does with `pending`: it leaves the loop, drops the first issue, or takes it.
pub data Choice : Type 0 where
  leave : Choice
  skip : (rest : List ℕ) → Choice
  take : ℕ → (rest : List ℕ) → Choice

module _ (recovered : RecoveryResult) (agent_ready_issues : List ℕ) where
  unfoldable pub is_recovery_actionable : ℕ → Bool
  is_recovery_actionable n =
      contains recovered.done n
      || contains recovered.parked_seed n
      || contains recovered.ci_gate_reentry n
      || contains recovered.redispatch n

  unfoldable pub is_actionable : ℕ → Bool
  unfolding is_recovery_actionable
  is_actionable n = is_recovery_actionable n || contains agent_ready_issues n

  unfoldable pub choose : List ℕ → Choice
  unfolding is_actionable
  choose [] = leave
  choose (n ∷ rest) =
      if not (any is_actionable (n ∷ rest))
      then leave
      else if is_actionable n
      then take n rest
      else skip rest

-- The scheduler after `get_ready`, and `pending` and `seen` by the time the round chooses.
unfoldable pub frontier :
    IssueScheduler → (pending seen : List ℕ) → IssueScheduler × List ℕ × List ℕ
unfolding collect
frontier sched pending seen =
    let (sched', ready) = get_ready sched in
    let (collected, seen') = collect ready pending seen in
    (sched', filter (λ n. not (contains sched'.parked n)) collected, seen')

module _ {W : Type 0} (services : Services W) (settings : Settings)
    (recovered : RecoveryResult) where
  unfoldable pub redispatch_turn : ℕ → UnitState → W → Turn W
  unfolding redispatch_breach
  redispatch_turn n s w =
      let (s', breach) = redispatch_breach services settings n s w in
      if breach
      then park_redispatch_loop services settings n s' w
      else (let (w₁, s₁) = clear_orphan services settings n s' w in
          dispatch services settings n s₁ w₁)

  -- The body of the loop for the issue that was taken.
  unfoldable pub turn : ℕ → UnitState → W → Turn W
  unfolding redispatch_turn
  turn n s w =
      if contains recovered.done n
      then recovered_done services settings n s w
      else if contains recovered.parked_seed n
      then recovered_parked services settings n s w
      else if contains recovered.ci_gate_reentry n
      then reenter_ci_gate services settings n s w
      else if contains recovered.redispatch n
      then redispatch_turn n s w
      else dispatch services settings n s w

  unfoldable pub loop : (fuel : ℕ) → (pending seen : List ℕ) → UnitState → W → Turn W
  unfolding frontier choose turn
  loop zero pending seen s w = record { world = w; unit = s; flow = out_of_fuel }
  loop (suc fuel) pending seen s w =
      let (sched, pending', seen') = frontier s.context.sched pending seen in
      let s' : UnitState = with_sched sched s in
      elim (is_active s.context.sched) [
        | false ↦ record { world = w; unit = s; flow = continues }
        | true ↦ elim (choose recovered settings.agent_ready_issues pending') [
          | leave ↦ record { world = w; unit = s'; flow = continues }
          | skip rest ↦ loop fuel rest seen' s' w
          | take n rest ↦
              let t = turn n s' w in
              elim t.flow [ continues ↦ loop fuel rest seen' t.unit t.world | _ ↦ t ]
        ]
      ]
