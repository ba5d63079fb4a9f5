-- ===== src/Poll/Scan.antt =====
-- The scan for orphans and the whole tick of `_poll_and_run` in src/baton_harness/chain/daemon/poll.py.
use baton_harness.Base.{
  ℕ, suc, Bool, true, ◌||◌, none, some, List, [], ◌∷◌, if◌then◌else◌, string_eq, nat_eq, length,
  concat, contains,
}
use baton_harness.WorkUnit.{Services, Settings, UnitState, continues}
use baton_harness.Poll.{ready_of_snapshot, ready_live, RawIssue, Listings, TickState}
use baton_harness.Poll.Select
use baton_harness.Poll.Select.{numbers, WorkUnit}
use baton_harness.Poll.Drain.{members_of, run_unit, drain, Tick}

module _ {W : Type 0} (services : Services W) (listings : Listings W) (settings : Settings) where
  open services use {texts}

  -- The unit that an orphan seeds.
  unfoldable pub orphan_unit : RawIssue → Select.WorkUnit
  orphan_unit orphan = elim orphan.milestone [
    | some ms ↦
        let slug = listings.slugify ms.title in
        record {
          branch_name = concat ("feature/" ∷ slug ∷ []);
          slug = slug;
          membership = orphan.number ∷ [];
          milestone_info = some ms;
        }
    | none ↦
        let slug = concat ("issue-" ∷ texts.str_of orphan.number ∷ []) in
        record {
          branch_name = concat ("feature/" ∷ slug ∷ []);
          slug = slug;
          membership = orphan.number ∷ [];
          milestone_info = none;
        }
  ]

  -- Was the orphan's unit processed in this tick, or seeded by an orphan before it?
  abbrev pub is_processed : RawIssue → (seen_ms seen_issues : List ℕ) → TickState → Bool
  is_processed orphan seen_ms seen_issues st = elim orphan.milestone [
    | some ms ↦ contains st.processed_ms_nums ms.number || contains seen_ms ms.number
    | none ↦ contains st.processed_issue_nums orphan.number || contains seen_issues orphan.number
  ]

  -- `seen_orphan_ms` and `seen_orphan_issues` after the orphan.
  abbrev pub see_orphan : RawIssue → (seen_ms seen_issues : List ℕ) → List ℕ × List ℕ
  see_orphan orphan seen_ms seen_issues = elim orphan.milestone [
    | some ms ↦ (ms.number ∷ seen_ms, seen_issues)
    | none ↦ (seen_ms, orphan.number ∷ seen_issues)
  ]

  unfoldable pub scan_orphans :
      List RawIssue → (seen_ms seen_issues : List ℕ) → TickState → W → Tick W
  unfolding orphan_unit
  scan_orphans [] seen_ms seen_issues st w = record { world = w; state = st; flow = continues }
  scan_orphans (orphan ∷ orphans) seen_ms seen_issues st w =
      let (seen_ms', seen_issues') = see_orphan orphan seen_ms seen_issues in
      let unit = orphan_unit orphan in
      let (w₁, membership) = members_of services listings settings unit w in
      let t = run_unit services listings settings unit membership [] st w₁ in
      let rest = scan_orphans orphans seen_ms' seen_issues' t.state t.world in
      let passed = scan_orphans orphans seen_ms seen_issues st w in
      if is_processed orphan seen_ms seen_issues st
      then passed
      else elim t.flow [ continues ↦ rest | _ ↦ t ]

  -- The listing of the ready issues, the checks of their labels, and the drain.
  unfoldable pub drain_ready : List RawIssue → TickState → W → Tick W
  drain_ready issues st w =
      let (w₁, s₁, listed) = ready_of_snapshot services listings issues st.unit w in
      let (w₂, s₂, live) = ready_live services listings listed s₁ w₁ in
      drain services listings settings (suc (length live)) true (numbers live) live
        (record st { unit = s₂ }) w₂

  unfoldable pub scan_and_sweep : TickState → W → Tick W
  unfolding scan_orphans
  scan_and_sweep st w =
      let (w₁, listed) = listings.list_in_progress w in
      elim listed [
        | none ↦ record { world = w₁; state = st; flow = continues }
        | some [] ↦ record { world = w₁; state = st; flow = continues }
        | some (orphan ∷ orphans) ↦
            let t = scan_orphans (orphan ∷ orphans) [] [] st w₁ in
            elim t.flow [
              | continues ↦ record t { world = listings.sweep t.state.processed_issue_nums t.world }
              | _ ↦ t
            ]
      ]

  -- The sets of a tick that has just begun.
  abbrev pub fresh_tick : UnitState → TickState
  fresh_tick s = record {
    unit = s;
    dispatched_issue_nums = [];
    processed_ms_nums = [];
    processed_issue_nums = [];
  }

  unfoldable pub poll_and_run : UnitState → W → Tick W
  unfolding drain_ready scan_and_sweep
  poll_and_run s w =
      let st : TickState = fresh_tick s in
      let (w₁, listed) = listings.list_ready w in
      elim listed [
        | none ↦ record { world = w₁; state = st; flow = continues }
        | some issues ↦
            let t = drain_ready issues st w₁ in
            elim t.flow [ continues ↦ scan_and_sweep t.state t.world | _ ↦ t ]
      ]
