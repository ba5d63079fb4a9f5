-- ===== src/Poll/Draining.antt =====
-- The drain and the tick of `_poll_and_run` in src/baton_harness/chain/daemon/poll.py come to an end.
use baton_harness.Base.{
  ℕ, zero, suc, ◌≤◌, ◌<◌, String, ◌≡◌, ◌≢◌, inl, inr, Bool, true, false, not, none, some, List, [],
  ◌∷◌, arith, leb, Bool-cases, Option-cases, string_eq, nat_eq, length, filter, any, contains,
}
use baton_harness.WorkUnit.{Services, Settings, UnitState, out_of_fuel}
use baton_harness.WorkUnit.Accounts.{run_work_unit-Accounts}
use baton_harness.WorkUnit.Runs.{flow_cases}
use baton_harness.Poll.{Milestone, RawIssue, Listings, TickState}
use baton_harness.Poll.Select
use baton_harness.Poll.Select.{min_milestone, in_milestone, min_number, select_work_unit, WorkUnit}
use baton_harness.Poll.Drain.{
  remaining_after, mark_processed, members_of, mid_drain_excluded, run_unit, visit, drain,
}
use baton_harness.Poll.Scan.{
  orphan_unit, is_processed, see_orphan, scan_orphans, drain_ready, scan_and_sweep, fresh_tick,
  poll_and_run,
}

length-filter_le :
    {A : Type 0} (p : A → Bool) (xs : List A) → length (filter (λ x. not (p x)) xs) ≤ length xs
length-filter_le p [] = omega arith
length-filter_le p (x ∷ xs) = ground (arith, length-filter_le p xs)

length-filter_lt :
    {A : Type 0} (p : A → Bool) (xs : List A)
    → any p xs ≡ true
    → length (filter (λ x. not (p x)) xs) < length xs
length-filter_lt p [] h = cc
length-filter_lt p (x ∷ xs) h = ground (arith, length-filter_lt p xs, length-filter_le p xs)

-- The lowest milestone is that of some issue.
min_milestone-some :
    (issues : List RawIssue) (ms : Milestone)
    → min_milestone issues ≡ some ms
    → any (in_milestone ms.number) issues ≡ true
unfolding min_milestone
min_milestone-some [] ms e = cc
min_milestone-some (issue ∷ issues) ms e = elim (Option-cases issue.milestone) [
  | inl none_here ↦ ground (arith, none_here, min_milestone-some issues ms)
  | inr (here, is) ↦ elim (Option-cases (min_milestone issues)) [
    | inl none_left ↦ ground (arith, is, none_left)
    | inr (other, left) ↦ elim (Bool-cases (leb here.number other.number)) [
      | inl first ↦ ground (arith, is, left, first)
      | inr second ↦ ground (arith, is, left, second, min_milestone-some issues ms)
    ]
  ]
]

min_number-some :
    (issues : List RawIssue) (n : ℕ)
    → min_number issues ≡ some n
    → any (λ issue. contains (n ∷ []) issue.number) issues ≡ true
unfolding min_number
min_number-some [] n e = cc
min_number-some (issue ∷ issues) n e = elim (Option-cases (min_number issues)) [
  | inl none_left ↦ ground (arith, none_left)
  | inr (m, left) ↦ ground (arith, left, min_number-some issues n)
]

module _ (slugify : String → String) (str_of : ℕ → String) where
  -- A selected unit takes at least one issue off the ready ones.
  remaining_after_lt :
      (issues : List RawIssue) (unit : Select.WorkUnit)
      → select_work_unit slugify str_of issues ≡ some unit
      → length (remaining_after unit issues) < length issues
  unfolding select_work_unit remaining_after
  remaining_after_lt issues unit e = elim (Option-cases (min_milestone issues)) [
    | inr (ms, lowest) ↦
        let info : unit.milestone_info ≡ some ms = ground (arith, lowest) in
        rw (remaining_after, info)
          (length-filter_lt (in_milestone ms.number) issues (min_milestone-some issues ms lowest))
    | inl no_milestone ↦ elim (Option-cases (min_number issues)) [
      | inl nothing ↦ absurd (ground (arith, no_milestone, nothing))
      | inr (n, lowest) ↦
          let info : unit.milestone_info ≡ none = ground (arith, no_milestone, lowest) in
          let alone : unit.membership ≡ n ∷ [] = ground (arith, no_milestone, lowest) in
          rw (remaining_after, info)
            (rw alone (
              length-filter_lt (λ issue. contains (n ∷ []) issue.number) issues
                (min_number-some issues n lowest)))
    ]
  ]

module _ {W : Type 0} (services : Services W) (listings : Listings W) (settings : Settings) where
  open services use {texts}

  run_unit-flow :
      (unit : Select.WorkUnit) (m ready : List ℕ) (st : TickState) (w : W)
      → (run_unit services listings settings unit m ready st w).flow ≢ out_of_fuel
  unfolding run_unit
  run_unit-flow unit m ready st w =
      (run_work_unit-Accounts services
        (record settings {
          branch_name = unit.branch_name;
          slug = unit.slug;
          agent_ready_issues = ready;
        })
        m st.unit w).0

  visit-flow :
      (first : Bool) (unit : Select.WorkUnit) (m ready : List ℕ) (st : TickState) (w : W)
      → (visit services listings settings first unit m ready st w).flow ≢ out_of_fuel
  unfolding visit
  visit-flow true unit m ready st w = run_unit-flow unit m ready st w
  visit-flow false unit m ready st w =
      elim (Option-cases
        (mid_drain_excluded services listings settings (filter (contains ready) m) w).1) [
          | inl e ↦ rw (visit, e) (run_unit-flow unit m ready st _)
          | inr (n, e) ↦ rw (visit, e) (λ o. cc)
        ]

  -- Every round of the drain takes at least one issue off the ready ones, so a round more than there are of
  -- them is enough; and no unit that it runs lacks fuel.
  drain-flow :
      (fuel : ℕ) (first : Bool) (ready : List ℕ) (remaining : List RawIssue) (st : TickState)
      (w : W)
      → length remaining < fuel
      → (drain services listings settings fuel first ready remaining st w).flow ≢ out_of_fuel
  unfolding drain
  drain-flow zero first ready remaining st w lt = absurd (omega arith)
  drain-flow (suc fuel) first ready remaining st w lt =
      elim (Option-cases (select_work_unit listings.slugify texts.str_of remaining)) [
        | inl e ↦ rw (drain, e) (λ o. cc)
        | inr (unit, e) ↦
            let (w₁, m) = members_of services listings settings unit w in
            let t =
              visit services listings settings first unit m ready (mark_processed unit st) w₁ in
            let shorter = remaining_after_lt listings.slugify texts.str_of remaining unit e in
            elim (flow_cases t.flow) [
              | inl f ↦
                  rw (drain, e, f)
                    (drain-flow fuel false ready (remaining_after unit remaining) t.state t.world
                      (omega (arith, shorter)))
              | inr (inl f) ↦ rw (drain, e, f) (λ o. cc)
              | inr (inr (inl f)) ↦ rw (drain, e, f) (λ o. cc)
              | inr (inr (inr f)) ↦
                  absurd (visit-flow first unit m ready (mark_processed unit st) w₁ f)
            ]
      ]

  scan_orphans-flow :
      (orphans : List RawIssue) (seen_ms seen_issues : List ℕ) (st : TickState) (w : W)
      → (scan_orphans services listings settings orphans seen_ms seen_issues st w).flow
        ≢ out_of_fuel
  unfolding scan_orphans
  scan_orphans-flow [] seen_ms seen_issues st w = λ o. cc
  scan_orphans-flow (orphan ∷ orphans) seen_ms seen_issues st w =
      let (seen_ms', seen_issues') =
        see_orphan services listings settings orphan seen_ms seen_issues in
      let unit = orphan_unit services listings settings orphan in
      let (w₁, m) = members_of services listings settings unit w in
      let t = run_unit services listings settings unit m [] st w₁ in
      elim (Bool-cases (is_processed services listings settings orphan seen_ms seen_issues st)) [
        | inl y ↦ rw y (scan_orphans-flow orphans seen_ms seen_issues st w)
        | inr n ↦ elim (flow_cases t.flow) [
          | inl f ↦ rw n (rw f (scan_orphans-flow orphans seen_ms' seen_issues' t.state t.world))
          | inr (inl f) ↦ rw n (rw f (λ o. cc))
          | inr (inr (inl f)) ↦ rw n (rw f (λ o. cc))
          | inr (inr (inr f)) ↦ absurd (run_unit-flow unit m [] st w₁ f)
        ]
      ]

  scan_and_sweep-flow :
      (st : TickState) (w : W) → (scan_and_sweep services listings settings st w).flow ≢ out_of_fuel
  unfolding scan_and_sweep
  scan_and_sweep-flow st w =
      let (w₁, listed) = listings.list_in_progress w in
      elim (Option-cases listed) [
        | inl e ↦ rw (scan_and_sweep, e) (λ o. cc)
        | inr ([], e) ↦ rw (scan_and_sweep, e) (λ o. cc)
        | inr (orphan ∷ orphans, e) ↦
            let t = scan_orphans services listings settings (orphan ∷ orphans) [] [] st w₁ in
            elim (flow_cases t.flow) [
              | inl f ↦ rw (scan_and_sweep, e, f) (λ o. cc)
              | inr (inl f) ↦ rw (scan_and_sweep, e, f) (λ o. cc)
              | inr (inr (inl f)) ↦ rw (scan_and_sweep, e, f) (λ o. cc)
              | inr (inr (inr f)) ↦ absurd (scan_orphans-flow (orphan ∷ orphans) [] [] st w₁ f)
            ]
      ]

  -- A tick of the poll loop never runs out of fuel, whatever the world answers: the drain, the scan for
  -- orphans, and the loop of each work unit that they run come to an end, or stop at an exception or at a gate
  -- that sees no end.
  pub poll_and_run-flow :
      (s : UnitState) (w : W) → (poll_and_run services listings settings s w).flow ≢ out_of_fuel
  unfolding poll_and_run drain_ready
  poll_and_run-flow s w =
      let (w₁, listed) = listings.list_ready w in
      elim (Option-cases listed) [
        | inl e ↦ rw (poll_and_run, e) (λ o. cc)
        | inr (issues, e) ↦
            let t =
              drain_ready services listings settings issues
                (fresh_tick services listings settings s) w₁ in
            elim (flow_cases t.flow) [
              | inl f ↦ rw (poll_and_run, e, f) (scan_and_sweep-flow t.state t.world)
              | inr (inl f) ↦ rw (poll_and_run, e, f) (λ o. cc)
              | inr (inr (inl f)) ↦ rw (poll_and_run, e, f) (λ o. cc)
              | inr (inr (inr f)) ↦ absurd (drain-flow _ true _ _ _ _ (omega arith) f)
            ]
      ]
