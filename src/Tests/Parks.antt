-- ===== src/Tests/Parks.antt =====
-- Parking on a concrete issue.
use baton_harness.Base.{
  ℕ, String, ◌≡◌, refl, ap, ◌∙◌, ◌≢◌, ◌⊎◌, inl, true, not, none, some, List, [], ◌∷◌, ◌++◌, map,
  arith, if◌then◌else◌, ◌==◌, nat_eq, string_eq, filter, ◌+ℤ◌, ◌≤ℤ◌, pos, contains, lookup,
  contains-append, contains-filter,
}
use baton_harness.Labels.{agent_ready, blocked, agent_in_progress}
use baton_harness.Labels.Single.{IsSingle}
use baton_harness.World.{fetch_daemon_labels, Github, critical, block, names}
use baton_harness.Tests.Numerals.{str_of, int_of}
use baton_harness.Scheduler.{init, mark_parked}
use baton_harness.FailureTally.{FailureTally, peek}
use baton_harness.Park.{cleared, charge, park_issue, ParkState, charged, terminal}
use baton_harness.Park.SingleState.{edit_result, park_target, park_issue-IsSingle, KeepsLabels}
use baton_harness.Park.Charging.{park_issue_parks, park_issue_charged}

map-same : (ls : List String) → map (λ s. s) ls ≡ ls
map-same [] = refl
map-same (l ∷ ls) = ap (λ rest. l ∷ rest) (map-same ls)

-- The labels of the only issue are the world; every command succeeds.
abbrev gh : Github (List String)
gh = record {
  lower = λ s. s;
  casefold = λ s. s;
  view_labels = λ n w. (w, names w);
  edit_labels = λ n adds removes w. (adds ++ filter (λ l. not (contains removes l)) w, true);
  alert = λ n severity kind text w. (w, true);
}

abbrev actual : List String → ℕ → List String
actual w n = w

keeps : KeepsLabels gh actual
keeps = record {
  view_shows = λ n w ls e k. ground (arith, e, map-same ls);
  view_keeps = λ n w. refl;
  edit_applies = λ n adds removes w e k.
      contains-append adds (filter (λ l. not (contains removes l)) w) k
      ∙ ground (arith, contains-filter (λ l. not (contains removes l)) w k);
  alert_keeps = λ n severity kind text w. refl;
}

abbrev failures : FailureTally
failures = record { max_count = pos 2; issues = (7, pos 1) ∷ []; alerted = []; file = none }

abbrev parking : ParkState
parking = record {
  sched = init ((7, []) ∷ (8, 7 ∷ []) ∷ []);
  liveness_state = none;
  parked_reasons = [];
  failure_tally = some failures;
  report = none;
}

abbrev before : List String
before = "bug" ∷ agent_in_progress ∷ agent_ready ∷ blocked ∷ []

edit_succeeds :
    (edit_result gh actual keeps str_of int_of 7 charged true (some failures) before).1 ≡ true
unfolding fetch_daemon_labels
edit_succeeds = refl

park_issue-IsSingle_example :
    IsSingle
      (park_issue gh str_of int_of 7 charged "ci" none critical block "t" true true parking
        before).0
      (park_target gh actual keeps str_of int_of charged
        (charge gh str_of int_of charged true (some failures) 7).1)
park_issue-IsSingle_example =
    park_issue-IsSingle gh actual keeps str_of int_of 7 charged "ci" none critical block "t" true
      true parking before (inl refl) edit_succeeds

park_issue_parks_example :
    let s' =
      (park_issue gh str_of int_of 7 terminal "ci" none critical block "t" true true parking
        before).1 in
    (s'.sched ≡ mark_parked parking.sched 7)
    × ((j : ℕ)
        → lookup s'.parked_reasons j
          ≡ (if j == 7 then some "ci" else lookup parking.parked_reasons j))
    × (s'.liveness_state ≡ cleared parking.liveness_state)
park_issue_parks_example =
    park_issue_parks gh str_of int_of 7 terminal "ci" none critical block "t" true true parking
      before

park_issue_charged_example :
    (t' : FailureTally) × ((park_issue gh str_of int_of 7 charged "ci" none critical block "t" true
        true parking before).1.failure_tally
      ≡ some t')
    × ((j : ℕ) → j ≢ 7 → peek t' j ≡ peek failures j)
    × ((peek t' 7 ≡ peek failures 7 +ℤ pos 1)
        ⊎ ((peek t' 7 ≡ pos 0) × (failures.max_count ≤ℤ peek failures 7 +ℤ pos 1)))
park_issue_charged_example =
    park_issue_charged gh str_of int_of 7 "ci" none critical block "t" true true parking before
      failures refl
