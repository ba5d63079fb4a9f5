-- ===== src/Tests/Tallies.antt =====
-- The failure tally and the re-dispatch tally on concrete counts.
use baton_harness.Base.{
  ℕ, ◌≡◌, refl, ◌↔◌, true, false, none, List, [], ◌∷◌, if◌then◌else◌, ◌==◌, nat_eq, string_eq, ◌+ℤ◌,
  ◌≤ℤ◌, pos,
}
use baton_harness.Tests.Numerals.{str_of, int_of, int_of-str_of}
use baton_harness.FailureTally
use baton_harness.FailureTally.{FailureTally, peek, has_alerted}
use baton_harness.FailureTally.Durable
use baton_harness.FailureTally.Counting.{peek-record_and_check}
use baton_harness.Redispatch
use baton_harness.Redispatch.{RedispatchTally, marks_of}
use baton_harness.Redispatch.Restart.{open_tally-document}
use baton_harness.Redispatch.Window.{
  history_verdicts, verdicts, verdicts-history, Call, tick_over, redispatched,
}

abbrev seven : ℕ
seven = 7

abbrev eight : ℕ
eight = 8

abbrev failures : FailureTally
failures = record { max_count = pos 2; issues = (7, pos 1) ∷ []; alerted = 8 ∷ []; file = none }

open_tally-persist_example :
    ((issue : ℕ)
      → peek
          (FailureTally.open_tally str_of int_of
            (pos 2)
            (FailureTally.persist str_of int_of true failures).file)
          issue
        ≡ peek failures issue)
    × ((issue : ℕ)
        → has_alerted
            (FailureTally.open_tally str_of int_of
              (pos 2)
              (FailureTally.persist str_of int_of true failures).file)
            issue
          ≡ has_alerted failures issue)
open_tally-persist_example =
    FailureTally.Durable.open_tally-persist str_of int_of int_of-str_of failures (pos 2) (refl, tt)

peek-record_and_check_example :
    let (t', reported) = FailureTally.record_and_check str_of int_of false failures 7 in
    ((j : ℕ) → peek t' j ≡ (if j == 7 then peek failures 7 +ℤ pos 1 else peek failures j))
    × (reported.0 ≡ peek t' 7)
    × ((reported.1 ≡ true) ↔ (failures.max_count ≤ℤ peek t' 7))
peek-record_and_check_example = peek-record_and_check str_of int_of false failures 7

abbrev redispatches : RedispatchTally
redispatches = record {
  window_ticks = pos 5;
  max_count = pos 1;
  tick = pos 3;
  issues = (7, pos 2 ∷ []) ∷ [];
  file = none;
}

open_tally-document_example :
    let t' =
      Redispatch.open_tally str_of int_of redispatches.window_ticks redispatches.max_count
        (Redispatch.persist str_of int_of true redispatches).file in
    (t'.tick ≡ redispatches.tick)
    × ((issue : ℕ) → marks_of t'.issues issue ≡ marks_of redispatches.issues issue)
open_tally-document_example =
    open_tally-document str_of int_of int_of-str_of redispatches (refl, tt)

abbrev calls : List Call
calls = redispatched true 7 ∷ tick_over false ∷ redispatched true 7 ∷ []

verdicts-history_example :
    verdicts str_of int_of
      (record { window_ticks = pos 5; max_count = pos 1; tick = pos 0; issues = []; file = none })
      calls
    ≡ history_verdicts (pos 5) (pos 1) (record { tick = pos 0; log = [] }) calls
verdicts-history_example = verdicts-history str_of int_of (pos 5) (pos 1) calls
