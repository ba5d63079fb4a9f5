-- ===== src/Heartbeat/Races.antt =====
-- The latch of src/baton_harness/chain/heartbeat.py when the daemon thread moves on while the
-- heartbeat thread posts an alert.
use baton_harness.Base.{
  ℕ, ◌+◌, ◌<◌, String, ◌≡◌, Bool, true, false, Option, some, List, arith, nat_eq, string_eq,
}
use baton_harness.Heartbeat.{
  mark_in_progress, alert_stall, check_wall_clock, check_progress, detect_stall, heartbeat_tick,
  run_heartbeat_loop, LivenessState, Observer, Answers, wall_clock,
}
use baton_harness.Heartbeat.Episodes.{AllQuiet, deliveries, deliveries-run_heartbeat_loop}

-- A delivered wall-clock alert sets the latch on whatever the shared record holds by then, and the
-- progress check of the same tick leaves it so.
latched_late :
    (obs : Observer) (world : Answers) (t since : ℕ) (s : LivenessState)
    → s.in_progress_since ≡ some since
    → s.stall_alerted ≡ false
    → since + obs.heartbeat_stall_s < t
    → world.delivered wall_clock ≡ true
    → (heartbeat_tick obs world (some t) s).0
      ≡ record (world.meanwhile wall_clock s) { stall_alerted = true }
unfolding heartbeat_tick detect_stall check_wall_clock check_progress alert_stall
latched_late obs world t since s e fresh over sent = ground arith

-- If the daemon marks another issue in progress while the alert for a stalled one is being posted,
-- the shared record names the new issue after the tick, with the latch set: as long as the daemon
-- then leaves the record alone, no later tick of the loop delivers an alert, however long the new
-- issue stalls.
pub lost_alert :
    (obs : Observer) (world : Answers) (t since : ℕ) (s : LivenessState) (owner repo : String)
    (issue now : ℕ) (active : Bool) (rounds : List (Answers × Option ℕ × Bool))
    → s.in_progress_since ≡ some since
    → s.stall_alerted ≡ false
    → since + obs.heartbeat_stall_s < t
    → world.delivered wall_clock ≡ true
    → world.meanwhile wall_clock s ≡ mark_in_progress owner repo issue now active s
    → AllQuiet rounds
    → let s' = (heartbeat_tick obs world (some t) s).0 in
      (s'.in_progress_issue ≡ some issue)
      × (s'.in_progress_since ≡ some now)
      × (deliveries (run_heartbeat_loop obs rounds s').1 ≡ 0)
unfolding mark_in_progress
lost_alert obs world t since s owner repo issue now active rounds e fresh over sent moved quiet =
    let after = latched_late obs world t since s e fresh over sent in
    (
      ground (arith, after),
      ground (arith, after),
      ground (
        arith,
        after,
        deliveries-run_heartbeat_loop obs rounds (heartbeat_tick obs world (some t) s).0 quiet,
      ),
    )
