-- ===== src/Tests/Beats.antt =====
-- The heartbeat on concrete ticks.
use baton_harness.Base.{
  ℕ, ◌+◌, ◌≤◌, ◌<◌, ◌≡◌, refl, ◌↔◌, Bool, true, false, Option, some, List, [], ◌∷◌, arith, nat_eq,
  string_eq,
}
use baton_harness.Heartbeat.{
  mark_in_progress, heartbeat_tick, run_heartbeat_loop, LivenessState, Observer, Answers,
  wall_clock, no_progress,
}
use baton_harness.Heartbeat.Episodes.{
  flag, deliveries, deliveries-run_heartbeat_loop, raises, raises-heartbeat_tick, IsQuiet,
}
use baton_harness.Heartbeat.Races.{lost_alert}

abbrev observer : Observer
observer = record {
  heartbeat_stall_s = 100;
  worker_progress_stall_s = 50;
  has_ping_url = true;
  has_runlog = true;
}

-- Every alert is delivered, and the daemon does nothing meanwhile.
abbrev quiet_world : Answers
quiet_world = record { delivered = λ stall. true; meanwhile = λ stall s. s }

-- Every alert is delivered, while the daemon goes on to issue 8.
abbrev moving_world : Answers
moving_world = record {
  delivered = λ stall. true;
  meanwhile = λ stall s. mark_in_progress "o" "r" 8 200 false s;
}

abbrev stalled : LivenessState
stalled = record {
  in_progress_owner = some "o";
  in_progress_repo = some "r";
  in_progress_issue = some 7;
  in_progress_since = some 0;
  stall_alerted = false;
  worker_active = true;
  last_progress_at = some 10;
}

quiet : IsQuiet quiet_world
quiet = record { still = λ stall s. refl }

abbrev three_rounds : List (Answers × Option ℕ × Bool)
three_rounds =
    (quiet_world, some 120, false)
    ∷ (quiet_world, some 150, false)
    ∷ (quiet_world, some 180, true)
    ∷ []

deliveries-run_heartbeat_loop_example :
    deliveries (run_heartbeat_loop observer three_rounds stalled).1 + flag stalled.stall_alerted ≤ 1
deliveries-run_heartbeat_loop_example =
    deliveries-run_heartbeat_loop observer three_rounds stalled (quiet, (quiet, (quiet, tt)))

one_alert : deliveries (run_heartbeat_loop observer three_rounds stalled).1 ≡ 1
unfolding run_heartbeat_loop heartbeat_tick
one_alert = refl

raises-heartbeat_tick_example :
    (raises wall_clock (heartbeat_tick observer quiet_world (some 120) stalled).1 ≡ true) ↔ (
      (since : ℕ) × (stalled.in_progress_since ≡ some since)
      × (stalled.stall_alerted ≡ false)
      × (since + observer.heartbeat_stall_s < 120))
raises-heartbeat_tick_example = raises-heartbeat_tick observer quiet_world 120 stalled

slow_worker : raises no_progress (heartbeat_tick observer quiet_world (some 80) stalled).1 ≡ true
unfolding heartbeat_tick
slow_worker = refl

lost_alert_example :
    let s' = (heartbeat_tick observer moving_world (some 120) stalled).0 in
    (s'.in_progress_issue ≡ some 8)
    × (s'.in_progress_since ≡ some 200)
    × (deliveries (run_heartbeat_loop observer ((quiet_world, some 999, true) ∷ []) s').1 ≡ 0)
lost_alert_example =
    lost_alert observer moving_world 120 0 stalled "o" "r" 8 200 false
      ((quiet_world, some 999, true) ∷ []) refl refl (omega arith) refl refl (quiet, tt)
