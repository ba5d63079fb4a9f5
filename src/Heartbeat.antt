-- ===== src/Heartbeat.antt =====
-- src/baton_harness/chain/heartbeat.py: the liveness record shared by the daemon and the heartbeat
-- thread, and one tick of that thread. Times and thresholds are numbers of microseconds; an
-- `x - y > z` of the source is written `y + z < x`, which also serves a clock that was set back. A tick
-- reads the shared record in one piece and the daemon writes it while an alert is posted; the source reads
-- the fields one after the other, and a write of the daemon between two of these reads is left out.
pub mod Episodes
pub mod Races
use baton_harness.Base.{
  ℕ, ◌+◌, String, Bool, true, false, not, ◌&&◌, Option, none, some, List, [], ◌∷◌, ◌++◌, ltb,
  if◌then◌else◌, nat_eq, string_eq,
}

pub record LivenessState : Type 0 where
  pub in_progress_owner : Option String
  pub in_progress_repo : Option String
  pub in_progress_issue : Option ℕ
  pub in_progress_since : Option ℕ
  pub stall_alerted : Bool
  pub worker_active : Bool
  pub last_progress_at : Option ℕ

unfoldable pub mark_in_progress : String → String → ℕ → ℕ → Bool → LivenessState → LivenessState
mark_in_progress owner repo issue now active s = record s {
  in_progress_owner = some owner;
  in_progress_repo = some repo;
  in_progress_issue = some issue;
  in_progress_since = some now;
  stall_alerted = false;
  worker_active = active;
}

unfoldable pub clear : LivenessState → LivenessState
clear s = record s {
  in_progress_owner = none;
  in_progress_repo = none;
  in_progress_issue = none;
  in_progress_since = none;
  stall_alerted = false;
  worker_active = false;
}

unfoldable pub note_progress : ℕ → LivenessState → LivenessState
note_progress now s = record s { last_progress_at = some now }

-- The fields of `ObsConfig` that a tick reads, and whether it was given a run log.
pub record Observer : Type 0 where
  pub heartbeat_stall_s : ℕ
  pub worker_progress_stall_s : ℕ
  pub has_ping_url : Bool
  pub has_runlog : Bool

pub data Stall : Type 0 where
  wall_clock no_progress : Stall

-- What a tick attempts, in order, an alert with the answer that it got. A failure of any of them is
-- swallowed.
pub data Action : Type 0 where
  write_heartbeat emit_heartbeat ping : Action
  raise_alert : Stall → Option ℕ → (delivered : Bool) → Action
  emit_stall : Stall → Action

-- What the world answers during a tick: whether `alert` reports a durable record, for each kind of
-- stall, and what the daemon thread does to the shared record while that call runs.
pub record Answers : Type 0 where
  pub delivered : Stall → Bool
  pub meanwhile : Stall → LivenessState → LivenessState

abbrev runlog_action : Observer → Action → List Action
runlog_action obs action = if obs.has_runlog then action ∷ [] else []

-- The alert of one kind for the issue of the snapshot; a delivered one sets the latch on the shared
-- record, as it is by then.
unfoldable pub alert_stall :
    Observer → Answers → Stall → Option ℕ → LivenessState → LivenessState × List Action
alert_stall obs world stall issue s =
    let s' = world.meanwhile stall s in
    if world.delivered stall
    then (
      record s' { stall_alerted = true },
      raise_alert stall issue true ∷ runlog_action obs (emit_stall stall),
    )
    else (s', raise_alert stall issue false ∷ [])

-- The wall-clock predicate over the snapshot's start.
unfoldable pub check_wall_clock :
    Observer → Answers → ℕ → (since : ℕ) → Option ℕ → LivenessState → LivenessState × List Action
unfolding alert_stall
check_wall_clock obs world t since issue s =
    if ltb (since + obs.heartbeat_stall_s) t
    then alert_stall obs world wall_clock issue s
    else (s, [])

-- The progress predicate: the phase and the last progress are the snapshot's, the latch is read anew.
unfoldable pub check_progress :
    Observer
    → Answers
    → ℕ
    → (snapshot : LivenessState) → LivenessState
    → LivenessState × List Action
unfolding alert_stall
check_progress obs world t snapshot s = elim snapshot.last_progress_at [
  | none ↦ (s, [])
  | some progress ↦
      if snapshot.worker_active
        && not s.stall_alerted
        && ltb (progress + obs.worker_progress_stall_s) t
      then alert_stall obs world no_progress snapshot.in_progress_issue s
      else (s, [])
]

unfoldable pub detect_stall : Observer → Answers → ℕ → LivenessState → LivenessState × List Action
unfolding check_wall_clock check_progress
detect_stall obs world t s = elim s.in_progress_since [
  | none ↦ (s, [])
  | some since ↦
      if s.stall_alerted
      then (s, [])
      else let (s₁, first) = check_wall_clock obs world t since s.in_progress_issue s in
        let (s₂, second) = check_progress obs world t s s₁ in (s₂, first ++ second)
]

-- One tick; `none` for the time is a clock that raised, which ends the tick.
unfoldable pub heartbeat_tick :
    Observer → Answers → Option ℕ → LivenessState → LivenessState × List Action
unfolding detect_stall
heartbeat_tick obs world none s = (s, [])
heartbeat_tick obs world (some t) s =
    let (s', alerts) = detect_stall obs world t s in
    (
      s',
      write_heartbeat
          ∷ (runlog_action obs emit_heartbeat
              ++ (alerts ++ (if obs.has_ping_url then ping ∷ [] else []))),
    )

-- The loop of the heartbeat thread: `wait` answers after each tick whether the stop event is set.
unfoldable pub run_heartbeat_loop :
    Observer → List (Answers × Option ℕ × Bool) → LivenessState → LivenessState × List Action
run_heartbeat_loop obs [] s = (s, [])
run_heartbeat_loop obs ((world, t, stop) ∷ rounds) s =
    let (s', actions) = heartbeat_tick obs world t s in
    let rest = run_heartbeat_loop obs rounds s' in
    if stop then (s', actions) else (rest.0, actions ++ rest.1)
