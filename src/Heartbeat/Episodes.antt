-- ===== src/Heartbeat/Episodes.antt =====
-- The stall alerts of src/baton_harness/chain/heartbeat.py while the daemon leaves the shared record
-- alone.
use baton_harness.Base.{
  ℕ, ◌+◌, ◌≤◌, ◌<◌, ◌≡◌, ◌↔◌, inl, inr, Bool, true, false, Option, none, some, List, [], ◌∷◌, ◌++◌,
  arith, if◌then◌else◌, Option-cases, nat_eq, string_eq,
}
use baton_harness.Heartbeat.{
  alert_stall, check_wall_clock, check_progress, detect_stall, heartbeat_tick, run_heartbeat_loop,
  LivenessState, Observer, Stall, Action, Answers, wall_clock, no_progress, write_heartbeat,
  emit_heartbeat, ping, raise_alert, emit_stall,
}

-- The daemon thread does nothing while an alert is posted.
pub record IsQuiet (world : Answers) : Type 0 where
  pub still : (stall : Stall) (s : LivenessState) → world.meanwhile stall s ≡ s

abbrev pub flag : Bool → ℕ
flag true = 1
flag false = 0

-- The alerts among the actions that reached their durable record.
abbrev pub deliveries : List Action → ℕ
deliveries [] = 0
deliveries (raise_alert stall issue delivered ∷ rest) = flag delivered + deliveries rest
deliveries (_ ∷ rest) = deliveries rest

deliveries-append : (xs ys : List Action) → deliveries (xs ++ ys) ≡ deliveries xs + deliveries ys
deliveries-append [] ys = omega arith
deliveries-append (raise_alert stall issue d ∷ xs) ys = omega (arith, deliveries-append xs ys)
deliveries-append (write_heartbeat ∷ xs) ys = deliveries-append xs ys
deliveries-append (emit_heartbeat ∷ xs) ys = deliveries-append xs ys
deliveries-append (ping ∷ xs) ys = deliveries-append xs ys
deliveries-append (emit_stall stall ∷ xs) ys = deliveries-append xs ys

module _ (obs : Observer) (world : Answers) (q : IsQuiet world) where
  deliveries-alert_stall :
      (stall : Stall) (issue : Option ℕ) (s : LivenessState)
      → s.stall_alerted ≡ false
      → deliveries (alert_stall obs world stall issue s).1
        ≡ flag (alert_stall obs world stall issue s).0.stall_alerted
  unfolding alert_stall
  deliveries-alert_stall stall issue s fresh = ground (arith, q.still stall s)

  deliveries-check_wall_clock :
      (t since : ℕ) (issue : Option ℕ) (s : LivenessState)
      → s.stall_alerted ≡ false
      → deliveries (check_wall_clock obs world t since issue s).1
        ≡ flag (check_wall_clock obs world t since issue s).0.stall_alerted
  unfolding check_wall_clock
  deliveries-check_wall_clock t since issue s fresh =
      ground (arith, deliveries-alert_stall wall_clock issue s fresh)

  deliveries-check_progress :
      (t : ℕ) (snapshot s : LivenessState)
      → deliveries (check_progress obs world t snapshot s).1 + flag s.stall_alerted
        ≡ flag (check_progress obs world t snapshot s).0.stall_alerted
  unfolding check_progress
  deliveries-check_progress t snapshot s =
      ground (arith, deliveries-alert_stall no_progress snapshot.in_progress_issue s)

  deliveries-detect_stall :
      (t : ℕ) (s : LivenessState)
      → deliveries (detect_stall obs world t s).1 + flag s.stall_alerted
        ≡ flag (detect_stall obs world t s).0.stall_alerted
  unfolding detect_stall
  deliveries-detect_stall t s = elim (Option-cases s.in_progress_since) [
    | inl idle ↦ ground arith
    | inr (since, e) ↦
        let (s₁, first) = check_wall_clock obs world t since s.in_progress_issue s in
        let (s₂, second) = check_progress obs world t s s₁ in
        ground (
          arith,
          deliveries-append first second,
          deliveries-check_wall_clock t since s.in_progress_issue s,
          deliveries-check_progress t s s₁,
        )
  ]

  deliveries-heartbeat_tick :
      (t : Option ℕ) (s : LivenessState)
      → deliveries (heartbeat_tick obs world t s).1 + flag s.stall_alerted
        ≡ flag (heartbeat_tick obs world t s).0.stall_alerted
  unfolding heartbeat_tick
  deliveries-heartbeat_tick none s = omega arith
  deliveries-heartbeat_tick (some t) s =
      let pinged : List Action = if obs.has_ping_url then ping ∷ [] else [] in
      ground (
        arith,
        deliveries-detect_stall t s,
        deliveries-append (detect_stall obs world t s).1 pinged,
      )

abbrev pub AllQuiet : List (Answers × Option ℕ × Bool) → Type 0
AllQuiet [] = Unit
AllQuiet ((world, t, stop) ∷ rounds) = IsQuiet world × AllQuiet rounds

-- While the daemon leaves the shared record alone, the heartbeat loop delivers at most one stall
-- alert, of either kind and over any number of ticks; none at all if the latch is set already.
pub deliveries-run_heartbeat_loop :
    (obs : Observer) (rounds : List (Answers × Option ℕ × Bool)) (s : LivenessState)
    → AllQuiet rounds
    → deliveries (run_heartbeat_loop obs rounds s).1 + flag s.stall_alerted ≤ 1
unfolding run_heartbeat_loop
deliveries-run_heartbeat_loop obs [] s q = ground arith
deliveries-run_heartbeat_loop obs ((world, t, stop) ∷ rounds) s q =
    let (s', actions) = heartbeat_tick obs world t s in
    ground (
      arith,
      deliveries-heartbeat_tick obs world q.0 t s,
      deliveries-run_heartbeat_loop obs rounds s' q.1,
      deliveries-append actions (run_heartbeat_loop obs rounds s').1,
    )

abbrev pub raises : Stall → List Action → Bool
raises stall [] = false
raises wall_clock (raise_alert wall_clock issue d ∷ rest) = true
raises no_progress (raise_alert no_progress issue d ∷ rest) = true
raises stall (_ ∷ rest) = raises stall rest

-- If nothing is written to the shared record while a tick reads it, and whatever the daemon writes while the
-- alert is posted, the tick at time t alerts of a stall on the wall clock exactly if an issue is in
-- progress, its episode has not been alerted, and it began more than the threshold before t.
pub raises-heartbeat_tick :
    (obs : Observer) (world : Answers) (t : ℕ) (s : LivenessState)
    → (raises wall_clock (heartbeat_tick obs world (some t) s).1 ≡ true) ↔ (
        (since : ℕ) × (s.in_progress_since ≡ some since)
        × (s.stall_alerted ≡ false)
        × (since + obs.heartbeat_stall_s < t))
unfolding heartbeat_tick detect_stall check_wall_clock check_progress alert_stall
raises-heartbeat_tick obs world t s = (λ h. ground arith, λ (since, e, f, l). ground arith)

-- Whatever the daemon writes while an alert is posted, a tick at time t that alerts of missing progress found the worker
-- active, the episode not alerted, and the last progress more than its threshold before t.
pub raises-no_progress :
    (obs : Observer) (world : Answers) (t : ℕ) (s : LivenessState)
    → raises no_progress (heartbeat_tick obs world (some t) s).1 ≡ true
    → (s.worker_active ≡ true)
      × (s.stall_alerted ≡ false)
      × ((progress : ℕ) × (s.last_progress_at ≡ some progress)
          × (progress + obs.worker_progress_stall_s < t))
unfolding heartbeat_tick detect_stall check_wall_clock check_progress alert_stall
raises-no_progress obs world t s h = ground arith
