-- ===== src/Park/Charging.antt =====
-- The failure tally and the scheduler under `park_issue` of src/baton_harness/chain/daemon/park.py.
use baton_harness.Base.{
  ℕ, String, ◌≡◌, refl, sym, ap, ◌∙◌, ◌≢◌, ◌⊎◌, inl, inr, Bool, true, false, Option, none, some,
  List, arith, if◌then◌else◌, nat_beq_iff, ◌==◌, nat_eq, string_eq, ◌+ℤ◌, ◌≤ℤ◌, pos, lookup-insert,
  lookup,
}
use baton_harness.Scheduler.{mark_parked}
use baton_harness.FailureTally
use baton_harness.FailureTally.{FailureTally, peek}
use baton_harness.FailureTally.Counting.{peek-record_and_check, peek-reset}
use baton_harness.World.{Severity, Kind, Github}
use baton_harness.Park.{
  cleared, charge, announce, verify, park_issue, ParkClass, ParkState, charged, uncharged,
  state_intact, unknown_state, terminal,
}

module _ {W : Type 0} (gh : Github W) (str_of : ℕ → String) (int_of : String → Option ℕ) where
  announce_fields :
      (n : ℕ) (detail : Option String) (severity : Severity) (kind : Kind) (s : ParkState) (w : W)
      → let s' = (announce gh str_of int_of n detail severity kind s w).1 in
        (s'.sched ≡ s.sched)
        × (s'.liveness_state ≡ s.liveness_state)
        × (s'.parked_reasons ≡ s.parked_reasons)
        × (s'.failure_tally ≡ s.failure_tally)
  unfolding announce
  announce_fields n none severity kind s w = (refl, refl, refl, refl)
  announce_fields n (some detail) severity kind s w =
      (ground arith, ground arith, ground arith, ground arith)

  verify_fields :
      (n : ℕ) (text : String) (exhausted edited written : Bool) (post : Option (List String))
      (s : ParkState) (w : W)
      → let s' = (verify gh str_of int_of n text exhausted edited written post s w).1 in
        (s'.sched ≡ s.sched)
        × (s'.liveness_state ≡ s.liveness_state)
        × (s'.parked_reasons ≡ s.parked_reasons)
  unfolding verify
  verify_fields n text exhausted edited written none s w = (refl, refl, refl)
  verify_fields n text exhausted edited written (some post) s w = (refl, refl, refl)

  -- Every park, of any class and whatever the calls to GitHub answer, parks the issue with its
  -- dependents in the scheduler, records the reason for it and for no other issue, and ends the
  -- liveness episode.
  pub park_issue_parks :
      (n : ℕ) (class : ParkClass) (reason : String) (detail : Option String) (severity : Severity)
      (kind : Kind) (text : String) (charge_written reset_written : Bool) (s : ParkState) (w : W)
      → let s' =
          (park_issue gh str_of int_of n class reason detail severity kind text charge_written
            reset_written s w).1 in
        (s'.sched ≡ mark_parked s.sched n)
        × ((j : ℕ)
            → lookup s'.parked_reasons j
              ≡ (if j == n then some reason else lookup s.parked_reasons j))
        × (s'.liveness_state ≡ cleared s.liveness_state)
  unfolding park_issue
  park_issue_parks n class reason detail severity kind text cw rw' s w =
      let announced = announce_fields n detail severity kind _ _ in
      let verified = verify_fields n text _ _ rw' _ _ _ in
      (
        verified.0 ∙ announced.0,
        λ j.
            ap (λ (d : List (ℕ × String)). lookup d j) (verified.2 ∙ announced.2)
            ∙ lookup-insert n j reason s.parked_reasons,
        verified.1 ∙ announced.1,
      )

  verify_unexhausted :
      (n : ℕ) (text : String) (edited written : Bool) (post : Option (List String)) (s : ParkState)
      (w : W)
      → (verify gh str_of int_of n text false edited written post s w).1.failure_tally
        ≡ s.failure_tally
  unfolding verify
  verify_unexhausted n text edited written none s w = refl
  verify_unexhausted n text edited written (some post) s w = ground arith

  -- A park that is not charged leaves the failure tally as it was.
  pub park_issue_uncharged :
      (n : ℕ) (class : ParkClass) (reason : String) (detail : Option String) (severity : Severity)
      (kind : Kind) (text : String) (charge_written reset_written : Bool) (s : ParkState) (w : W)
      → class ≢ charged
      → (park_issue gh str_of int_of n class reason detail severity kind text charge_written
          reset_written s w).1.failure_tally
        ≡ s.failure_tally
  unfolding park_issue charge
  park_issue_uncharged n charged reason detail severity kind text cw rw' s w h = absurd (h refl)
  park_issue_uncharged n uncharged reason detail severity kind text cw rw' s w h =
      verify_unexhausted n text _ rw' _ _ _ ∙ (announce_fields n detail severity kind _ _).3
  park_issue_uncharged n state_intact reason detail severity kind text cw rw' s w h =
      verify_unexhausted n text _ rw' _ _ _ ∙ (announce_fields n detail severity kind _ _).3
  park_issue_uncharged n unknown_state reason detail severity kind text cw rw' s w h =
      verify_unexhausted n text _ rw' _ _ _ ∙ (announce_fields n detail severity kind _ _).3
  park_issue_uncharged n terminal reason detail severity kind text cw rw' s w h =
      verify_unexhausted n text _ rw' _ _ _ ∙ (announce_fields n detail severity kind _ _).3

  -- What a verification makes of the tally: a reset, or nothing.
  verify_tally :
      (n : ℕ) (text : String) (exhausted edited written : Bool) (post : Option (List String))
      (s : ParkState) (w : W) (t : FailureTally)
      → s.failure_tally ≡ some t
      → let after =
          (verify gh str_of int_of n text exhausted edited written post s w).1.failure_tally in
        (after ≡ some t)
        ⊎ ((after ≡ some (FailureTally.reset str_of int_of written t n)) × (exhausted ≡ true))
  unfolding verify
  verify_tally n text exhausted edited written none s w t e = inl e
  verify_tally n text exhausted edited written (some post) s w t e = ground arith

  charge_charged :
      (written : Bool) (tally : Option FailureTally) (t : FailureTally) (n : ℕ)
      → tally ≡ some t
      → let (t', result) = FailureTally.record_and_check str_of int_of written t n in
        charge gh str_of int_of charged written tally n ≡ (some t', result.1)
  unfolding charge
  charge_charged written none t n e = cc
  charge_charged written (some u) t n e = ground arith

  -- A charged park of an issue with a tally raises the issue's count by one, or clears it if that
  -- count has reached the maximum; the counts of all other issues stay.
  pub park_issue_charged :
      (n : ℕ) (reason : String) (detail : Option String) (severity : Severity) (kind : Kind)
      (text : String) (charge_written reset_written : Bool) (s : ParkState) (w : W)
      (t : FailureTally)
      → s.failure_tally ≡ some t
      → let after =
          (park_issue gh str_of int_of n charged reason detail severity kind text charge_written
            reset_written s w).1.failure_tally in
        (t' : FailureTally) × (after ≡ some t')
        × ((j : ℕ) → j ≢ n → peek t' j ≡ peek t j)
        × ((peek t' n ≡ peek t n +ℤ pos 1)
            ⊎ ((peek t' n ≡ pos 0) × (t.max_count ≤ℤ peek t n +ℤ pos 1)))
  unfolding park_issue
  park_issue_charged n reason detail severity kind text cw rw' s w t e =
      let t₁ = (FailureTally.record_and_check str_of int_of cw t n).0 in
      let charging = charge_charged cw s.failure_tally t n e in
      let (counts, reported, limit) = peek-record_and_check str_of int_of cw t n in
      elim (verify_tally n text _ _ rw' _ _ _ t₁ (
        (announce_fields n detail severity kind _ _).3
        ∙ ap (λ (p : Option FailureTally × Bool). p.0) charging)) [
          | inl kept ↦ (
            t₁,
            kept,
            λ j ne. ground (arith, counts j, nat_beq_iff j n),
            inl (ground (arith, counts n)),
          )
          | inr (cleared, exhausted) ↦
              let gone = peek-reset str_of int_of rw' t₁ n in
              let full =
                limit.0 (sym (ap (λ (p : Option FailureTally × Bool). p.1) charging) ∙ exhausted) in
              (
                FailureTally.reset str_of int_of rw' t₁ n,
                cleared,
                λ j ne. ground (arith, counts j, (gone j).0, nat_beq_iff j n),
                inr (ground (arith, (gone n).0), ground (arith, full, counts n)),
              )
        ]
