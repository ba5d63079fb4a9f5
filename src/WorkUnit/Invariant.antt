-- ===== src/WorkUnit/Invariant.antt =====
-- What holds of the state of a work unit between two rounds of the loop of
-- src/baton_harness/chain/daemon/work_unit.py, and of its queue `pending`.
use mathlib.Core.Path.{subst}
use baton_harness.Base.{
  ℕ, ◌≤◌, String, ◌≡◌, refl, sym, inl, inr, some, List, [], ◌∷◌, arith, nat_beq_iff, Bool-cases,
  string_eq, nat_eq, ◌==◌, contains, ◌∈◌, ◌∉◌, count, lookup, contains-append, contains-add,
}
use baton_harness.Dag.{Graph}
use baton_harness.Scheduler.{mark_parked, IssueScheduler}
use baton_harness.Scheduler.Parking.{mem-mark_parked, IsSettled, itself}
use baton_harness.Scheduler.Progress.{Run-IsSound, Run, complete, park, next}
use baton_harness.Scheduler.Members.{mark_done_fields}
use baton_harness.Recovery.{RecoveryResult}
use baton_harness.WorkUnit.{Services, Settings, UnitState, Turn}
use baton_harness.WorkUnit.Endings.{MergedFor, Ends, parks, completes, leaves}
use baton_harness.Scheduler.Liveness.{count_of_mem}

-- The scheduler came about by its calls alone; the issues merged are those done, each of them for a reason;
-- and a reason for a park stands only with an issue that is parked.
pub record IsKept {W : Type 0} (services : Services W) (settings : Settings)
    (recovered : RecoveryResult) (g : Graph) (s : UnitState) : Type 0 where
  pub run : Run g s.context.sched
  pub merged_done : (v : ℕ) → contains s.merged_issues v ≡ contains s.context.sched.done v
  pub earned : (v : ℕ) → v ∈ s.merged_issues → MergedFor services settings recovered v
  pub reasons_parked :
      (v : ℕ) (r : String) → lookup s.context.parked_reasons v ≡ some r → v ∈ s.context.sched.parked

-- Each issue stands in `pending` once at most; it is not done and has been seen, and
-- what has been seen was passed out.
pub record IsQueued (sched : IssueScheduler) (pending seen : List ℕ) : Type 0 where
  pub passed : (v : ℕ) → v ∈ seen → v ∈ sched.consumed
  pub undone : (v : ℕ) → v ∈ pending → v ∉ sched.done
  pub known : (v : ℕ) → v ∈ pending → v ∈ seen
  pub once : (v : ℕ) → count v pending ≤ 1

pub mark_parked_fields :
    (s : IssueScheduler) (n : ℕ)
    → ((mark_parked s n).done ≡ s.done) × ((mark_parked s n).consumed ≡ s.consumed)
unfolding mark_parked
mark_parked_fields s n = (refl, refl)

pub parked_self :
    (s : IssueScheduler) (n : ℕ) → IsSettled s → n ∉ s.done → n ∈ (mark_parked s n).parked
parked_self s n h u = (mem-mark_parked s n n h).1 (inr (itself u))

pub parked_before :
    (s : IssueScheduler) (n v : ℕ) → IsSettled s → v ∈ s.parked → v ∈ (mark_parked s n).parked
parked_before s n v h p = (mem-mark_parked s n v h).1 (inl p)

module _ {W : Type 0} (services : Services W) (settings : Settings) (recovered : RecoveryResult)
    (g : Graph) where
  -- The end of a turn keeps the state of the unit.
  pub Ends-IsKept :
      (n : ℕ) (s : UnitState) (t : Turn W)
      → Ends services settings recovered n s.context.sched s.context.parked_reasons s.merged_issues
          t
      → n ∉ s.context.sched.done
      → n ∉ s.context.sched.parked
      → IsKept services settings recovered g s
      → IsKept services settings recovered g t.unit
  Ends-IsKept n s t (parks reason f a b c) undone unparked k =
      let h = (Run-IsSound k.run).settled in
      record {
        run = subst (Run g) (sym a) (next k.run (park n));
        merged_done = λ v. unfold mark_parked in ground (arith, a, c, k.merged_done v);
        earned = λ v m. k.earned v (rw c at m);
        reasons_parked = λ v r e. rw a (elim (Bool-cases (v == n)) [
          | inl same ↦ rw ((nat_beq_iff v n).0 same) (parked_self s.context.sched n h undone)
          | inr other ↦
              parked_before s.context.sched n v h (k.reasons_parked v r (ground (arith, b v)))
        ]);
      }
  Ends-IsKept n s t (completes m f a b c) undone unparked k =
      let (d, p, o) = mark_done_fields s.context.sched n a in
      record {
        run = next k.run (complete n unparked a);
        merged_done = λ v. ground (
          arith,
          c,
          d,
          contains-append s.merged_issues (n ∷ []) v,
          contains-add n s.context.sched.done v,
          k.merged_done v,
        );
        earned = λ v e. elim (Bool-cases (v == n)) [
          | inl same ↦ rw ((nat_beq_iff v n).0 same) m
          | inr other ↦ k.earned v (ground (arith, c, contains-append s.merged_issues (n ∷ []) v))
        ];
        reasons_parked = λ v r e. rw p (k.reasons_parked v r (rw b at e));
      }
  Ends-IsKept n s t (leaves why a b c) undone unparked k = record {
    run = subst (Run g) (sym a) k.run;
    merged_done = λ v. ground (arith, a, c, k.merged_done v);
    earned = λ v m. k.earned v (rw c at m);
    reasons_parked = λ v r e. rw a (k.reasons_parked v r (rw b at e));
  }

  -- The rest of the queue is one again once its first issue has had its turn.
  pub Ends-IsQueued :
      (n : ℕ) (rest seen : List ℕ) (sched : IssueScheduler) (reasons : List (ℕ × String))
      (merged_issues : List ℕ) (t : Turn W)
      → Ends services settings recovered n sched reasons merged_issues t
      → IsQueued sched (n ∷ rest) seen
      → IsQueued t.unit.context.sched rest seen
  Ends-IsQueued n rest seen sched reasons merged_issues t (parks reason f a b c) q = record {
    passed = λ v m. unfold mark_parked in ground (arith, a, q.passed v);
    undone = λ v m. unfold mark_parked in ground (arith, a, q.undone v);
    known = λ v m. ground (arith, q.known v);
    once = λ v. ground (arith, q.once v);
  }
  Ends-IsQueued n rest seen sched reasons merged_issues t (completes m f a b c) q =
      let (d, p, o) = mark_done_fields sched n a in
      record {
        passed = λ v k. rw o (q.passed v k);
        undone = λ v k. rw d (
            ground
              (arith, q.undone v, q.once n, contains-add n sched.done v, count_of_mem rest v k));
        known = λ v k. ground (arith, q.known v);
        once = λ v. ground (arith, q.once v);
      }
  Ends-IsQueued n rest seen sched reasons merged_issues t (leaves why a b c) q = record {
    passed = λ v m. rw a (ground (arith, q.passed v));
    undone = λ v m. rw a (ground (arith, q.undone v));
    known = λ v m. ground (arith, q.known v);
    once = λ v. ground (arith, q.once v);
  }
