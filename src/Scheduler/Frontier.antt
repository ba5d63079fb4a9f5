-- ===== src/Scheduler/Frontier.antt =====
-- The ready frontier of src/baton_harness/chain/scheduler.py: the counters of the sorter agree with
-- the issues marked done, through every call.
use baton_harness.Scheduler.Counters.{
  unfinished, unfinished-nil, unfinished-add, mark, finished_of_mark, release-IsReleasing,
  mark-release, status-pass_out, IsReleasing,
}
use mathlib.Core.Path.{subst}
use baton_harness.Base.{
  ℕ, zero, suc, ◌≡◌, refl, sym, ◌∙◌, ◌≢◌, true, some, arith, if◌then◌else◌, string_eq, nat_eq, ◌==◌,
  length, filter, ◌∈◌, ◌∉◌, add, contains-append, contains-filter, contains-add,
}
use baton_harness.Dag.{Graph}
use baton_harness.Scheduler.Edges.{blockers, dependents, count-dependents}
use baton_harness.Scheduler.Sorter
use baton_harness.Scheduler.Sorter.{
  Status, waiting, passed_out, finished, Sorter, update, nodes, pass_out, release_node, release,
}
use baton_harness.Scheduler.{IssueScheduler, init, prepare, get_ready, mark_done}

-- The sorter and the sets of the scheduler agree: a counter is the number of blockers not done, the
-- ready nodes are those at zero, and a node is consumed once it has been passed out.
pub record IsCounted (s : IssueScheduler) : Type 0 where
  pub counted :
      (v k : ℕ) → s.sorter.status v ≡ waiting k → k ≡ unfinished s.done (blockers s.graph v)
  pub ready_free : (v : ℕ) → v ∈ s.sorter.ready → s.sorter.status v ≡ waiting 0
  pub free_ready : (v : ℕ) → v ∈ nodes s.graph → s.sorter.status v ≡ waiting 0 → v ∈ s.sorter.ready
  pub done_finished : (v : ℕ) → v ∈ s.done → s.sorter.status v ≡ finished
  pub finished_done : (v : ℕ) → s.sorter.status v ≡ finished → v ∈ s.done
  pub consumed_out : (v : ℕ) → v ∈ s.consumed → mark (s.sorter.status v) ≢ waiting 0
  pub out_consumed : (v : ℕ) → mark (s.sorter.status v) ≢ waiting 0 → v ∈ s.consumed

is_free_lem : (x : Status) → Sorter.is_free x ≡ true → x ≡ waiting 0
is_free_lem (waiting zero) h = refl
is_free_lem (waiting (suc k)) h = cc
is_free_lem passed_out h = cc
is_free_lem finished h = cc

-- What `prepare` makes of a new scheduler whose graph has no cycle.
unfoldable pub started : Graph → IssueScheduler
unfolding init Sorter.create
started g = record (init g) {
  sorter = record (Sorter.create g) {
    ready = filter (λ n. Sorter.is_free ((Sorter.create g).status n)) (nodes g);
  };
}

pub prepare-eq-some : (g : Graph) {s : IssueScheduler} → prepare (init g) ≡ some s → s ≡ started g
unfolding prepare init Sorter.prepare started
prepare-eq-some g h = ground arith

started-IsCounted : (g : Graph) → IsCounted (started g)
unfolding started
started-IsCounted g = record {
  counted = λ v k p. ground (arith, unfinished-nil (blockers g v));
  ready_free = λ v m. is_free_lem (waiting (length (blockers g v))) (
      ground (
        arith,
        contains-filter (λ n. Sorter.is_free (waiting (length (blockers g n)))) (nodes g) v,
      ));
  free_ready = λ v m p.
      rw (contains-filter (λ n. Sorter.is_free (waiting (length (blockers g n)))) (nodes g) v)
        (ground arith);
  done_finished = λ v m. cc;
  finished_done = λ v p. cc;
  consumed_out = λ v m. cc;
  out_consumed = λ v o. absurd (o refl);
}

-- A scheduler that was just prepared is counted.
pub prepare-IsCounted : (g : Graph) {s : IssueScheduler} → prepare (init g) ≡ some s → IsCounted s
prepare-IsCounted g h = subst IsCounted (sym (prepare-eq-some g h)) (started-IsCounted g)

pub get_ready-IsCounted : (s : IssueScheduler) → IsCounted s → IsCounted (get_ready s).0
unfolding get_ready Sorter.get_ready
get_ready-IsCounted s h = record {
  counted =
      λ v k p. ground (arith, status-pass_out s.sorter.ready s.sorter.status v, h.counted v k);
  ready_free = λ v m. cc;
  free_ready =
      λ v n p. ground (arith, status-pass_out s.sorter.ready s.sorter.status v, h.free_ready v n);
  done_finished = λ v m. ground (
    arith,
    status-pass_out s.sorter.ready s.sorter.status v,
    h.done_finished v m,
    h.ready_free v,
  );
  finished_done =
      λ v p. h.finished_done v (ground (arith, status-pass_out s.sorter.ready s.sorter.status v));
  consumed_out = λ v m. ground (
    arith,
    status-pass_out s.sorter.ready s.sorter.status v,
    contains-append s.sorter.ready s.consumed v,
    h.consumed_out v,
  );
  out_consumed = λ v o. ground (
    arith,
    status-pass_out s.sorter.ready s.sorter.status v,
    contains-append s.sorter.ready s.consumed v,
    h.out_consumed v,
  );
}

-- The state in which `done` starts to release the successors.
start-IsReleasing :
    (s : IssueScheduler) (n : ℕ)
    → IsCounted s
    → s.sorter.status n ≡ passed_out
    → IsReleasing s.graph
        (add n s.done)
        (dependents s.graph n)
        (record s.sorter { status = update s.sorter.status n finished })
start-IsReleasing s n h out =
    let fresh : n ∉ s.done = ground (arith, h.done_finished n) in
    record {
      counted = λ v k p. ground (
        arith,
        h.counted v k,
        unfinished-add n s.done (blockers s.graph v) fresh,
        count-dependents s.graph n v,
      );
      ready_free = λ v m. ground (arith, h.ready_free v m);
      free_ready = λ v m p. ground (arith, h.free_ready v m);
    }

-- What `mark_done` makes of a scheduler whose sorter has passed the issue out.
unfoldable pub finish : IssueScheduler → ℕ → IssueScheduler
finish s n = record s {
  sorter =
      release (dependents s.graph n)
        (record s.sorter { status = update s.sorter.status n finished });
  done = add n s.done;
}

pub mark_done-eq-some :
    (s : IssueScheduler) (n : ℕ) {t : IssueScheduler}
    → mark_done s n ≡ some t
    → (s.sorter.status n ≡ passed_out) × (t ≡ finish s n)
unfolding mark_done Sorter.done finish
mark_done-eq-some s n e = ground arith

mark-finish :
    (s : IssueScheduler) (n v : ℕ)
    → mark ((finish s n).sorter.status v) ≡ mark (if v == n then finished else s.sorter.status v)
unfolding finish
mark-finish s n v = mark-release (dependents s.graph n) _ v

finish-IsCounted :
    (s : IssueScheduler) (n : ℕ)
    → IsCounted s
    → s.sorter.status n ≡ passed_out
    → IsCounted (finish s n)
unfolding finish
finish-IsCounted s n h out =
    let r =
      release-IsReleasing s.graph (add n s.done) (dependents s.graph n) _
        (start-IsReleasing s n h out) in
    record {
      counted = λ v k p. omega (arith, r.counted v k p);
      ready_free = r.ready_free;
      free_ready = r.free_ready;
      done_finished = λ v m.
          finished_of_mark _
            (mark-finish s n v ∙ ground (arith, contains-add n s.done v, h.done_finished v));
      finished_done =
          λ v p. ground (arith, contains-add n s.done v, h.finished_done v, mark-finish s n v);
      consumed_out = λ v m o. ground (arith, h.consumed_out v m, mark-finish s n v);
      out_consumed = λ v o. h.out_consumed v (λ w. ground (arith, mark-finish s n v));
    }

-- Marking an issue done keeps the counters in step with the blockers that are not done.
pub mark_done-IsCounted :
    (s : IssueScheduler) (n : ℕ) {t : IssueScheduler}
    → IsCounted s
    → mark_done s n ≡ some t
    → IsCounted t
mark_done-IsCounted s n h e =
    let (out, is) = mark_done-eq-some s n e in subst IsCounted (sym is) (finish-IsCounted s n h out)
