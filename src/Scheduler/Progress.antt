-- ===== src/Scheduler/Progress.antt =====
-- src/baton_harness/chain/scheduler.py over whole runs: what `get_ready` may return, and why the
-- per-DAG loop of a work unit does not stall.
use baton_harness.Scheduler.Counters.{unfinished_zero}
use mathlib.Core.Path.{subst}
use baton_harness.Base.{
  ℕ, zero, suc, ◌≡◌, refl, sym, inl, inr, false, not, ◌||◌, some, List, [], ◌∷◌, arith, Bool-cases,
  string_eq, nat_eq, length, filter, any, contains, ◌∈◌, ◌∉◌, contains-filter, contains-add,
  any-false,
}
use baton_harness.Dag.{Graph, keys}
use baton_harness.Scheduler.Edges.{blockers}
use baton_harness.Scheduler.Sorter
use baton_harness.Scheduler.Sorter.{Status, waiting, passed_out, finished, nodes, peel, add_all}
use baton_harness.Scheduler.{IssueScheduler, init, prepare, get_ready, mark_done, mark_parked}
use baton_harness.Scheduler.Parking.{mark_parked-IsSettled, IsSettled}
use baton_harness.Scheduler.Frontier.{
  started, prepare-eq-some, prepare-IsCounted, get_ready-IsCounted, finish, mark_done-eq-some,
  mark_done-IsCounted, IsCounted,
}

-- The calls that a client makes. The caller marks done only issues that are not parked.
pub data Step (s : IssueScheduler) : IssueScheduler → Type 0 where
  fetch : Step s (get_ready s).0
  complete : {t : IssueScheduler} (n : ℕ) → n ∉ s.parked → mark_done s n ≡ some t → Step s t
  park : (n : ℕ) → Step s (mark_parked s n)

pub data Run (g : Graph) : IssueScheduler → Type 0 where
  begin : {s : IssueScheduler} → prepare (init g) ≡ some s → Run g s
  next : {s t : IssueScheduler} → Run g s → Step s t → Run g t

-- What holds of a scheduler between two calls.
pub record IsSound (g : Graph) (s : IssueScheduler) : Type 0 where
  pub counted : IsCounted s
  pub settled : IsSettled s
  pub same_graph : s.graph ≡ g
  pub same_nodes : s.all_nodes ≡ keys g

started-IsSound : (g : Graph) → IsCounted (started g) → IsSound g (started g)
unfolding started init
started-IsSound g c = record {
  counted = c;
  settled = record { disjoint = λ v p. cc; closed = λ n v p d. cc };
  same_graph = refl;
  same_nodes = refl;
}

finish-IsSettled :
    (s : IssueScheduler) (n : ℕ) → n ∉ s.parked → IsSettled s → IsSettled (finish s n)
unfolding finish
finish-IsSettled s n u h = record {
  disjoint = λ v p. ground (arith, h.disjoint v p, contains-add n s.done v);
  closed = λ m v p d. ground (arith, h.closed m v p d, contains-add n s.done v);
}

pub mark_parked-IsCounted : (s : IssueScheduler) (n : ℕ) → IsCounted s → IsCounted (mark_parked s n)
unfolding mark_parked
mark_parked-IsCounted s n h = record {
  counted = h.counted;
  ready_free = h.ready_free;
  free_ready = h.free_ready;
  done_finished = h.done_finished;
  finished_done = h.finished_done;
  consumed_out = h.consumed_out;
  out_consumed = h.out_consumed;
}

Step-IsSound : {g : Graph} {s t : IssueScheduler} → Step s t → IsSound g s → IsSound g t
unfolding get_ready mark_parked
Step-IsSound {s = s} fetch h = record {
  counted = get_ready-IsCounted s h.counted;
  settled = record { disjoint = h.settled.disjoint; closed = h.settled.closed };
  same_graph = h.same_graph;
  same_nodes = h.same_nodes;
}
Step-IsSound {g} {s = s} (complete n u e) h =
    let (out, is) = mark_done-eq-some s n e in
    subst (IsSound g) (sym is) (
      unfold finish in
      record {
        counted = subst IsCounted is (mark_done-IsCounted s n h.counted e);
        settled = finish-IsSettled s n u h.settled;
        same_graph = h.same_graph;
        same_nodes = h.same_nodes;
      })
Step-IsSound {s = s} (park n) h = record {
  counted = mark_parked-IsCounted s n h.counted;
  settled = mark_parked-IsSettled s n h.settled;
  same_graph = h.same_graph;
  same_nodes = h.same_nodes;
}

-- Every scheduler is sound that its calls reach, where only issues that are not parked are marked done.
pub Run-IsSound : {g : Graph} {s : IssueScheduler} → Run g s → IsSound g s
Run-IsSound {g} (begin e) =
    subst (IsSound g) (sym (prepare-eq-some g e))
      (started-IsSound g (subst IsCounted (prepare-eq-some g e) (prepare-IsCounted g e)))
Run-IsSound (next r st) = Step-IsSound st (Run-IsSound r)

-- In any scheduler that its calls reach, an issue that `get_ready` returns has every one of its
-- blockers done, is neither parked nor done, and was never passed out before.
pub get_ready-mem :
    {g : Graph} {s : IssueScheduler} (v : ℕ)
    → Run g s
    → v ∈ (get_ready s).1
    → ((b : ℕ) → b ∈ blockers g v → b ∈ s.done) × (v ∉ s.parked) × (v ∉ s.done) × (v ∉ s.consumed)
unfolding get_ready Sorter.get_ready
get_ready-mem {g} {s} v r m =
    let h = Run-IsSound r in
    let in_raw = contains-filter (λ n. not (contains s.parked n)) s.sorter.ready v in
    let raw : v ∈ s.sorter.ready = ground arith in
    let free = h.counted.ready_free v raw in
    (
      λ b mb.
          unfinished_zero s.done (blockers g v) b
            (rw h.same_graph at (sym (h.counted.counted v 0 free))) mb,
      ground arith,
      ground (arith, h.counted.done_finished v),
      ground (arith, h.counted.consumed_out v),
    )

pub contains-add_all :
    (bs ns : List ℕ) (v : ℕ) → contains (add_all bs ns) v ≡ (contains bs v || contains ns v)
unfolding add_all
contains-add_all [] ns v = refl
contains-add_all (b ∷ bs) ns v =
    ground (arith, contains-add b (add_all bs ns) v, contains-add_all bs ns v)

pub keys-nodes : (g : Graph) (v : ℕ) → v ∈ keys g → v ∈ nodes g
unfolding nodes
keys-nodes [] v m = cc
keys-nodes ((w, bs) ∷ g) v m = ground (
  arith,
  contains-add w (add_all bs (nodes g)) v,
  contains-add_all bs (nodes g) v,
  keys-nodes g v,
)

blockers_outside : (g : Graph) (v : ℕ) → v ∉ nodes g → blockers g v ≡ []
unfolding nodes blockers
blockers_outside [] v h = refl
blockers_outside ((w, bs) ∷ g) v h = ground (
  arith,
  contains-add w (add_all bs (nodes g)) v,
  contains-add_all bs (nodes g) v,
  blockers_outside g v,
)

-- Induction along the blockers of a graph that peeling empties.
peel_induction :
    (g : Graph) (P : ℕ → Type 0)
    → ((v : ℕ) → ((b : ℕ) → b ∈ blockers g v → P b) → P v)
    → (fuel : ℕ) (left : List ℕ) → peel g fuel left ≡ []
    → ((v : ℕ) → v ∉ left → P v)
    → (v : ℕ) → P v
unfolding peel
peel_induction g P step zero left e outside v = outside v (ground arith)
peel_induction g P step (suc fuel) left e outside v =
    peel_induction g P step fuel (filter (λ n. any (contains left) (blockers g n)) left) e
      (λ w out. elim (Bool-cases (contains left w)) [
        | inl m ↦
            let none_left : any (contains left) (blockers g w) ≡ false =
              ground (arith, contains-filter (λ n. any (contains left) (blockers g n)) left w) in
            step w (λ b mb. outside b (any-false (contains left) (blockers g w) b none_left mb))
        | inr u ↦ outside w u
      ])
      v

has_cycle-peel : (g : Graph) → Sorter.has_cycle g ≡ false → peel g (length (nodes g)) (nodes g) ≡ []
unfolding Sorter.has_cycle
has_cycle-peel g h = ground arith

-- Induction along the blockers of a graph without cycles.
pub blockers_induction :
    (g : Graph) (P : ℕ → Type 0)
    → Sorter.has_cycle g ≡ false
    → ((v : ℕ) → ((b : ℕ) → b ∈ blockers g v → P b) → P v)
    → (v : ℕ) → P v
blockers_induction g P fine step =
    peel_induction g P step (length (nodes g)) (nodes g) (has_cycle-peel g fine)
      (λ v out. step v (λ b m. cc (blockers_outside g v out)))
