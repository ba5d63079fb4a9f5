-- ===== src/Scheduler/Overlap.antt =====
-- src/baton_harness/chain/scheduler.py under any calls of its methods, also those that mark a parked
-- issue done.
use mathlib.Core.Path.{subst}
use baton_harness.Base.{
  ℕ, ◌≡◌, refl, sym, ◌∙◌, ◌&&◌, some, List, [], ◌∷◌, arith, if◌then◌else◌, nat_beq_iff, string_eq,
  nat_eq, contains, contains-add,
}
use baton_harness.Dag.{Graph, keys}
use baton_harness.Scheduler.{
  IssueScheduler, init, prepare, get_ready, mark_done, mark_parked, park_fuel,
}
use baton_harness.Scheduler.Parking.{mark_parked-result, park_loop-overlap, IsClosed}
use baton_harness.Scheduler.Frontier.{
  started, prepare-eq-some, prepare-IsCounted, get_ready-IsCounted, finish, mark_done-eq-some,
  mark_done-IsCounted, IsCounted,
}
use baton_harness.Scheduler.Progress.{mark_parked-IsCounted}

-- The calls of the methods in any order, with the issues that were marked done while they were parked.
pub data Calls (g : Graph) : IssueScheduler → List ℕ → Type 0 where
  prepared : {s : IssueScheduler} → prepare (init g) ≡ some s → Calls g s []
  fetched : {s : IssueScheduler} {late : List ℕ} → Calls g s late → Calls g (get_ready s).0 late
  completed :
      {s t : IssueScheduler} {late : List ℕ} (n : ℕ)
      → Calls g s late
      → mark_done s n ≡ some t
      → Calls g t (if contains s.parked n then n ∷ late else late)
  parked_too :
      {s : IssueScheduler} {late : List ℕ} (n : ℕ) → Calls g s late → Calls g (mark_parked s n) late

-- The sorter's counters agree with the blockers that are not done, no dependent of a parked issue is left
-- waiting, an issue is done and parked exactly if it was marked done while parked, and the graph is `g`.
pub record IsConsistent (g : Graph) (s : IssueScheduler) (late : List ℕ) : Type 0 where
  pub counted : IsCounted s
  pub closed : IsClosed s.graph s.done [] s.parked
  pub overlap : (v : ℕ) → (contains s.parked v && contains s.done v) ≡ contains late v
  pub same_graph : s.graph ≡ g
  pub same_nodes : s.all_nodes ≡ keys g

started-IsConsistent : (g : Graph) → IsCounted (started g) → IsConsistent g (started g) []
unfolding started init
started-IsConsistent g c = record {
  counted = c;
  closed = λ n v p d. cc;
  overlap = λ v. refl;
  same_graph = refl;
  same_nodes = refl;
}

get_ready-IsConsistent :
    {g : Graph} (s : IssueScheduler) (late : List ℕ)
    → IsConsistent g s late
    → IsConsistent g (get_ready s).0 late
unfolding get_ready
get_ready-IsConsistent s late h = record {
  counted = get_ready-IsCounted s h.counted;
  closed = h.closed;
  overlap = h.overlap;
  same_graph = h.same_graph;
  same_nodes = h.same_nodes;
}

finish-IsConsistent :
    {g : Graph} (s : IssueScheduler) (n : ℕ) (late : List ℕ)
    → IsCounted (finish s n)
    → IsConsistent g s late
    → IsConsistent g (finish s n) (if contains s.parked n then n ∷ late else late)
unfolding finish
finish-IsConsistent s n late c h = record {
  counted = c;
  closed = λ m v p d. ground (arith, h.closed m v p d, contains-add n s.done v);
  overlap = λ v. ground (arith, h.overlap v, contains-add n s.done v, nat_beq_iff v n);
  same_graph = h.same_graph;
  same_nodes = h.same_nodes;
}

mark_parked-IsConsistent :
    {g : Graph} (s : IssueScheduler) (n : ℕ) (late : List ℕ)
    → IsConsistent g s late
    → IsConsistent g (mark_parked s n) late
unfolding mark_parked
mark_parked-IsConsistent s n late h = record {
  counted = mark_parked-IsCounted s n h.counted;
  closed = (mark_parked-result s n h.closed).0;
  overlap =
      λ v. park_loop-overlap s.graph s.done (park_fuel s.graph) (n ∷ []) s.parked v ∙ h.overlap v;
  same_graph = h.same_graph;
  same_nodes = h.same_nodes;
}

-- Whatever calls of its methods lead to it, a scheduler is consistent: the sorter's counters agree with the
-- blockers that are not done, no dependent of a parked issue is left waiting, the issues both done and
-- parked are exactly those that were marked done while they were parked, and the graph is the one it began
-- with.
pub Calls-IsConsistent :
    {g : Graph} {s : IssueScheduler} {late : List ℕ} → Calls g s late → IsConsistent g s late
Calls-IsConsistent {g} (prepared e) =
    subst (λ s. IsConsistent g s []) (sym (prepare-eq-some g e))
      (started-IsConsistent g (subst IsCounted (prepare-eq-some g e) (prepare-IsCounted g e)))
Calls-IsConsistent (fetched {s = s} {late = late} calls) =
    get_ready-IsConsistent s late (Calls-IsConsistent calls)
Calls-IsConsistent {g} (completed {s = s} {late = late} n calls e) =
    let h = Calls-IsConsistent calls in
    let (out, is) = mark_done-eq-some s n e in
    subst (λ t. IsConsistent g t (if contains s.parked n then n ∷ late else late)) (sym is)
      (finish-IsConsistent s n late (subst IsCounted is (mark_done-IsCounted s n h.counted e)) h)
Calls-IsConsistent (parked_too {s = s} {late = late} n calls) =
    mark_parked-IsConsistent s n late (Calls-IsConsistent calls)
