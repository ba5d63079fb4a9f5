-- ===== src/Scheduler/Counters.antt =====
-- The counters of the sorter behind src/baton_harness/chain/scheduler.py while `done` releases nodes.
use baton_harness.Base.{
  ℕ, zero, suc, ◌+◌, ◌≡◌, refl, ap, ◌∙◌, List, [], ◌∷◌, arith, if◌then◌else◌, string_eq, nat_eq,
  length, contains, ◌∈◌, ◌∉◌, add, count, contains-append, contains-add,
}
use baton_harness.Dag.{Graph}
use baton_harness.Scheduler.Edges.{blockers}
use baton_harness.Scheduler.Sorter.{
  update, nodes, pass_out, release_node, release, done, Status, Sorter, waiting, passed_out,
  finished,
}

-- How many of the blockers are not done.
unfoldable pub unfinished : List ℕ → List ℕ → ℕ
unfinished done [] = 0
unfinished done (b ∷ bs) =
    let rest = unfinished done bs in if contains done b then rest else suc rest

pub unfinished-nil : (bs : List ℕ) → unfinished [] bs ≡ length bs
unfolding unfinished
unfinished-nil [] = refl
unfinished-nil (b ∷ bs) = ap suc (unfinished-nil bs)

pub unfinished-add :
    (n : ℕ) (done bs : List ℕ)
    → n ∉ done
    → unfinished (add n done) bs + count n bs ≡ unfinished done bs
unfolding unfinished
unfinished-add n done [] h = omega arith
unfinished-add n done (b ∷ bs) h = ground (arith, unfinished-add n done bs h, contains-add n done b)

pub unfinished_zero : (done bs : List ℕ) (b : ℕ) → unfinished done bs ≡ 0 → b ∈ bs → b ∈ done
unfolding unfinished
unfinished_zero done [] b z m = cc
unfinished_zero done (c ∷ bs) b z m = ground (arith, unfinished_zero done bs b)

pub all_done_unfinished :
    (done bs : List ℕ) → ((b : ℕ) → b ∈ bs → b ∈ done) → unfinished done bs ≡ 0
unfolding unfinished
all_done_unfinished done [] h = refl
all_done_unfinished done (c ∷ bs) h =
    ground (arith, all_done_unfinished done bs (λ b m. h b (ground arith)), h c)

-- A status without its counter.
abbrev pub mark : Status → Status
mark (waiting k) = waiting 0
mark passed_out = passed_out
mark finished = finished

pub finished_of_mark : (x : Status) → mark x ≡ finished → x ≡ finished
finished_of_mark (waiting k) h = cc
finished_of_mark passed_out h = cc
finished_of_mark finished h = refl

-- The counters while `done` goes through the successors: those in `rest` are still to be released.
pub record IsReleasing (g : Graph) (done rest : List ℕ) (t : Sorter) : Type 0 where
  pub counted :
      (v k : ℕ) → t.status v ≡ waiting k → k ≡ unfinished done (blockers g v) + count v rest
  pub ready_free : (v : ℕ) → v ∈ t.ready → t.status v ≡ waiting 0
  pub free_ready : (v : ℕ) → v ∈ nodes g → t.status v ≡ waiting 0 → v ∈ t.ready

module _ (g : Graph) (done : List ℕ) where
  step-IsReleasing :
      (v : ℕ) (vs : List ℕ) (t : Sorter) (x : Status)
      → t.status v ≡ x
      → IsReleasing g done (v ∷ vs) t
      → IsReleasing g done vs (release_node v x t)
  step-IsReleasing v vs t (waiting zero) e h = absurd (ground (arith, h.counted v 0 e))
  step-IsReleasing v vs t (waiting (suc zero)) e h = record {
    counted = λ w k p. ground (arith, h.counted w k, h.counted v 1 e);
    ready_free = λ w m. ground (arith, contains-append t.ready (v ∷ []) w, h.ready_free w);
    free_ready = λ w n p. ground (arith, contains-append t.ready (v ∷ []) w, h.free_ready w n);
  }
  step-IsReleasing v vs t (waiting (suc (suc j))) e h = record {
    counted = λ w k p. ground (arith, h.counted w k, h.counted v (suc (suc j)) e);
    ready_free = λ w m. ground (arith, h.ready_free w);
    free_ready = λ w n p. ground (arith, h.free_ready w n);
  }
  step-IsReleasing v vs t passed_out e h = record {
    counted = λ w k p. ground (arith, h.counted w k p);
    ready_free = h.ready_free;
    free_ready = h.free_ready;
  }
  step-IsReleasing v vs t finished e h = record {
    counted = λ w k p. ground (arith, h.counted w k p);
    ready_free = h.ready_free;
    free_ready = h.free_ready;
  }

  pub release-IsReleasing :
      (vs : List ℕ) (t : Sorter) → IsReleasing g done vs t → IsReleasing g done [] (release vs t)
  unfolding release
  release-IsReleasing [] t h = h
  release-IsReleasing (v ∷ vs) t h =
      release-IsReleasing vs (release_node v (t.status v) t)
        (step-IsReleasing v vs t (t.status v) refl h)

mark-release_node :
    (v : ℕ) (t : Sorter) (x : Status) (w : ℕ)
    → t.status v ≡ x
    → mark ((release_node v x t).status w) ≡ mark (t.status w)
mark-release_node v t (waiting zero) w e = refl
mark-release_node v t (waiting (suc zero)) w e = ground arith
mark-release_node v t (waiting (suc (suc k))) w e = ground arith
mark-release_node v t passed_out w e = refl
mark-release_node v t finished w e = refl

pub mark-release :
    (vs : List ℕ) (t : Sorter) (w : ℕ) → mark ((release vs t).status w) ≡ mark (t.status w)
unfolding release
mark-release [] t w = refl
mark-release (v ∷ vs) t w =
    mark-release vs (release_node v (t.status v) t) w ∙ mark-release_node v t (t.status v) w refl

pub status-pass_out :
    (ns : List ℕ) (f : ℕ → Status) (v : ℕ)
    → pass_out ns f v ≡ (if contains ns v then passed_out else f v)
unfolding pass_out
status-pass_out [] f v = refl
status-pass_out (n ∷ ns) f v = ground (arith, status-pass_out ns (update f n passed_out) v)
