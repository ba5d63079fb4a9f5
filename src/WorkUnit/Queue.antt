-- ===== src/WorkUnit/Queue.antt =====
-- The queue `pending` in a round of the loop of src/baton_harness/chain/daemon/work_unit.py: what
-- `get_ready` adds to it, and what the round chooses.
use baton_harness.Base.{
  ℕ, ◌+◌, ◌≤◌, ◌<◌, ◌≡◌, inl, inr, Bool, true, not, ◌&&◌, ◌||◌, List, [], ◌∷◌, ◌++◌, arith,
  nat_beq_iff, Bool-cases, string_eq, nat_eq, ==_refl, length, filter, length-append, contains, ◌∈◌,
  ◌∉◌, count, contains-append, contains-filter, count-append,
}
use baton_harness.Dag.{Graph}
use baton_harness.Scheduler.Sorter
use baton_harness.Scheduler.{get_ready, IssueScheduler}
use baton_harness.Scheduler.Progress.{get_ready-mem, Run}
use baton_harness.Scheduler.Liveness.{mem_of_count}
use baton_harness.WorkUnit.Loop.{collect, frontier}
use baton_harness.WorkUnit.Invariant.{IsQueued}

-- The members not yet seen.
abbrev pub unseen : List ℕ → List ℕ → ℕ
unseen m seen = length (filter (λ v. not (contains seen v)) m)

unseen-cons_le : (m seen : List ℕ) (n : ℕ) → unseen m (n ∷ seen) ≤ unseen m seen
unseen-cons_le [] seen n = omega arith
unseen-cons_le (x ∷ m) seen n = ground (arith, unseen-cons_le m seen n)

unseen-cons_lt : (m seen : List ℕ) (n : ℕ) → n ∈ m → n ∉ seen → unseen m (n ∷ seen) < unseen m seen
unseen-cons_lt [] seen n k u = cc
unseen-cons_lt (x ∷ m) seen n k u =
    ground (arith, unseen-cons_lt m seen n, unseen-cons_le m seen n, nat_beq_iff n x)

pub unseen_le : (m : List ℕ) (seen : List ℕ) → unseen m seen ≤ length m
unseen_le [] seen = omega arith
unseen_le (x ∷ m) seen = ground (arith, unseen_le m seen)

-- Every issue that `collect` puts into the queue has left the unseen ones.
pub collect_measure :
    (m ready pending seen : List ℕ)
    → ((v : ℕ) → v ∈ ready → v ∈ m)
    → let c = collect ready pending seen in
      unseen m c.1 + length c.0 ≤ unseen m seen + length pending
unfolding collect
collect_measure m [] pending seen h = omega arith
collect_measure m (n ∷ ready) pending seen h = elim (Bool-cases (contains seen n)) [
  | inl y ↦ ground (arith, y, collect_measure m ready pending seen (λ v k. h v (ground arith)))
  | inr f ↦ ground (
    arith,
    f,
    collect_measure m ready (pending ++ n ∷ []) (n ∷ seen) (λ v k. h v (ground arith)),
    unseen-cons_lt m seen n (h n (ground (arith, ==_refl n))) f,
    length-append pending (n ∷ []),
  )
]

collect_source :
    (ready pending seen : List ℕ) (v : ℕ)
    → v ∈ (collect ready pending seen).0
    → (contains pending v || contains ready v) ≡ true
unfolding collect
collect_source [] pending seen v k = ground arith
collect_source (n ∷ ready) pending seen v k = elim (Bool-cases (contains seen n)) [
  | inl y ↦ ground (arith, y, collect_source ready pending seen v)
  | inr f ↦ ground (
    arith,
    f,
    collect_source ready (pending ++ n ∷ []) (n ∷ seen) v,
    contains-append pending (n ∷ []) v,
  )
]

pub collect_covers :
    (ready pending seen : List ℕ) (v : ℕ)
    → (contains pending v || (contains ready v && not (contains seen v))) ≡ true
    → v ∈ (collect ready pending seen).0
unfolding collect
collect_covers [] pending seen v k = ground arith
collect_covers (n ∷ ready) pending seen v k = elim (Bool-cases (contains seen n)) [
  | inl y ↦ ground (arith, y, collect_covers ready pending seen v, nat_beq_iff v n)
  | inr f ↦ ground (
    arith,
    f,
    collect_covers ready (pending ++ n ∷ []) (n ∷ seen) v,
    contains-append pending (n ∷ []) v,
  )
]

-- No issue comes to stand in the queue twice.
collect_once :
    (ready pending seen : List ℕ)
    → ((v : ℕ) → count v pending ≤ 1)
    → ((v : ℕ) → v ∈ pending → v ∈ seen)
    → let c = collect ready pending seen in
      ((v : ℕ) → count v c.0 ≤ 1) × ((v : ℕ) → v ∈ c.0 → v ∈ c.1)
unfolding collect
collect_once [] pending seen once known = (once, known)
collect_once (n ∷ ready) pending seen once known = elim (Bool-cases (contains seen n)) [
  | inl y ↦ rw y (collect_once ready pending seen once known)
  | inr f ↦ rw f (
      collect_once ready (pending ++ n ∷ []) (n ∷ seen)
        (λ v. ground (
          arith,
          once v,
          known v,
          count-append v pending (n ∷ []),
          mem_of_count pending v,
          nat_beq_iff v n,
        ))
        (λ v k. ground (arith, known v, contains-append pending (n ∷ []) v)))
]

collect_seen :
    (ready pending seen : List ℕ) (v : ℕ)
    → contains (collect ready pending seen).1 v ≡ (contains seen v || contains ready v)
unfolding collect
collect_seen [] pending seen v = ground arith
collect_seen (n ∷ ready) pending seen v = elim (Bool-cases (contains seen n)) [
  | inl y ↦ ground (arith, y, collect_seen ready pending seen v, nat_beq_iff v n)
  | inr f ↦ ground (arith, f, collect_seen ready (pending ++ n ∷ []) (n ∷ seen) v)
]

count-filter_le : (p : ℕ → Bool) (xs : List ℕ) (v : ℕ) → count v (filter p xs) ≤ count v xs
count-filter_le p [] v = omega arith
count-filter_le p (x ∷ xs) v = ground (arith, count-filter_le p xs v)

pub length-filter_le : (p : ℕ → Bool) (xs : List ℕ) → length (filter p xs) ≤ length xs
length-filter_le p [] = omega arith
length-filter_le p (x ∷ xs) = ground (arith, length-filter_le p xs)

pub ready_raw :
    (s : IssueScheduler) (v : ℕ)
    → v ∈ (get_ready s).1
    → (v ∈ s.sorter.ready) × (v ∈ (get_ready s).0.consumed)
unfolding get_ready Sorter.get_ready
ready_raw s v k =
    let raw = contains-filter (λ n. not (contains s.parked n)) s.sorter.ready v in
    (ground arith, ground (arith, contains-append s.sorter.ready s.consumed v))

get_ready_consumed : (s : IssueScheduler) (v : ℕ) → v ∈ s.consumed → v ∈ (get_ready s).0.consumed
unfolding get_ready Sorter.get_ready
get_ready_consumed s v k = ground (arith, contains-append s.sorter.ready s.consumed v)

get_ready_undone : (s : IssueScheduler) (v : ℕ) → v ∉ s.done → v ∉ (get_ready s).0.done
unfolding get_ready
get_ready_undone s v u = u

-- After the queue has taken in what is ready it is one again, and no issue in it is parked.
pub frontier-IsQueued :
    (g : Graph) (s : IssueScheduler) (pending seen : List ℕ)
    → Run g s
    → IsQueued s pending seen
    → let (s', pending', seen') = frontier s pending seen in
      IsQueued s' pending' seen' × ((v : ℕ) → v ∈ pending' → v ∉ s'.parked)
unfolding frontier
frontier-IsQueued g s pending seen r q =
    let (s', ready) = get_ready s in
    let (collected, seen') = collect ready pending seen in
    let (once, known) = collect_once ready pending seen q.once q.known in
    let kept = contains-filter (λ n. not (contains s'.parked n)) collected in
    (
      record {
        passed = λ v k. elim (Bool-cases (contains ready v)) [
          | inl y ↦ (ready_raw s v y).1
          | inr f ↦
              get_ready_consumed s v
                (q.passed v (ground (arith, collect_seen ready pending seen v)))
        ];
        undone = λ v k. elim (Bool-cases (contains ready v)) [
          | inl y ↦ get_ready_undone s v ((get_ready-mem v r y).2)
          | inr f ↦
              get_ready_undone s v
                (q.undone v (ground (arith, kept v, collect_source ready pending seen v)))
        ];
        known = λ v k. known v (ground (arith, kept v));
        once = λ v.
            omega (arith, once v, count-filter_le (λ n. not (contains s'.parked n)) collected v);
      },
      λ v k. ground (arith, kept v),
    )
