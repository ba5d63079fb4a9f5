-- ===== src/Scheduler/Parking.antt =====
-- `mark_parked` of src/baton_harness/chain/scheduler.py: it reaches every issue that waits for the
-- parked one, and no others.
use baton_harness.Scheduler.Stack.{
  contains-reverse, length-reverse, open_edges, open_edges-cons, open_edges-le,
}
use mathlib.Core.List.{reverse}
use baton_harness.Base.{
  ℕ, zero, suc, ◌+◌, ◌<◌, ◌≡◌, refl, ◌↔◌, ◌⊎◌, inl, inr, true, ◌&&◌, ◌||◌, List, [], ◌∷◌, ◌++◌,
  arith, nat_beq_iff, Bool-cases, string_eq, nat_eq, ◌==◌, length, length-append, contains, ◌∈◌,
  ◌∉◌, contains-append,
}
use baton_harness.Dag.{Graph}
use baton_harness.Scheduler.Edges.{dependents}
use baton_harness.Scheduler.{IssueScheduler, park_loop, park_fuel, mark_parked}

-- Every issue that depends on a parked one is parked, done, or about to be looked at.
abbrev pub IsClosed : Graph → List ℕ → List ℕ → List ℕ → Type 0
IsClosed g done to_park parked =
    (n v : ℕ)
    → n ∈ parked
    → v ∈ dependents g n
    → (contains parked v || contains done v || contains to_park v) ≡ true

-- A chain of dependencies between issues that are not done.
pub data WaitsFor (g : Graph) (done : List ℕ) (a : ℕ) : ℕ → Type 0 where
  itself : a ∉ done → WaitsFor g done a a
  through : {n v : ℕ} → WaitsFor g done a n → v ∈ dependents g n → v ∉ done → WaitsFor g done a v

WaitsFor-cons :
    {g : Graph} {done : List ℕ} {a b v : ℕ}
    → a ∉ done
    → b ∈ dependents g a
    → WaitsFor g done b v
    → WaitsFor g done a v
WaitsFor-cons u e (itself h) = through (itself u) e h
WaitsFor-cons u e (through w d h) = through (WaitsFor-cons u e w) d h

module _ (g : Graph) (done : List ℕ) where
  abbrev stack_after : ℕ → List ℕ → List ℕ
  stack_after node rest = reverse (dependents g node) ++ rest

  contains-stack_after :
      (node v : ℕ) (rest : List ℕ)
      → contains (stack_after node rest) v ≡ (contains (dependents g node) v || contains rest v)
  contains-stack_after node v rest =
      rw (
        contains-append (reverse (dependents g node)) rest v,
        contains-reverse (dependents g node) v,
      )

  length-stack_after :
      (node : ℕ) (rest : List ℕ)
      → length (stack_after node rest) ≡ length (dependents g node) + length rest
  length-stack_after node rest =
      rw (length-append (reverse (dependents g node)) rest, length-reverse (dependents g node))

  skip-IsClosed :
      (node : ℕ) (rest parked : List ℕ)
      → (contains parked node || contains done node) ≡ true
      → IsClosed g done (node ∷ rest) parked
      → IsClosed g done rest parked
  skip-IsClosed node rest parked h c n v p d = ground (arith, c n v p d)

  take-IsClosed :
      (node : ℕ) (rest parked : List ℕ)
      → IsClosed g done (node ∷ rest) parked
      → IsClosed g done (stack_after node rest) (node ∷ parked)
  take-IsClosed node rest parked c n v p d = elim (Bool-cases (n == node)) [
    | inl same ↦
        let e : n ≡ node = (nat_beq_iff n node).0 same in
        ground (arith, contains-stack_after node v rest)
    | inr other ↦
        let old : n ∈ parked = ground arith in
        ground (arith, contains-stack_after node v rest, c n v old d)
  ]

  -- The loop with enough fuel: it parks or finds done all that was on the stack, keeps what was
  -- parked, and leaves no dependent of a parked issue behind.
  park_loop-IsClosed :
      (fuel : ℕ) (to_park parked : List ℕ)
      → length to_park + open_edges parked g < fuel
      → IsClosed g done to_park parked
      → (IsClosed g done [] (park_loop g done fuel to_park parked))
        × ((v : ℕ)
            → (contains parked v || contains to_park v) ≡ true
            → (contains (park_loop g done fuel to_park parked) v || contains done v) ≡ true)
  unfolding park_loop
  park_loop-IsClosed zero to_park parked m c = absurd (omega arith)
  park_loop-IsClosed (suc fuel) [] parked m c = (c, λ v h. ground arith)
  park_loop-IsClosed (suc fuel) (node ∷ rest) parked m c =
      elim (Bool-cases (contains parked node || contains done node)) [
        | inl skip ↦
            let ih =
              park_loop-IsClosed fuel rest parked (omega arith)
                (skip-IsClosed node rest parked skip c) in
            rw (skip, park_loop)
              (
                ih.0,
                λ v h. elim (Bool-cases (v == node)) [
                  | inl same ↦
                      let e : v ≡ node = (nat_beq_iff v node).0 same in ground (arith, ih.1 v)
                  | inr other ↦ ih.1 v (ground arith)
                ],
              )
        | inr fresh ↦
            let ih =
              park_loop-IsClosed fuel (stack_after node rest) (node ∷ parked)
                (omega (
                  arith,
                  open_edges-cons node parked g (ground arith),
                  length-stack_after node rest,
                ))
                (take-IsClosed node rest parked c) in
            rw (fresh, park_loop)
              (ih.0, λ v h. ih.1 v (ground (arith, contains-stack_after node v rest)))
      ]

  -- Nothing is parked but what was parked already or waits for an issue on the stack.
  park_loop-WaitsFor :
      (fuel : ℕ) (to_park parked : List ℕ) (v : ℕ)
      → v ∈ park_loop g done fuel to_park parked
      → (v ∈ parked) ⊎ ((s : ℕ) × (s ∈ to_park) × WaitsFor g done s v)
  unfolding park_loop
  park_loop-WaitsFor zero to_park parked v h = inl h
  park_loop-WaitsFor (suc fuel) [] parked v h = inl h
  park_loop-WaitsFor (suc fuel) (node ∷ rest) parked v h =
      elim (Bool-cases (contains parked node || contains done node)) [
        | inl skip ↦ elim (park_loop-WaitsFor fuel rest parked v (rw (skip, park_loop) at h)) [
          | inl p ↦ inl p
          | inr (s, m, w) ↦ inr (s, ground arith, w)
        ]
        | inr fresh ↦
            elim (park_loop-WaitsFor fuel (stack_after node rest) (node ∷ parked) v
              (rw (fresh, park_loop) at h)) [
                | inl p ↦ elim (Bool-cases (v == node)) [
                  | inl same ↦
                      inr (
                        node,
                        ground arith,
                        rw ((nat_beq_iff v node).0 same) (itself (ground arith)),
                      )
                  | inr other ↦ inl (ground arith)
                ]
                | inr (s, m, w) ↦ elim (Bool-cases (contains (dependents g node) s)) [
                  | inl d ↦ inr (node, ground arith, WaitsFor-cons (ground arith) d w)
                  | inr other ↦ inr (s, ground (arith, contains-stack_after node s rest), w)
                ]
              ]
      ]

  -- No issue that is done gets parked.
  park_loop-disjoint :
      (fuel : ℕ) (to_park parked : List ℕ)
      → ((v : ℕ) → v ∈ parked → v ∉ done)
      → (v : ℕ) → v ∈ park_loop g done fuel to_park parked
      → v ∉ done
  unfolding park_loop
  park_loop-disjoint zero to_park parked d v h = d v h
  park_loop-disjoint (suc fuel) [] parked d v h = d v h
  park_loop-disjoint (suc fuel) (node ∷ rest) parked d v h =
      elim (Bool-cases (contains parked node || contains done node)) [
        | inl skip ↦ park_loop-disjoint fuel rest parked d v (rw (skip, park_loop) at h)
        | inr fresh ↦
            park_loop-disjoint fuel (stack_after node rest) (node ∷ parked)
              (λ w p. elim (Bool-cases (w == node)) [
                | inl same ↦ rw ((nat_beq_iff w node).0 same) (ground arith)
                | inr other ↦ d w (ground arith)
              ])
              v (rw (fresh, park_loop) at h)
      ]

  -- What is done and parked was so before the loop.
  pub park_loop-overlap :
      (fuel : ℕ) (to_park parked : List ℕ) (v : ℕ)
      → (contains (park_loop g done fuel to_park parked) v && contains done v)
        ≡ (contains parked v && contains done v)
  unfolding park_loop
  park_loop-overlap zero to_park parked v = refl
  park_loop-overlap (suc fuel) [] parked v = refl
  park_loop-overlap (suc fuel) (node ∷ rest) parked v =
      elim (Bool-cases (contains parked node || contains done node)) [
        | inl skip ↦ rw (skip, park_loop) (park_loop-overlap fuel rest parked v)
        | inr fresh ↦
            rw (fresh, park_loop)
              (let ih = park_loop-overlap fuel (stack_after node rest) (node ∷ parked) v in
                ground (arith, ih, fresh, nat_beq_iff v node))
      ]

-- The sets of a scheduler between two calls: each issue has one terminal state, and whatever waits
-- for a parked issue is parked or done.
pub record IsSettled (s : IssueScheduler) : Type 0 where
  pub disjoint : (v : ℕ) → v ∈ s.parked → v ∉ s.done
  pub closed : IsClosed s.graph s.done [] s.parked

pub mark_parked-result :
    (s : IssueScheduler) (issue : ℕ)
    → IsClosed s.graph s.done [] s.parked
    → IsClosed s.graph s.done [] (mark_parked s issue).parked
      × ((v : ℕ)
          → (contains s.parked v || contains (issue ∷ []) v) ≡ true
          → (contains (mark_parked s issue).parked v || contains s.done v) ≡ true)
unfolding mark_parked
mark_parked-result s issue closed =
    park_loop-IsClosed s.graph s.done (park_fuel s.graph) (issue ∷ []) s.parked
      (omega (arith, open_edges-le s.parked s.graph)) (λ n v p d. ground (arith, closed n v p d))

-- Parking keeps the sets of done and parked issues apart, and leaves no dependent of a parked issue
-- waiting.
pub mark_parked-IsSettled :
    (s : IssueScheduler) (issue : ℕ) → IsSettled s → IsSettled (mark_parked s issue)
unfolding mark_parked
mark_parked-IsSettled s issue h = record {
  disjoint = park_loop-disjoint s.graph s.done (park_fuel s.graph) (issue ∷ []) s.parked h.disjoint;
  closed = (mark_parked-result s issue h.closed).0;
}

WaitsFor-parked :
    (s : IssueScheduler) (issue : ℕ) {v : ℕ}
    → IsSettled s
    → WaitsFor s.graph s.done issue v
    → v ∈ (mark_parked s issue).parked
WaitsFor-parked s issue h (itself u) = ground (arith, (mark_parked-result s issue h.closed).1 issue)
WaitsFor-parked s issue h (through {n = n} {v = v} w d u) =
    ground (arith, (mark_parked-result s issue h.closed).0 n v (WaitsFor-parked s issue h w) d)

mark_parked-WaitsFor :
    (s : IssueScheduler) (issue v : ℕ)
    → v ∈ (mark_parked s issue).parked
    → (v ∈ s.parked) ⊎ WaitsFor s.graph s.done issue v
unfolding mark_parked
mark_parked-WaitsFor s issue v p =
    elim (park_loop-WaitsFor s.graph s.done (park_fuel s.graph) (issue ∷ []) s.parked v p) [
      | inl old ↦ inl old
      | inr (n, m, w) ↦ let e : n ≡ issue = ground arith in inr (rw e at w)
    ]

-- In a settled scheduler, after `mark_parked` exactly those issues are parked that were parked
-- before, or that wait for the issue along a chain of dependencies on which no issue is done.
pub mem-mark_parked :
    (s : IssueScheduler) (issue v : ℕ)
    → IsSettled s
    → (v ∈ (mark_parked s issue).parked) ↔ ((v ∈ s.parked) ⊎ WaitsFor s.graph s.done issue v)
mem-mark_parked s issue v h = (mark_parked-WaitsFor s issue v, back)
  where
    back : (v ∈ s.parked) ⊎ WaitsFor s.graph s.done issue v → v ∈ (mark_parked s issue).parked
    back (inl old) = ground (arith, (mark_parked-result s issue h.closed).1 v, h.disjoint v old)
    back (inr w) = WaitsFor-parked s issue h w
