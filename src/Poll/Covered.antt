-- ===== src/Poll/Covered.antt =====
-- The drain of `_poll_and_run` in src/baton_harness/chain/daemon/poll.py visits the unit of every ready issue.
use mathlib.Core.Path.{subst}
use baton_harness.Base.{
  ℕ, zero, suc, String, ◌≡◌, refl, sym, inl, inr, Bool, true, false, not, ◌||◌, none, some, List,
  [], ◌∷◌, arith, leb, nat_beq_iff, Bool-cases, Option-cases, string_eq, nat_eq, ==_refl, filter,
  All, contains, ◌∈◌, contains-add,
}
use baton_harness.WorkUnit.{Services, Settings, continues}
use baton_harness.WorkUnit.Runs.{flow_cases}
use baton_harness.Poll.{update_set, RawIssue, Listings, TickState}
use baton_harness.Poll.Select
use baton_harness.Poll.Select.{min_milestone, in_milestone, min_number, select_work_unit, WorkUnit}
use baton_harness.Poll.Drain.{
  remaining_after, mark_processed, members_of, mid_drain_excluded, run_unit, visit, drain, Tick,
}
use baton_harness.Poll.Scan.{}

contains-update_set :
    (xs ys : List ℕ) (v : ℕ) → contains (update_set xs ys) v ≡ (contains xs v || contains ys v)
unfolding update_set
contains-update_set [] ys v = refl
contains-update_set (x ∷ xs) ys v =
    ground (arith, contains-add x (update_set xs ys) v, contains-update_set xs ys v)

min_milestone-none :
    (issues : List RawIssue)
    → min_milestone issues ≡ none
    → All (λ issue. issue.milestone ≡ none) issues
unfolding min_milestone
min_milestone-none [] e = tt
min_milestone-none (issue ∷ issues) e = elim (Option-cases issue.milestone) [
  | inl none_here ↦ (none_here, min_milestone-none issues (ground (arith, none_here)))
  | inr (here, is) ↦ elim (Option-cases (min_milestone issues)) [
    | inl none_left ↦ absurd (ground (arith, is, none_left))
    | inr (other, left) ↦ elim (Bool-cases (leb here.number other.number)) [
      | inl first ↦ absurd (ground (arith, is, left, first))
      | inr second ↦ absurd (ground (arith, is, left, second))
    ]
  ]
]

min_number-none : (issues : List RawIssue) → min_number issues ≡ none → issues ≡ []
unfolding min_number
min_number-none [] e = refl
min_number-none (issue ∷ issues) e = elim (Option-cases (min_number issues)) [
  | inl none_left ↦ absurd (ground (arith, none_left))
  | inr (m, left) ↦ absurd (ground (arith, left))
]

select_work_unit-none :
    (slugify : String → String) (str_of : ℕ → String) (issues : List RawIssue)
    → select_work_unit slugify str_of issues ≡ none
    → issues ≡ []
unfolding select_work_unit
select_work_unit-none slugify str_of issues e = elim (Option-cases (min_milestone issues)) [
  | inr (ms, lowest) ↦ absurd (ground (arith, lowest))
  | inl no_milestone ↦ elim (Option-cases (min_number issues)) [
    | inl nothing ↦ min_number-none issues nothing
    | inr (n, lowest) ↦ absurd (ground (arith, no_milestone, lowest))
  ]
]

-- The unit of the issue was visited in this tick.
abbrev pub IsVisited : TickState → RawIssue → Type 0
IsVisited st issue =
    (elim issue.milestone as (λ m. Bool) [
      | some ms ↦ contains st.processed_ms_nums ms.number
      | none ↦ contains st.processed_issue_nums issue.number
    ])
    ≡ true

All-of-filter :
    {A : Type 0} (p : A → Bool) (Q R : A → Type 0) (xs : List A)
    → All R xs
    → ((x : A) → R x → p x ≡ true → Q x)
    → All Q (filter (λ x. not (p x)) xs)
    → All Q xs
All-of-filter p Q R [] r h q = tt
All-of-filter p Q R (x ∷ xs) r h q = elim (Bool-cases (p x)) [
  | inl y ↦ (h x r.0 y, All-of-filter p Q R xs r.1 h (rw y at q))
  | inr n ↦
      let q' : Q x × All Q (filter (λ z. not (p z)) xs) = rw n at q in
      (q'.0, All-of-filter p Q R xs r.1 h q'.1)
]

All-any : {A : Type 0} (R : A → Type 0) → ((x : A) → R x) → (xs : List A) → All R xs
All-any R h [] = tt
All-any R h (x ∷ xs) = (h x, All-any R h xs)

-- The processed milestones and issues only grow.
abbrev Grows : TickState → TickState → Type 0
Grows st st' =
    ((v : ℕ) → v ∈ st.processed_ms_nums → v ∈ st'.processed_ms_nums)
    × ((v : ℕ) → v ∈ st.processed_issue_nums → v ∈ st'.processed_issue_nums)

mark_processed-Grows : (unit : Select.WorkUnit) (st : TickState) → Grows st (mark_processed unit st)
unfolding mark_processed
mark_processed-Grows unit st = elim (Option-cases unit.milestone_info) [
  | inl e ↦ (
    λ v k. ground (arith, e),
    λ v k. ground (arith, e, contains-update_set unit.membership st.processed_issue_nums v),
  )
  | inr (ms, e) ↦ (
    λ v k. ground (arith, e, contains-add ms.number st.processed_ms_nums v),
    λ v k. ground (arith, e),
  )
]

-- With the unit that was selected, whatever it takes off the ready issues is visited.
selected-IsVisited :
    (slugify : String → String) (str_of : ℕ → String) (issues : List RawIssue)
    (unit : Select.WorkUnit) (st st' : TickState)
    → select_work_unit slugify str_of issues ≡ some unit
    → Grows (mark_processed unit st) st'
    → All (IsVisited st') (remaining_after unit issues)
    → All (IsVisited st') issues
unfolding select_work_unit remaining_after mark_processed
selected-IsVisited slugify str_of issues unit st st' e grown rest =
    elim (Option-cases (min_milestone issues)) [
      | inr (ms, lowest) ↦
          let info : unit.milestone_info ≡ some ms = ground (arith, lowest) in
          let marked : ms.number ∈ (mark_processed unit st).processed_ms_nums =
            rw (mark_processed, info)
              (ground (
                arith,
                contains-add ms.number st.processed_ms_nums ms.number,
                ==_refl ms.number,
              )) in
          All-of-filter (in_milestone ms.number) (IsVisited st') (λ x. x.number ≡ x.number) issues
            (All-any (λ x. x.number ≡ x.number) (λ x. refl) issues)
            (λ x r y. elim (Option-cases x.milestone) [
              | inl n ↦ absurd (ground (arith, n))
              | inr (here, is) ↦
                  ground (arith, is, grown.0 ms.number marked, nat_beq_iff here.number ms.number)
            ])
            (rw info at rest)
      | inl no_milestone ↦ elim (Option-cases (min_number issues)) [
        | inl nothing ↦ absurd (ground (arith, no_milestone, nothing))
        | inr (n, lowest) ↦
            let info : unit.milestone_info ≡ none = ground (arith, no_milestone, lowest) in
            All-of-filter (λ issue. contains unit.membership issue.number) (IsVisited st')
              (λ x. x.milestone ≡ none) issues (min_milestone-none issues no_milestone)
              (λ x r y. ground (
                arith,
                r,
                grown.1 x.number (
                    rw (mark_processed, info)
                      (ground (
                        arith,
                        contains-update_set unit.membership st.processed_issue_nums x.number,
                      ))),
              ))
              (rw info at rest)
      ]
    ]

module _ {W : Type 0} (services : Services W) (listings : Listings W) (settings : Settings) where
  open services use {texts}

  visit_keeps :
      (first : Bool) (unit : Select.WorkUnit) (m ready : List ℕ) (st : TickState) (w : W)
      → let st' = (visit services listings settings first unit m ready st w).state in
        (st'.processed_ms_nums ≡ st.processed_ms_nums)
        × (st'.processed_issue_nums ≡ st.processed_issue_nums)
  unfolding visit run_unit
  visit_keeps true unit m ready st w = (refl, refl)
  visit_keeps false unit m ready st w =
      elim (Option-cases
        (mid_drain_excluded services listings settings (filter (contains ready) m) w).1) [
          | inl e ↦ rw (visit, e) (refl, refl)
          | inr (n, e) ↦ rw (visit, e) (refl, refl)
        ]

  -- The state once a unit has been visited.
  abbrev visited : Bool → Select.WorkUnit → List ℕ → TickState → W → Tick W
  visited first unit ready st w =
      let (w₁, m) = members_of services listings settings unit w in
      visit services listings settings first unit m ready (mark_processed unit st) w₁

  visited-Grows :
      (first : Bool) (unit : Select.WorkUnit) (ready : List ℕ) (st : TickState) (w : W)
      → Grows st (visited first unit ready st w).state
        × Grows (mark_processed unit st) (visited first unit ready st w).state
  visited-Grows first unit ready st w =
      let (w₁, m) = members_of services listings settings unit w in
      let (ms_same, issues_same) = visit_keeps first unit m ready (mark_processed unit st) w₁ in
      let (ms_more, issues_more) = mark_processed-Grows unit st in
      (
        (λ v k. rw ms_same (ms_more v k), λ v k. rw issues_same (issues_more v k)),
        (λ v k. rw ms_same k, λ v k. rw issues_same k),
      )

  drain-Grows :
      (fuel : ℕ) (first : Bool) (ready : List ℕ) (remaining : List RawIssue) (st : TickState)
      (w : W)
      → Grows st (drain services listings settings fuel first ready remaining st w).state
  unfolding drain
  drain-Grows zero first ready remaining st w = (λ v k. k, λ v k. k)
  drain-Grows (suc fuel) first ready remaining st w =
      elim (Option-cases (select_work_unit listings.slugify texts.str_of remaining)) [
        | inl e ↦ rw (drain, e) (λ v k. k, λ v k. k)
        | inr (unit, e) ↦
            let t = visited first unit ready st w in
            let (grown, marked) = visited-Grows first unit ready st w in
            let further =
              drain-Grows fuel false ready (remaining_after unit remaining) t.state t.world in
            elim (flow_cases t.flow) [
              | inl f ↦
                  rw (drain, e, f)
                    (λ v k. further.0 v (grown.0 v k), λ v k. further.1 v (grown.1 v k))
              | inr (inl f) ↦ rw (drain, e, f) grown
              | inr (inr (inl f)) ↦ rw (drain, e, f) grown
              | inr (inr (inr f)) ↦ rw (drain, e, f) grown
            ]
      ]

  -- A drain that goes through visits the unit of every ready issue: at its end the milestone of the issue, or
  -- the issue itself if it has none, counts as processed.
  pub drain-IsVisited :
      (fuel : ℕ) (first : Bool) (ready : List ℕ) (remaining : List RawIssue) (st : TickState)
      (w : W)
      → let t = drain services listings settings fuel first ready remaining st w in
        t.flow ≡ continues → All (IsVisited t.state) remaining
  unfolding drain
  drain-IsVisited zero first ready remaining st w c = cc
  drain-IsVisited (suc fuel) first ready remaining st w c =
      elim (Option-cases (select_work_unit listings.slugify texts.str_of remaining)) [
        | inl e ↦
            subst
              (λ issues.
                All
                  (IsVisited
                    (drain services listings settings (suc fuel) first ready remaining st w).state)
                  issues)
              (sym (select_work_unit-none listings.slugify texts.str_of remaining e)) tt
        | inr (unit, e) ↦
            let t = visited first unit ready st w in
            let (grown, marked) = visited-Grows first unit ready st w in
            elim (flow_cases t.flow) [
              | inl f ↦
                  let further =
                    drain services listings settings fuel false ready
                      (remaining_after unit remaining) t.state t.world in
                  let more =
                    drain-Grows fuel false ready (remaining_after unit remaining) t.state t.world in
                  rw (drain, e, f)
                    (selected-IsVisited listings.slugify texts.str_of remaining unit st
                      further.state e
                      (λ v k. more.0 v (marked.0 v k), λ v k. more.1 v (marked.1 v k))
                      (drain-IsVisited fuel false ready (remaining_after unit remaining) t.state
                        t.world (rw (drain, e, f) at c)))
              | inr (inl f) ↦ absurd (ground (arith, e, f))
              | inr (inr (inl f)) ↦ absurd (ground (arith, e, f))
              | inr (inr (inr f)) ↦ absurd (ground (arith, e, f))
            ]
      ]
