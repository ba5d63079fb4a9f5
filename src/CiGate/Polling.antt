-- ===== src/CiGate/Polling.antt =====
-- The polling loop of src/baton_harness/chain/merge.py.
use mathlib.Core.Path.{subst}
use baton_harness.Base.{
  ℕ, zero, suc, ◌+◌, ◌-◌, ◌≤◌, ◌<◌, String, ◌≡◌, sym, ◌≢◌, ◌⊎◌, inl, inr, Bool, true, false, none,
  some, List, [], ◌∷◌, arith, leb, nat_beq, leb→le, nat_beq_iff, Bool-cases, Option-cases,
  string_eq, nat_eq,
}
use baton_harness.CiGate.{
  classify_check_runs, build_ci_diagnostic, observe, poll_round, observed_after, poll_loop,
  evaluate_ci, Job, CiDiagnostic, Poll, CiOutcome, green, red, timeout, raised, verdict,
}
use baton_harness.CiGate.Verdict.{}

-- What a round of the loop comes to when it is the last one.
abbrev pub Explains : List String → ℕ → Bool → Poll → CiOutcome → Type 0
Explains required deadline sleeps p raised = p.runs ≡ none
Explains required deadline sleeps p (verdict green d) =
    (runs : List Job) × (p.runs ≡ some runs) × (classify_check_runs runs required ≡ some green)
Explains required deadline sleeps p (verdict red d) =
    (runs : List Job) × (p.runs ≡ some runs) × (classify_check_runs runs required ≡ some red)
Explains required deadline sleeps p (verdict timeout d) =
    ((deadline ≤ p.now) ⊎ (deadline ≤ p.now_again))
    × ((runs : List Job) × (p.runs ≡ some runs) × (classify_check_runs runs required ≡ none))

-- A round that the loop passes over: its jobs give no verdict, and the deadline has not come when they are
-- read, nor, where the loop does not sleep, when the clock is read once more.
abbrev pub IsOpen : List String → ℕ → Bool → Poll → Type 0
IsOpen required deadline sleeps p =
    ((runs : List Job) × (p.runs ≡ some runs) × (classify_check_runs runs required ≡ none))
    × (p.now < deadline)
    × ((sleeps ≡ true) ⊎ (p.now_again < deadline))

classify-ne-timeout :
    (runs : List Job) (required : List String) → classify_check_runs runs required ≢ some timeout
unfolding classify_check_runs
classify-ne-timeout runs [] h = cc
classify-ne-timeout runs (check ∷ required) h = classify-ne-timeout runs required (ground arith)

module _ (required : List String) (start deadline : ℕ) (sleeps : Bool) (poll : ℕ → Poll)
    (diagnostic : CiDiagnostic) where
  poll_round-Explains :
      (p : Poll) (polls : ℕ) (seen_names : List String) (o : CiOutcome)
      → poll_round required start deadline sleeps poll diagnostic p polls seen_names ≡ some o
      → Explains required deadline sleeps p o
  unfolding poll_round
  poll_round-Explains p polls seen_names o h =
      let conclude : (o' : CiOutcome)
          → poll_round required start deadline sleeps poll diagnostic p polls seen_names ≡ some o'
          → Explains required deadline sleeps p o'
          → Explains required deadline sleeps p o =
        λ o' h' e. subst (Explains required deadline sleeps p) (ground (arith, h', h)) e in
      elim (Option-cases p.runs) [
        | inl e ↦ conclude raised (ground (arith, e)) e
        | inr (runs, e) ↦
            let d : ℕ → Bool → CiDiagnostic = λ now is_red.
              build_ci_diagnostic required (observe runs seen_names) runs (suc polls) (now - start)
                is_red in
            elim (Option-cases (classify_check_runs runs required)) [
              | inl w ↦ elim (Bool-cases (leb deadline p.now)) [
                | inl l ↦
                    conclude (verdict timeout (d p.now false)) (ground (arith, e, w, l))
                      (inl (leb→le deadline p.now l), (runs, e, w))
                | inr n ↦ elim (Bool-cases (leb deadline p.now_again)) [
                  | inl l ↦ elim (Bool-cases sleeps) [
                    | inl st ↦ absurd (ground (arith, e, w, n, l, st))
                    | inr sf ↦
                        conclude (verdict timeout (d p.now_again false))
                          (ground (arith, e, w, n, l, sf))
                          (inr (leb→le deadline p.now_again l), (runs, e, w))
                  ]
                  | inr m ↦ absurd (ground (arith, e, w, n, m))
                ]
              ]
              | inr (green, w) ↦
                  conclude (verdict green diagnostic) (ground (arith, e, w)) (runs, e, w)
              | inr (red, w) ↦
                  conclude (verdict red (d p.now true)) (ground (arith, e, w)) (runs, e, w)
              | inr (timeout, w) ↦ absurd (classify-ne-timeout runs required w)
            ]
      ]

  poll_round-IsOpen :
      (p : Poll) (polls : ℕ) (seen_names : List String)
      → poll_round required start deadline sleeps poll diagnostic p polls seen_names ≡ none
      → IsOpen required deadline sleeps p
  unfolding poll_round
  poll_round-IsOpen p polls seen_names h = elim (Option-cases p.runs) [
    | inl e ↦ absurd (ground (arith, e, h))
    | inr (runs, e) ↦ elim (Option-cases (classify_check_runs runs required)) [
      | inl w ↦ ((runs, e, w), ground (arith, e, w, h), ground (arith, e, w, h))
      | inr (green, w) ↦ absurd (ground (arith, e, w, h))
      | inr (red, w) ↦ absurd (ground (arith, e, w, h))
      | inr (timeout, w) ↦ absurd (classify-ne-timeout runs required w)
    ]
  ]

  poll_loop-Explains :
      (fuel polls : ℕ) (seen_names : List String) (o : CiOutcome)
      → poll_loop required start deadline sleeps poll diagnostic fuel polls seen_names ≡ some o
      → (k : ℕ) × (polls ≤ k)
        × (k < polls + fuel)
        × Explains required deadline sleeps (poll k) o
        × ((j : ℕ) → polls ≤ j → j < k → IsOpen required deadline sleeps (poll j))
  unfolding poll_loop
  poll_loop-Explains zero polls seen_names o h = absurd (ground (arith, h))
  poll_loop-Explains (suc fuel) polls seen_names o h =
      elim (Option-cases
        (poll_round required start deadline sleeps poll diagnostic (poll polls) polls seen_names)) [
          | inl e ↦
              let (k, l, u, x, before) =
                poll_loop-Explains fuel (suc polls)
                  (observed_after required start deadline sleeps poll diagnostic (poll polls)
                    seen_names)
                  o (ground (arith, e, h)) in
              let open_here = poll_round-IsOpen (poll polls) polls seen_names e in
              (
                k,
                omega arith,
                omega arith,
                x,
                λ j a b. elim (Bool-cases (nat_beq polls j)) [
                  | inl q ↦
                      subst (λ i. IsOpen required deadline sleeps (poll i))
                        ((nat_beq_iff polls j).0 q) open_here
                  | inr q ↦ before j (ground (arith, nat_beq_iff polls j)) b
                ],
              )
          | inr (o', e) ↦ (
            polls,
            omega arith,
            omega arith,
            poll_round-Explains (poll polls) polls seen_names o (ground (arith, e, h)),
            λ j a b. absurd (omega arith),
          )
        ]

  -- A round at or after the deadline is the last.
  poll_round-late :
      (p : Poll) (polls : ℕ) (seen_names : List String)
      → deadline ≤ p.now
      → poll_round required start deadline sleeps poll diagnostic p polls seen_names ≢ none
  unfolding poll_round
  poll_round-late p polls seen_names l h = elim (Option-cases p.runs) [
    | inl e ↦ ground (arith, e, h)
    | inr (runs, e) ↦ elim (Option-cases (classify_check_runs runs required)) [
      | inl w ↦ ground (arith, e, w, h)
      | inr (green, w) ↦ ground (arith, e, w, h)
      | inr (red, w) ↦ ground (arith, e, w, h)
      | inr (timeout, w) ↦ ground (arith, e, w, h)
    ]
  ]

  poll_loop-late :
      (fuel polls late : ℕ) (seen_names : List String)
      → polls ≤ late
      → late < polls + fuel
      → deadline ≤ (poll late).now
      → poll_loop required start deadline sleeps poll diagnostic fuel polls seen_names ≢ none
  unfolding poll_loop
  poll_loop-late zero polls late seen_names a b l h = absurd (omega arith)
  poll_loop-late (suc fuel) polls late seen_names a b l h =
      elim (Option-cases
        (poll_round required start deadline sleeps poll diagnostic (poll polls) polls seen_names)) [
          | inl e ↦ elim (Bool-cases (nat_beq polls late)) [
            | inl q ↦
                poll_round-late (poll polls) polls seen_names
                  (subst (λ k. deadline ≤ (poll k).now) (sym ((nat_beq_iff polls late).0 q)) l) e
            | inr q ↦
                poll_loop-late fuel (suc polls) late
                  (observed_after required start deadline sleeps poll diagnostic (poll polls)
                    seen_names)
                  (ground arith) (ground arith) l (ground (arith, e, h))
          ]
          | inr (o, e) ↦ ground (arith, e, h)
        ]

-- What `evaluate_ci` comes to is explained by one round of its loop: an exception by a query that raised,
-- GREEN or RED by that verdict on the jobs of the round, and TIMEOUT by the deadline having passed while
-- the jobs of the round gave no verdict. In every round before that one the jobs were read and gave no
-- verdict, and the deadline had not come.
pub evaluate_ci-Explains :
    (required : List String)
    → (start limit : ℕ) → (sleeps : Bool) → (poll : ℕ → Poll) → (fuel : ℕ)
    → (diagnostic : CiDiagnostic) → (o : CiOutcome)
    → evaluate_ci required start limit sleeps poll fuel diagnostic ≡ some o
    → (k : ℕ) × (k < fuel)
      × Explains required (start + limit) sleeps (poll k) o
      × ((j : ℕ) → j < k → IsOpen required (start + limit) sleeps (poll j))
unfolding evaluate_ci
evaluate_ci-Explains required start limit sleeps poll fuel diagnostic o h =
    let (k, l, u, x, before) =
      poll_loop-Explains required start (start + limit) sleeps poll diagnostic fuel 0 [] o h in
    (k, omega arith, x, λ j b. before j (omega arith) b)

-- `evaluate_ci` ends: when the clock is at or past the deadline by round `late`, it returns or raises in
-- that round at the latest.
pub evaluate_ci-ends :
    (required : List String)
    → (start limit : ℕ) → (sleeps : Bool) → (poll : ℕ → Poll) → (late : ℕ)
    → (diagnostic : CiDiagnostic) → start + limit ≤ (poll late).now
    → (o : CiOutcome) × (evaluate_ci required start limit sleeps poll (suc late) diagnostic
        ≡ some o)
unfolding evaluate_ci
evaluate_ci-ends required start limit sleeps poll late diagnostic l =
    elim (Option-cases (evaluate_ci required start limit sleeps poll (suc late) diagnostic)) [
      | inl e ↦ absurd (
          poll_loop-late required start (start + limit) sleeps poll diagnostic (suc late) 0 late []
            (omega arith) (omega arith) l e)
      | inr found ↦ found
    ]
