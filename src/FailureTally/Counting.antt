-- ===== src/FailureTally/Counting.antt =====
-- What the calls of src/baton_harness/chain/failure_tally.py do to the counts.
use baton_harness.Base.{
  ℕ, String, ◌≡◌, ◌↔◌, Bool, true, false, not, Option, arith, if◌then◌else◌, ◌==◌, nat_eq,
  string_eq, ◌+ℤ◌, ◌≤ℤ◌, pos, lookup-insert, lookup-remove, contains-filter,
}
use baton_harness.FailureTally.{FailureTally, peek, has_alerted, persist, record_and_check, reset}

module _ (str_of : ℕ → String) (int_of : String → Option ℕ) (written : Bool) (t : FailureTally)
    (issue : ℕ) where
  -- Whether or not the write comes through, a charge raises the count of its issue by one and leaves
  -- the others; it reports that new count, and exhaustion exactly from `max_count` on.
  pub peek-record_and_check :
      let (t', reported) = record_and_check str_of int_of written t issue in
      ((j : ℕ) → peek t' j ≡ (if j == issue then peek t issue +ℤ pos 1 else peek t j))
      × (reported.0 ≡ peek t' issue)
      × ((reported.1 ≡ true) ↔ (t.max_count ≤ℤ peek t' issue))
  unfolding record_and_check persist peek
  peek-record_and_check = (
    λ j. ground (arith, lookup-insert issue j (peek t issue +ℤ pos 1) t.issues),
    ground (arith, lookup-insert issue issue (peek t issue +ℤ pos 1) t.issues),
    (
      λ h. ground (arith, lookup-insert issue issue (peek t issue +ℤ pos 1) t.issues),
      λ h. ground (arith, lookup-insert issue issue (peek t issue +ℤ pos 1) t.issues),
    ),
  )

  -- Whether or not the write comes through, a reset clears the count and the alert flag of its issue
  -- and leaves those of the others.
  pub peek-reset :
      (j : ℕ)
      → (peek (reset str_of int_of written t issue) j ≡ (if j == issue then pos 0 else peek t j))
        × (has_alerted (reset str_of int_of written t issue) j
            ≡ (if j == issue then false else has_alerted t j))
  unfolding reset persist peek has_alerted
  peek-reset j =
      ground
        (arith, lookup-remove issue j t.issues, contains-filter (λ n. not (n == issue)) t.alerted j)
