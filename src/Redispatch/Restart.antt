-- ===== src/Redispatch/Restart.antt =====
-- The file of src/baton_harness/chain/redispatch.py: a restart inherits the history.
use baton_harness.Base.{
  ℕ, String, ◌≡◌, refl, ap, true, Option, none, some, List, [], ◌∷◌, arith, nat_beq_iff, nat_eq,
  string_eq, ℤ, insert, HasUniqueKeys, lookup-insert, lookup,
}
use baton_harness.Redispatch.{
  RedispatchTally, marks_of, mark_items, mark_fields, persist, load_marks, load_issues, open_tally,
}

abbrev or_else : Option (List ℤ) → Option (List ℤ) → Option (List ℤ)
or_else none o = o
or_else (some c) o = some c

-- `int` reads what `str` writes of an issue number.
module _ (str_of : ℕ → String) (int_of : String → Option ℕ)
    (round : (n : ℕ) → int_of (str_of n) ≡ some n) where
  load_marks-mark_items :
      (ms : List ℤ) → load_marks str_of int_of (mark_items str_of int_of ms) ≡ ms
  unfolding load_marks mark_items
  load_marks-mark_items [] = refl
  load_marks-mark_items (m ∷ ms) = ap (λ (l : List ℤ). m ∷ l) (load_marks-mark_items ms)

  lookup-load_issues :
      (d acc : List (ℕ × List ℤ)) (j : ℕ)
      → HasUniqueKeys d
      → lookup (load_issues str_of int_of (mark_fields str_of int_of d) acc) j
        ≡ or_else (lookup d j) (lookup acc j)
  unfolding load_issues mark_fields
  lookup-load_issues [] acc j u = refl
  lookup-load_issues ((issue, marks) ∷ d) acc j u = ground (
    arith,
    round issue,
    lookup-load_issues d (insert issue marks acc) j u.1,
    load_marks-mark_items marks,
    lookup-insert issue j marks acc,
    u.0,
    nat_beq_iff j issue,
  )

  -- A daemon that starts again from the file that the last write left behind goes on at the same
  -- tick, with the same marks for every issue.
  pub open_tally-document :
      (t : RedispatchTally)
      → HasUniqueKeys t.issues
      → let t' =
          open_tally str_of int_of t.window_ticks t.max_count (persist str_of int_of true t).file in
        (t'.tick ≡ t.tick) × ((issue : ℕ) → marks_of t'.issues issue ≡ marks_of t.issues issue)
  unfolding open_tally persist
  open_tally-document t u = (refl, λ issue. ground (arith, lookup-load_issues t.issues [] issue u))
