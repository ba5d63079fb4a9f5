-- ===== src/FailureTally/Durable.antt =====
-- The file of src/baton_harness/chain/failure_tally.py: what was written is read back after a
-- restart.
use baton_harness.Base.{
  ℕ, String, ◌≡◌, refl, ◌∙◌, true, ◌||◌, Option, none, some, List, [], ◌∷◌, arith, nat_beq_iff,
  ◌==◌, nat_eq, string_eq, ℤ, insert, HasUniqueKeys, lookup-insert, contains, add, count, lookup,
  contains-add,
}
use baton_harness.FailureTally.{
  FailureTally, peek, has_alerted, insert_sorted, sorted, count_fields, alert_items, persist,
  load_counts, load_alerted, open_tally,
}

abbrev or_else : Option ℤ → Option ℤ → Option ℤ
or_else none o = o
or_else (some c) o = some c

contains-insert_sorted :
    (n : ℕ) (ms : List ℕ) (v : ℕ) → contains (insert_sorted n ms) v ≡ (v == n || contains ms v)
contains-insert_sorted n [] v = refl
contains-insert_sorted n (m ∷ ms) v = ground (arith, contains-insert_sorted n ms v)

contains-sorted : (ns : List ℕ) (v : ℕ) → contains (sorted ns) v ≡ contains ns v
contains-sorted [] v = refl
contains-sorted (n ∷ ns) v =
    ground (arith, contains-insert_sorted n (sorted ns) v, contains-sorted ns v)

-- `int` reads what `str` writes of an issue number.
module _ (str_of : ℕ → String) (int_of : String → Option ℕ)
    (round : (n : ℕ) → int_of (str_of n) ≡ some n) where
  load_counts-count_fields :
      (d acc : List (ℕ × ℤ))
      → HasUniqueKeys d
      → (r : List (ℕ × ℤ)) × (load_counts str_of int_of (count_fields str_of int_of d) acc ≡ some r)
        × ((j : ℕ) → lookup r j ≡ or_else (lookup d j) (lookup acc j))
  unfolding load_counts count_fields
  load_counts-count_fields [] acc u = (acc, refl, λ j. refl)
  load_counts-count_fields ((issue, count) ∷ d) acc u =
      let (r, e, f) = load_counts-count_fields d (insert issue count acc) u.1 in
      (
        r,
        rw (round issue) e,
        λ j. ground (arith, f j, lookup-insert issue j count acc, u.0, nat_beq_iff j issue),
      )

  load_alerted-alert_items :
      (ns acc : List ℕ) (v : ℕ)
      → contains (load_alerted str_of int_of (alert_items str_of int_of ns) acc) v
        ≡ (contains ns v || contains acc v)
  unfolding load_alerted alert_items
  load_alerted-alert_items [] acc v = refl
  load_alerted-alert_items (n ∷ ns) acc v =
      ground (arith, round n, load_alerted-alert_items ns (add n acc) v, contains-add n acc v)

  -- A daemon that starts again from the file that the last write left behind has the same count for
  -- every issue, and has alerted the same issues.
  pub open_tally-persist :
      (t : FailureTally) (max_count : ℤ)
      → HasUniqueKeys t.issues
      → ((issue : ℕ)
          → peek (open_tally str_of int_of max_count (persist str_of int_of true t).file) issue
            ≡ peek t issue)
        × ((issue : ℕ)
            → has_alerted
                (open_tally str_of int_of max_count (persist str_of int_of true t).file)
                issue
              ≡ has_alerted t issue)
  unfolding open_tally persist peek has_alerted
  open_tally-persist t max_count u =
      let (r, e, f) = load_counts-count_fields t.issues [] u in
      (
        λ issue. rw (e, open_tally) (ground (arith, f issue)),
        λ issue.
            rw (e, open_tally)
              (load_alerted-alert_items (sorted t.alerted) [] issue
                ∙ ground (arith, contains-sorted t.alerted issue)),
      )
