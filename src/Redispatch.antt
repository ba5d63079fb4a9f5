-- ===== src/Redispatch.antt =====
-- src/baton_harness/chain/redispatch.py: detection of re-dispatch loops by a sliding window of
-- ticks. The backing file is the last document written, and each mutation is told whether the write
-- of `_persist` came through. Issue numbers are natural numbers.
pub mod Window
pub mod Restart
use baton_harness.Base.{
  ℕ, String, Bool, ◌&&◌, Option, none, some, List, [], ◌∷◌, ◌++◌, if◌then◌else◌, nat_eq, string_eq,
  length, filter, ◌+ℤ◌, ◌-ℤ◌, ltb_ℤ, leb_ℤ, ℤ, pos, insert, lookup,
}
use baton_harness.Json
use baton_harness.Json.{Json, Items, Fields, arr, obj, nil, cons, end, field, as_int}

-- The marks in (current_tick - window_ticks, current_tick].
unfoldable pub marks_in_window : List ℤ → ℤ → ℤ → ℕ
marks_in_window marks current_tick window_ticks =
    length (filter (λ m. ltb_ℤ (current_tick -ℤ window_ticks) m && leb_ℤ m current_tick) marks)

unfoldable pub exceeds_threshold : List ℤ → ℤ → ℤ → ℤ → Bool
unfolding marks_in_window
exceeds_threshold marks current_tick window_ticks max_count =
    ltb_ℤ max_count (pos (marks_in_window marks current_tick window_ticks))

pub record RedispatchTally : Type 0 where
  pub window_ticks : ℤ
  pub max_count : ℤ
  pub tick : ℤ
  pub issues : List (ℕ × List ℤ)
  pub file : Option Json

-- self._issues.get(issue, [])
abbrev pub marks_of : List (ℕ × List ℤ) → ℕ → List ℤ
marks_of issues issue = elim (lookup issues issue) [ none ↦ [] | some marks ↦ marks ]

-- [m for m in marks if m > lower]
unfoldable pub prune : ℤ → List ℤ → List ℤ
prune lower marks = filter (λ m. ltb_ℤ lower m) marks

module _ (str_of : ℕ → String) (int_of : String → Option ℕ) where
  unfoldable pub mark_items : List ℤ → Items
  mark_items [] = nil
  mark_items (m ∷ ms) = cons (Json.int m) (mark_items ms)

  unfoldable pub mark_fields : List (ℕ × List ℤ) → Fields
  unfolding mark_items
  mark_fields [] = end
  mark_fields ((issue, marks) ∷ rest) =
      field (str_of issue) (arr (mark_items marks)) (mark_fields rest)

  unfoldable pub document : RedispatchTally → Json
  unfolding mark_fields
  document t =
      obj (field "tick" (Json.int t.tick) (field "issues" (obj (mark_fields t.issues)) end))

  unfoldable pub persist : Bool → RedispatchTally → RedispatchTally
  unfolding document
  persist written t = if written then record t { file = some (document t) } else t

  unfoldable pub advance_tick : Bool → RedispatchTally → RedispatchTally × ℤ
  advance_tick written t = (persist written (record t { tick = t.tick +ℤ pos 1 }), t.tick +ℤ pos 1)

  unfoldable pub record_and_check : Bool → RedispatchTally → ℕ → RedispatchTally × Bool
  record_and_check written t issue =
      let marks = prune (t.tick -ℤ t.window_ticks) (marks_of t.issues issue ++ t.tick ∷ []) in
      (
        persist written (record t { issues = insert issue marks t.issues }),
        exceeds_threshold marks t.tick t.window_ticks t.max_count,
      )

  -- [m for m in v if isinstance(m, int)]
  unfoldable pub load_marks : Items → List ℤ
  load_marks nil = []
  load_marks (cons item rest) =
      let ms = load_marks rest in elim (as_int item) [ none ↦ ms | some m ↦ m ∷ ms ]

  -- A value that is no list and a key that is no number are passed over.
  unfoldable pub load_entry : String → Json → List (ℕ × List ℤ) → List (ℕ × List ℤ)
  unfolding load_marks
  load_entry key (arr items) acc = elim (int_of key) [
    | none ↦ acc
    | some issue ↦ insert issue (load_marks items) acc
  ]
  load_entry key _ acc = acc

  unfoldable pub load_issues : Fields → List (ℕ × List ℤ) → List (ℕ × List ℤ)
  unfolding load_entry
  load_issues end acc = acc
  load_issues (field key value rest) acc = load_issues rest (load_entry key value acc)

  abbrev pub load_tick : Fields → ℤ
  load_tick fs = elim (Json.get "tick" fs) [
    | none ↦ pos 0
    | some value ↦ elim (as_int value) [ none ↦ pos 0 | some tick ↦ tick ]
  ]

  abbrev pub load_state : Option Json → ℤ × List (ℕ × List ℤ)
  load_state (some (obj fs)) = (
    load_tick fs,
    elim (Json.get "issues" fs) [ some (obj entries) ↦ load_issues entries [] | _ ↦ [] ],
  )
  load_state _ = (pos 0, [])

  unfoldable pub open_tally : (window_ticks max_count : ℤ) → Option Json → RedispatchTally
  unfolding load_issues
  open_tally window_ticks max_count file = record {
    window_ticks = window_ticks;
    max_count = max_count;
    tick = (load_state file).0;
    issues = (load_state file).1;
    file = file;
  }
