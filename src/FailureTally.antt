-- ===== src/FailureTally.antt =====
-- src/baton_harness/chain/failure_tally.py: durable counts of the charged failures of each issue.
-- The backing file is the last document written, `none` while there is none or it cannot be read.
-- Each mutation is told whether the write of `_persist` came through: a failed one is swallowed and
-- leaves the file as it was. Issue numbers are natural numbers.
pub mod Durable
pub mod Counting
use mathlib.Core.Option
use baton_harness.Base.{
  ℕ, String, Bool, true, false, not, Option, none, some, List, [], ◌∷◌, map, leb, if◌then◌else◌,
  ◌==◌, nat_eq, string_eq, filter, ◌+ℤ◌, leb_ℤ, ℤ, pos, insert, remove, contains, add, count,
  lookup,
}
use baton_harness.Json
use baton_harness.Json.{Json, Items, Fields, arr, obj, nil, cons, end, field, as_int}

pub record FailureTally : Type 0 where
  pub max_count : ℤ
  pub issues : List (ℕ × ℤ)
  pub alerted : List ℕ
  pub file : Option Json

-- self._issues.get(issue, 0)
unfoldable pub peek : FailureTally → ℕ → ℤ
peek t issue = elim (lookup t.issues issue) [ none ↦ pos 0 | some c ↦ c ]

unfoldable pub has_alerted : FailureTally → ℕ → Bool
has_alerted t issue = contains t.alerted issue

-- sorted(self._alerted)
abbrev pub insert_sorted : ℕ → List ℕ → List ℕ
insert_sorted n [] = n ∷ []
insert_sorted n (m ∷ ms) = if leb n m then n ∷ m ∷ ms else m ∷ insert_sorted n ms

abbrev pub sorted : List ℕ → List ℕ
sorted [] = []
sorted (n ∷ ns) = insert_sorted n (sorted ns)

-- The document of `_persist` and the reading of `_load`, over Python's `str(issue)` and `int(key)`,
-- which raises ValueError at `none`.
module _ (str_of : ℕ → String) (int_of : String → Option ℕ) where
  unfoldable pub count_fields : List (ℕ × ℤ) → Fields
  count_fields [] = end
  count_fields ((issue, count) ∷ rest) = field (str_of issue) (Json.int count) (count_fields rest)

  unfoldable pub alert_items : List ℕ → Items
  alert_items [] = nil
  alert_items (issue ∷ rest) = cons (Json.str (str_of issue)) (alert_items rest)

  unfoldable pub document : FailureTally → Json
  unfolding count_fields alert_items
  document t = obj (
      field "issues" (obj (count_fields t.issues))
        (field "alerted" (arr (alert_items (sorted t.alerted))) end))

  unfoldable pub persist : Bool → FailureTally → FailureTally
  unfolding document
  persist written t = if written then record t { file = some (document t) } else t

  unfoldable pub record_and_check : Bool → FailureTally → ℕ → FailureTally × (ℤ × Bool)
  record_and_check written t issue =
      let count = peek t issue +ℤ pos 1 in
      (
        persist written (record t { issues = insert issue count t.issues }),
        (count, leb_ℤ t.max_count count),
      )

  unfoldable pub reset : Bool → FailureTally → ℕ → FailureTally
  reset written t issue = persist written (record t {
    issues = remove issue t.issues;
    alerted = filter (λ n. not (n == issue)) t.alerted;
  })

  unfoldable pub set_alerted : Bool → FailureTally → ℕ → FailureTally
  set_alerted written t issue = persist written (record t { alerted = add issue t.alerted })

  -- for key, count in issues.items(): a key that is no number raises, whatever it maps to an integer.
  unfoldable pub load_counts : Fields → List (ℕ × ℤ) → Option (List (ℕ × ℤ))
  load_counts end acc = some acc
  load_counts (field key value rest) acc = elim (as_int value) [
    | none ↦ load_counts rest acc
    | some count ↦ elim (int_of key) [
      | none ↦ none
      | some issue ↦ load_counts rest (insert issue count acc)
    ]
  ]

  -- int(key) of an item of "alerted": a text is read, a number cut off to an integer; what is
  -- no number is skipped.
  unfoldable pub int_of_item : Json → Option ℕ
  int_of_item (Json.str s) = int_of s
  int_of_item (Json.int (pos n)) = some n
  int_of_item (Json.float (pos n)) = some n
  int_of_item (Json.bool true) = some 1
  int_of_item (Json.bool false) = some 0
  int_of_item _ = none

  unfoldable pub load_alerted : Items → List ℕ → List ℕ
  unfolding int_of_item
  load_alerted nil acc = acc
  load_alerted (cons item rest) acc =
      load_alerted rest (elim (int_of_item item) [ none ↦ acc | some issue ↦ add issue acc ])

  -- A field that is absent reads as an empty container, one of another type is passed over.
  unfoldable pub load_fields : Fields → Option (List (ℕ × ℤ) × List ℕ)
  unfolding load_counts load_alerted
  load_fields fs =
      let alerted : List ℕ = elim (Json.get "alerted" fs) [
        | some (arr items) ↦ load_alerted items []
        | _ ↦ []
      ] in
      let found : Option (List (ℕ × ℤ)) = elim (Json.get "issues" fs) [
        | some (obj counts) ↦ load_counts counts []
        | _ ↦ some []
      ] in
      Option.map (λ counts. (counts, alerted)) found

  -- `__init__` with `_load`: any failure leaves both containers empty.
  unfoldable pub open_tally : ℤ → Option Json → FailureTally
  unfolding load_fields
  open_tally max_count file =
      let state : List (ℕ × ℤ) × List ℕ = elim file [
        | some (obj fs) ↦ elim (load_fields fs) [ none ↦ ([], []) | some st ↦ st ]
        | _ ↦ ([], [])
      ] in
      record { max_count = max_count; issues = state.0; alerted = state.1; file = file }
