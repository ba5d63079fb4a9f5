-- ===== src/Poll/Select.antt =====
-- `_select_work_unit` of src/baton_harness/chain/daemon/poll.py: a milestone's issues go together, the lowest
-- milestone first; an issue without one is a unit of its own, the lowest first.
use baton_harness.Base.{
  ℕ, String, Bool, false, Option, none, some, List, [], ◌∷◌, map, leb, if◌then◌else◌, string_eq,
  nat_eq, ◌==◌, filter, concat,
}
use baton_harness.Poll.{Milestone, RawIssue}

pub record WorkUnit : Type 0 where
  pub branch_name : String
  pub slug : String
  pub membership : List ℕ
  pub milestone_info : Option Milestone

-- min(..., key=number): the first of the lowest.
unfoldable pub min_milestone : List RawIssue → Option Milestone
min_milestone [] = none
min_milestone (issue ∷ issues) =
    let rest = min_milestone issues in
    elim issue.milestone [
      | none ↦ rest
      | some ms ↦ elim rest [
        | none ↦ some ms
        | some other ↦ if leb ms.number other.number then some ms else some other
      ]
    ]

abbrev pub in_milestone : ℕ → RawIssue → Bool
in_milestone ms_num issue = elim issue.milestone [ none ↦ false | some ms ↦ ms.number == ms_num ]

abbrev pub numbers : List RawIssue → List ℕ
numbers issues = map (λ issue. issue.number) issues

-- sorted(..., key=number)[0]
unfoldable pub min_number : List RawIssue → Option ℕ
min_number [] = none
min_number (issue ∷ issues) = elim (min_number issues) [
  | none ↦ some issue.number
  | some n ↦ if leb issue.number n then some issue.number else some n
]

module _ (slugify : String → String) (str_of : ℕ → String) where
  unfoldable pub select_work_unit : List RawIssue → Option WorkUnit
  unfolding min_milestone min_number
  select_work_unit issues = elim (min_milestone issues) [
    | some ms ↦
        let slug = slugify ms.title in
        some (record {
          branch_name = concat ("feature/" ∷ slug ∷ []);
          slug = slug;
          membership = numbers (filter (in_milestone ms.number) issues);
          milestone_info = some ms;
        })
    | none ↦ elim (min_number issues) [
      | none ↦ none
      | some n ↦
          let slug = concat ("issue-" ∷ str_of n ∷ []) in
          some (record {
            branch_name = concat ("feature/" ∷ slug ∷ []);
            slug = slug;
            membership = n ∷ [];
            milestone_info = none;
          })
    ]
  ]
