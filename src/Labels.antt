-- ===== src/Labels.antt =====
-- src/baton_harness/chain/labels.py: the state labels of an issue and the check that exactly one of
-- them is present. A set of labels is a list read by membership.
pub mod Single
use baton_harness.Base.{
  String, Bool, Option, none, some, List, [], ◌∷◌, if◌then◌else◌, nat_eq, string_eq, filter,
  contains,
}

abbrev pub agent_ready : String
agent_ready = "agent-ready"

abbrev pub agent_done : String
agent_done = "agent-done"

abbrev pub blocked : String
blocked = "blocked"

abbrev pub agent_failed : String
agent_failed = "agent-failed"

abbrev pub agent_in_progress : String
agent_in_progress = "agent-in-progress"

-- STATE_LABELS, in the order in which `sorted` gives its members.
abbrev pub state_labels : List String
state_labels = agent_done ∷ agent_failed ∷ agent_ready ∷ blocked ∷ []

-- sorted(labels & STATE_LABELS)
unfoldable pub state_labels_in : List String → List String
state_labels_in labels = filter (contains labels) state_labels

-- What `assert_single_state` reports: the labels found, none or at least two.
pub data Violation : Type 0 where
  no_state_label : Violation
  many_state_labels : List String → Violation

pub violation_of : List String → Option Violation
violation_of [] = some no_state_label
violation_of (l ∷ []) = none
violation_of (l ∷ m ∷ ls) = some (many_state_labels (l ∷ m ∷ ls))

unfoldable pub assert_single_state : List String → Option Violation
unfolding state_labels_in violation_of
assert_single_state labels = violation_of (state_labels_in labels)

unfoldable pub target_state_from_observed : (is_blocked pr_open : Bool) → String
target_state_from_observed is_blocked pr_open =
    if is_blocked then blocked else if pr_open then agent_done else agent_ready
