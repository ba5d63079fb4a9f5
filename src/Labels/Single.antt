-- ===== src/Labels/Single.antt =====
-- What the single-state check of src/baton_harness/chain/labels.py decides.
use baton_harness.Base.{
  String, ◌≡◌, refl, ◌≢◌, ◌↔◌, ◌⊎◌, Bool, true, false, ◌&&◌, none, List, [], ◌∷◌, arith, eq_iff,
  nat_eq, string_eq, contains, ◌∈◌, contains-filter,
}
use baton_harness.Labels.{
  agent_ready, agent_done, blocked, agent_failed, state_labels, state_labels_in, violation_of,
  assert_single_state, target_state_from_observed,
}

-- A set of labels holds one state label, and no other.
pub record IsSingle (labels : List String) (l : String) : Type 0 where
  pub state : l ∈ state_labels
  pub present : l ∈ labels
  pub only : (k : String) → k ∈ state_labels → k ∈ labels → k ≡ l

-- The four state labels are different texts.
labels_distinct :
    (agent_ready ≢ agent_done)
    × (agent_ready ≢ blocked)
    × (agent_ready ≢ agent_failed)
    × (agent_done ≢ blocked)
    × (agent_done ≢ agent_failed)
    × (blocked ≢ agent_failed)
labels_distinct = (
  ground (arith, eq_iff agent_ready agent_done),
  ground (arith, eq_iff agent_ready blocked),
  ground (arith, eq_iff agent_ready agent_failed),
  ground (arith, eq_iff agent_done blocked),
  ground (arith, eq_iff agent_done agent_failed),
  ground (arith, eq_iff blocked agent_failed),
)

one_of_state_labels :
    (l : String)
    → l ∈ state_labels
    → (l ≡ agent_done) ⊎ (l ≡ agent_failed) ⊎ (l ≡ agent_ready) ⊎ (l ≡ blocked)
one_of_state_labels l m =
    ground
      (arith, eq_iff l agent_done, eq_iff l agent_failed, eq_iff l agent_ready, eq_iff l blocked)

pub mem-state_labels_in :
    (labels : List String) (k : String)
    → contains (state_labels_in labels) k ≡ (contains state_labels k && contains labels k)
unfolding state_labels_in
mem-state_labels_in labels k = contains-filter (contains labels) state_labels k

singleton-IsSingle :
    (labels : List String) (l : String) → state_labels_in labels ≡ l ∷ [] → IsSingle labels l
singleton-IsSingle labels l e =
    let here : l ∈ state_labels_in labels = rw e (ground (arith, eq_iff l l)) in
    record {
      state = ground (arith, mem-state_labels_in labels l);
      present = ground (arith, mem-state_labels_in labels l);
      only = λ k s p.
          let there : k ∈ state_labels_in labels = ground (arith, mem-state_labels_in labels k) in
          let alone : k ∈ l ∷ [] = rw e at there in ground (arith, eq_iff k l);
    }

none-singleton : (found : List String) → violation_of found ≡ none → (l : String) × (found ≡ l ∷ [])
unfolding violation_of
none-singleton [] h = cc
none-singleton (l ∷ []) h = (l, refl)
none-singleton (l ∷ m ∷ ls) h = cc

pub IsSingle-none :
    (labels : List String) (l : String) → IsSingle labels l → assert_single_state labels ≡ none
unfolding assert_single_state
IsSingle-none labels l h = ground (
  arith,
  one_of_state_labels l h.state,
  h.only agent_done,
  h.only agent_failed,
  h.only agent_ready,
  h.only blocked,
  labels_distinct,
  h.present,
)

-- The check passes exactly if one state label is present and no other is.
pub assert_single_state-none :
    (labels : List String)
    → (assert_single_state labels ≡ none) ↔ ((l : String) × IsSingle labels l)
unfolding assert_single_state
assert_single_state-none labels = (
  λ e.
      let (l, found) = none-singleton (state_labels_in labels) e in
      (l, singleton-IsSingle labels l found),
  λ (l, h). IsSingle-none labels l h,
)

-- The label derived from what is observed of an issue is a state label, and it is `agent-failed` in
-- no case.
target_state_from_observed-state :
    (is_blocked pr_open : Bool)
    → (target_state_from_observed is_blocked pr_open ∈ state_labels)
      × (target_state_from_observed is_blocked pr_open ≢ agent_failed)
unfolding target_state_from_observed
target_state_from_observed-state true pr_open = (refl, λ e. labels_distinct.5 e)
target_state_from_observed-state false true = (refl, λ e. labels_distinct.4 e)
target_state_from_observed-state false false = (refl, λ e. labels_distinct.2 e)
