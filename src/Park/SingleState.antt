-- ===== src/Park/SingleState.antt =====
-- The labels that `park_issue` of src/baton_harness/chain/daemon/park.py leaves on an issue.
use mathlib.Core.Path.{subst}
use baton_harness.Base.{
  ℕ, String, ◌≡◌, refl, sym, ap, ◌∙◌, ◌⊎◌, inl, inr, Bool, true, false, not, ◌&&◌, ◌||◌, Option,
  none, some, List, [], ◌∷◌, map, arith, eq_iff, Bool-cases, ◌==◌, nat_eq, string_eq, contains, ◌∈◌,
  contains-filter,
}
use baton_harness.Labels.{agent_failed, agent_in_progress, state_labels, state_labels_in}
use baton_harness.Labels.Single.{mem-state_labels_in, IsSingle}
use baton_harness.FailureTally.{FailureTally}
use baton_harness.World.{
  daemon_labels, fetch_daemon_labels, label_edit_call, Severity, Kind, LabelReply, Github,
  ReportEntry, critical, block, exit_failed, garbled, names,
}
use baton_harness.Park.{
  other_state_labels, charged_target, label_plan, charge, announce, verify, park_issue, ParkClass,
  ParkState, charged, uncharged, state_intact, unknown_state, terminal,
}

-- GitHub keeps the labels of each issue, in lower case: a view shows them, an edit that succeeds
-- applies its additions and removals, and comments leave them alone.
pub record KeepsLabels {W : Type 0} (gh : Github W) (actual : W → ℕ → List String) : Type 0 where
  pub view_shows :
      (n : ℕ) (w : W) (ls : List String)
      → (gh.view_labels n w).1 ≡ names ls
      → (k : String) → contains (map gh.lower ls) k ≡ contains (actual w n) k
  pub view_keeps : (n : ℕ) (w : W) → actual (gh.view_labels n w).0 n ≡ actual w n
  pub edit_applies :
      (n : ℕ) (adds removes : List String) (w : W)
      → (gh.edit_labels n adds removes w).1 ≡ true
      → (k : String)
      → contains (actual (gh.edit_labels n adds removes w).0 n) k
        ≡ (contains adds k || contains (actual w n) k && not (contains removes k))
  pub alert_keeps :
      (n : ℕ) (severity : Severity) (kind : Kind) (text : String) (w : W)
      → actual (gh.alert n severity kind text w).0 n ≡ actual w n

-- Labels that could not be read, or that are those of the issue.
abbrev pub Observes : Option (List String) → List String → Type 0
Observes none before = Unit
Observes (some ls) before = (k : String) → contains ls k ≡ contains before k

contains-other_state_labels :
    (labels : Option (List String)) (before : List String) (target k : String)
    → Observes labels before
    → k ∈ state_labels
    → k ∈ before
    → (k == target) ≡ false
    → k ∈ other_state_labels labels target
unfolding other_state_labels
contains-other_state_labels none before target k o s b n =
    contains-filter (λ l. not (l == target)) state_labels k ∙ ground arith
contains-other_state_labels (some ls) before target k o s b n =
    contains-filter (λ l. not (l == target)) (state_labels_in ls) k
    ∙ ground (arith, mem-state_labels_in ls k, o k)

-- Adding the target and removing the other state labels leaves the target alone.
retarget-IsSingle :
    (labels : Option (List String)) (before after : List String) (target : String)
    → target ∈ state_labels
    → Observes labels before
    → ((k : String)
        → contains after k ≡ (
            contains (target ∷ []) k
            || contains before k
              && not (contains (agent_in_progress ∷ other_state_labels labels target) k)))
    → IsSingle after target
retarget-IsSingle labels before after target t o applied = record {
  state = t;
  present = ground (arith, applied target, eq_iff target target);
  only = λ k s p. elim (Bool-cases (k == target)) [
    | inl same ↦ (eq_iff k target).0 same
    | inr other ↦ ground (arith, applied k, contains-other_state_labels labels before target k o s)
  ];
}

module _ {W : Type 0} (gh : Github W) (actual : W → ℕ → List String) (k : KeepsLabels gh actual)
    (str_of : ℕ → String) (int_of : String → Option ℕ) where
  reply-Observes :
      (n : ℕ) (w : W) (reply : LabelReply)
      → (gh.view_labels n w).1 ≡ reply
      → Observes (daemon_labels gh reply) (actual w n)
  unfolding daemon_labels
  reply-Observes n w exit_failed e = tt
  reply-Observes n w garbled e = tt
  reply-Observes n w (names ls) e = k.view_shows n w ls e

  fetch_keeps : (n : ℕ) (w : W) → actual (fetch_daemon_labels gh n w).0 n ≡ actual w n
  unfolding fetch_daemon_labels
  fetch_keeps n w = k.view_keeps n w

  fetch-Observes : (n : ℕ) (w : W) → Observes (fetch_daemon_labels gh n w).1 (actual w n)
  unfolding fetch_daemon_labels
  fetch-Observes n w = reply-Observes n w (gh.view_labels n w).1 refl

  announce_keeps :
      (n : ℕ) (detail : Option String) (severity : Severity) (kind : Kind) (s : ParkState) (w : W)
      → actual (announce gh str_of int_of n detail severity kind s w).0 n ≡ actual w n
  unfolding announce
  announce_keeps n none severity kind s w = refl
  announce_keeps n (some detail) severity kind s w =
      ground (arith, k.alert_keeps n severity kind detail w)

  verify_keeps :
      (n : ℕ) (text : String) (exhausted edited written : Bool) (post : Option (List String))
      (s : ParkState) (w : W)
      → actual (verify gh str_of int_of n text exhausted edited written post s w).0 n ≡ actual w n
  unfolding verify
  verify_keeps n text exhausted edited written none s w = refl
  verify_keeps n text exhausted edited written (some post) s w =
      ground (arith, k.alert_keeps n critical block text w)

  -- The edit that `park_issue` makes: the world before it, and what it adds and removes.
  abbrev pub park_edit :
      ℕ → ParkClass → Bool → Option FailureTally → W → W × (List String × List String)
  park_edit n class written tally w =
      let (w₁, labels) = fetch_daemon_labels gh n w in
      (w₁, label_plan class (charge gh str_of int_of class written tally n).1 labels)

  abbrev pub edit_result : ℕ → ParkClass → Bool → Option FailureTally → W → W × Bool
  edit_result n class written tally w =
      let (w₁, plan) = park_edit n class written tally w in gh.edit_labels n plan.0 plan.1 w₁

  actual-label_edit_call :
      (n : ℕ) (adds removes : List String) (report : Option (List ReportEntry)) (w : W)
      → (label_edit_call gh n adds removes report w).0 ≡ (gh.edit_labels n adds removes w).0
  unfolding label_edit_call
  actual-label_edit_call n adds removes report w = refl

  -- After the edit, `park_issue` changes no labels.
  actual-park_issue :
      (n : ℕ) (class : ParkClass) (reason : String) (detail : Option String) (severity : Severity)
      (kind : Kind) (text : String) (charge_written reset_written : Bool) (s : ParkState) (w : W)
      → actual
          (park_issue gh str_of int_of n class reason detail severity kind text charge_written
            reset_written s w).0
          n
        ≡ actual (edit_result n class charge_written s.failure_tally w).0 n
  unfolding park_issue label_edit_call
  actual-park_issue n class reason detail severity kind text charge_written reset_written s w =
      verify_keeps n text _ _ reset_written _ _ _
      ∙ fetch_keeps n _
      ∙ announce_keeps n detail severity kind _ _

  -- The label that a charged or terminal park is to leave.
  abbrev pub park_target : ParkClass → Bool → String
  park_target terminal exhausted = agent_failed
  park_target _ exhausted = charged_target exhausted

  plan_retargets :
      (class : ParkClass) (exhausted : Bool) (labels : Option (List String))
      → (class ≡ charged) ⊎ (class ≡ terminal)
      → let target = park_target class exhausted in
        (target ∈ state_labels)
        × (label_plan class exhausted labels
            ≡ (target ∷ [], agent_in_progress ∷ other_state_labels labels target))
  unfolding label_plan
  plan_retargets charged true labels h = (refl, refl)
  plan_retargets charged false labels h = (refl, refl)
  plan_retargets terminal exhausted labels h = (refl, refl)
  plan_retargets uncharged exhausted labels h = absurd (ground arith)
  plan_retargets state_intact exhausted labels h = absurd (ground arith)
  plan_retargets unknown_state exhausted labels h = absurd (ground arith)

  -- A charged or terminal park whose label edit succeeds leaves exactly one state label on the issue:
  -- agent-failed if the park is terminal or the issue's failures are exhausted, else agent-ready,
  -- whatever labels the issue had and whether or not they could be read.
  pub park_issue-IsSingle :
      (n : ℕ) (class : ParkClass) (reason : String) (detail : Option String) (severity : Severity)
      (kind : Kind) (text : String) (charge_written reset_written : Bool) (s : ParkState) (w : W)
      → (class ≡ charged) ⊎ (class ≡ terminal)
      → (edit_result n class charge_written s.failure_tally w).1 ≡ true
      → IsSingle
          (actual
            (park_issue gh str_of int_of n class reason detail severity kind text charge_written
              reset_written s w).0
            n)
          (park_target class (charge gh str_of int_of class charge_written s.failure_tally n).1)
  park_issue-IsSingle n class reason detail severity kind text charge_written reset_written s w h
        done =
      let exhausted = (charge gh str_of int_of class charge_written s.failure_tally n).1 in
      let (w₁, labels) = fetch_daemon_labels gh n w in
      let (state, plan) = plan_retargets class exhausted labels h in
      let applied = k.edit_applies n _ _ w₁ done in
      rw
        (actual-park_issue n class reason detail severity kind text charge_written reset_written s
          w)
        (retarget-IsSingle labels (actual w₁ n) _ (park_target class exhausted) state
          (subst (Observes labels) (sym (fetch_keeps n w)) (fetch-Observes n w))
          (λ l.
            applied l
            ∙ ap
                (λ (p : List String × List String).
                  contains p.0 l || contains (actual w₁ n) l && not (contains p.1 l))
                plan))
