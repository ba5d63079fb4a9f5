-- ===== src/Poll/Drain.antt =====
-- The drain of `_poll_and_run` in src/baton_harness/chain/daemon/poll.py: unit after unit is selected from the
-- ready issues and run.
use baton_harness.Base.{
  ℕ, zero, suc, String, Bool, true, false, not, ◌||◌, Option, none, some, List, [], ◌∷◌,
  if◌then◌else◌, string_eq, nat_eq, filter, concat, contains, add,
}
use baton_harness.Labels.{agent_ready}
use baton_harness.World.{fetch_daemon_labels, critical, block}
use baton_harness.GhApi.{fetch_full_milestone_members}
use baton_harness.WorkUnit.{Services, Settings, Flow, continues, out_of_fuel}
use baton_harness.WorkUnit.Whole.{run_work_unit}
use baton_harness.Poll.{update_set, has_exclude, RawIssue, Listings, TickState}
use baton_harness.Poll.Select
use baton_harness.Poll.Select.{in_milestone, select_work_unit, WorkUnit}

pub record Tick (W : Type 0) : Type 0 where
  pub world : W
  pub state : TickState
  pub flow : Flow

-- What is left of the ready issues once a unit has been selected.
unfoldable pub remaining_after : Select.WorkUnit → List RawIssue → List RawIssue
remaining_after unit remaining = elim unit.milestone_info [
  | some ms ↦ filter (λ issue. not (in_milestone ms.number issue)) remaining
  | none ↦ filter (λ issue. not (contains unit.membership issue.number)) remaining
]

unfoldable pub mark_processed : Select.WorkUnit → TickState → TickState
mark_processed unit st = elim unit.milestone_info [
  | some ms ↦ record st { processed_ms_nums = add ms.number st.processed_ms_nums }
  | none ↦ record st { processed_issue_nums = update_set unit.membership st.processed_issue_nums }
]

-- The test of the check in the middle of a drain; labels that could not be read exclude as well.
abbrev pub is_excluded_now : Option (List String) → Bool
is_excluded_now none = true
is_excluded_now (some labels) = has_exclude labels || not (contains labels agent_ready)

module _ {W : Type 0} (services : Services W) (listings : Listings W) (settings : Settings) where
  open services use {gh, texts}

  -- The members of the unit: those of the whole milestone, if they can be listed and there are any.
  unfoldable pub members_of : Select.WorkUnit → W → W × List ℕ
  members_of unit w = elim unit.milestone_info [
    | none ↦ (w, unit.membership)
    | some ms ↦
        let (w', listed) = listings.list_milestone ms w in
        elim (fetch_full_milestone_members listed) [
          | [] ↦ (w', unit.membership)
          | n ∷ ns ↦ (w', n ∷ ns)
        ]
  ]

  unfoldable pub mid_drain_excluded : List ℕ → W → W × Option ℕ
  mid_drain_excluded [] w = (w, none)
  mid_drain_excluded (n ∷ ns) w =
      let (w₁, labels) = fetch_daemon_labels gh n w in
      let rest = mid_drain_excluded ns w₁ in if is_excluded_now labels then (w₁, some n) else rest

  unfoldable pub alert_mid_drain : ℕ → (slug : String) → W → W
  alert_mid_drain n slug w =
      (gh.alert n critical block
        (concat (
          "Issue #"
          ∷ texts.str_of n
          ∷ " became excluded mid-drain; work unit '"
          ∷ slug
          ∷ "' skipped (VP-2 invariant, #128/#132)."
          ∷ []))
        w).0

  unfoldable pub run_unit :
      Select.WorkUnit → (membership agent_ready_issues : List ℕ) → TickState → W → Tick W
  run_unit unit membership agent_ready_issues st w =
      let t =
        run_work_unit services
          (record settings {
            branch_name = unit.branch_name;
            slug = unit.slug;
            agent_ready_issues = agent_ready_issues;
          })
          membership st.unit w in
      record {
        world = t.world;
        state = record st {
          unit = t.unit;
          dispatched_issue_nums = update_set membership st.dispatched_issue_nums;
        };
        flow = t.flow;
      }

  -- From the second unit on the labels of its ready members are read again, and an exclusion skips the unit.
  unfoldable pub visit :
      (first : Bool)
      → Select.WorkUnit
      → (membership all_ready_nums : List ℕ) → TickState
      → W
      → Tick W
  unfolding mid_drain_excluded alert_mid_drain run_unit
  visit first unit membership all_ready_nums st w =
      if first
      then run_unit unit membership all_ready_nums st w
      else (let (w', excluded) =
            mid_drain_excluded (filter (contains all_ready_nums) membership) w in
          elim excluded [
            | none ↦ run_unit unit membership all_ready_nums st w'
            | some n ↦ record {
              world = alert_mid_drain n unit.slug w';
              state = st;
              flow = continues;
            }
          ])

  -- Each round takes at least one issue off `remaining`.
  unfoldable pub drain :
      (fuel : ℕ)
      → (first : Bool) → (all_ready_nums : List ℕ) → (remaining : List RawIssue) → TickState
      → W
      → Tick W
  unfolding remaining_after mark_processed members_of visit
  drain zero first all_ready_nums remaining st w = record {
    world = w;
    state = st;
    flow = out_of_fuel;
  }
  drain (suc fuel) first all_ready_nums remaining st w =
      elim (select_work_unit listings.slugify texts.str_of remaining) [
        | none ↦ record { world = w; state = st; flow = continues }
        | some unit ↦
            let (w₁, membership) = members_of unit w in
            let t = visit first unit membership all_ready_nums (mark_processed unit st) w₁ in
            elim t.flow [
              | continues ↦
                  drain fuel false all_ready_nums (remaining_after unit remaining) t.state t.world
              | _ ↦ t
            ]
      ]
