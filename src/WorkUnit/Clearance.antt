-- ===== src/WorkUnit/Clearance.antt =====
-- The grounds on which a turn of the loop of src/baton_harness/chain/daemon/work_unit.py hands an issue to a
-- worker.
use baton_harness.Base.{
  ℕ, String, ◌≡◌, refl, ◌∙◌, ◌≢◌, ◌⊎◌, inl, inr, Bool, true, false, Option, none, some, List, [],
  ◌∷◌, ◌++◌, arith, if◌then◌else◌, Bool-cases, Option-cases, string_eq, nat_eq, contains, ◌∉◌,
}
use baton_harness.Labels.{agent_ready, blocked, agent_failed, agent_in_progress}
use baton_harness.Scheduler.{mark_done}
use baton_harness.World.{fetch_daemon_labels}
use baton_harness.Recovery.{RecoveryResult}
use baton_harness.LaunchGate.{
  denied_of, status_of, refusal, decide, should_launch_worker, Comparison, Probe, status, timed_out,
  other_exception, non_git, path, probe_raised, probed, launch,
}
use baton_harness.GhApi.{Issue}
use baton_harness.WorkUnit.{
  park_turn, edit_labels_turn, mark_started, Services, Settings, UnitState,
}
use baton_harness.WorkUnit.Recovered.{
  recovered_done, recovered_parked, redispatch_breach, park_redispatch_loop, clear_orphan,
}
use baton_harness.WorkUnit.Dispatch.{
  resolve_app_id, ask_gate, launch_worker, refuse_launch, launch_one_issue, dispatch_checked,
  dispatch_fetched, dispatch_from, prepare_dispatch, is_excluded, dispatch,
}
use baton_harness.WorkUnit.Loop.{redispatch_turn, turn}
use baton_harness.WorkUnit.Turns.{decision_cases}
use baton_harness.WorkUnit.Launches.{reenter_ci_gate-dispatched, after_launch-dispatched}

-- The labels of the last look before a dispatch: none of those that exclude an issue, or no "agent-ready".
abbrev pub LetsThrough : List String → Type 0
LetsThrough labels = ((agent_failed ∉ labels) × (blocked ∉ labels)) ⊎ (agent_ready ∉ labels)

-- A launch of issue `n` by a dispatch that begins in the state `s` and the world `w`. The worlds are those
-- that the steps of the dispatch leave, one behind the other: the labels are read in `w`, the branch is
-- checked out, its cut point recorded and the labels edited, the issue is fetched, the worktree and the
-- ruleset are looked at, and the push is probed.
abbrev pub Launched :
    {W : Type 0} → Services W → Settings → ℕ → UnitState → W → (after : List ℕ) → Type 0
Launched services settings n s w after =
    let read = fetch_daemon_labels services.gh n w in
    let checked_out = services.checkout_feature_branch settings.slug read.0 in
    let cut = services.record_cut_point settings.slug checked_out.0 in
    let edited = edit_labels_turn services n (agent_in_progress ∷ []) (agent_ready ∷ []) s cut.0 in
    let got = services.fetch_issue n edited.0 in
    let compared = services.compare_rulesets got.0 in
    (labels : List String) × (issue : Issue) × ((read.1 ≡ some labels)
      × LetsThrough labels
      × (got.1 ≡ some issue)
      × (settings.observability ≢ none)
      × (resolve_app_id settings.app_id ≢ none)
      × (services.has_git_dir got.0 ≡ true)
      × ((services.probe_push settings.repo_root compared.0).1 ≡ probed true)
      × (after ≡ s.dispatched ++ issue.number ∷ []))

not_excluded :
    {W : Type 0} (services : Services W) (settings : Settings) (labels : List String)
    → is_excluded services settings labels ≡ false
    → LetsThrough labels
not_excluded services settings labels e = ground (arith, e)

probe_cases : (p : Probe) → (p ≡ probed true) ⊎ (denied_of p ≡ false)
probe_cases probe_raised = inr refl
probe_cases (probed true) = inl refl
probe_cases (probed false) = inr refl

url_cases : (url : Option String) → (refusal url).0 ≢ launch
unfolding refusal
url_cases none e = cc
url_cases (some url) e = cc

should_launch_worker-launch :
    (c : Comparison) (git : Bool) (root : String) (probe : String → Probe) (url : Option String)
    → (should_launch_worker c (if git then path root else non_git) probe url).0 ≡ launch
    → (git ≡ true) × (probe root ≡ probed true)
unfolding should_launch_worker status_of decide
should_launch_worker-launch (status s) false root probe url e = absurd (url_cases url e)
should_launch_worker-launch (status s) true root probe url e = elim (probe_cases (probe root)) [
  | inl denied ↦ (refl, denied)
  | inr other ↦ absurd (url_cases url (rw other at e))
]
should_launch_worker-launch timed_out false root probe url e = absurd (url_cases url e)
should_launch_worker-launch timed_out true root probe url e = elim (probe_cases (probe root)) [
  | inl denied ↦ (refl, denied)
  | inr other ↦ absurd (url_cases url (rw other at e))
]
should_launch_worker-launch other_exception git root probe url e = cc

module _ {W : Type 0} (services : Services W) (settings : Settings) where
  -- In a work unit the gate says "launch" only on a denied push in a git worktree.
  ask_gate-launch :
      (url : Option String) (w : W)
      → (ask_gate services settings url w).1 ≡ launch
      → (services.has_git_dir w ≡ true)
        × ((services.probe_push settings.repo_root (services.compare_rulesets w).0).1 ≡ probed true)
  unfolding ask_gate
  ask_gate-launch url w e =
      let (w₁, comparison) = services.compare_rulesets w in
      should_launch_worker-launch comparison (services.has_git_dir w) settings.repo_root
        (λ p. (services.probe_push p w₁).1) url e

  launch_one_issue-dispatched :
      (issue : Issue) (base : String) (url : Option String) (s : UnitState) (w : W)
      → let s' = (launch_one_issue services settings issue base url s w).1 in
        (s'.dispatched ≡ s.dispatched)
        ⊎ (((ask_gate services settings url w).1 ≡ launch)
            × (s'.dispatched ≡ s.dispatched ++ issue.number ∷ []))
  unfolding launch_one_issue refuse_launch launch_worker edit_labels_turn
  launch_one_issue-dispatched issue base url s w =
      elim (decision_cases (ask_gate services settings url w).1) [
        | inl e ↦ inr (e, ground (arith, e))
        | inr (inl e) ↦ inl (ground (arith, e))
        | inr (inr e) ↦ inl (ground (arith, e))
      ]

  dispatch_checked-dispatched :
      (n : ℕ) (issue : Issue) (base : String) (app_id : Option String)
      (observability : Option (Option String)) (s : UnitState) (w : W)
      → let t = dispatch_checked services settings n issue base app_id observability s w in
        (t.unit.dispatched ≡ s.dispatched)
        ⊎ ((observability ≢ none)
            × (app_id ≢ none)
            × (services.has_git_dir w ≡ true)
            × ((services.probe_push settings.repo_root (services.compare_rulesets w).0).1
                ≡ probed true)
            × (t.unit.dispatched ≡ s.dispatched ++ issue.number ∷ []))
  unfolding dispatch_checked park_turn
  dispatch_checked-dispatched n issue base none observability s w = inl refl
  dispatch_checked-dispatched n issue base (some id) none s w = inl refl
  dispatch_checked-dispatched n issue base (some id) (some url) s w =
      let (w', s', result) = launch_one_issue services settings issue base url s w in
      let kept = after_launch-dispatched services settings n result s' w' in
      elim (launch_one_issue-dispatched issue base url s w) [
        | inl same ↦ inl (kept ∙ same)
        | inr (go, is) ↦
            let (git, probe) = ask_gate-launch url w go in
            inr ((λ o. cc), (λ o. cc), git, probe, kept ∙ is)
      ]

  -- From the checked-out branch on, with labels that let the issue through.
  prepare_dispatch-dispatched :
      (n : ℕ) (labels : List String) (w₀ : W)
      → (fetch_daemon_labels services.gh n w₀).1 ≡ some labels
      → is_excluded services settings labels ≡ false
      → (s : UnitState)
      → let t = prepare_dispatch services settings n s (fetch_daemon_labels services.gh n w₀).0 in
        (t.unit.dispatched ≡ s.dispatched) ⊎ Launched services settings n s w₀ t.unit.dispatched
  unfolding prepare_dispatch dispatch_from dispatch_fetched edit_labels_turn mark_started park_turn
  prepare_dispatch-dispatched n labels w₀ read free s =
      let w = (fetch_daemon_labels services.gh n w₀).0 in
      let (w₁, checked_out) = services.checkout_feature_branch settings.slug w in
      let (w₂, cut_point) = services.record_cut_point settings.slug w₁ in
      let (w₃, s₃) = edit_labels_turn services n (agent_in_progress ∷ []) (agent_ready ∷ []) s w₂ in
      elim (Bool-cases checked_out) [
        | inr f ↦ rw (prepare_dispatch, f) (inl refl)
        | inl y ↦ elim (Option-cases cut_point) [
          | inl e ↦ rw (prepare_dispatch, y, e) (inl refl)
          | inr (base, e) ↦ elim (Option-cases (services.fetch_issue n w₃).1) [
            | inl u ↦ rw (prepare_dispatch, y, e, dispatch_from, u) (inl refl)
            | inr (issue, u) ↦
                rw (prepare_dispatch, y, e, dispatch_from, u)
                  (elim (dispatch_checked-dispatched n issue base (resolve_app_id settings.app_id)
                    settings.observability (mark_started services settings n true s₃ w₃)
                    (services.fetch_issue n w₃).0) [
                      | inl same ↦ inl same
                      | inr (o, a, git, probe, is) ↦ inr (
                        labels,
                        issue,
                        (
                          read,
                          not_excluded services settings labels free,
                          refl,
                          o,
                          a,
                          git,
                          probe,
                          is,
                        ),
                      )
                    ])
          ]
        ]
      ]

  dispatch-dispatched :
      (n : ℕ) (s : UnitState) (w : W)
      → let t = dispatch services settings n s w in
        (t.unit.dispatched ≡ s.dispatched) ⊎ Launched services settings n s w t.unit.dispatched
  unfolding dispatch park_turn
  dispatch-dispatched n s w =
      let (w₁, labels) = fetch_daemon_labels services.gh n w in
      elim (Option-cases labels) [
        | inl e ↦ rw (dispatch, e) (inl refl)
        | inr (pre, e) ↦ elim (Bool-cases (is_excluded services settings pre)) [
          | inl y ↦ rw (dispatch, e, y) (inl refl)
          | inr f ↦
              let prepared = prepare_dispatch-dispatched n pre w e f s in
              rw (dispatch, e, f) (rw e at prepared)
        ]
      ]

  redispatch_breach-dispatched :
      (n : ℕ) (s : UnitState) (w : W)
      → (redispatch_breach services settings n s w).0.dispatched ≡ s.dispatched
  unfolding redispatch_breach
  redispatch_breach-dispatched n s w = elim (Option-cases s.tally) [
    | inl e ↦ ground (arith, e)
    | inr (t, e) ↦ ground (arith, e)
  ]

  -- Where the dispatch of a redispatched issue begins: behind the record of the try and the clearing of what
  -- the last one left.
  abbrev pub cleared : ℕ → UnitState → W → W × UnitState
  cleared n s w = clear_orphan services settings n (redispatch_breach services settings n s w).0 w

  redispatch_turn-dispatched :
      (recovered : RecoveryResult) (n : ℕ) (s : UnitState) (w : W)
      → let t = redispatch_turn services settings recovered n s w in
        let (w₁, s₁) = cleared n s w in
        (s₁.dispatched ≡ s.dispatched)
        × ((t.unit.dispatched ≡ s.dispatched)
            ⊎ Launched services settings n s₁ w₁ t.unit.dispatched)
  unfolding redispatch_turn park_redispatch_loop edit_labels_turn park_turn
  redispatch_turn-dispatched recovered n s w =
      let (s', breach) = redispatch_breach services settings n s w in
      let kept = redispatch_breach-dispatched n s w in
      let (w₁, s₁) = cleared n s w in
      elim (Bool-cases breach) [
        | inl y ↦ rw (redispatch_turn, y) (kept, inl kept)
        | inr f ↦
            rw (redispatch_turn, f)
              (elim (dispatch-dispatched n s₁ w₁) [
                | inl same ↦ (kept, inl (same ∙ kept))
                | inr l ↦ (kept, inr l)
              ])
      ]

  -- A turn either hands no issue to a worker or hands one, the turn's. It hands it over only if recovery has
  -- not placed the issue among the done, the parked or those that wait at the gate; its labels, read at the
  -- start of the dispatch, held neither "agent-failed" nor "blocked", or no "agent-ready"; the issue could be
  -- fetched behind the edit of its labels; there are an App id and `obs`; and behind that fetch the root was a
  -- git worktree and the push to the protected branch that was then probed was denied. The dispatch starts
  -- with the turn, or, for an issue to be redispatched, behind the clearing of what its last try left.
  pub turn-Launched :
      (recovered : RecoveryResult) (n : ℕ) (s : UnitState) (w : W)
      → let t = turn services settings recovered n s w in
        let (w₁, s₁) = if contains recovered.redispatch n then cleared n s w else (w, s) in
        (t.unit.dispatched ≡ s.dispatched)
        ⊎ ((n ∉ recovered.done)
            × (n ∉ recovered.parked_seed)
            × (n ∉ recovered.ci_gate_reentry)
            × (s₁.dispatched ≡ s.dispatched)
            × Launched services settings n s₁ w₁ t.unit.dispatched)
  unfolding turn recovered_parked recovered_done park_turn
  turn-Launched recovered n s w = elim (Bool-cases (contains recovered.done n)) [
    | inl d ↦ elim (Option-cases (mark_done s.context.sched n)) [
      | inl e ↦ rw (turn, d, recovered_done, e) (inl refl)
      | inr (sched, e) ↦ rw (turn, d, recovered_done, e) (inl refl)
    ]
    | inr d ↦ elim (Bool-cases (contains recovered.parked_seed n)) [
      | inl p ↦ rw (turn, d, p) (inl refl)
      | inr p ↦ elim (Bool-cases (contains recovered.ci_gate_reentry n)) [
        | inl c ↦ rw (turn, d, p, c) (inl (reenter_ci_gate-dispatched services settings n s w))
        | inr c ↦ elim (Bool-cases (contains recovered.redispatch n)) [
          | inl r ↦
              let (kept, out) = redispatch_turn-dispatched recovered n s w in
              elim out [
                | inl same ↦ rw (turn, d, p, c, r) (inl same)
                | inr l ↦ rw (turn, d, p, c, r) (inr (refl, refl, refl, kept, l))
              ]
          | inr r ↦ elim (dispatch-dispatched n s w) [
            | inl same ↦ rw (turn, d, p, c, r) (inl same)
            | inr l ↦ rw (turn, d, p, c, r) (inr (refl, refl, refl, refl, l))
          ]
        ]
      ]
    ]
  ]
