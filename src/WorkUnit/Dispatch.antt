-- ===== src/WorkUnit/Dispatch.antt =====
-- The dispatch of an issue: the branches of `_run_work_unit` in src/baton_harness/chain/daemon/work_unit.py
-- up to the worker's return, and `_launch_one_issue` of src/baton_harness/chain/daemon/launch_gate.py.
use baton_harness.Base.{
  ℕ, String, Bool, true, not, ◌&&◌, Option, none, some, List, [], ◌∷◌, ◌++◌, if◌then◌else◌,
  string_eq, nat_eq, ◌==◌, filter, any, concat, contains,
}
use baton_harness.Labels.{agent_ready, blocked, agent_failed, agent_in_progress}
use baton_harness.World.{
  reported, fetch_daemon_labels, warn, critical, block, debug, escalation, pickup,
}
use baton_harness.Heartbeat
use baton_harness.Heartbeat.{LivenessState}
use baton_harness.LaunchGate.{
  status_of, should_launch_worker, RepoRoot, Decision, non_git, path, launch, refuse, raised,
}
use baton_harness.GhApi.{Issue}
use baton_harness.Park.{charged, uncharged, state_intact}
use baton_harness.WorkUnit.{
  with_report, with_liveness, park_turn, edit_labels_turn, mark_started, Services, Settings,
  UnitState, Turn, worker_raised, worker_returned, raises,
}
use baton_harness.WorkUnit.Afterwards.{after_worker}

-- `_DISPATCH_EXCLUDE_LABELS`
abbrev pub dispatch_exclude_labels : List String
dispatch_exclude_labels = agent_failed ∷ blocked ∷ []

-- The environment's BH_GITHUB_APP_ID, as `_resolve_app_id` takes it.
unfoldable pub resolve_app_id : Option String → Option String
resolve_app_id none = none
resolve_app_id (some app_id) = if app_id == "" then none else some app_id

-- What `_launch_one_issue` comes to: None, an exception with its text, or the worker's result.
pub data Launch : Type 0 where
  not_launched : Launch
  launch_raised launch_returned : String → Launch

-- The progress callback over the turns of a worker.
unfoldable pub note_turns : List ℕ → Option LivenessState → Option LivenessState
note_turns times none = none
note_turns [] (some l) = some l
note_turns (t ∷ times) (some l) = note_turns times (some (Heartbeat.note_progress t l))

module _ {W : Type 0} (services : Services W) (settings : Settings) where
  open services use {
    gh, texts, renderings, fetch_issue, checkout_feature_branch, record_cut_point, has_git_dir,
    compare_rulesets, probe_push, post_slack_alert, run_worker,
  }

  unfoldable pub post_all : List String → W → W
  post_all [] w = w
  post_all (url ∷ urls) w = post_all urls (post_slack_alert url w)

  -- `_should_launch_worker` on the answers of the world. The push is probed in a git worktree once the
  -- comparator has come back.
  unfoldable pub ask_gate : Option String → W → W × Decision
  unfolding post_all
  ask_gate url w =
      let root : RepoRoot = if has_git_dir w then path settings.repo_root else non_git in
      let (w₁, comparison) = compare_rulesets w in
      let (decision, alerts) =
        should_launch_worker comparison root (λ p. (probe_push p w₁).1) url in
      let w₂ : W = elim (status_of comparison) [
        | none ↦ w₁
        | some compared ↦ elim root [ path p ↦ (probe_push p w₁).0 | _ ↦ w₁ ]
      ] in
      (post_all alerts w₂, decision)

  unfoldable pub launch_worker :
      Issue → (base_branch : String) → UnitState → W → W × UnitState × Launch
  unfolding note_turns
  launch_worker issue base_branch s w =
      let s₁ : UnitState =
        with_report (reported (pickup issue.number issue.title) s.context.report) s in
      let (w', reply) = run_worker issue base_branch settings.branch_name w in
      let s₂ : UnitState =
        record (with_liveness (note_turns reply.progress s₁.context.liveness_state) s₁) {
          dispatched = s.dispatched ++ issue.number ∷ [];
        } in
      elim reply.result [
        | worker_raised text ↦ (w', s₂, launch_raised text)
        | worker_returned text ↦ (w', s₂, launch_returned text)
      ]

  unfoldable pub refuse_launch : ℕ → UnitState → W → W × UnitState × Launch
  refuse_launch issue_number s w =
      let detail : String =
        "preflight refused — branch protection missing or misconfigured; worker not launched" in
      let (w₁, s₁) =
        edit_labels_turn services issue_number (agent_ready ∷ []) (agent_in_progress ∷ []) s w in
      let w₂ = (gh.alert issue_number critical block detail w₁).0 in
      (
        w₂,
        with_report (reported (escalation issue_number block critical detail) s₁.context.report) s₁,
        not_launched,
      )

  unfoldable pub launch_one_issue :
      Issue → (base_branch : String) → Option String → UnitState → W → W × UnitState × Launch
  unfolding ask_gate launch_worker refuse_launch
  launch_one_issue issue base_branch url s w =
      let (w', decision) = ask_gate url w in
      elim decision [
        | raised ↦ (w', s, launch_raised renderings.comparison_error)
        | refuse ↦ refuse_launch issue.number s w'
        | launch ↦ launch_worker issue base_branch s w'
      ]

  abbrev issue_text : ℕ → List String → String
  issue_text n rest = concat ("Issue #" ∷ texts.str_of n ∷ rest)

  unfoldable pub after_launch : ℕ → Launch → UnitState → W → Turn W
  unfolding after_worker
  after_launch n not_launched s w =
      park_turn services state_intact "preflight refused" none warn debug n s w
  after_launch n (launch_raised text) s w =
      park_turn services charged (concat ("worker exception: " ∷ text ∷ []))
        (some (issue_text n (" worker raised an exception: " ∷ text ∷ []))) warn debug n s w
  after_launch n (launch_returned text) s w = after_worker services settings n text s w

  abbrev observability_text : Option (Option String) → String
  observability_text none = "missing"
  observability_text (some url) = "set"

  -- Without an App id or `obs` no launch is tried.
  unfoldable pub dispatch_checked :
      ℕ
      → Issue
      → (base_branch : String) → (app_id : Option String) → (observability : Option (Option String))
      → UnitState
      → W
      → Turn W
  unfolding launch_one_issue after_launch
  dispatch_checked n issue base_branch (some app_id) (some url) s w =
      let (w', s', result) = launch_one_issue issue base_branch url s w in
      after_launch n result s' w'
  dispatch_checked n issue base_branch app_id observability s w =
      park_turn services uncharged "preflight refused"
        (some (
          issue_text n (
            " preflight cannot run: app_id="
            ∷ renderings.app_id_text app_id
            ∷ ", observability="
            ∷ observability_text observability
            ∷ "."
            ∷ [])))
        critical debug n s w

  -- From the fetched issue on.
  unfoldable pub dispatch_fetched : ℕ → Issue → (base_branch : String) → UnitState → W → Turn W
  unfolding resolve_app_id dispatch_checked
  dispatch_fetched n issue base_branch s w =
      dispatch_checked n issue base_branch (resolve_app_id settings.app_id) settings.observability s
        w

  -- From the checked-out branch on.
  unfoldable pub dispatch_from : ℕ → (cut_point : String) → UnitState → W → Turn W
  unfolding dispatch_fetched
  dispatch_from n cut_point s w =
      let (w₁, s₁) = edit_labels_turn services n (agent_in_progress ∷ []) (agent_ready ∷ []) s w in
      let s₂ : UnitState = mark_started services settings n true s₁ w₁ in
      let (w₂, fetched) = fetch_issue n w₁ in
      elim fetched [
        | none ↦
            park_turn services uncharged "issue fetch failed"
              (some (issue_text n (" could not be fetched; worker not dispatched." ∷ []))) warn
              debug n s₂ w₂
        | some issue ↦ dispatch_fetched n issue cut_point s₂ w₂
      ]

  -- The two git commands raise where they fail.
  unfoldable pub prepare_dispatch : ℕ → UnitState → W → Turn W
  unfolding dispatch_from
  prepare_dispatch n s w =
      let (w₁, checked_out) = checkout_feature_branch settings.slug w in
      let (w₂, cut_point) = record_cut_point settings.slug w₁ in
      if not checked_out then record { world = w₁; unit = s; flow = raises } else elim cut_point [
        | none ↦ record { world = w₂; unit = s; flow = raises }
        | some base ↦ dispatch_from n base s w₂
      ]

  -- The issue acquired an exclude label and is still "agent-ready".
  abbrev pub is_excluded : List String → Bool
  is_excluded labels = any (contains labels) dispatch_exclude_labels && contains labels agent_ready

  unfoldable pub dispatch : ℕ → UnitState → W → Turn W
  unfolding prepare_dispatch
  dispatch n s w =
      let (w', labels) = fetch_daemon_labels gh n w in
      elim labels [
        | none ↦
            park_turn services uncharged "label fetch failed pre-dispatch"
              (some (
                issue_text n
                  (" labels unreadable before dispatch; skipping this poll cycle." ∷ [])))
              critical block n s w'
        | some pre_labels ↦
            if is_excluded pre_labels
            then park_turn services state_intact "exclude label race on final pre-dispatch fetch"
                (some (
                  issue_text n (
                    " acquired an exclude label ("
                    ∷ renderings.labels_text (filter (contains pre_labels) dispatch_exclude_labels)
                    ∷ ") between the tick-start re-check and the final pre-dispatch fetch; skipping this poll"
                    ∷ " cycle (pre-dispatch race, CodeRabbit #363)."
                    ∷ [])))
                critical block n s w'
            else prepare_dispatch n s w'
      ]
