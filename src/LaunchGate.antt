-- ===== src/LaunchGate.antt =====
-- src/baton_harness/chain/daemon/launch_gate.py, `_should_launch_worker`: may a worker be launched on this
-- issue? The log lines and the wording of the alert are left out.
pub mod FailClosed
use baton_harness.Base.{
  String, Bool, true, false, Option, none, some, List, [], ◌∷◌, if◌then◌else◌, string_eq, nat_eq,
}

pub data RulesetStatus : Type 0 where
  match_ drift absent error not_provisioned : RulesetStatus

-- What `check_ruleset_signals` comes to: a result, a TimeoutExpired, or another exception.
pub data Comparison : Type 0 where
  status : RulesetStatus → Comparison
  timed_out other_exception : Comparison

-- `_active_probe_repo_root`: none, the sentinel of a root that is no git worktree, or a path.
pub data RepoRoot : Type 0 where
  no_root non_git : RepoRoot
  path : String → RepoRoot

-- What `_probe_worker_push_denied` comes to: an exception, or whether the push was denied.
pub data Probe : Type 0 where
  probe_raised : Probe
  probed : (denied : Bool) → Probe

pub data Decision : Type 0 where
  launch refuse raised : Decision

-- The alerts handed to `post_slack_alert`, each with the address.
abbrev pub Alerts : Type 0
Alerts = List String

abbrev pub denied_of : Probe → Bool
denied_of probe_raised = false
denied_of (probed denied) = denied

-- The comparator's result; a timeout degrades to ERROR, `none` is another exception.
unfoldable pub status_of : Comparison → Option RulesetStatus
status_of (status s) = some s
status_of timed_out = some error
status_of other_exception = none

abbrev pub is_match : RulesetStatus → Bool
is_match match_ = true
is_match _ = false

-- A refusal posts an alert where an address is configured, whatever the post comes to.
unfoldable pub refusal : (heartbeat_ping_url : Option String) → Decision × Alerts
refusal none = (refuse, [])
refusal (some url) = (refuse, url ∷ [])

-- The steps behind the comparator.
unfoldable pub decide : RulesetStatus → RepoRoot → Probe → Option String → Decision × Alerts
unfolding refusal
decide s non_git probe url = refusal url
decide s (path root) probe url = if denied_of probe then (launch, []) else refusal url
decide s no_root probe url = if is_match s then (launch, []) else refusal url

unfoldable pub should_launch_worker :
    Comparison → RepoRoot → (String → Probe) → Option String → Decision × Alerts
unfolding status_of decide
should_launch_worker comparison root probe url = elim (status_of comparison) [
  | none ↦ (raised, [])
  | some s ↦ decide s root (elim root [ path p ↦ probe p | _ ↦ probe_raised ]) url
]
