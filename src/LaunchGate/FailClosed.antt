-- ===== src/LaunchGate/FailClosed.antt =====
-- When the gate of src/baton_harness/chain/daemon/launch_gate.py opens.
use baton_harness.Base.{
  String, ◌≡◌, refl, ◌≢◌, ◌↔◌, true, false, Option, none, some, arith, string_eq, nat_eq,
}
use baton_harness.LaunchGate.{
  refusal, decide, should_launch_worker, RulesetStatus, Comparison, RepoRoot, Probe, match_, error,
  status, timed_out, other_exception, no_root, non_git, path, probe_raised, probed, launch, refuse,
}

-- The ground on which a worker may be launched: in a git worktree a push that the probe saw denied, and
-- where no root is set a matching ruleset.
abbrev pub Cleared : Comparison → RepoRoot → (String → Probe) → Type 0
Cleared comparison no_root probe = comparison ≡ status match_
Cleared comparison non_git probe = ⊥
Cleared comparison (path p) probe = (probe p ≡ probed true) × (comparison ≢ other_exception)

refusal-refuse : (url : Option String) → (refusal url).0 ≡ refuse
unfolding refusal
refusal-refuse none = refl
refusal-refuse (some u) = refl

decide-launch :
    (s : RulesetStatus) (p : Probe) (root : String) (url : Option String)
    → ((decide s (path root) p url).0 ≡ launch) ↔ (p ≡ probed true)
unfolding decide
decide-launch s probe_raised root url = ground (arith, refusal-refuse url)
decide-launch s (probed true) root url = ground (arith, refusal-refuse url)
decide-launch s (probed false) root url = ground (arith, refusal-refuse url)

-- The gate launches exactly on its ground: in a git worktree only the push probe counts, whatever the
-- comparator says, and with no root set only a matching ruleset does; a root that is no git worktree is
-- always refused.
pub should_launch_worker-Cleared :
    (comparison : Comparison) (root : RepoRoot) (probe : String → Probe) (url : Option String)
    → ((should_launch_worker comparison root probe url).0 ≡ launch) ↔ Cleared comparison root probe
unfolding should_launch_worker
should_launch_worker-Cleared other_exception no_root probe url = ground arith
should_launch_worker-Cleared other_exception non_git probe url = ground arith
should_launch_worker-Cleared other_exception (path p) probe url = ground arith
should_launch_worker-Cleared timed_out no_root probe url = ground (arith, refusal-refuse url)
should_launch_worker-Cleared timed_out non_git probe url = ground (arith, refusal-refuse url)
should_launch_worker-Cleared timed_out (path p) probe url =
    ground (arith, decide-launch error (probe p) p url)
should_launch_worker-Cleared (status match_) no_root probe url = ground arith
should_launch_worker-Cleared (status s) no_root probe url = ground (arith, refusal-refuse url)
should_launch_worker-Cleared (status s) non_git probe url = ground (arith, refusal-refuse url)
should_launch_worker-Cleared (status s) (path p) probe url =
    ground (arith, decide-launch s (probe p) p url)
