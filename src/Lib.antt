-- ===== src/Lib.antt =====
-- A verification library for baton-harness, the daemon that lets a coding agent work off the issues
-- of a repository: it orders the issues of a work unit by their dependencies, runs a worker on each,
-- merges what CI passes into the unit's feature branch, parks what fails, and recovers from a
-- restart out of what git and GitHub still show.
--
-- Which file models which part (paths from the repository's root):
--   Dag            src/baton_harness/chain/dag.py, `build_dag`
--   Scheduler      src/baton_harness/chain/scheduler.py, `IssueScheduler`, over Scheduler/Sorter,
--                  which follows the documented behaviour of graphlib's `TopologicalSorter`
--   Labels         src/baton_harness/chain/labels.py
--   World          src/baton_harness/chain/label_ops.py, and `_label_edit` of
--                  src/baton_harness/chain/daemon/__init__.py
--   FailureTally   src/baton_harness/chain/failure_tally.py
--   Redispatch     src/baton_harness/chain/redispatch.py
--   Heartbeat      src/baton_harness/chain/heartbeat.py
--   Park           src/baton_harness/chain/daemon/park.py, which drives Scheduler, FailureTally,
--                  Heartbeat and World together
--   CiGate         the verdict, the diagnostic and the polling loop of
--                  src/baton_harness/chain/merge.py
--   Merge          `merge_issue_branch` and the batch of the same file, behind the CI gate
--   Recovery       src/baton_harness/chain/recovery.py, `reconstruct`, and the sweep in Recovery/Sweep
--   AfterRun       src/baton_harness/after_run.py, the hook behind a worker's run
--   LaunchGate     src/baton_harness/chain/daemon/launch_gate.py, the decision to launch a worker
--   GhApi          src/baton_harness/chain/daemon/gh_api_helpers.py, what the daemon asks GitHub
--   WorkUnit       src/baton_harness/chain/daemon/work_unit.py, the loop that drives a work unit over
--                  Scheduler, Park, Merge, Recovery, Redispatch and LaunchGate: `_run_ci_gate` in
--                  WorkUnit/MergeGate, the turn of an issue in WorkUnit/Recovered, Dispatch and
--                  Afterwards, the rounds in WorkUnit/Loop, start and end in WorkUnit/Whole
--   Poll           src/baton_harness/chain/daemon/poll.py, one tick of the loop over WorkUnit: the choice of a
--                  unit in Poll/Select, the drain in Poll/Drain, orphans and the whole tick in Poll/Scan
--   PrPolicy       src/baton_harness/pr_policy.py, the policy for pull requests, from the event's file to
--                  the exit code
--   Escalation     src/baton_harness/chain/escalation.py
--   Json, Base     the JSON values of the two tallies, and the shared types and lemmas
--   Tests          runs of the models on concrete inputs
-- The modules below a part hold its proofs. Stateful code takes and returns its state; what git,
-- GitHub, the clock and the file system answer is a parameter, a record of functions over the state
-- of an outside world. A theorem that depends on how GitHub keeps labels takes that as a record of
-- laws, which a test instantiates.
--
-- Sets are lists read by membership and dicts are association lists in insertion order. Issue
-- numbers, times and counters that the source keeps non-negative are natural numbers; the tallies'
-- counts and ticks are integers, as a file may hold any. Exceptions are values of a result type.
--
-- Fuel: the loop of `mark_parked` runs on the number of the graph's edges and two rounds more, which
-- `mem-mark_parked` shows to be enough. The polling loop of `evaluate_ci` runs on a number of
-- rounds; `evaluate_ci-ends` says how many are enough. The loop of a work unit runs on a round more
-- than the unit has members, which `loop-EndsWell` shows to be enough, and the drain
-- of a tick on a round more than there are ready issues, which `poll_and_run-flow` shows to be enough.
--
-- Not modelled: the start-up and the shutdown around the ticks of
-- src/baton_harness/chain/daemon/poll.py, the query of the Actions API, credentials and tokens, the
-- doctor, the ruleset and scenario tools, the text of log lines and alerts, a write of the daemon between
-- two of a heartbeat tick's reads of the shared record (a tick reads it in one piece), and
-- src/baton_harness/vendor, a copy of another project. Atomicity of a file's replacement is taken from the operating system: a write comes
-- through whole or not at all.
--
pub mod Base
pub mod Dag
pub mod Scheduler
pub mod Labels
pub mod Json
pub mod FailureTally
pub mod Redispatch
pub mod Heartbeat
pub mod World
pub mod Park
pub mod CiGate
pub mod Tests
pub mod Merge
pub mod Recovery
pub mod AfterRun
pub mod LaunchGate
pub mod Escalation
pub mod GhApi
pub mod WorkUnit
pub mod Poll
pub mod PrPolicy
