-- ===== src/World.antt =====
-- What the daemon's code reaches through `gh`, `git` and its other services: the answers are those
-- of an outside world with a state of its own, which is a parameter of every definition that uses
-- it. The functions of src/baton_harness/chain/label_ops.py and `_label_edit` of
-- src/baton_harness/chain/daemon/__init__.py stand over it.
use baton_harness.Base.{
  ℕ, String, Bool, not, ◌&&◌, Option, none, some, List, [], ◌∷◌, ◌++◌, map, if◌then◌else◌,
  string_eq, nat_eq, ◌==◌, any, remove, add,
}
use baton_harness.Labels.{blocked}

pub data Severity : Type 0 where
  info warn critical : Severity

pub data Kind : Type 0 where
  block debug : Kind

-- The answer to `gh issue view --json labels`: a non-zero exit, an output that cannot be parsed, or
-- the names of the labels.
pub data LabelReply : Type 0 where
  exit_failed garbled : LabelReply
  names : List String → LabelReply

pub record Github (W : Type 0) : Type 0 where
  -- str.lower()
  pub lower : String → String
  -- str.casefold()
  pub casefold : String → String
  pub view_labels : ℕ → W → W × LabelReply
  -- gh issue edit: was the exit status zero?
  pub edit_labels : ℕ → (add remove : List String) → W → W × Bool
  -- escalation.alert: was the durable record written?
  pub alert : ℕ → Severity → Kind → String → W → W × Bool

-- The calls made on the session report, in order.
pub data ReportEntry : Type 0 where
  label_edit : ℕ → (added removed : List String) → ReportEntry
  escalation : ℕ → Kind → Severity → String → ReportEntry
  pickup : ℕ → (title : String) → ReportEntry
  merge_gate : ℕ → (outcome : String) → (merged_sha : Option String) → ReportEntry
  pull_request : ℕ → (url : String) → ReportEntry
  skipped_blocked : ℕ → (title : String) → ReportEntry
  outcomes : (merged_issues : List ℕ) → (parked_reasons : List (ℕ × String)) → ReportEntry

-- A call on the report, where there is one.
abbrev pub reported : ReportEntry → Option (List ReportEntry) → Option (List ReportEntry)
reported entry none = none
reported entry (some entries) = some (entries ++ entry ∷ [])

module _ {W : Type 0} (gh : Github W) where
  open gh use {lower, casefold, view_labels, edit_labels}

  unfoldable pub daemon_labels : LabelReply → Option (List String)
  daemon_labels exit_failed = none
  daemon_labels garbled = none
  daemon_labels (names ls) = some (map lower ls)

  -- Lower-case label names, `none` if they could not be read.
  unfoldable pub fetch_daemon_labels : ℕ → W → W × Option (List String)
  unfolding daemon_labels
  fetch_daemon_labels issue w = let (w', reply) = view_labels issue w in (w', daemon_labels reply)

  unfoldable pub recovery_labels : LabelReply → List String
  recovery_labels exit_failed = []
  recovery_labels garbled = []
  recovery_labels (names ls) = map lower ls

  -- The same for recovery, where a failed fetch reads as no labels.
  unfoldable pub fetch_recovery_labels : ℕ → W → W × List String
  unfolding recovery_labels
  fetch_recovery_labels issue w =
      let (w', reply) = view_labels issue w in (w', recovery_labels reply)

  -- A change that touches the label "blocked" is not reported.
  unfoldable pub label_edit_call :
      ℕ
      → (add remove : List String) → Option (List ReportEntry)
      → W
      → W × (Option (List ReportEntry) × Bool)
  label_edit_call issue add remove report w =
      let (w', succeeded) = edit_labels issue add remove w in
      let report' : Option (List ReportEntry) = elim report [
        | none ↦ none
        | some entries ↦
            if succeeded && not (any (λ l. casefold l == blocked) (add ++ remove))
            then some (entries ++ label_edit issue add remove ∷ [])
            else some entries
      ] in
      (w', (report', succeeded))
