-- ===== src/Escalation/Durable.antt =====
-- What the answer of an alert of src/baton_harness/chain/escalation.py says.
use baton_harness.Base.{
  String, ◌≡◌, refl, ◌≢◌, Bool, false, ◌||◌, Option, none, some, List, [], ◌∷◌, ◌++◌, arith,
  string_eq, nat_eq, ℤ,
}
use baton_harness.World.{Severity, info, warn, critical}
use baton_harness.Escalation.{
  is_no_target, Comments, write_record, notifications, escalate, alert, Effect, log_entry, comment,
  notify,
}

-- Some comment among the effects was accepted.
abbrev pub has_record : List Effect → Bool
has_record [] = false
has_record (comment issue body accepted ∷ effects) = accepted || has_record effects
has_record (_ ∷ effects) = has_record effects

has_record-append : (xs ys : List Effect) → has_record (xs ++ ys) ≡ (has_record xs || has_record ys)
has_record-append [] ys = refl
has_record-append (comment issue body accepted ∷ xs) ys = ground (arith, has_record-append xs ys)
has_record-append (log_entry severity detail ∷ xs) ys = has_record-append xs ys
has_record-append (notify url text ∷ xs) ys = has_record-append xs ys

has_record-write_record :
    (accepts : Comments) (issue : Option ℤ) (summary : String)
    → (write_record accepts issue summary).0 ≡ has_record (write_record accepts issue summary).1
unfolding write_record is_no_target
has_record-write_record accepts none summary = refl
has_record-write_record accepts (some n) summary = ground arith

has_record-escalate :
    (accepts : Comments) (url : String) (issue : Option ℤ) (summary : String)
    → (escalate accepts url issue summary).0 ≡ has_record (escalate accepts url issue summary).1
unfolding escalate notifications
has_record-escalate accepts url issue summary = ground (
  arith,
  has_record-write_record accepts issue summary,
  has_record-append (write_record accepts issue summary).1 (notifications url summary),
)

-- An alert above "info" answers true exactly if a comment was accepted: neither the run log nor the
-- notification makes it durable.
pub alert-has_record :
    (concat : String → String → String) (prefix : String) (accepts : Comments)
    (webhook_url : String) (has_runlog : Bool) (issue : Option ℤ) (summary : String)
    (severity : Severity)
    → severity ≢ info
    → let (durable, effects) =
        alert concat prefix accepts webhook_url has_runlog issue summary severity in
      durable ≡ has_record effects
unfolding alert
alert-has_record concat prefix accepts webhook_url has_runlog issue summary info h = absurd (h refl)
alert-has_record concat prefix accepts webhook_url has_runlog issue summary warn h =
    ground (arith, has_record-escalate accepts webhook_url issue summary)
alert-has_record concat prefix accepts webhook_url has_runlog issue summary critical h =
    ground (arith, has_record-escalate accepts webhook_url issue (concat prefix summary))
