-- ===== src/Escalation.antt =====
-- src/baton_harness/chain/escalation.py: an alert by its severity, and the escalation to a durable comment
-- on the issue with a notification beside it. The text of the log lines is left out.
pub mod Durable
use baton_harness.Base.{
  String, Bool, true, false, Option, none, some, List, [], ◌∷◌, ◌++◌, if◌then◌else◌, string_eq,
  nat_eq, ◌==◌, leb_ℤ, ℤ, pos,
}
use baton_harness.World.{Severity, info, warn, critical}

-- What the module hands out, in order: an entry of the run log, a comment with whether `gh` accepted
-- it, and a notification. A failed notification is swallowed.
pub data Effect : Type 0 where
  log_entry : Severity → (detail : String) → Effect
  comment : (issue : ℤ) → (body : String) → (accepted : Bool) → Effect
  notify : (url text : String) → Effect

-- issue is None or issue <= 0
unfoldable pub is_no_target : Option ℤ → Bool
is_no_target none = true
is_no_target (some issue) = leb_ℤ issue (pos 0)

-- gh issue comment: does it succeed on this issue, with this body?
abbrev pub Comments : Type 0
Comments = ℤ → String → Bool

-- The durable part: was the record written, and the comment made for it.
unfoldable pub write_record : Comments → Option ℤ → String → Bool × List Effect
unfolding is_no_target
write_record accepts issue summary = if is_no_target issue then (false, []) else elim issue [
  | none ↦ (false, [])
  | some n ↦ (accepts n summary, comment n summary (accepts n summary) ∷ [])
]

-- An empty BH_SLACK_WEBHOOK_URL counts as none.
unfoldable pub notifications : (webhook_url text : String) → List Effect
notifications webhook_url text = if webhook_url == "" then [] else notify webhook_url text ∷ []

unfoldable pub escalate :
    Comments → (webhook_url : String) → Option ℤ → (summary : String) → Bool × List Effect
unfolding write_record notifications
escalate accepts webhook_url issue summary =
    let (durable_landed, effects) = write_record accepts issue summary in
    (durable_landed, effects ++ notifications webhook_url summary)

-- `concat` is Python's `+` on texts, used for the prefix of a critical alert.
unfoldable pub alert :
    (concat : String → String → String)
    → (prefix : String) → Comments
    → (webhook_url : String) → (has_runlog : Bool) → Option ℤ
    → (summary : String) → Severity
    → Bool × List Effect
unfolding escalate
alert concat prefix accepts webhook_url has_runlog issue summary severity =
    let logged : List Effect = if has_runlog then log_entry severity summary ∷ [] else [] in
    elim severity [
      | info ↦ (true, logged)
      | warn ↦
          let (durable, effects) = escalate accepts webhook_url issue summary in
          (durable, logged ++ effects)
      | critical ↦
          let (durable, effects) = escalate accepts webhook_url issue (concat prefix summary) in
          (durable, logged ++ effects)
    ]
