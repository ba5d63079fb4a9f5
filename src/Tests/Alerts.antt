-- ===== src/Tests/Alerts.antt =====
-- The launch gate and the escalation on concrete answers.
use baton_harness.Base.{
  ◌≡◌, refl, ◌↔◌, true, false, none, some, [], ◌∷◌, arith, string_eq, nat_eq, pos,
}
use baton_harness.World.{warn, critical}
use baton_harness.LaunchGate.{
  should_launch_worker, match_, drift, status, non_git, path, probed, launch, refuse,
}
use baton_harness.LaunchGate.FailClosed.{Cleared, should_launch_worker-Cleared}
use baton_harness.Escalation.{alert}
use baton_harness.Escalation.Durable.{has_record, alert-has_record}

should_launch_worker-Cleared_example :
    ((should_launch_worker (status drift) (path "/repo") (λ p. probed true) (some "u")).0 ≡ launch)
    ↔ Cleared (status drift) (path "/repo") (λ p. probed true)
should_launch_worker-Cleared_example =
    should_launch_worker-Cleared (status drift) (path "/repo") (λ p. probed true) (some "u")

refused :
    should_launch_worker (status match_) non_git (λ p. probed true) (some "u") ≡ (refuse, "u" ∷ [])
unfolding should_launch_worker
refused = refl

alert-has_record_example :
    let (durable, effects) =
      alert
        (λ s t. t)
        "[CRITICAL] "
        (λ n body. true)
        "https://hook"
        true
        (some (pos 7))
        "stuck"
        critical in
    durable ≡ has_record effects
alert-has_record_example =
    alert-has_record (λ s t. t) "[CRITICAL] " (λ n body. true) "https://hook" true (some (pos 7))
      "stuck" critical (λ e. ground arith)

no_target : (alert (λ s t. t) "" (λ n body. true) "" false none "stuck" warn).0 ≡ false
unfolding alert
no_target = refl
