-- ===== src/Samples/Recoveries.antt =====
-- The theorems on recovery decisions at concrete failures.
use sacm_agent_runtime.Base.{
  String, [], arith, false, get, none, ok, refl, some, ◌-◌, ◌||◌, ◌∷◌, ◌≡◌, ◌≤◌,
}
use sacm_agent_runtime.Model.{
  Payload, RecoveryDecision, Run, RunStatus, RunStep, StepStatus, Store, debug, escalated,
  is_failed, put_step, run_key, scheduled,
}
use sacm_agent_runtime.RunService.Transitions.{get_step, require, require_step}
use sacm_agent_runtime.RunService.Recovery.{
  recorded, resolved, schedule_recovery, write_recovery, write_resolved,
}
use sacm_agent_runtime.RecoveryService.{decide, handle}
use sacm_agent_runtime.RecoveryService.Decision.{
  Settings, action_by_failure, blocks, decide_for_attempt, decision_of, repeated_identical_patch,
}
use sacm_agent_runtime.RecoveryService.Bounded.{
  asks_escalation, blocked, decide_for_attempt_iff, is_escalated,
}
use sacm_agent_runtime.RecoveryService.Handled.{
  Incident, attempts_of, scheduled_in, scheduled_in-le,
}
use sacm_agent_runtime.RecoveryService.Repeated.{same_patch_escalates}
use sacm_agent_runtime.Samples.{failure, later_env, run_with, sample_env, sample_store, step_with}

decide_for_attempt_iff_example :
    (d : RecoveryDecision) × (decide_for_attempt
        (record { max_attempts = some 3; minimum_confidence = 500000 })
        failure
        0
        []
        none
      ≡ ok d)
    × (d.attempt ≡ 1)
    × (is_escalated d.status ≡ (blocked 3 500000 failure 0 [] none || asks_escalation none))
    × (is_failed d.target_run_status ≡ is_escalated d.status)
decide_for_attempt_iff_example = decide_for_attempt_iff 3 500000 failure 0 [] none (omega arith)

abbrev settings : Settings
settings = record { max_attempts = some 3; minimum_confidence = 500000 }

-- a run whose step has failed
abbrev failing_run : Run
failing_run = run_with RunStatus.implementing

abbrev failing_store : Run → Store
failing_store run = sample_store (run ∷ []) (step_with StepStatus.failed ∷ []) []

-- the step fails before each call
abbrev incident : Incident
incident = record {
  env = sample_env;
  diagnose = λ text. failure;
  before = put_step (step_with StepStatus.failed);
  step_id = 5;
  failure = "1 test failed";
  requested = none;
}

scheduled_in-le_example :
    scheduled_in settings 1 (incident ∷ incident ∷ []) (failing_store failing_run)
    ≤ 3 - attempts_of 1 (failing_store failing_run)
scheduled_in-le_example =
    scheduled_in-le 3 500000 1 (incident ∷ incident ∷ []) (failing_store failing_run)
      ((λ s. omega arith), ((λ s. omega arith), tt))

abbrev first_decision : RecoveryDecision
first_decision =
    decision_of
      (record {
        exhausted = false;
        not_retryable = false;
        low_confidence = false;
        repeated = false;
      })
      debug 3 500000 1 failure

abbrev recovered_once : Run × RunStep × Payload × String
recovered_once =
    resolved sample_env scheduled
      (recorded sample_env failing_run (step_with StepStatus.failed) failure first_decision)
      (step_with StepStatus.failed) failure first_decision

abbrev failed_again : Store
failed_again = failing_store (record recovered_once.0 { status = RunStatus.testing })

same_patch_escalates_example :
    let (result, after) =
      handle later_env settings (λ text. failure) 1 5 "again" (some debug) failed_again in
    (step : RunStep) × (d : RecoveryDecision) × (run : Run) × (result ≡ ok (step, failure, d))
    × (d.status ≡ escalated)
    × (get run_key 1 after.runs ≡ some run)
    × (run.status ≡ RunStatus.failed)
unfolding handle decide decide_for_attempt blocks repeated_identical_patch action_by_failure
    decision_of schedule_recovery resolved require require_step get_step write_recovery
    write_resolved
same_patch_escalates_example =
    same_patch_escalates sample_env settings (λ text. failure) 1 5 "1 test failed" none
      (failing_store failing_run) (recovered_once.1, failure, first_decision) recovered_once.0
      later_env 3 500000 (λ text. failure) 5 "again" (some debug) failed_again
      (record recovered_once.0 { status = RunStatus.testing }) (step_with StepStatus.failed) [] 32
      31 refl refl refl refl refl refl refl refl refl refl (omega arith)
