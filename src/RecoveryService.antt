-- ===== src/RecoveryService.antt =====
-- sacm/core/recovery_service.py: what to do about a failed step. A confidence is counted in
-- millionths. The settings are those of the environment; `diagnose` is that of
-- sacm/core/diagnostic_service.py.
pub mod Decision
pub mod Bounded
pub mod Handled
pub mod Repeated
use sacm_agent_runtime.Base.{
  Exec, Key, Option, Result, String, bad_step_status, if◌then◌else◌, modify, pure, raise, some,
  ◌>>=◌, ◌>>◌,
}
use sacm_agent_runtime.Model.{
  Env, FailureReport, RecoveryAction, RecoveryDecision, Run, RunStep, Store, report, step_is_failed,
}
use sacm_agent_runtime.RunService.Transitions.{get_step, record_metric, require, require_step}
use sacm_agent_runtime.RunService.Recovery.{history_of, schedule_recovery}
use sacm_agent_runtime.RecoveryService.Decision.{Settings, decide_for_attempt}

module _ (env : Env) (settings : Settings) (diagnose : String → FailureReport) where
  -- `decide`: the attempts and the history are those that the run has recorded.
  unfoldable pub decide : Run → FailureReport → Option RecoveryAction → Result RecoveryDecision
  unfolding decide_for_attempt
  decide run failure requested =
      decide_for_attempt settings failure run.recovery_attempt_count (history_of run.recovery_state)
        requested

  abbrev from_result : {A : Type 0} → Result A → Exec Store A
  from_result r s = (r, s)

  -- `handle`; the result has the step, the report and the decision.
  unfoldable pub handle :
      Key
      → Key
      → String
      → Option RecoveryAction
      → Exec Store (RunStep × FailureReport × RecoveryDecision)
  unfolding decide require get_step schedule_recovery record_metric
  handle run_id step_id failure requested = do
    run ← require run_id
    step ← require_step run_id step_id
    if step_is_failed step.status
        then (do
          let report = diagnose failure
          decision ← from_result (decide run report requested)
          recovered ← schedule_recovery env run_id step_id report decision
          modify (record_metric env "workflow.recovery_decision" run_id 1 (some step_id))
          pure (recovered, report, decision))
        else raise bad_step_status
