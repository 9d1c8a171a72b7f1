-- ===== src/RunService/Recovery.antt =====
-- `schedule_recovery` of sacm/core/run_service.py: the recovery of a failed step, as decided.
use sacm_agent_runtime.Base.{
  Exec, Key, List, Option, String, [], atomic, bad_step_status, if◌then◌else◌, modify, none, pure,
  raise, some, ◌++◌, ◌+◌, ◌>>=◌, ◌>>◌, ◌∷◌,
}
use sacm_agent_runtime.Model.{
  CheckpointReason, DecisionStatus, Env, FailureReport, HistoryItem, Payload, RecoveryDecision,
  RecoveryNote, RecoveryState, Run, RunStatus, RunStep, StepInput, StepStatus, Store, decided,
  escalated, put_run, put_step, recovering, report, rescheduled, scheduled, step_is_failed,
}
use sacm_agent_runtime.RunService.Events.{append_event}
use sacm_agent_runtime.RunService.Snapshots.{checkpoint}
use sacm_agent_runtime.RunService.Transitions.{require, require_step}

abbrev pub history_of : Option RecoveryState → List HistoryItem
history_of none = []
history_of (some r) = r.history

-- The recovery is written into the agent's task where the step has one, else beside it.
abbrev with_recovery : RecoveryNote → StepInput → StepInput
with_recovery note input = elim input.agent_task [
  | none ↦ record input { recovery = some note }
  | some task ↦ record input { agent_task = some (record task { recovery = some note }) }
]

module _ (env : Env) where
  abbrev pub recorded : Run → RunStep → FailureReport → RecoveryDecision → Run
  recorded run step failure decision = record run {
    recovery_attempt_count = decision.attempt;
    last_failure_classification = some failure.classification;
    last_recovery_action = some decision.action;
    recovery_state = some (record {
      status = decision.status;
      attempt_count = decision.attempt;
      last_step_id = step.id;
      last_failure = failure;
      last_decision = decision;
      history =
          history_of run.recovery_state
          ++ record {
            attempt = decision.attempt;
            step_id = step.id;
            failure = failure;
            decision = decision;
            recorded_at = env.now;
          }
            ∷ [];
    });
  }

  abbrev escalate_run : Run → Run
  escalate_run run = record run {
    status = RunStatus.failed;
    completed_at = some env.now;
    updated_at = env.now;
  }

  abbrev requeue_step : RunStep → FailureReport → RecoveryDecision → RunStep
  requeue_step step failure decision =
      let note : RecoveryNote = record { failure = failure; decision = decision } in
      record step {
        input = with_recovery note step.input;
        status = StepStatus.pending;
        retry_count = step.retry_count + 1;
        started_at = none;
        completed_at = none;
        output = some (recovering note);
      }

  abbrev redirect_run : RecoveryDecision → Run → Run
  redirect_run decision run = record run {
    status = decision.target_run_status;
    completed_at = none;
    updated_at = env.now;
  }

  -- The two branches on `decision["status"]`: the run, the step and the last event.
  unfoldable pub resolved :
      DecisionStatus
      → Run
      → RunStep
      → FailureReport
      → RecoveryDecision
      → Run × RunStep × Payload × String
  resolved escalated run step failure decision =
      (escalate_run run, step, decided decision, "RecoveryEscalated")
  resolved scheduled run step failure decision = (
    redirect_run decision run,
    requeue_step step failure decision,
    rescheduled decision step.name (step.retry_count + 1),
    "RecoveryScheduled",
  )

  unfoldable pub write_resolved :
      Run
      → RunStep
      → FailureReport
      → RecoveryDecision
      → Run
      → RunStep
      → Payload
      → String
      → Exec Store RunStep
  write_resolved run step failure decision run' step' payload event_type = atomic (do
    modify (append_event env run "FailureClassified" "system" (report failure) (some step.id))
    modify (append_event env run "RecoveryPlanned" "system" (decided decision) (some step.id))
    modify (put_run run')
    modify (put_step step')
    modify (append_event env run' event_type "system" payload (some step.id))
    checkpoint env run' (CheckpointReason.recovery decision.action)
    pure step')

  unfoldable pub write_recovery :
      Run → RunStep → FailureReport → RecoveryDecision → Exec Store RunStep
  write_recovery run step failure decision =
      let (run', step', payload, event_type) =
        resolved decision.status (recorded run step failure decision) step failure decision in
      write_resolved run step failure decision run' step' payload event_type

  unfoldable pub schedule_recovery :
      Key → Key → FailureReport → RecoveryDecision → Exec Store RunStep
  unfolding require require_step append_event checkpoint
  schedule_recovery run_id step_id failure decision = do
    run ← require run_id
    step ← require_step run_id step_id
    if step_is_failed step.status
        then write_recovery run step failure decision
        else raise bad_step_status
