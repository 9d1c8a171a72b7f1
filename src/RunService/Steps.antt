-- ===== src/RunService/Steps.antt =====
-- The step-level operations of sacm/core/run_service.py.
use sacm_agent_runtime.Base.{
  Bool, Exec, Key, List, Option, String, [], atomic, bad_step_status, false, first, gets,
  if◌then◌else◌, length, map, modify, none, pure, raise, select, some, true, ℕ, ◌&&◌, ◌++◌, ◌+◌,
  ◌==◌, ◌>>=◌, ◌>>◌, ◌∷◌,
}
use sacm_agent_runtime.Model.{
  CheckpointReason, Env, Failure, Payload, Run, RunStatus, RunStep, StepInput, StepStatus, Store,
  awaiting_decision, failed_with, given, interrupted_steps, interruption, is_closed, noted,
  put_step, step_approval, step_approval_rebound, step_awaiting_approval, step_completed,
  step_failed, step_failure, step_interrupted, step_is_failed, step_is_running, step_key, step_name,
  step_reason, step_retry, step_retry_scheduled, step_scheduled,
}
use sacm_agent_runtime.RunService.Events.{append_event}
use sacm_agent_runtime.RunService.Snapshots.{checkpoint, list_steps}
use sacm_agent_runtime.RunService.Transitions.{record_metric, require, require_step, transition}

module _ (env : Env) where
  -- What every step operation ends with: the row, an event, a checkpoint and the commit.
  unfoldable pub save_step :
      Run → RunStep → String → String → Payload → CheckpointReason → Exec Store RunStep
  unfolding append_event checkpoint
  save_step run step event_type actor payload reason = atomic (do
    modify (put_step step)
    modify (append_event env run event_type actor payload (some step.id))
    checkpoint env run reason
    pure step)

  abbrev pub new_step : Key → String → StepInput → Key → ℕ → RunStep
  new_step run_id name input idempotency_key steps = record {
    id = env.fresh;
    run_id = run_id;
    sequence = steps + 1;
    name = name;
    status = StepStatus.pending;
    idempotency_key = idempotency_key;
    input = input;
    output = none;
    retry_count = 0;
    started_at = none;
    completed_at = none;
  }

  abbrev pub schedule : Run → RunStep → Exec Store RunStep
  schedule run step = atomic (do
    modify (λ s. record s { steps = s.steps ++ step ∷ [] })
    modify (
        append_event env run "StepScheduled" "system" (step_key step.name step.idempotency_key)
          (some step.id))
    checkpoint env run (step_scheduled step.id)
    pure step)

  abbrev pub of_key : Key → Key → RunStep → Bool
  of_key run_id key x = (x.run_id == run_id) && (x.idempotency_key == key)

  abbrev pub reuse : Option RunStep → Run → RunStep → Exec Store RunStep
  reuse none run step = schedule run step
  reuse (some old) run step = pure old

  -- The idempotency key finds the step that an earlier call has added.
  unfoldable pub add_step : Key → String → StepInput → Key → Exec Store RunStep
  add_step run_id name input idempotency_key = do
    run ← require run_id
    existing ← gets (λ s. first (of_key run_id idempotency_key) s.steps)
    steps ← gets (λ s. length (list_steps run_id s))
    reuse existing run (new_step run_id name input idempotency_key steps)

  -- No checkpoint: a snapshot is refused while a step runs.
  abbrev pub begin : StepStatus → Run → RunStep → Exec Store RunStep
  begin StepStatus.running run step = pure step
  begin StepStatus.pending run step = do
    let begun = record step { status = StepStatus.running; started_at = some env.now }
    modify (put_step begun)
    modify (append_event env run "StepStarted" "system" (step_name step.name) (some step.id))
    pure begun
  begin _ run step = raise bad_step_status

  unfoldable pub start_step : Key → Key → Exec Store RunStep
  start_step run_id step_id = do
    run ← require run_id
    step ← require_step run_id step_id
    begin step.status run step

  abbrev complete : Run → RunStep → String → Exec Store RunStep
  complete run step output =
      save_step run
        (record step {
          status = StepStatus.completed;
          output = some (given output);
          completed_at = some env.now;
        })
        "StepCompleted" "system" (step_name step.name) (step_completed step.id)

  abbrev pub finish : StepStatus → Run → RunStep → String → Exec Store RunStep
  finish StepStatus.completed run step output = pure step
  finish StepStatus.pending run step output = complete run step output
  finish StepStatus.running run step output = complete run step output
  finish StepStatus.awaiting run step output = complete run step output
  finish _ run step output = raise bad_step_status

  unfoldable pub complete_step : Key → Key → String → Exec Store RunStep
  complete_step run_id step_id output = do
    run ← require run_id
    step ← require_step run_id step_id
    finish step.status run step output

  abbrev await : Run → RunStep → Key → String → String → CheckpointReason → Exec Store RunStep
  await run step approval_id output event_type reason =
      save_step run
        (record step {
          status = StepStatus.awaiting;
          output = some (awaiting_decision approval_id output);
        })
        event_type "system" (step_approval step.name approval_id) reason

  -- A step that already waits keeps its status and is bound to the new approval.
  abbrev pub suspend : StepStatus → Run → RunStep → Key → String → Exec Store RunStep
  suspend StepStatus.awaiting run step approval_id output =
      await run step approval_id output "StepApprovalRebound" (step_approval_rebound step.id)
  suspend StepStatus.pending run step approval_id output =
      await run step approval_id output "StepAwaitingApproval" (step_awaiting_approval step.id)
  suspend StepStatus.running run step approval_id output =
      await run step approval_id output "StepAwaitingApproval" (step_awaiting_approval step.id)
  suspend _ run step approval_id output = raise bad_step_status

  unfoldable pub await_step_approval : Key → Key → Key → String → Exec Store RunStep
  await_step_approval run_id step_id approval_id output = do
    run ← require run_id
    step ← require_step run_id step_id
    suspend step.status run step approval_id output

  -- From any status, a completed step included. The caller commits if it asks for no commit here.
  unfoldable pub fail_step : Key → Key → Failure → Exec Store RunStep
  fail_step run_id step_id failure = do
    run ← require run_id
    step ← require_step run_id step_id
    save_step run
        (record step {
          status = StepStatus.failed;
          output = some (failed_with failure);
          completed_at = some env.now;
        })
        "StepFailed" "system" (step_failure step.name failure) (step_failed step.id)

  abbrev pub is_over : StepStatus → Bool
  is_over StepStatus.completed = true
  is_over StepStatus.failed = true
  is_over StepStatus.cancelled = true
  is_over StepStatus.interrupted = true
  is_over _ = false

  unfoldable pub interrupt_step : Key → Key → String → Bool → Exec Store RunStep
  interrupt_step run_id step_id reason by_cancel = do
    run ← require run_id
    step ← require_step run_id step_id
    if is_over step.status then pure step else (do
      saved ←
          save_step run
            (record step {
              status = if by_cancel then StepStatus.cancelled else StepStatus.interrupted;
              output = some (interruption by_cancel reason);
              completed_at = some env.now;
            })
            (if by_cancel then "StepCancelled" else "StepInterrupted") "system"
            (step_reason step.name reason) (step_interrupted step.id)
      modify (
          record_metric env
            (if by_cancel then "workflow.cancelled_step" else "workflow.stale_result") run_id 1
            (some step.id))
      pure saved)

  unfoldable pub retry_step : Key → Key → Exec Store RunStep
  retry_step run_id step_id = do
    run ← require run_id
    step ← require_step run_id step_id
    if step_is_failed step.status
        then save_step run
            (record step {
              status = StepStatus.pending;
              retry_count = step.retry_count + 1;
              started_at = none;
              completed_at = none;
            })
            "StepRetryScheduled" "user" (step_retry step.name (step.retry_count + 1))
            (step_retry_scheduled step.id)
        else raise bad_step_status

  -- the loop of `recover_interrupted`
  unfoldable pub fail_all : Key → List RunStep → Exec Store (Unit {0})
  fail_all run_id [] = pure tt
  fail_all run_id (step ∷ steps) = do
    fail_step run_id step.id
        (noted "ProcessInterrupted" "The runtime restarted while this step was running.")
    fail_all run_id steps

  abbrev pub fail_interrupted : Run → List RunStep → Exec Store Run
  fail_interrupted run [] = pure run
  fail_interrupted run (step ∷ steps) = do
    fail_all run.id (step ∷ steps)
    if is_closed run.status
        then pure run
        else transition env run.id RunStatus.failed "RunRecoveryDetected" "system"
            (interrupted_steps (map (λ x. x.id) (step ∷ steps))) none

  -- Each `fail_step` commits, so the failed steps stay failed if the transition is refused.
  unfoldable pub recover_interrupted : Key → Exec Store Run
  recover_interrupted run_id = do
    run ← require run_id
    stopped ← gets (λ s. select (λ x. step_is_running x.status) (list_steps run_id s))
    fail_interrupted run stopped
