-- ===== src/RunService/Logged.antt =====
-- Every operation of the run service appends to the log as `_append_event` does, so it keeps the
-- hash chains of all runs.
use sacm_agent_runtime.Base.{
  Bool, Keeps, Key, List, Option, String, [], and_then-Keeps, ap, arith, false, if◌then◌else◌,
  keeps_rules, none, refl, select, some, true, ℕ, ◌&&◌, ◌==◌, ◌∷◌, ◌≡◌,
}
use sacm_agent_runtime.Model.{
  CheckpointReason, Env, ExecutionJob, Failure, FailureReport, Payload, RecoveryDecision, Run,
  RunStatus, RunStep, StepInput, StepStatus, Store,
}
use sacm_agent_runtime.RunService.Events.{append_event}
use sacm_agent_runtime.RunService.Chain.{IsLogged, append_event-IsLogged}
use sacm_agent_runtime.RunService.Snapshots.{checkpoint}
use sacm_agent_runtime.RunService.Transitions.{
  apply_status, cancel, is_active, record_metric, require, require_step, resume, transition,
  validate_completion, validated, withdraw_active, withdraw_all,
}
use sacm_agent_runtime.RunService.Steps.{
  add_step, await_step_approval, begin, complete_step, fail_all, fail_interrupted, fail_step,
  finish, interrupt_step, recover_interrupted, retry_step, reuse, save_step, start_step, suspend,
}
use sacm_agent_runtime.RunService.Recovery.{schedule_recovery, write_recovery, write_resolved}
use sacm_agent_runtime.RunService.Saving.{checkpoint_frame}

module _ (env : Env) where
  abbrev pub LogKept : Store → Type 0
  LogKept s = IsLogged env s.events

  pub append-LogKept :
      (run : Run) (event_type actor : String) (payload : Payload) (step_id : Option Key) (s : Store)
      → LogKept s
      → LogKept (append_event env run event_type actor payload step_id s)
  append-LogKept run event_type actor payload step_id s h =
      append_event-IsLogged env run event_type actor payload step_id s h

  events-checkpoint :
      (run : Run) (reason : CheckpointReason) (s : Store)
      → (checkpoint env run reason s).1.events ≡ s.events
  events-checkpoint run reason s =
      let (_, eq) = checkpoint_frame env run reason s in ap (λ (x : Store). x.events) eq

  pub checkpoint-LogKept :
      (run : Run) (reason : CheckpointReason) → Keeps LogKept (checkpoint env run reason)
  checkpoint-LogKept run reason = record { at = λ s h. rw (events-checkpoint run reason s) h }

  require-LogKept : (run_id : Key) → Keeps LogKept (require run_id)
  unfolding require
  require-LogKept run_id = record { at = λ s h. ground arith }

  apply_status-LogKept :
      (run : Run) (status : RunStatus) (event_type actor : String) (payload : Payload)
      (step_id : Option Key)
      → Keeps LogKept (apply_status env run status event_type actor payload step_id)
  unfolding apply_status
  apply_status-LogKept run status event_type actor payload step_id =
      search (keeps_rules, append-LogKept, checkpoint-LogKept) depth 9

  validated-LogKept : (status : RunStatus) (run : Run) → Keeps LogKept (validated env status run)
  unfolding validate_completion
  validated-LogKept status run = record { at = λ s h. ground arith }

  pub transition-LogKept :
      (run_id : Key) (status : RunStatus) (event_type actor : String) (payload : Payload)
      (step_id : Option Key)
      → Keeps LogKept (transition env run_id status event_type actor payload step_id)
  unfolding transition
  transition-LogKept run_id status event_type actor payload step_id =
      search (keeps_rules, require-LogKept, validated-LogKept, apply_status-LogKept) depth 9

  require_step-LogKept : (run_id step_id : Key) → Keeps LogKept (require_step run_id step_id)
  unfolding require_step
  require_step-LogKept run_id step_id = record { at = λ s h. ground arith }

  save_step-LogKept :
      (run : Run) (step : RunStep) (event_type actor : String) (payload : Payload)
      (reason : CheckpointReason)
      → Keeps LogKept (save_step env run step event_type actor payload reason)
  unfolding save_step
  save_step-LogKept run step event_type actor payload reason =
      search (keeps_rules, append-LogKept, checkpoint-LogKept) depth 9

  reuse-LogKept :
      (old : Option RunStep) (run : Run) (step : RunStep) → Keeps LogKept (reuse env old run step)
  reuse-LogKept none run step = search (keeps_rules, append-LogKept, checkpoint-LogKept) depth 9
  reuse-LogKept (some old) run step = search keeps_rules

  pub add_step-LogKept :
      (run_id : Key) (name : String) (input : StepInput) (key : Key)
      → Keeps LogKept (add_step env run_id name input key)
  unfolding add_step
  add_step-LogKept run_id name input key =
      search (keeps_rules, require-LogKept, reuse-LogKept) depth 9

  begin-LogKept :
      (st : StepStatus) (run : Run) (step : RunStep) → Keeps LogKept (begin env st run step)
  begin-LogKept StepStatus.running run step = search keeps_rules
  begin-LogKept StepStatus.pending run step = search (keeps_rules, append-LogKept) depth 9
  begin-LogKept _ run step = search keeps_rules

  pub start_step-LogKept : (run_id step_id : Key) → Keeps LogKept (start_step env run_id step_id)
  unfolding start_step
  start_step-LogKept run_id step_id =
      search (keeps_rules, require-LogKept, require_step-LogKept, begin-LogKept) depth 9

  finish-LogKept :
      (st : StepStatus) (run : Run) (step : RunStep) (output : String)
      → Keeps LogKept (finish env st run step output)
  finish-LogKept StepStatus.running run step output = search save_step-LogKept
  finish-LogKept StepStatus.pending run step output = search save_step-LogKept
  finish-LogKept StepStatus.awaiting run step output = search save_step-LogKept
  finish-LogKept _ run step output = search keeps_rules

  pub complete_step-LogKept :
      (run_id step_id : Key) (output : String)
      → Keeps LogKept (complete_step env run_id step_id output)
  unfolding complete_step
  complete_step-LogKept run_id step_id output =
      search (keeps_rules, require-LogKept, require_step-LogKept, finish-LogKept) depth 9

  suspend-LogKept :
      (st : StepStatus) (run : Run) (step : RunStep) (approval_id : Key) (output : String)
      → Keeps LogKept (suspend env st run step approval_id output)
  suspend-LogKept StepStatus.running run step approval_id output = search save_step-LogKept
  suspend-LogKept StepStatus.pending run step approval_id output = search save_step-LogKept
  suspend-LogKept StepStatus.awaiting run step approval_id output = search save_step-LogKept
  suspend-LogKept _ run step approval_id output = search keeps_rules

  pub await_step_approval-LogKept :
      (run_id step_id approval_id : Key) (output : String)
      → Keeps LogKept (await_step_approval env run_id step_id approval_id output)
  unfolding await_step_approval
  await_step_approval-LogKept run_id step_id approval_id output =
      search (keeps_rules, require-LogKept, require_step-LogKept, suspend-LogKept) depth 9

  pub fail_step-LogKept :
      (run_id step_id : Key) (failure : Failure)
      → Keeps LogKept (fail_step env run_id step_id failure)
  unfolding fail_step
  fail_step-LogKept run_id step_id failure =
      search (keeps_rules, require-LogKept, require_step-LogKept, save_step-LogKept) depth 9

  metric-LogKept :
      (metric : String) (run_id : Key) (value : ℕ) (details : Option Key) (s : Store)
      → LogKept s
      → LogKept (record_metric env metric run_id value details s)
  unfolding record_metric
  metric-LogKept metric run_id value details s h = h

  pub interrupt_step-LogKept :
      (run_id step_id : Key) (reason : String) (by_cancel : Bool)
      → Keeps LogKept (interrupt_step env run_id step_id reason by_cancel)
  unfolding interrupt_step
  interrupt_step-LogKept run_id step_id reason by_cancel =
      search (keeps_rules, require-LogKept, require_step-LogKept, save_step-LogKept, metric-LogKept)
        depth 9

  pub retry_step-LogKept : (run_id step_id : Key) → Keeps LogKept (retry_step env run_id step_id)
  unfolding retry_step
  retry_step-LogKept run_id step_id =
      search (keeps_rules, require-LogKept, require_step-LogKept, save_step-LogKept) depth 9

  pub resume-LogKept : (run_id : Key) → Keeps LogKept (resume env run_id)
  unfolding resume
  resume-LogKept run_id = search (keeps_rules, require-LogKept, transition-LogKept) depth 9

  fail_all-LogKept :
      (run_id : Key) (steps : List RunStep) → Keeps LogKept (fail_all env run_id steps)
  unfolding fail_all
  fail_all-LogKept run_id [] = search keeps_rules
  fail_all-LogKept run_id (step ∷ steps) = record {
    at = λ s h.
        and_then-Keeps LogKept (λ _. fail_all env run_id steps) _
          (λ _. fail_all-LogKept run_id steps) ((fail_step-LogKept run_id step.id _).at s h);
  }

  fail_interrupted-LogKept :
      (run : Run) (steps : List RunStep) → Keeps LogKept (fail_interrupted env run steps)
  fail_interrupted-LogKept run [] = search keeps_rules
  fail_interrupted-LogKept run (step ∷ steps) =
      search (keeps_rules, fail_all-LogKept, transition-LogKept) depth 9

  pub recover_interrupted-LogKept : (run_id : Key) → Keeps LogKept (recover_interrupted env run_id)
  unfolding recover_interrupted
  recover_interrupted-LogKept run_id =
      search (keeps_rules, require-LogKept, fail_interrupted-LogKept) depth 9

  events-withdraw_all :
      (jobs : List ExecutionJob) (s : Store) → (withdraw_all env jobs s).events ≡ s.events
  unfolding withdraw_all
  events-withdraw_all [] s = refl
  events-withdraw_all (job ∷ jobs) s = events-withdraw_all jobs _

  withdraw_active-LogKept :
      (run_id : Key) (s : Store) → LogKept s → LogKept (withdraw_active env run_id s)
  unfolding withdraw_active
  withdraw_active-LogKept run_id s h =
      let jobs = select (λ j. (j.run_id == run_id) && is_active env j) s.execution_jobs in
      elim env.execution_jobs_available
        as (λ b. LogKept (if b then withdraw_all env jobs s else s)) [
          | true ↦ rw (events-withdraw_all jobs s) h
          | false ↦ h
        ]

  pub cancel-LogKept : (run_id : Key) → Keeps LogKept (cancel env run_id)
  unfolding cancel
  cancel-LogKept run_id =
      search
        (keeps_rules, require-LogKept, withdraw_active-LogKept, transition-LogKept, metric-LogKept)
        depth 10

  write_resolved-LogKept :
      (run : Run) (step : RunStep) (failure : FailureReport) (decision : RecoveryDecision)
      (run' : Run) (step' : RunStep) (payload : Payload) (event_type : String)
      → Keeps LogKept (write_resolved env run step failure decision run' step' payload event_type)
  unfolding write_resolved
  write_resolved-LogKept run step failure decision run' step' payload event_type =
      search (keeps_rules, append-LogKept, checkpoint-LogKept) depth 12

  write_recovery-LogKept :
      (run : Run) (step : RunStep) (failure : FailureReport) (decision : RecoveryDecision)
      → Keeps LogKept (write_recovery env run step failure decision)
  unfolding write_recovery
  write_recovery-LogKept run step failure decision =
      write_resolved-LogKept run step failure decision _ _ _ _

  pub schedule_recovery-LogKept :
      (run_id step_id : Key) (failure : FailureReport) (decision : RecoveryDecision)
      → Keeps LogKept (schedule_recovery env run_id step_id failure decision)
  unfolding schedule_recovery
  schedule_recovery-LogKept run_id step_id failure decision =
      search (keeps_rules, require-LogKept, require_step-LogKept, write_recovery-LogKept) depth 9
