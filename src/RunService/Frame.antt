-- ===== src/RunService/Frame.antt =====
-- The operations of the run service keep whatever is said of the tables that they do not write.
use sacm_agent_runtime.Base.{
  Keeps, Key, List, Option, String, arith, keeps_rules, modify, update, ◌==◌,
}
use sacm_agent_runtime.Model.{
  CheckpointReason, Env, Payload, Run, RunSnapshot, RunStatus, RunStep, RuntimeEvent, StepStatus,
  Store, put_run, put_step,
}
use sacm_agent_runtime.RunService.Events.{append_event}
use sacm_agent_runtime.RunService.Snapshots.{checkpoint}
use sacm_agent_runtime.RunService.Transitions.{
  apply_status, get_step, refreshed, require, require_step, transition, validate_completion,
  validated,
}
use sacm_agent_runtime.RunService.Steps.{begin, start_step}
use sacm_agent_runtime.RunService.Saving.{checkpoint_frame}

-- The predicate does not look at the runs, their steps, events and snapshots.
pub record IsApart (P : Store → Type 0) : Type 0 where
  pub runs : (s : Store) (rows : List Run) → P s → P (record s { runs = rows })
  pub steps : (s : Store) (rows : List RunStep) → P s → P (record s { steps = rows })
  pub events : (s : Store) (rows : List RuntimeEvent) → P s → P (record s { events = rows })
  pub snapshots : (s : Store) (rows : List RunSnapshot) → P s → P (record s { snapshots = rows })

module _ (env : Env) (P : Store → Type 0) (apart : IsApart P) where
  pub checkpoint-Keeps :
      (run : Run) (reason : CheckpointReason) → Keeps P (checkpoint env run reason)
  checkpoint-Keeps run reason = record {
    at = λ s h.
        let (rows, eq) = checkpoint_frame env run reason s in rw eq (apart.snapshots s rows h);
  }

  pub append_event-Keeps :
      (run : Run) (event_type actor : String) (payload : Payload) (step_id : Option Key)
      → Keeps P (modify (append_event env run event_type actor payload step_id))
  unfolding append_event
  append_event-Keeps run event_type actor payload step_id = record {
    at = λ s h. apart.events s _ h;
  }

  pub put_run-Keeps : (run : Run) → Keeps P (modify (put_run run))
  put_run-Keeps run = record { at = λ s h. apart.runs s _ h }

  pub put_step-Keeps : (step : RunStep) → Keeps P (modify (put_step step))
  put_step-Keeps step = record { at = λ s h. apart.steps s _ h }

  pub require-Keeps : (run_id : Key) → Keeps P (require run_id)
  unfolding require
  require-Keeps run_id = record { at = λ s h. ground arith }

  pub require_step-Keeps : (run_id step_id : Key) → Keeps P (require_step run_id step_id)
  unfolding require_step get_step
  require_step-Keeps run_id step_id = record { at = λ s h. ground arith }

  pub apply_status-Keeps :
      (run : Run) (status : RunStatus) (event_type actor : String) (payload : Payload)
      (step_id : Option Key)
      → Keeps P (apply_status env run status event_type actor payload step_id)
  unfolding apply_status
  apply_status-Keeps run status event_type actor payload step_id =
      search (keeps_rules, put_run-Keeps, append_event-Keeps, checkpoint-Keeps) depth 9

  validated-Keeps : (status : RunStatus) (run : Run) → Keeps P (validated env status run)
  unfolding validate_completion
  validated-Keeps status run = record {
    at = λ s h.
        let put = apart.runs s (update (λ x. x.id == run.id) (λ _. refreshed env run) s.runs) h in
        ground arith;
  }

  pub transition-Keeps :
      (run_id : Key) (status : RunStatus) (event_type actor : String) (payload : Payload)
      (step_id : Option Key)
      → Keeps P (transition env run_id status event_type actor payload step_id)
  unfolding transition
  transition-Keeps run_id status event_type actor payload step_id =
      search (keeps_rules, require-Keeps, validated-Keeps, apply_status-Keeps) depth 9

  begin-Keeps :
      (status : StepStatus) (run : Run) (step : RunStep) → Keeps P (begin env status run step)
  begin-Keeps StepStatus.pending run step =
      search (keeps_rules, put_step-Keeps, append_event-Keeps) depth 9
  begin-Keeps StepStatus.running run step = search keeps_rules
  begin-Keeps StepStatus.awaiting run step = search keeps_rules
  begin-Keeps StepStatus.completed run step = search keeps_rules
  begin-Keeps StepStatus.failed run step = search keeps_rules
  begin-Keeps StepStatus.cancelled run step = search keeps_rules
  begin-Keeps StepStatus.interrupted run step = search keeps_rules

  pub start_step-Keeps : (run_id step_id : Key) → Keeps P (start_step env run_id step_id)
  unfolding start_step
  start_step-Keeps run_id step_id =
      search (keeps_rules, require-Keeps, require_step-Keeps, begin-Keeps) depth 9
