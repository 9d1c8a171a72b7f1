-- ===== src/Samples/Snapshots.antt =====
-- The theorems on restored snapshots at a concrete run.
use sacm_agent_runtime.Base.{get, [], false, none, refl, some, true, ◌∷◌, ◌≡◌}
use sacm_agent_runtime.Model.{
  run_key, Run, RunSnapshot, RunStatus, RuntimeEvent, StepStatus, Store, empty, is_closed,
  is_failed, run_created,
}
use sacm_agent_runtime.RunService.Events.{
  append_event, check_chain, event_after, latest, validate_event_chain,
}
use sacm_agent_runtime.RunService.Snapshots.{
  capture_run, capture_step, content, create_snapshot, list_steps, parent_of,
}
use sacm_agent_runtime.RunService.Transitions.{require}
use sacm_agent_runtime.RunService.Restore.{
  restore, restore_found, restore_rows, restored_run, validate,
}
use sacm_agent_runtime.RunService.Roundtrip.{AllRestored, restore_roundtrip}
use sacm_agent_runtime.Samples.{run_with, sample_env, sample_store, step_with}

abbrev first_event : RuntimeEvent
first_event = event_after sample_env none 1 "RunCreated" "user" empty none

-- taken while the run was planned and its step waited
abbrev first_snapshot : RunSnapshot
first_snapshot = record {
  id = 902;
  content = record {
    run_id = 1;
    task_id = 2;
    event_sequence = 1;
    event_hash = 501;
    workflow_version = "run/v1";
    run_state = capture_run (run_with RunStatus.planning);
    step_state = capture_step (step_with StepStatus.pending) ∷ [];
    execution_plan_summary = none;
    context_summary = "context";
    parent_snapshot_id = none;
    creation_reason = run_created;
  };
  checksum = 901;
}

abbrev broken_store : Store
broken_store =
    record (sample_store (run_with RunStatus.failed ∷ []) (step_with StepStatus.failed ∷ []) []) {
      events = first_event ∷ [];
      snapshots = first_snapshot ∷ [];
    }

restore_roundtrip_example :
    (run : Run) × (x : RunSnapshot) × (some (run_with RunStatus.failed) ≡ some run)
    × (some first_snapshot ≡ some x)
    × (is_failed run.status ≡ true)
    × (is_closed x.content.run_state.status ≡ false)
    × (get run_key 1 (restore sample_env 1 902 "again" broken_store).1.runs
        ≡ some
            (restored_run sample_env first_snapshot.content.run_state (run_with RunStatus.failed)))
    × (capture_run
          (restored_run sample_env first_snapshot.content.run_state (run_with RunStatus.failed))
        ≡ record x.content.run_state { target_repo_path = run.target_repo_path })
    × AllRestored sample_env 1 x.content.step_state
        (restore sample_env 1 902 "again" broken_store).1.steps
unfolding restore require restore_found validate validate_event_chain check_chain restore_rows
    append_event latest create_snapshot list_steps parent_of content
restore_roundtrip_example =
    restore_roundtrip sample_env 1 902 "again" broken_store
      (restored_run sample_env first_snapshot.content.run_state (run_with RunStatus.failed))
      (5 ∷ []) refl
