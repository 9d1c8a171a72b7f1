-- ===== src/RunService/Restore.antt =====
-- `validate` and `restore` of sacm/core/snapshot_service.py. A restore reads the captured documents
-- back into the rows; the schema version is the same throughout.
use text.Mathlib.Text.{◌==◌ as str_eq}
use sacm_agent_runtime.Base.{
  Bool, Error, Exec, Key, List, Option, Result, String, and_then, any, atomic, bad_run_status, err,
  every, false, first, get, if◌then◌else◌, map, modify, none, not, not_resumable, ok, order_by,
  pure, raise, select, snapshot_checksum, snapshot_identity, snapshot_not_found, snapshot_stale,
  some, step_running, topology_changed, true, update, ◌&&◌, ◌==◌, ◌>>=◌, ◌>>◌,
}
use sacm_agent_runtime.Model.{
  Env, Run, RunCapture, RunSnapshot, RunStep, RuntimeEvent, StepCapture, Store, is_closed,
  is_failed, put_run, restored, snapshot_restored, step_is_running,
}
use sacm_agent_runtime.RunService.Events.{append_event, validate_event_chain}
use sacm_agent_runtime.RunService.Snapshots.{create_snapshot}
use sacm_agent_runtime.RunService.Transitions.{require}

abbrev pub same_text : Option String → Option String → Bool
same_text none none = true
same_text (some a) (some b) = str_eq a b
same_text _ _ = false

-- `_require_snapshot`, by `get`
abbrev pub snapshot_of_run : Key → Key → RunSnapshot → Bool
snapshot_of_run run_id snapshot_id x = (x.id == snapshot_id) && (x.content.run_id == run_id)

abbrev pub or_raise : {A : Type 0} → Error → Option A → Exec Store A
or_raise e none = raise e
or_raise e (some a) = pure a

abbrev pub require_snapshot : Key → Key → Exec Store RunSnapshot
require_snapshot run_id snapshot_id s =
    or_raise snapshot_not_found (first (snapshot_of_run run_id snapshot_id) s.snapshots) s

abbrev pub find_item : Key → List StepCapture → Option StepCapture
find_item k items = get (λ (i : StepCapture). i.id) k items

module _ (env : Env) where
  abbrev pub same_identity : Run → RunSnapshot → Bool
  same_identity run x = (x.content.run_id == run.id) && (x.content.task_id == run.task_id)

  abbrev pub same_run_state : Run → RunCapture → Bool
  same_run_state run state =
      (state.run_id == run.id)
      && ((state.task_id == run.task_id) && same_text state.source_revision run.source_revision)

  -- `validate`
  unfoldable pub validate : Run → RunSnapshot → List RuntimeEvent → Result (Unit {0})
  unfolding validate_event_chain
  validate run x events =
      if not (same_identity run x)
      then err snapshot_identity
      else if not (str_eq x.content.workflow_version run.workflow_version)
      then err snapshot_stale
      else if not (same_run_state run x.content.run_state)
      then err snapshot_stale
      else if not (x.checksum == env.checksum x.content)
      then err snapshot_checksum
      else validate_event_chain env run.id x.content.event_sequence x.content.event_hash events

  -- the steps that were captured are the steps of the run
  abbrev pub same_steps : List StepCapture → List RunStep → Bool
  same_steps items steps =
      every (λ (x : RunStep). any (λ (i : StepCapture). i.id == x.id) items) steps
      && every (λ (i : StepCapture). any (λ (x : RunStep). x.id == i.id) steps) items

  -- the tests of `restore` that follow `validate`
  abbrev pub check_restorable : Run → RunSnapshot → List RunStep → Result (Unit {0})
  check_restorable run x steps =
      if not (is_failed run.status)
      then err bad_run_status
      else if is_closed x.content.run_state.status
      then err not_resumable
      else if not (same_steps x.content.step_state steps)
      then err topology_changed
      else if any (λ (i : StepCapture). step_is_running i.status) x.content.step_state
      then err step_running
      else ok tt

  abbrev pub restored_run : RunCapture → Run → Run
  restored_run state run = record run {
    status = state.status;
    cancellation_requested = state.cancellation_requested;
    started_at = state.started_at;
    completed_at = state.completed_at;
    recovery_state = state.recovery_state;
    recovery_attempt_count = state.recovery_attempt_count;
    last_failure_classification = state.last_failure_classification;
    last_recovery_action = state.last_recovery_action;
    updated_at = env.now;
  }

  abbrev pub restored_step : List StepCapture → RunStep → RunStep
  restored_step items x = elim (find_item x.id items) [
    | none ↦ x
    | some item ↦ record x {
      status = item.status;
      input = item.input;
      output = item.output;
      retry_count = item.retry_count;
      started_at = item.started_at;
      completed_at = item.completed_at;
    }
  ]

  abbrev pub steps_of : Key → Store → List RunStep
  steps_of run_id s = select (λ x. x.run_id == run_id) s.steps

  abbrev pub restored_ids : RunSnapshot → List Key
  restored_ids x = order_by (λ k. k) (map (λ (i : StepCapture). i.id) x.content.step_state)

  -- the rows of the run and of its steps as the snapshot has them
  abbrev pub write_back : Run → RunSnapshot → Store → Store
  write_back run x s = record (put_run (restored_run x.content.run_state run) s) {
    steps = update (λ y. y.run_id == run.id) (restored_step x.content.step_state) s.steps;
  }

  unfoldable pub restore_rows : Run → RunSnapshot → String → Exec Store (Run × List Key)
  unfolding append_event create_snapshot
  restore_rows run x reason = atomic (do
    let run' = restored_run x.content.run_state run
    modify (write_back run x)
    modify (
        append_event env run' "SnapshotRestored" "user"
          (restored x.id x.checksum reason run'.status (restored_ids x)) none)
    create_snapshot env run.id (snapshot_restored x.id)
    pure (run', restored_ids x))

  abbrev pub lift : Result (Unit {0}) → Exec Store (Unit {0})
  lift r s = (r, s)

  -- `restore` once the run and the snapshot are found
  unfoldable pub restore_found : Run → RunSnapshot → String → Exec Store (Run × List Key)
  restore_found run x reason s =
      and_then (λ _. restore_rows run x reason)
        (and_then (λ _. lift (check_restorable run x (steps_of run.id s)))
          (validate run x s.events, s))

  -- `restore`
  unfoldable pub restore : Key → Key → String → Exec Store (Run × List Key)
  restore run_id snapshot_id reason = do
    run ← require run_id
    x ← require_snapshot run_id snapshot_id
    restore_found run x reason
