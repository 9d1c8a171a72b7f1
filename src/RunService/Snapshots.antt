-- ===== src/RunService/Snapshots.antt =====
-- `create` and `_content` of sacm/core/snapshot_service.py, and `_checkpoint` of
-- sacm/core/run_service.py.
use sacm_agent_runtime.Base.{
  Exec, Key, List, Option, Result, [], any, err, first, get, if◌then◌else◌, leb, ltb, map,
  no_events, none, not, ok, order_by, run_not_found, select, some, step_running, ℕ, ◌&&◌, ◌++◌,
  ◌==◌, ◌∷◌,
}
use sacm_agent_runtime.Model.{
  CheckpointReason, Env, Run, RunCapture, RunSnapshot, RunStep, RuntimeEvent, SnapshotContent,
  StepCapture, Store, run_key, step_is_running,
}
use sacm_agent_runtime.RunService.Events.{latest}

unfoldable pub list_steps : Key → Store → List RunStep
list_steps run_id s = order_by (λ x. x.sequence) (select (λ x. x.run_id == run_id) s.steps)

abbrev pub capture_run : Run → RunCapture
capture_run r = record {
  run_id = r.id;
  task_id = r.task_id;
  status = r.status;
  source_revision = r.source_revision;
  target_repo_path = r.target_repo_path;
  cancellation_requested = r.cancellation_requested;
  recovery_state = r.recovery_state;
  recovery_attempt_count = r.recovery_attempt_count;
  last_failure_classification = r.last_failure_classification;
  last_recovery_action = r.last_recovery_action;
  started_at = r.started_at;
  completed_at = r.completed_at;
}

abbrev pub capture_step : RunStep → StepCapture
capture_step x = record {
  id = x.id;
  sequence = x.sequence;
  name = x.name;
  status = x.status;
  idempotency_key = x.idempotency_key;
  input = x.input;
  output = x.output;
  retry_count = x.retry_count;
  started_at = x.started_at;
  completed_at = x.completed_at;
}

-- The newest snapshot of the run that was taken before the event (the first of equal ones).
unfoldable pub parent_of : Key → ℕ → List RunSnapshot → Option RunSnapshot
parent_of run_id sequence [] = none
parent_of run_id sequence (x ∷ xs) =
    let rest = parent_of run_id sequence xs in
    if (x.content.run_id == run_id) && ltb x.content.event_sequence sequence
    then elim rest [
      | none ↦ some x
      | some y ↦ if leb x.content.event_sequence y.content.event_sequence then some y else some x
    ]
    else rest

module _ (env : Env) where
  -- `_content`
  unfoldable pub content :
      Run → List RunStep → RuntimeEvent → CheckpointReason → Option Key → SnapshotContent
  content run steps event reason parent_snapshot_id = record {
    run_id = run.id;
    task_id = run.task_id;
    event_sequence = event.sequence;
    event_hash = event.event_hash;
    workflow_version = run.workflow_version;
    run_state = capture_run run;
    step_state = map capture_step steps;
    execution_plan_summary = env.plan_summary run.task_id;
    context_summary = env.run_context run;
    parent_snapshot_id = parent_snapshot_id;
    creation_reason = reason;
  }

  abbrev snapshot_of : SnapshotContent → RunSnapshot
  snapshot_of c = record {
    id = env.snapshot_uuid c.run_id (env.checksum c);
    content = c;
    checksum = env.checksum c;
  }

  abbrev snapshot_id : Option RunSnapshot → Option Key
  snapshot_id none = none
  snapshot_id (some x) = some x.id

  abbrev save : SnapshotContent → Exec Store RunSnapshot
  save c s =
      elim (first (λ x. (x.content.run_id == c.run_id) && (x.checksum == env.checksum c))
        s.snapshots) [
          | some old ↦ (ok old, s)
          | none ↦ (ok (snapshot_of c), record s { snapshots = s.snapshots ++ snapshot_of c ∷ [] })
        ]

  abbrev capture : Run → CheckpointReason → Option RuntimeEvent → Exec Store RunSnapshot
  capture run reason none s = (err no_events, s)
  capture run reason (some event) s =
      save
        (content run (list_steps run.id s) event reason
          (snapshot_id (parent_of run.id event.sequence s.snapshots)))
        s

  abbrev take : Option Run → CheckpointReason → Exec Store RunSnapshot
  take none reason s = (err run_not_found, s)
  take (some run) reason s =
      if any (λ (x : RunStep). step_is_running x.status) (list_steps run.id s)
      then (err step_running, s)
      else capture run reason (latest run.id s.events) s

  -- `create`
  unfoldable pub create_snapshot : Key → CheckpointReason → Exec Store RunSnapshot
  unfolding list_steps parent_of content latest
  create_snapshot run_id reason s = take (get run_key run_id s.runs) reason s

  abbrev done : {A : Type 0} → Result A × Store → Result (Unit {0}) × Store
  done (ok _, s) = (ok tt, s)
  done (err e, s) = (err e, s)

  -- `_checkpoint`: nothing while a step runs, and nothing before the migration.
  unfoldable pub checkpoint : Run → CheckpointReason → Exec Store (Unit {0})
  unfolding create_snapshot list_steps
  checkpoint run reason s =
      if not env.snapshots_available
      then (ok tt, s)
      else if any (λ (x : RunStep). step_is_running x.status) (list_steps run.id s)
      then (ok tt, s)
      else done (create_snapshot run.id reason s)
