-- ===== src/RunService/Creation.antt =====
-- `create_for_task` of sacm/core/run_service.py.
use sacm_agent_runtime.Base.{
  Exec, Key, Option, String, [], atomic, false, modify, none, pure, ◌++◌, ◌>>◌, ◌∷◌,
}
use sacm_agent_runtime.Model.{Env, Run, RunStatus, Store, run_created, task_created}
use sacm_agent_runtime.RunService.Events.{append_event}
use sacm_agent_runtime.RunService.Snapshots.{checkpoint}

-- The columns of a task that its run takes over, but for the tenant's attribution, the region and
-- the classification of its data.
pub record Task : Type 0 where
  pub id : Key
  pub organization_id : Option Key
  pub project_id : Option Key
  pub target_repo_path : Option String

module _ (env : Env) where
  -- The row as it is flushed; the workflow's version is the default of its column.
  abbrev pub new_run : Task → Run
  new_run task = record {
    id = env.fresh;
    organization_id = task.organization_id;
    project_id = task.project_id;
    task_id = task.id;
    status = RunStatus.created;
    workflow_version = "run/v1";
    source_revision = none;
    target_repo_path = task.target_repo_path;
    cancellation_requested = false;
    updated_at = env.now;
    started_at = none;
    completed_at = none;
    missing_supply_chain_evidence = [];
    recovery_state = none;
    recovery_attempt_count = 0;
    last_failure_classification = none;
    last_recovery_action = none;
  }

  -- The payload is built before the flush gives `run.workflow_version` its default: it has none.
  unfoldable pub create_for_task : Task → Exec Store Run
  create_for_task task = atomic (do
    let run = new_run task
    modify (λ s. record s { runs = s.runs ++ run ∷ [] })
    modify (append_event env run "RunCreated" "system" (task_created task.id none) none)
    checkpoint env run run_created
    pure run)
