-- ===== src/ExecutionPlane/Scheduling.antt =====
-- `schedule` of sacm/core/execution_plane_service.py. The project of a run, or the deployment of a
-- customer, is the scope in which an idempotency key names one job.
use sacm_agent_runtime.Base.{
  Bool, Exec, Key, List, Option, [], any, atomic, err, execution_conflict, first, get,
  if◌then◌else◌, is_some, modify, none, order_by, project_not_found, pure, raise, same, some, ℕ,
  ◌&&◌, ◌++◌, ◌==◌, ◌>>=◌, ◌>>◌, ◌||◌, ◌∷◌,
}
use sacm_agent_runtime.Model.{
  Env, ExecutionJob, ExecutionState, Project, Run, Store, execution_job_queued, execution_queued,
}
use sacm_agent_runtime.RunService.Events.{append_event}
use sacm_agent_runtime.RunService.Snapshots.{checkpoint}
use sacm_agent_runtime.RunService.Transitions.{require, require_step}

-- What `schedule` reads of AgentTaskV1; the digest is `canonical_hash` of its document.
pub record AgentContract : Type 0 where
  pub run_id : Key
  pub step_id : Key
  pub digest : Key

-- the arguments of `schedule`, with SACM_DEFAULT_CUSTOMER_DEPLOYMENT_ID
pub record JobRequest : Type 0 where
  pub run_id : Key
  pub run_step_id : Key
  pub task : AgentContract
  pub idempotency_key : Key
  pub required_capabilities : List Key
  pub required_labels : List (Key × Key)
  pub max_attempts : ℕ
  pub customer_deployment_id : Option Key
  pub default_deployment_id : Key

-- `organization_id`, `project_id` and `customer_deployment_id`, which `scope_key` names
pub record JobScope : Type 0 where
  pub organization_id : Option Key
  pub project_id : Option Key
  pub customer_deployment_id : Option Key

abbrev or_default : Option Key → Key → Key
or_default none k = k
or_default (some a) k = a

abbrev pub scope_in : List Project → JobRequest → Option Key → Option JobScope
scope_in projects request none = some (record {
  organization_id = none;
  project_id = none;
  customer_deployment_id =
      some (or_default request.customer_deployment_id request.default_deployment_id);
})
scope_in projects request (some p) = elim (get (λ (x : Project). x.id) p projects) [
  | none ↦ none
  | some project ↦ some (record {
    organization_id = project.organization_id;
    project_id = some p;
    customer_deployment_id = request.customer_deployment_id;
  })
]

-- The scope key is of the project, or else of the deployment.
abbrev pub in_job_scope : JobScope → ExecutionJob → Bool
in_job_scope scope job =
    same job.project_id scope.project_id
    && (is_some scope.project_id || same job.customer_deployment_id scope.customer_deployment_id)

abbrev pub of_request : JobScope → Key → ExecutionJob → Bool
of_request scope idempotency_key job =
    in_job_scope scope job && (job.idempotency_key == idempotency_key)

-- `sorted(set(keys))`
abbrev distinct : List Key → List Key
distinct [] = []
distinct (k ∷ ks) = let rest = distinct ks in if any (λ x. x == k) rest then rest else k ∷ rest

module _ (env : Env) where
  abbrev pub scheduled_job : JobScope → JobRequest → ExecutionJob
  scheduled_job scope request = record {
    id = env.fresh;
    organization_id = scope.organization_id;
    project_id = scope.project_id;
    customer_deployment_id = scope.customer_deployment_id;
    run_id = request.run_id;
    run_step_id = request.run_step_id;
    state = ExecutionState.queued;
    idempotency_key = request.idempotency_key;
    required_capabilities = order_by (λ k. k) (distinct request.required_capabilities);
    required_labels = order_by (λ (l : Key × Key). l.0) request.required_labels;
    payload_hash = request.task.digest;
    attempt = 0;
    max_attempts = request.max_attempts;
    recovery_count = 0;
    last_recovery_reason = none;
    lease_owner_id = none;
    lease_token_hash = none;
    lease_expires_at = none;
    lease_heartbeat_at = none;
    result_hash = none;
    failure = none;
    queued_at = env.now;
    leased_at = none;
    started_at = none;
    completed_at = none;
    failed_at = none;
    expired_at = none;
    cancelled_at = none;
    dead_lettered_at = none;
    updated_at = env.now;
  }

  abbrev pub add_job : ExecutionJob → Store → Store
  add_job job s = record s { execution_jobs = s.execution_jobs ++ job ∷ [] }

  abbrev pub save_job : Run → ExecutionJob → Exec Store ExecutionJob
  save_job run job = atomic (do
    modify (add_job job)
    modify (
        append_event env run "ExecutionJobQueued" "control-plane"
          (execution_queued job.id job.payload_hash job.required_capabilities)
          (some job.run_step_id))
    checkpoint env run (execution_job_queued job.id)
    pure job)

  abbrev pub reuse_job : Run → JobRequest → JobScope → Option ExecutionJob → Exec Store ExecutionJob
  reuse_job run request scope none = save_job run (scheduled_job scope request)
  reuse_job run request scope (some existing) =
      if existing.payload_hash == request.task.digest
      then pure existing
      else raise execution_conflict

  abbrev pub schedule_in : Run → JobRequest → Option JobScope → Exec Store ExecutionJob
  schedule_in run request none s = (err project_not_found, s)
  schedule_in run request (some scope) s =
      reuse_job run request scope
        (first (of_request scope request.idempotency_key) s.execution_jobs) s

  -- the task names the run and the step
  abbrev pub names_step : JobRequest → Bool
  names_step request =
      (request.task.run_id == request.run_id) && (request.task.step_id == request.run_step_id)

  abbrev pub schedule_for : JobRequest → Run → Exec Store ExecutionJob
  schedule_for request run s =
      schedule_in run request (scope_in s.projects request run.project_id) s

  -- `schedule`
  unfoldable pub schedule_job : JobRequest → Exec Store ExecutionJob
  unfolding require require_step append_event checkpoint
  schedule_job request = do
    run ← require request.run_id
    step ← require_step request.run_id request.run_step_id
    if names_step request then schedule_for request run else raise execution_conflict
