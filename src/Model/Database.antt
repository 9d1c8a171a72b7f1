-- ===== src/Model/Database.antt =====
-- The database as the services see it, and what surrounds them.
use sacm_agent_runtime.Base.{Bool, Key, List, Option, String, update, ℕ, ◌==◌}
use sacm_agent_runtime.Model.Records.{
  Approval, CognitiveCommitJob, ExecutorRegistration, CredentialLease, EventPayload, ExecutionJob,
  LifecycleMetric, Project, Run, RunSnapshot, RunStep, RuntimeEvent, SnapshotContent, WorkflowJob,
}

pub record Store : Type 0 where
  pub runs : List Run
  pub steps : List RunStep
  pub events : List RuntimeEvent
  pub snapshots : List RunSnapshot
  pub evidence_packs : List Key  -- the run of each pack
  pub execution_jobs : List ExecutionJob
  pub credential_leases : List CredentialLease
  pub workflow_jobs : List WorkflowJob
  pub executors : List ExecutorRegistration
  pub projects : List Project
  pub approvals : List Approval
  pub commit_jobs : List CognitiveCommitJob
  pub metrics : List LifecycleMetric

-- The clock, fresh UUIDs, hashlib, the schema's migrations, the configuration, and the services
-- that a snapshot and a completion ask.
pub record Env : Type 0 where
  pub now : ℕ
  pub fresh : Key
  pub event_digest : EventPayload → Key
  pub checksum : SnapshotContent → Key
  pub snapshot_uuid : Key → Key → Key
  pub snapshots_available : Bool
  pub execution_jobs_available : Bool
  pub production : Bool
  pub token_hash : Key → Key
  pub resource_digest : String → Key
  pub approval_ttl : ℕ
  pub plan_summary : Key → Option String
  pub run_context : Run → String
  pub missing_evidence : Key → List String

abbrev pub run_key : Run → Key
run_key r = r.id

abbrev pub job_key : WorkflowJob → Key
job_key j = j.id

-- The attributes of a mapped object are written to its row.
abbrev pub put_run : Run → Store → Store
put_run r s = record s { runs = update (λ x. x.id == r.id) (λ _. r) s.runs }

abbrev pub put_step : RunStep → Store → Store
put_step r s = record s { steps = update (λ x. x.id == r.id) (λ _. r) s.steps }

abbrev pub put_job : WorkflowJob → Store → Store
put_job j s = record s { workflow_jobs = update (λ x. x.id == j.id) (λ _. j) s.workflow_jobs }

abbrev pub step_row_key : RunStep → Key
step_row_key x = x.id

abbrev pub execution_key : ExecutionJob → Key
execution_key j = j.id

abbrev pub put_execution_job : ExecutionJob → Store → Store
put_execution_job j s = record s {
  execution_jobs = update (λ x. x.id == j.id) (λ _. j) s.execution_jobs;
}

abbrev pub put_executor : ExecutorRegistration → Store → Store
put_executor e s = record s { executors = update (λ x. x.id == e.id) (λ _. e) s.executors }
