-- ===== src/Samples.antt =====
-- Concrete data: an environment, a run with a step, jobs and a database that holds them.
pub mod Leases
pub mod Runs
pub mod Recoveries
pub mod Queues
pub mod Executions
pub mod Policies
pub mod Snapshots
pub mod Commits
use sacm_agent_runtime.Base.{Key, List, Option, [], false, none, some, true, ℕ, ◌+◌, ◌∷◌}
use sacm_agent_runtime.Model.{
  Env, ExecutionJob, ExecutionState, FailureReport, JobState, Run, RunStatus, RunStep, StepStatus,
  Store, WorkflowJob, recovery, test_regression,
}

abbrev pub sample_env : Env
sample_env = record {
  now = 1000;
  fresh = 77;
  event_digest = λ p. p.sequence + 500;
  checksum = λ c. c.event_sequence + 900;
  snapshot_uuid = λ run_id checksum. run_id + checksum;
  snapshots_available = true;
  execution_jobs_available = true;
  production = true;
  token_hash = λ token. token + 7000;
  resource_digest = λ _. 60;
  approval_ttl = 0;
  plan_summary = λ _. none;
  run_context = λ _. "context";
  missing_evidence = λ _. [];
}

abbrev pub later_env : Env
later_env = record sample_env { now = 1030; fresh = 78 }

abbrev pub run_with : RunStatus → Run
run_with status = record {
  id = 1;
  organization_id = none;
  project_id = none;
  task_id = 2;
  status = status;
  workflow_version = "run/v1";
  source_revision = none;
  target_repo_path = some "repo";
  cancellation_requested = false;
  updated_at = 900;
  started_at = some 800;
  completed_at = none;
  missing_supply_chain_evidence = [];
  recovery_state = none;
  recovery_attempt_count = 0;
  last_failure_classification = none;
  last_recovery_action = none;
}

abbrev pub step_with : StepStatus → RunStep
step_with status = record {
  id = 5;
  run_id = 1;
  sequence = 1;
  name = "build";
  status = status;
  idempotency_key = 6;
  input = record { agent_task = none; recovery = none; other = "input" };
  output = none;
  retry_count = 0;
  started_at = some 850;
  completed_at = none;
}

abbrev pub job_with : JobState → ℕ → Option Key → WorkflowJob
job_with state attempt token = record {
  id = 9;
  run_id = 1;
  state = state;
  attempt = attempt;
  max_attempts = 3;
  available_at = 700;
  lease_token = token;
  lease_expires_at = elim token [ none ↦ none | some _ ↦ some 1500 ];
  last_error = none;
  created_at = 600;
  updated_at = 700;
  started_at = none;
  completed_at = none;
}

abbrev pub sample_store : List Run → List RunStep → List WorkflowJob → Store
sample_store runs steps jobs = record {
  runs = runs;
  steps = steps;
  events = [];
  snapshots = [];
  evidence_packs = 1 ∷ [];
  execution_jobs = [];
  credential_leases = [];
  workflow_jobs = jobs;
  executors = [];
  projects = [];
  approvals = [];
  commit_jobs = [];
  metrics = [];
}

abbrev pub failure : FailureReport
failure = record {
  classification = test_regression;
  type = "AssertionError";
  message = "1 test failed";
  patch_hash = some 31;
  other_details = "details";
  retryable = true;
  confidence = 900000;
  diagnosis_fingerprint = some 32;
}

abbrev pub remote_job : ExecutionState → Option Key → Option Key → Option ℕ → ExecutionJob
remote_job state owner token expiry = record {
  id = 50;
  organization_id = none;
  project_id = some 4;
  customer_deployment_id = none;
  run_id = 1;
  run_step_id = 5;
  state = state;
  idempotency_key = 53;
  required_capabilities = 54 ∷ [];
  required_labels = [];
  payload_hash = 55;
  attempt = 1;
  max_attempts = 3;
  recovery_count = 0;
  last_recovery_reason = none;
  lease_owner_id = owner;
  lease_token_hash = token;
  lease_expires_at = expiry;
  lease_heartbeat_at = expiry;
  result_hash = none;
  failure = none;
  queued_at = 900;
  leased_at = none;
  started_at = none;
  completed_at = none;
  failed_at = none;
  expired_at = none;
  cancelled_at = none;
  dead_lettered_at = none;
  updated_at = 990;
}
