-- ===== src/Model/Records.antt =====
-- Rows of sacm/infrastructure/db/models.py. A JSON document is a constructor for each shape that the
-- services write; a document that they only pass on is its text.
use sacm_agent_runtime.Base.{Bool, Key, List, Option, String, ℕ}
use sacm_agent_runtime.Model.Status.{
  Actor, ApprovalStatus, ExecutionState, ExecutorStatus, JobState, RunStatus, StepStatus,
}
use sacm_agent_runtime.Model.Recovery.{
  FailureClassification, FailureReport, RecoveryAction, RecoveryDecision, RecoveryState,
}

pub record RecoveryNote : Type 0 where
  pub failure : FailureReport
  pub decision : RecoveryDecision

-- `step.input_["agent_task"]`, with its `execution_context["recovery"]`
pub record AgentTask : Type 0 where
  pub recovery : Option RecoveryNote
  pub other : String

-- `step.input_`; an empty `agent_task` counts as absent.
pub record StepInput : Type 0 where
  pub agent_task : Option AgentTask
  pub recovery : Option RecoveryNote
  pub other : String

-- A failure as a step records it: a report, or another document.
pub data Failure : Type 0 where
  reported : FailureReport → Failure
  noted : (type message : String) → Failure
  opaque : String → Failure

pub data StepOutput : Type 0 where
  given : String → StepOutput
  awaiting_decision : (sacm_approval_id : Key) (other : String) → StepOutput
  failed_with : Failure → StepOutput
  interruption : (cancelled : Bool) (reason : String) → StepOutput
  recovering : RecoveryNote → StepOutput

pub data Payload : Type 0 where
  empty : Payload
  task_created : (task_id : Key) (workflow_version : Option String) → Payload
  step_key : (name : String) (idempotency_key : Key) → Payload
  step_name : String → Payload
  step_approval : (name : String) (approval_id : Key) → Payload
  step_failure : (name : String) → Failure → Payload
  step_reason : (name reason : String) → Payload
  step_retry : (name : String) (retry_count : ℕ) → Payload
  report : FailureReport → Payload
  decided : RecoveryDecision → Payload
  rescheduled : RecoveryDecision → (step_name : String) (retry_count : ℕ) → Payload
  interrupted_steps : List Key → Payload
  job_failed : (job_id : Key) (error : Option String) → Payload
  execution_queued : (job_id payload_hash : Key) (required_capabilities : List Key) → Payload
  execution_started : (job_id : Key) (attempt : ℕ) → Payload
  execution_ended : (job_id : Key) (attempt : ℕ) (result_hash : Key) → Payload
  restored :
      (snapshot_id checksum : Key) (reason : String) (status : RunStatus) (steps : List Key)
      → Payload

pub record Run : Type 0 where
  pub id : Key
  pub organization_id : Option Key
  pub project_id : Option Key
  pub task_id : Key
  pub status : RunStatus
  pub workflow_version : String
  pub source_revision : Option String
  pub target_repo_path : Option String
  pub cancellation_requested : Bool
  pub updated_at : ℕ
  pub started_at : Option ℕ
  pub completed_at : Option ℕ
  pub missing_supply_chain_evidence : List String
  pub recovery_state : Option RecoveryState
  pub recovery_attempt_count : ℕ
  pub last_failure_classification : Option FailureClassification
  pub last_recovery_action : Option RecoveryAction

pub record RunStep : Type 0 where
  pub id : Key
  pub run_id : Key
  pub sequence : ℕ
  pub name : String
  pub status : StepStatus
  pub idempotency_key : Key
  pub input : StepInput
  pub output : Option StepOutput
  pub retry_count : ℕ
  pub started_at : Option ℕ
  pub completed_at : Option ℕ

-- The document that `_append_event` hashes.
pub record EventPayload : Type 0 where
  pub run_id : Key
  pub step_id : Option Key
  pub sequence : ℕ
  pub event_type : String
  pub actor : String
  pub payload : Payload
  pub previous_event_hash : Option Key
  pub occurred_at : ℕ

pub record RuntimeEvent : Type 0 where
  pub body : EventPayload
  pub open body use *
  pub event_hash : Key

-- The `creation_reason` of a snapshot, by the f-string that writes it.
pub data CheckpointReason : Type 0 where
  run_created : CheckpointReason
  run_transition : (event_type : String) → CheckpointReason
  step_scheduled step_completed step_approval_rebound : (step_id : Key) → CheckpointReason
  step_awaiting_approval step_failed step_interrupted : (step_id : Key) → CheckpointReason
  step_retry_scheduled : (step_id : Key) → CheckpointReason
  recovery : RecoveryAction → CheckpointReason
  snapshot_restored : (snapshot_id : Key) → CheckpointReason
  execution_job_queued : (job_id : Key) → CheckpointReason
  execution_job_ended : (as_failed : Bool) (job_id : Key) → CheckpointReason

-- What `_content` captures of a run and of a step.
pub record RunCapture : Type 0 where
  pub run_id : Key
  pub task_id : Key
  pub status : RunStatus
  pub source_revision : Option String
  pub target_repo_path : Option String
  pub cancellation_requested : Bool
  pub recovery_state : Option RecoveryState
  pub recovery_attempt_count : ℕ
  pub last_failure_classification : Option FailureClassification
  pub last_recovery_action : Option RecoveryAction
  pub started_at : Option ℕ
  pub completed_at : Option ℕ

pub record StepCapture : Type 0 where
  pub id : Key
  pub sequence : ℕ
  pub name : String
  pub status : StepStatus
  pub idempotency_key : Key
  pub input : StepInput
  pub output : Option StepOutput
  pub retry_count : ℕ
  pub started_at : Option ℕ
  pub completed_at : Option ℕ

-- The document that `_content` builds and `_checksum` hashes.
pub record SnapshotContent : Type 0 where
  pub run_id : Key
  pub task_id : Key
  pub event_sequence : ℕ
  pub event_hash : Key
  pub workflow_version : String
  pub run_state : RunCapture
  pub step_state : List StepCapture
  pub execution_plan_summary : Option String
  pub context_summary : String
  pub parent_snapshot_id : Option Key
  pub creation_reason : CheckpointReason

pub record RunSnapshot : Type 0 where
  pub id : Key
  pub content : SnapshotContent
  pub checksum : Key

-- why a job was taken back from its executor, or put back by hand
pub data JobRecovery : Type 0 where
  automatic : (reason : String) → JobRecovery
  manual : (reason : String) → JobRecovery

-- `job.failure`; the message of a lost lease tells whether its attempts are used up.
pub data JobFailure : Type 0 where
  lost_lease : (reason : String) (exhausted : Bool) (attempt : ℕ) → JobFailure
  reported_failure : Failure → JobFailure

-- The signed contract, the secrets and the tenant's attribution are left out.
pub record ExecutionJob : Type 0 where
  pub id : Key
  pub organization_id : Option Key
  pub project_id : Option Key
  pub customer_deployment_id : Option Key
  pub run_id : Key
  pub run_step_id : Key
  pub state : ExecutionState
  pub idempotency_key : Key
  pub required_capabilities : List Key
  pub required_labels : List (Key × Key)
  pub payload_hash : Key
  pub attempt : ℕ
  pub max_attempts : ℕ
  pub recovery_count : ℕ
  pub last_recovery_reason : Option JobRecovery
  pub lease_owner_id : Option Key
  pub lease_token_hash : Option Key
  pub lease_expires_at : Option ℕ
  pub lease_heartbeat_at : Option ℕ
  pub result_hash : Option Key
  pub failure : Option JobFailure
  pub queued_at : ℕ
  pub leased_at : Option ℕ
  pub started_at : Option ℕ
  pub completed_at : Option ℕ
  pub failed_at : Option ℕ
  pub expired_at : Option ℕ
  pub cancelled_at : Option ℕ
  pub dead_lettered_at : Option ℕ
  pub updated_at : ℕ

pub record ExecutorRegistration : Type 0 where
  pub id : Key
  pub organization_id : Option Key
  pub project_id : Option Key
  pub customer_deployment_id : Option Key
  pub status : ExecutorStatus
  pub capabilities : List Key
  pub labels : List (Key × Key)
  pub auth_token_hash : Key
  pub signing_key_fingerprint : Key
  pub last_heartbeat_at : Option ℕ
  pub revoked_at : Option ℕ
  pub revoked_by : Option String
  pub revocation_reason : Option String

pub record Project : Type 0 where
  pub id : Key
  pub organization_id : Option Key

pub record CredentialLease : Type 0 where
  pub id : Key
  pub job_id : Key
  pub revoked_at : Option ℕ
  pub revoked_by : Option String
  pub revocation_reason : Option String

pub record WorkflowJob : Type 0 where
  pub id : Key
  pub run_id : Key
  pub state : JobState
  pub attempt : ℕ
  pub max_attempts : ℕ
  pub available_at : ℕ
  pub lease_token : Option Key
  pub lease_expires_at : Option ℕ
  pub last_error : Option String
  pub created_at : ℕ
  pub updated_at : ℕ
  pub started_at : Option ℕ
  pub completed_at : Option ℕ

-- The details name the job or the step that the metric is about.
pub record LifecycleMetric : Type 0 where
  pub run_id : Key
  pub task_id : Option Key
  pub metric : String
  pub value : ℕ
  pub details : Option Key

-- `resource` is the canonical text of the document.
pub record Approval : Type 0 where
  pub id : Key
  pub organization_id : Option Key
  pub project_id : Option Key
  pub run_id : Key
  pub action : String
  pub resource : String
  pub resource_digest : Option Key
  pub status : ApprovalStatus
  pub requested_at : ℕ
  pub expires_at : Option ℕ
  pub decided_at : Option ℕ
  pub decided_by : Option Actor
  pub decision_reason : Option String

pub record CognitiveCommitJob : Type 0 where
  pub id : Key
  pub project_id : Key
  pub commit_hash : Key
  pub agent_id : Option Key
  pub trace_id : Option Key
  pub semantic_summary : Option String
  pub state : JobState
  pub attempt : ℕ
  pub max_attempts : ℕ
  pub available_at : ℕ
  pub lease_token : Option Key
  pub lease_expires_at : Option ℕ
  pub last_error : Option String
  pub created_at : ℕ
  pub updated_at : ℕ
  pub completed_at : Option ℕ
