-- ===== src/Model/Recovery.antt =====
-- sacm/schemas/recovery.py: what is known of a failure, and what is decided about it.
use sacm_agent_runtime.Base.{Bool, Key, List, Option, String, ℕ}
use sacm_agent_runtime.Model.Status.{RunStatus}

pub data FailureClassification : Type 0 where
  compilation test_regression wrong_assumption missing_context : FailureClassification
  architecture_mismatch bad_plan api_incompatibility environment : FailureClassification
  tool_failure model_stuck : FailureClassification

pub data RecoveryAction : Type 0 where
  repair_code debug replan expand_context switch_model retry escalate : RecoveryAction

-- The confidence is counted in millionths. `patch_hash` is the key of `details` that the services
-- read, and the other details are opaque; an empty text counts as absent, as it does for `not`.
pub record FailureReport : Type 0 where
  pub classification : FailureClassification
  pub type : String
  pub message : String
  pub patch_hash : Option Key
  pub other_details : String
  pub retryable : Bool
  pub confidence : ℕ
  pub diagnosis_fingerprint : Option Key

pub data DecisionStatus : Type 0 where
  scheduled escalated : DecisionStatus

-- The sentence of `reason`, by the f-string that writes it.
pub data Reason : Type 0 where
  budget_exhausted : (max_attempts : ℕ) → Reason
  non_retryable : Reason
  low_confidence : (confidence minimum : ℕ) → Reason
  same_patch_failed : Reason
  maps_to : FailureClassification → RecoveryAction → Reason

-- A sentence of `instructions`; the last one quotes the failure.
pub data Instruction : Type 0 where
  sentence : String → Instruction
  failure_note : (message : String) → Instruction

pub record RecoveryDecision : Type 0 where
  pub action : RecoveryAction
  pub status : DecisionStatus
  pub reason : Reason
  pub attempt : ℕ
  pub max_attempts : ℕ
  pub target_run_status : RunStatus
  pub instructions : List Instruction

-- An entry of the `history` that `schedule_recovery` keeps.
pub record HistoryItem : Type 0 where
  pub attempt : ℕ
  pub step_id : Key
  pub failure : FailureReport
  pub decision : RecoveryDecision
  pub recorded_at : ℕ

pub record RecoveryState : Type 0 where
  pub status : DecisionStatus
  pub attempt_count : ℕ
  pub last_step_id : Key
  pub last_failure : FailureReport
  pub last_decision : RecoveryDecision
  pub history : List HistoryItem
