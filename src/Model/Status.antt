-- ===== src/Model/Status.antt =====
-- The status words of runs, steps and jobs, and `_ALLOWED_TRANSITIONS` of sacm/core/run_service.py.
use sacm_agent_runtime.Base.{Bool, List, [], false, true, ℕ, ◌==◌, ◌||◌, ◌∷◌, Key}

-- `RunStatus` of sacm/schemas/run.py
pub data RunStatus : Type 0 where
  created planning awaiting_approval implementing reviewing fixing : RunStatus
  testing delivering completed failed cancelled : RunStatus

pub data StepStatus : Type 0 where
  pending running awaiting completed failed cancelled interrupted : StepStatus

-- the states that the check constraint of `workflow_jobs` lists
pub data JobState : Type 0 where
  queued running completed failed cancelled : JobState

-- the states of `execution_jobs`
pub data ExecutionState : Type 0 where
  queued leased running completed failed expired cancelled dead_letter : ExecutionState

-- the states of `executor_registrations`
pub data ExecutorStatus : Type 0 where
  active offline revoked : ExecutorStatus

-- the states of `approvals`
pub data ApprovalStatus : Type 0 where
  pending approved rejected expired superseded : ApprovalStatus

-- An actor's name: "service:" and the id of a credential, or the name of a person.
pub data Actor : Type 0 where
  service : (credential_id : Key) → Actor
  person : (actor_id : Key) → Actor

-- `state.in_(("QUEUED", "LEASED", "RUNNING"))`
abbrev pub is_withdrawable : ExecutionState → Bool
is_withdrawable ExecutionState.queued = true
is_withdrawable ExecutionState.leased = true
is_withdrawable ExecutionState.running = true
is_withdrawable _ = false

abbrev pub run_code : RunStatus → ℕ
run_code RunStatus.created = 0
run_code RunStatus.planning = 1
run_code RunStatus.awaiting_approval = 2
run_code RunStatus.implementing = 3
run_code RunStatus.reviewing = 4
run_code RunStatus.fixing = 5
run_code RunStatus.testing = 6
run_code RunStatus.delivering = 7
run_code RunStatus.completed = 8
run_code RunStatus.failed = 9
run_code RunStatus.cancelled = 10

-- `status == other` on run statuses
abbrev pub same_status : RunStatus → RunStatus → Bool
same_status a b = run_code a == run_code b

abbrev pub member : RunStatus → List RunStatus → Bool
member s [] = false
member s (t ∷ ts) = same_status s t || member s ts

-- `_ALLOWED_TRANSITIONS`
unfoldable pub allowed_transitions : RunStatus → List RunStatus
allowed_transitions RunStatus.created = RunStatus.planning ∷ RunStatus.cancelled ∷ []
allowed_transitions RunStatus.planning =
    RunStatus.awaiting_approval ∷ RunStatus.implementing ∷ RunStatus.failed ∷ RunStatus.cancelled
    ∷ []
allowed_transitions RunStatus.awaiting_approval = RunStatus.implementing ∷ RunStatus.cancelled ∷ []
allowed_transitions RunStatus.implementing =
    RunStatus.reviewing ∷ RunStatus.failed ∷ RunStatus.cancelled ∷ []
allowed_transitions RunStatus.reviewing =
    RunStatus.fixing ∷ RunStatus.testing ∷ RunStatus.failed ∷ RunStatus.cancelled ∷ []
allowed_transitions RunStatus.fixing =
    RunStatus.implementing ∷ RunStatus.reviewing ∷ RunStatus.failed ∷ RunStatus.cancelled ∷ []
allowed_transitions RunStatus.testing =
    RunStatus.fixing ∷ RunStatus.delivering ∷ RunStatus.failed ∷ RunStatus.cancelled ∷ []
allowed_transitions RunStatus.delivering =
    RunStatus.completed ∷ RunStatus.failed ∷ RunStatus.cancelled ∷ []
allowed_transitions RunStatus.failed =
    RunStatus.planning ∷ RunStatus.implementing ∷ RunStatus.reviewing ∷ RunStatus.fixing
    ∷ RunStatus.testing ∷ RunStatus.cancelled ∷ []
allowed_transitions RunStatus.completed = []
allowed_transitions RunStatus.cancelled = []

-- `status in {"COMPLETED", "FAILED", "CANCELLED"}`
abbrev pub is_closed : RunStatus → Bool
is_closed RunStatus.completed = true
is_closed RunStatus.failed = true
is_closed RunStatus.cancelled = true
is_closed _ = false

-- `status in {"COMPLETED", "CANCELLED"}`
abbrev pub is_final : RunStatus → Bool
is_final RunStatus.completed = true
is_final RunStatus.cancelled = true
is_final _ = false

abbrev pub is_completed : RunStatus → Bool
is_completed RunStatus.completed = true
is_completed _ = false

abbrev pub is_failed : RunStatus → Bool
is_failed RunStatus.failed = true
is_failed _ = false

abbrev pub step_is_running : StepStatus → Bool
step_is_running StepStatus.running = true
step_is_running _ = false

abbrev pub step_is_completed : StepStatus → Bool
step_is_completed StepStatus.completed = true
step_is_completed _ = false

abbrev pub step_is_failed : StepStatus → Bool
step_is_failed StepStatus.failed = true
step_is_failed _ = false
