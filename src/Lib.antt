-- ===== src/Lib.antt =====
-- The durable execution core of the SACM agent runtime: runs and their steps, the append-only log
-- of their events and its checkpoints, the recovery of failed steps, the queue that hands runs to
-- workers, and the leases that keep two workers from the same task; the jobs of remote executors,
-- the policies that tool actions and plans pass, and the queue of commits to be analysed.
--
-- How the parts interact. A user creates a run (`RunService`) and submits it to the queue
-- (`WorkflowQueueService`). A worker claims a job with a lease, executes the workflow under a guard
-- whose thread renews the lease, and completes or fails the job; a job with no attempts left fails
-- its run. The workflow moves the run through its states and its steps through theirs; each change
-- appends an event to the run's log, chained by hashes, and saves a snapshot that is anchored at the
-- newest event. A failed step goes to `RecoveryService`, whose decision `schedule_recovery` applies.
-- An orchestrator holds the task's lease (`TaskRunLeaseService`) meanwhile. Steps that run elsewhere
-- are jobs of the execution plane (`ExecutionPlaneService`): a remote executor leases a job that it
-- matches, starts it, which starts the step, and prolongs its lease; a job that is lost goes back
-- or, with its attempts used up, is given up. A tool action passes `PolicyService`, which may ask
-- for the approval of a person. The commits of a project wait in a queue of their own.
--
-- Files and sources.
--   Base, Base/*                 tests on numbers, methods over a database, tables, invariants
--   Model/Status                 sacm/schemas/run.py and `_ALLOWED_TRANSITIONS`
--   Model/Recovery               sacm/schemas/recovery.py
--   Model/Records, Database      sacm/infrastructure/db/models.py: rows, and the tables as lists
--   Lease                        sacm/core/task_run_lease_service.py: acquire, heartbeat, release
--   Lease/Heartbeat              TaskLeaseHeartbeat and `guard` of the same file
--   Lease/Contract, Exclusion, Guard      proofs on the leases
--   RunService/Events            `_append_event` and the validation of the chain
--   RunService/Snapshots         sacm/core/snapshot_service.py: `create`, `_content`; `_checkpoint`
--   RunService/Transitions       sacm/core/run_service.py: transition, resume, cancel; `record` of
--                                sacm/core/lifecycle_metric_service.py and `revoke_for_job` of
--                                sacm/core/credential_lease_service.py, which `cancel` calls
--   RunService/Creation, Steps   create_for_task, and the operations on steps
--   RunService/Recovery          schedule_recovery
--   RunService/Chain, Validation, Saving, Lifecycle, Completion, Recovered,
--   Idempotence, Cancellation, Logged, Histories                                  proofs
--   RecoveryService, Decision    sacm/core/recovery_service.py
--   RecoveryService/Bounded, Handled, Repeated       proofs on decisions, and on `handle`
--   WorkflowQueue, Processing    sacm/core/workflow_queue_service.py: submit, cancel (`cancel_job`),
--                                claim, renew, complete, fail, process_one, _recover_expired
--   WorkflowQueue/Heartbeat      WorkflowLeaseHeartbeat and `lease_guard` of the same file
--   WorkflowQueue/Submission, Claims, Fencing, Invariant, Settling, Outcomes, Histories, Guard
--                                proofs on the queue
--   RunService/Restore           sacm/core/snapshot_service.py: `validate`, `restore`
--   RunService/Restored, Roundtrip, Frame            proofs on restores, and what runs leave alone
--   ExecutionPlane               sacm/core/execution_plane_service.py: acquire_lease, start_job,
--                                heartbeat_job, recover_expired, _owned_job, _leased_job
--   ExecutionPlane/Scheduling    `schedule` of the same file
--   ExecutionPlane/Results       `_finish_job` (complete_job, fail_job) of the same file
--   ExecutionPlane/Orphans       recover_orphaned and requeue_dead_letter of the same file
--   ExecutionPlane/Jobs, Evolution, Scheduled, Leasing, Finishing, Histories     the moves of a
--                                job, and that every operation makes moves only
--   ExecutionPlane/Invariant, Refinement, Acquisition, Fencing, Recovered, Stranding, Idempotence
--                                proofs on the execution plane
--   PolicyService/Plans          sacm/core/policy_service.py: evaluate_execution_plan
--   PolicyService/Actions, Approvals, Gateway        evaluate, _pending_or_approved,
--                                require_allowed and decide of the same file
--   PolicyService/Gates, Authorization, Decisions    proofs on the policies
--   CommitQueue                  sacm/core/cognitive_commit_queue_service.py
--   CommitQueue/Attempts, Uniqueness                 proofs on the commit queue
--   Samples, Samples/*           concrete data, and the theorems applied to it
--
-- How the code is read. A method is a function from the database to a result, or an exception, and
-- the database that it leaves. `atomic` marks changes that are committed together: an exception
-- before the commit drops them, as closing the session does. A UUID, a token and a digest are
-- natural numbers. A time is a whole number of seconds, and one reading of the clock serves one
-- operation. The interval of a heartbeat is counted in 1/3000 second and a confidence in millionths.
-- A JSON document that the services build is a constructor for its shape, and one that they only
-- pass on is its text. The record `Env` holds what the code takes from outside: the clock, a fresh
-- identifier, the digests of hashlib, the migrations that have run, whether this is production, and
-- the answers of services that are not modelled (the plan's summary, the run's context, the evidence
-- that is missing). Python's integers have no bounds, so neither have the numbers here. A loop over
-- rows is recursion on the list, so there is no fuel.
--
-- Interfaces and parameters. `PolicyService` asks sacm/core/tenancy_service.py through the record
-- `TenancyOperations`, whose laws say that the tenancy service writes no approval; `_finish_job` asks
-- sacm/core/external_agent_service.py and the signatures through `AgentOperations`, whose law says
-- that the agent service writes no job of the execution plane, and the commit queue records events
-- through `StateOperations`, whose law says that sacm/core/cognitive_state_service.py writes no job
-- of the queue. OPA's answer, the
-- analysis of a commit, the diagnosis of a failure and the workflow are arguments.
--
-- Not modelled: threads other than as sequences of rounds and calls, the isolation of database
-- transactions below whole operations, tenancy columns, `create` from a request, pages of events,
-- the replay and comparison of snapshots, the refresh of the analytics of a result,
-- the enrollment and revocation of executors, the audit log, and all other services (planning,
-- the orchestrator, governance, the cognitive state, connectors, agents, the API and the dashboard).
pub mod Base
pub mod Model
pub mod Lease
pub mod RunService
pub mod RecoveryService
pub mod WorkflowQueue
pub mod ExecutionPlane
pub mod PolicyService
pub mod CommitQueue
pub mod Samples
