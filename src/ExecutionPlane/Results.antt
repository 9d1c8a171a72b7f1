-- ===== src/ExecutionPlane/Results.antt =====
-- `_finish_job` of sacm/core/execution_plane_service.py: `complete_job` and `fail_job`. What
-- sacm/core/external_agent_service.py does with a result, and the signatures, are an interface; the
-- metadata of the signature and the analytics are left out.
use sacm_agent_runtime.Base.{
  Bool, Error, Exec, Key, Option, Result, atomic, err, execution_conflict, false, get,
  if◌then◌else◌, modify, none, not, ok, pure, raise, same, some, true, wrong_signing_key, ℕ, ◌&&◌,
  ◌==◌, ◌>>=◌, ◌>>◌, ◌≡◌,
}
use sacm_agent_runtime.Model.{
  Env, ExecutionJob, ExecutionState, ExecutorRegistration, Failure, JobFailure, Run, Store,
  execution_ended, execution_job_ended, reported_failure, run_key,
}
use sacm_agent_runtime.RunService.Events.{append_event}
use sacm_agent_runtime.RunService.Snapshots.{checkpoint}
use sacm_agent_runtime.RunService.Transitions.{revoke_for_job}
use sacm_agent_runtime.ExecutionPlane.{is_live, owned_job, reread, revise}
use sacm_agent_runtime.ExecutionPlane.Scheduling.{AgentContract, JobRequest, schedule_job}

-- What `_finish_job` reads of a result; the digest is `canonical_hash` of its document.
pub record AgentResult : Type 0 where
  pub run_id : Key
  pub step_id : Key
  pub is_failed_result : Bool
  pub failure : Option Failure
  pub digest : Key

pub record SignedResult : Type 0 where
  pub lease_token : Key
  pub result : AgentResult
  pub result_hash : Key
  pub signing_key_fingerprint : Key
  pub signature : Key

-- `submit` of the agent service, which tells the attempt and the task of a recovery that it has
-- scheduled and does not write jobs; whether it has committed what was pending before it raised, if
-- it is told to commit; `verify_ed25519`; the idempotency key of a retry, and
-- SACM_DEFAULT_CUSTOMER_DEPLOYMENT_ID.
pub record AgentOperations : Type 0 where
  pub submit : Bool → ExecutionJob → AgentResult → Exec Store (Option (ℕ × AgentContract))
  pub has_committed : ExecutionJob → AgentResult → Store → Bool
  pub verify : ExecutorRegistration → AgentResult → Key → Bool
  pub default_deployment_id : Key
  pub recovery_key : Key → ℕ → Key
  pub submit-jobs :
      (commit : Bool) (job : ExecutionJob) (result : AgentResult) (s : Store)
      → (submit commit job result s).1.execution_jobs ≡ s.execution_jobs

abbrev pub is_ended : ExecutionState → Bool
is_ended ExecutionState.completed = true
is_ended ExecutionState.failed = true
is_ended _ = false

-- whether the state is the one that this call would set
abbrev pub ended_as : Bool → ExecutionState → Bool
ended_as true ExecutionState.failed = true
ended_as false ExecutionState.completed = true
ended_as _ _ = false

module _ (agents : AgentOperations) (env : Env) where
  abbrev pub reported : Option Failure → Option JobFailure
  reported none = none
  reported (some f) = some (reported_failure f)

  abbrev pub ended_job : Bool → AgentResult → ExecutionJob → ExecutionJob
  ended_job as_failed result job = record job {
    state = if as_failed then ExecutionState.failed else ExecutionState.completed;
    result_hash = some result.digest;
    failure = if as_failed then reported result.failure else none;
    updated_at = env.now;
    failed_at = if as_failed then some env.now else job.failed_at;
    completed_at = if as_failed then job.completed_at else some env.now;
  }

  abbrev pub end_job : Bool → AgentResult → ExecutionJob → Store → Store
  end_job as_failed result job s =
      revoke_for_job env job.id "executor" "Execution job reached a terminal state."
        (revise (ended_job as_failed result) job.id s)

  abbrev pub retry_request : ExecutionJob → ℕ → AgentContract → JobRequest
  retry_request job attempt task = record {
    run_id = job.run_id;
    run_step_id = job.run_step_id;
    task = task;
    idempotency_key = agents.recovery_key job.run_id attempt;
    required_capabilities = job.required_capabilities;
    required_labels = job.required_labels;
    max_attempts = job.max_attempts;
    customer_deployment_id = job.customer_deployment_id;
    default_deployment_id = agents.default_deployment_id;
  }

  abbrev pub schedule_retry : ExecutionJob → Option (ℕ × AgentContract) → Exec Store (Unit {0})
  schedule_retry job none = pure tt
  schedule_retry job (some (attempt, task)) = do
    again ← schedule_job env (retry_request job attempt task)
    pure tt

  abbrev pub log_end : Bool → ExecutionJob → Key → Option Run → Exec Store (Unit {0})
  log_end as_failed job digest none = pure tt
  log_end as_failed job digest (some run) = do
    modify (
        append_event env run (if as_failed then "ExecutionJobFailed" else "ExecutionJobCompleted")
          "executor" (execution_ended job.id job.attempt digest) (some job.run_step_id))
    checkpoint env run (execution_job_ended as_failed job.id)

  abbrev pub log_end_of_run : Bool → ExecutionJob → Key → Exec Store (Unit {0})
  log_end_of_run as_failed job digest s =
      log_end as_failed job digest (get run_key job.run_id s.runs) s

  -- A commit of the agent service commits the end of the job with it, and an exception after that
  -- does not undo it.
  abbrev pub roll_back :
      Bool → Store → Result (Option (ℕ × AgentContract)) × Store → Result (Unit {0}) × Store
  roll_back committed s (ok recovered_by, s') = (ok tt, s')
  roll_back committed s (err x, s') = (err x, if committed then s' else s)

  abbrev pub submit_and_commit : AgentResult → ExecutionJob → Exec Store (Unit {0})
  submit_and_commit result job s =
      let pending = end_job false result job s in
      roll_back (agents.has_committed job result pending) s (agents.submit true job result pending)

  -- A success is committed by the agent service, and its event after that; a failure is committed
  -- with the retry and the event.
  abbrev pub deliver : Bool → AgentResult → ExecutionJob → Exec Store (Unit {0})
  deliver true result job = atomic (do
    modify (end_job true result job)
    recovered_by ← agents.submit false job result
    schedule_retry job recovered_by
    log_end_of_run true job result.digest)
  deliver false result job = do
    submit_and_commit result job
    atomic (log_end_of_run false job result.digest)

  -- the tests of `_finish_job` that follow those on the owner, for a job that is not over
  abbrev pub check_result : ExecutorRegistration → Bool → SignedResult → ExecutionJob → Option Error
  check_result e as_failed signed job =
      if not (is_live job.state)
      then some execution_conflict
      else if not (signed.result.run_id == job.run_id)
      then some execution_conflict
      else if not (signed.result.step_id == job.run_step_id)
      then some execution_conflict
      else if as_failed && not signed.result.is_failed_result
      then some execution_conflict
      else if not as_failed && signed.result.is_failed_result
      then some execution_conflict
      else if not (e.signing_key_fingerprint == signed.signing_key_fingerprint)
      then some wrong_signing_key
      else if agents.verify e signed.result signed.signature
      then none
      else some execution_conflict

  abbrev pub finish_checked :
      Option Error → Bool → AgentResult → ExecutionJob → Exec Store ExecutionJob
  finish_checked (some x) as_failed result job = raise x
  finish_checked none as_failed result job = do deliver as_failed result job; reread job.id

  abbrev pub finish_owned :
      ExecutorRegistration → Bool → SignedResult → ExecutionJob → Exec Store ExecutionJob
  finish_owned e as_failed signed job =
      if not (signed.result.digest == signed.result_hash)
      then raise execution_conflict
      else if is_ended job.state
      then if ended_as as_failed job.state && same job.result_hash (some signed.result.digest)
        then pure job
        else raise execution_conflict
      else finish_checked (check_result e as_failed signed job) as_failed signed.result job

  -- `_finish_job`: `fail_job` if `as_failed`, else `complete_job`
  unfoldable pub finish_job :
      ExecutorRegistration → Key → Bool → SignedResult → Exec Store ExecutionJob
  unfolding owned_job schedule_job revoke_for_job append_event checkpoint
  finish_job e job_id as_failed signed = do
    job ← owned_job env e job_id signed.lease_token
    finish_owned e as_failed signed job
