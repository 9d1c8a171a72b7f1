-- ===== src/ExecutionPlane.antt =====
-- sacm/core/execution_plane_service.py: jobs that remote executors lease, run and hand back. Times
-- are whole seconds; one clock reading serves a whole operation. A job that a query has loaded is
-- its row, so an attribute that is set on it is set in the table.
pub mod Orphans
pub mod Scheduling
pub mod Results
pub mod Finishing
pub mod Scheduled
pub mod Idempotence
pub mod Jobs
pub mod Evolution
pub mod Leasing
pub mod Histories
pub mod Invariant
pub mod Refinement
pub mod Acquisition
pub mod Fencing
pub mod Recovered
pub mod Stranding
use sacm_agent_runtime.Base.{
  Bool, Exec, Key, List, Option, String, [], any, atomic, err, every, execution_conflict,
  executor_inactive, false, first, get, gets, if◌then◌else◌, job_not_found, lease_expired, leb,
  limit, ltb, map, modify, none, not, ok, order_by, pure, raise, same, select, some, step_not_found,
  true, update, wrong_lease_owner, wrong_lease_token, ℕ, ◌&&◌, ◌+◌, ◌==◌, ◌>>=◌, ◌>>◌, ◌∷◌,
}
use sacm_agent_runtime.Model.{
  Env, ExecutionJob, ExecutionState, ExecutorRegistration, ExecutorStatus, Run, RunStatus, RunStep,
  StepStatus, Store, active, automatic, dead_letter, execution_key, execution_started, implementing,
  leased, lost_lease, pending, planning, put_executor, queued, revoked, run_key, running,
  same_status, step_row_key,
}
use sacm_agent_runtime.RunService.Transitions.{moved, revoke_for_job, transition}
use sacm_agent_runtime.RunService.Steps.{start_step}

-- `state in ("LEASED", "RUNNING")`
abbrev pub is_live : ExecutionState → Bool
is_live ExecutionState.leased = true
is_live ExecutionState.running = true
is_live _ = false

abbrev pub is_waiting : ExecutionState → Bool
is_waiting ExecutionState.queued = true
is_waiting _ = false

abbrev pub is_run_by_executor : ExecutionState → Bool
is_run_by_executor ExecutionState.running = true
is_run_by_executor _ = false

abbrev pub is_leased : ExecutionState → Bool
is_leased ExecutionState.leased = true
is_leased _ = false

abbrev pub is_dead : ExecutionState → Bool
is_dead ExecutionState.dead_letter = true
is_dead _ = false

-- `_require_active`, and the test for REVOKED
abbrev pub is_active_executor : ExecutorStatus → Bool
is_active_executor ExecutorStatus.active = true
is_active_executor _ = false

abbrev pub is_revoked : ExecutorStatus → Bool
is_revoked ExecutorStatus.revoked = true
is_revoked _ = false

-- `_scope_predicate`; a comparison with None is IS NULL.
abbrev pub in_scope : ExecutorRegistration → ExecutionJob → Bool
in_scope e job = elim e.project_id [
  | some p ↦ same job.project_id (some p)
  | none ↦ elim e.organization_id [
    | some o ↦ same job.organization_id (some o)
    | none ↦ same job.customer_deployment_id e.customer_deployment_id
  ]
]

abbrev lookup : Key → List (Key × Key) → Option Key
lookup k [] = none
lookup k (x ∷ xs) = if x.0 == k then some x.1 else lookup k xs

-- `_matches`
unfoldable pub matches : ExecutorRegistration → ExecutionJob → Bool
matches e job =
    every (λ c. any (λ d. d == c) e.capabilities) job.required_capabilities
    && every (λ (l : Key × Key). same (lookup l.0 e.labels) (some l.1)) job.required_labels

-- An attribute that is set on the job of the id.
abbrev pub revise : (ExecutionJob → ExecutionJob) → Key → Store → Store
revise f k s = record s { execution_jobs = update (λ x. x.id == k) f s.execution_jobs }

-- `db.refresh(job)`
abbrev pub reread : Key → Exec Store ExecutionJob
reread k s = elim (get execution_key k s.execution_jobs) [
  | none ↦ (err job_not_found, s)
  | some job ↦ (ok job, s)
]

module _ (env : Env) where
  -- the row that `_release_or_expire` leaves
  abbrev pub released : String → ExecutionJob → ExecutionJob
  released reason job =
      let exhausted = leb job.max_attempts job.attempt in
      let freed = record job {
        recovery_count = job.recovery_count + 1;
        last_recovery_reason = some (automatic reason);
        failure = some (lost_lease reason exhausted job.attempt);
        lease_owner_id = none;
        lease_token_hash = none;
        lease_expires_at = none;
        lease_heartbeat_at = none;
        leased_at = none;
        updated_at = env.now;
      } in
      if exhausted
      then record freed {
        state = ExecutionState.dead_letter;
        expired_at = some env.now;
        dead_lettered_at = some env.now;
      }
      else record freed { state = ExecutionState.queued; queued_at = env.now }

  -- `_release_or_expire`
  unfoldable pub release_or_expire : String → Key → Store → Store
  release_or_expire reason job_id s =
      revoke_for_job env job_id "control-plane" reason (revise (released reason) job_id s)

  -- `lease_expires_at is not None and lease_expires_at <= now`
  abbrev pub overdue : Option ℕ → Bool
  overdue none = false
  overdue (some t) = leb t env.now

  abbrev pub lapsed_job : ExecutionJob → Bool
  lapsed_job job = is_live job.state && overdue job.lease_expires_at

  -- the credentials of the jobs that are released
  unfoldable pub revoke_all : (ExecutionJob → String) → List ExecutionJob → Store → Store
  unfolding revoke_for_job
  revoke_all reason [] s = s
  revoke_all reason (job ∷ jobs) s =
      revoke_all reason jobs (revoke_for_job env job.id "control-plane" (reason job) s)

  -- `recover_expired`
  unfoldable pub recover_expired_jobs : Exec Store (List ExecutionJob)
  unfolding revoke_all
  recover_expired_jobs s =
      let jobs = select lapsed_job s.execution_jobs in
      (
        ok (map (released "LeaseExpired") jobs),
        revoke_all (λ _. "LeaseExpired") jobs
            (record s {
              execution_jobs = update lapsed_job (released "LeaseExpired") s.execution_jobs;
            }),
      )

  -- the query of `acquire_lease`
  abbrev pub eligible : ExecutorRegistration → ExecutionJob → Bool
  eligible e job = is_waiting job.state && (ltb job.attempt job.max_attempts && in_scope e job)

  unfoldable pub candidates : ExecutorRegistration → Store → List ExecutionJob
  candidates e s =
      limit 100
        (order_by (λ j. j.queued_at) (order_by (λ j. j.id) (select (eligible e) s.execution_jobs)))

  abbrev pub leased_to : ExecutorRegistration → ℕ → ExecutionJob → ExecutionJob
  leased_to e lease_seconds job = record job {
    state = ExecutionState.leased;
    attempt = job.attempt + 1;
    lease_owner_id = some e.id;
    lease_token_hash = some (env.token_hash env.fresh);
    leased_at = some env.now;
    lease_heartbeat_at = some env.now;
    lease_expires_at = some (env.now + lease_seconds);
    updated_at = env.now;
  }

  abbrev pub seen : ExecutorRegistration → ExecutorRegistration
  seen e = record e { last_heartbeat_at = some env.now }

  -- the body of the loop of `acquire_lease` for the first job that matches
  abbrev pub lease_job :
      ExecutorRegistration → ℕ → Option ExecutionJob → Exec Store (Option (ExecutionJob × Key))
  lease_job e lease_seconds none s = (ok none, s)
  lease_job e lease_seconds (some candidate) s =
      let s' : Store = put_executor (seen e) (revise (leased_to e lease_seconds) candidate.id s) in
      (ok (some (leased_to e lease_seconds candidate, env.fresh)), s')

  -- `acquire_lease`
  unfoldable pub acquire_lease : ExecutorRegistration → ℕ → Exec Store (Option (ExecutionJob × Key))
  unfolding recover_expired_jobs candidates matches
  acquire_lease e lease_seconds s =
      if is_active_executor e.status
      then (let s' : Store = (recover_expired_jobs s).1 in
          lease_job e lease_seconds (first (matches e) (candidates e s')) s')
      else (err executor_inactive, s)

  -- `_owned_job`
  abbrev pub check_owner :
      ExecutorRegistration → Key → Option ExecutionJob → Exec Store ExecutionJob
  check_owner e token none s = (err job_not_found, s)
  check_owner e token (some job) s =
      if not (same job.lease_owner_id (some e.id))
      then (err wrong_lease_owner, s)
      else if not (same job.lease_token_hash (some (env.token_hash token)))
      then (err wrong_lease_token, s)
      else (ok job, s)

  unfoldable pub owned_job : ExecutorRegistration → Key → Key → Exec Store ExecutionJob
  owned_job e job_id token s =
      if is_active_executor e.status
      then check_owner e token (get execution_key job_id s.execution_jobs) s
      else (err executor_inactive, s)

  -- `_leased_job`, which commits the release before it raises
  abbrev pub is_late : Option ℕ → Bool
  is_late none = true
  is_late (some t) = leb t env.now

  abbrev pub check_lease : ExecutionJob → Exec Store ExecutionJob
  check_lease job s =
      if is_live job.state && is_late job.lease_expires_at
      then (err lease_expired, release_or_expire "LeaseExpired" job.id s)
      else (ok job, s)

  unfoldable pub leased_job : ExecutorRegistration → Key → Key → Exec Store ExecutionJob
  unfolding owned_job release_or_expire
  leased_job e job_id token = do job ← owned_job e job_id token; check_lease job

  abbrev pub extended_lease : ℕ → ExecutionJob → ExecutionJob
  extended_lease lease_seconds job = record job {
    lease_heartbeat_at = some env.now;
    lease_expires_at = some (env.now + lease_seconds);
    updated_at = env.now;
  }

  -- `heartbeat_job`
  unfoldable pub heartbeat_job : ExecutorRegistration → Key → Key → ℕ → Exec Store ExecutionJob
  heartbeat_job e job_id token lease_seconds = do
    job ← leased_job e job_id token
    if is_live job.state
        then (do
          modify (revise (extended_lease lease_seconds) job.id)
          modify (put_executor (seen e))
          pure (extended_lease lease_seconds job))
        else raise execution_conflict

  -- What follows the change of the job in `start_job`: the step that waits is started, which
  -- commits, and the run that is planned is moved on; otherwise the change is committed as it is.
  -- The id in the name of the actor is left out.
  abbrev pub advance : ExecutorRegistration → ExecutionJob → Option Run → Exec Store (Unit {0})
  advance e job none = pure tt
  advance e job (some run) =
      if same_status run.status RunStatus.planning
      then (do
        moved ←
            transition env job.run_id RunStatus.implementing "RemoteExecutionStarted" "executor"
              (execution_started job.id job.attempt) (some job.run_step_id)
        pure tt)
      else pure tt

  abbrev pub advance_run : ExecutorRegistration → ExecutionJob → Exec Store (Unit {0})
  advance_run e job s = advance e job (get run_key job.run_id s.runs) s

  abbrev pub run_started : ExecutionJob → ExecutionJob
  run_started job = record job {
    state = ExecutionState.running;
    started_at = some env.now;
    updated_at = env.now;
  }

  abbrev pub waits : StepStatus → Bool
  waits StepStatus.pending = true
  waits _ = false

  abbrev pub start_with :
      ExecutorRegistration → ExecutionJob → Option RunStep → Exec Store (Unit {0})
  start_with e job none = raise step_not_found
  start_with e job (some step) =
      if waits step.status
      then (do
        begun ←
            atomic
              (do modify (revise run_started job.id); start_step env job.run_id job.run_step_id)
        advance_run e job)
      else atomic (do modify (revise run_started job.id); advance_run e job)

  -- `start_job`
  unfoldable pub start_job : ExecutorRegistration → Key → Key → Exec Store ExecutionJob
  unfolding leased_job
  start_job e job_id token = do
    job ← leased_job e job_id token
    if is_run_by_executor job.state
        then pure job
        else if is_leased job.state
        then (do
          step ← gets (λ s. get step_row_key job.run_step_id s.steps)
          start_with e job step
          reread job.id)
        else raise execution_conflict
