-- ===== src/ExecutionPlane/Orphans.antt =====
-- `recover_orphaned` and `requeue_dead_letter` of sacm/core/execution_plane_service.py.
use sacm_agent_runtime.Base.{
  Bool, Exec, Key, List, Option, String, [], err, execution_conflict, get, if◌then◌else◌, is_some,
  job_not_found, map, none, not, ok, same, select, some, test, true, update, ℕ, ◌&&◌, ◌+◌, ◌==◌,
  ◌∷◌,
}
use sacm_agent_runtime.Model.{
  Env, ExecutionJob, ExecutionState, ExecutorRegistration, RunStep, StepStatus, Store,
  execution_key, manual, step_is_failed, step_is_running, step_row_key,
}
use sacm_agent_runtime.RunService.Transitions.{revoke_for_job}
use sacm_agent_runtime.ExecutionPlane.{is_dead, is_late, is_live, is_revoked, released, revise}

-- what `recover_orphaned` returns, without the ids of the jobs
pub record OrphanReport : Type 0 where
  pub recovered : ℕ
  pub requeued : ℕ
  pub dead_lettered : ℕ
  pub reconciled_steps : ℕ

abbrev owner_of : ExecutionJob → Store → Option ExecutorRegistration
owner_of job s = elim job.lease_owner_id [
  | none ↦ none
  | some owner ↦ get (λ (e : ExecutorRegistration). e.id) owner s.executors
]

abbrev pub in_organization : Option Key → ExecutionJob → Bool
in_organization none job = true
in_organization (some o) job = same job.organization_id (some o)

module _ (env : Env) where
  abbrev reason_by_owner : ExecutionJob → Option ExecutorRegistration → Option String
  reason_by_owner job none = some "OrphanedLeaseOwner"
  reason_by_owner job (some owner) =
      if is_revoked owner.status
      then some "ExecutorRevoked"
      else if not (is_some job.lease_token_hash)
      then some "OrphanedLeaseToken"
      else none

  abbrev pub orphan_reason : Store → ExecutionJob → Option String
  orphan_reason s job =
      if is_late env job.lease_expires_at
      then some "LeaseExpired"
      else reason_by_owner job (owner_of job s)

  abbrev pub is_orphan : Option Key → Store → ExecutionJob → Bool
  is_orphan organization_id s job =
      is_live job.state && (in_organization organization_id job && is_some (orphan_reason s job))

  abbrev reason_text : Option String → String
  reason_text none = ""
  reason_text (some reason) = reason

  abbrev pub released_orphan : Store → ExecutionJob → ExecutionJob
  released_orphan s job = released env (reason_text (orphan_reason s job)) job

  abbrev reconciled : Bool → RunStep → RunStep
  reconciled dead step =
      if dead
      then record step {
        retry_count = step.retry_count + 1;
        status = StepStatus.failed;
        completed_at = some env.now;
      }
      else record step {
        retry_count = step.retry_count + 1;
        status = StepStatus.pending;
        started_at = none;
      }

  abbrev pub runs_step : ExecutionJob → Store → Bool
  runs_step job s =
      test (λ (x : RunStep). step_is_running x.status) (get step_row_key job.run_step_id s.steps)

  abbrev reconcile : ExecutionJob → Store → Store
  reconcile job s = record s {
    steps = update (λ x. x.id == job.run_step_id) (reconciled (is_dead job.state)) s.steps;
  }

  abbrev pub counted : Bool → ExecutionJob → OrphanReport → OrphanReport
  counted stepped job tally = record {
    recovered = tally.recovered + 1;
    requeued = tally.requeued + (if is_dead job.state then 0 else 1);
    dead_lettered = tally.dead_lettered + (if is_dead job.state then 1 else 0);
    reconciled_steps = tally.reconciled_steps + (if stepped then 1 else 0);
  }

  -- the rest of the loop, for the jobs as they were released, of which each was given its reason
  unfoldable pub settle_orphan : ExecutionJob × String → Store → Store
  unfolding revoke_for_job
  settle_orphan (job, reason) s =
      let freed : Store = revoke_for_job env job.id "control-plane" reason s in
      if runs_step job s then reconcile job freed else freed

  unfoldable pub settle_orphans :
      List (ExecutionJob × String) → OrphanReport → Store → OrphanReport × Store
  unfolding settle_orphan
  settle_orphans [] tally s = (tally, s)
  settle_orphans (j ∷ js) tally s =
      settle_orphans js (counted (runs_step j.0 s) j.0 tally) (settle_orphan j s)

  abbrev pub orphans : Option Key → Store → List (ExecutionJob × String)
  orphans organization_id s =
      map (λ j. (released_orphan s j, reason_text (orphan_reason s j)))
        (select (is_orphan organization_id s) s.execution_jobs)

  abbrev pub nothing_recovered : OrphanReport
  nothing_recovered = record {
    recovered = 0;
    requeued = 0;
    dead_lettered = 0;
    reconciled_steps = 0;
  }

  abbrev pub release_orphans : Option Key → Store → Store
  release_orphans organization_id s = record s {
    execution_jobs = update (is_orphan organization_id s) (released_orphan s) s.execution_jobs;
  }

  -- `recover_orphaned`
  unfoldable pub recover_orphaned : Option Key → Store → OrphanReport × Store
  unfolding settle_orphans
  recover_orphaned organization_id s =
      settle_orphans (orphans organization_id s) nothing_recovered
        (release_orphans organization_id s)

  -- The column `updated_at` is set by each update of the row.
  abbrev pub requeued_job : String → Bool → ExecutionJob → ExecutionJob
  requeued_job reason reset_attempts job = record job {
    state = ExecutionState.queued;
    queued_at = env.now;
    dead_lettered_at = none;
    expired_at = none;
    failure = none;
    last_recovery_reason = some (manual reason);
    attempt = if reset_attempts then 0 else job.attempt;
    updated_at = env.now;
  }

  abbrev reopened : RunStep → RunStep
  reopened step = record step {
    status = StepStatus.pending;
    started_at = none;
    completed_at = none;
  }

  abbrev pub reopen : Key → Store → Store
  reopen step_id s = record s {
    steps = update (λ x. (x.id == step_id) && step_is_failed x.status) reopened s.steps;
  }

  abbrev pub requeue : String → Bool → Option ExecutionJob → Exec Store ExecutionJob
  requeue reason reset_attempts none s = (err job_not_found, s)
  requeue reason reset_attempts (some job) s =
      if is_dead job.state
      then (
        ok (requeued_job reason reset_attempts job),
        reopen job.run_step_id (revise (requeued_job reason reset_attempts) job.id s),
      )
      else (err execution_conflict, s)

  -- `requeue_dead_letter`
  unfoldable pub requeue_dead_letter : Key → String → Bool → Exec Store ExecutionJob
  requeue_dead_letter job_id reason reset_attempts s =
      requeue reason reset_attempts (get execution_key job_id s.execution_jobs) s
