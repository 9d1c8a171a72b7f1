-- ===== src/RunService/Transitions.antt =====
-- The run-level operations of sacm/core/run_service.py. Each is one unit of work: it raises before
-- it changes the database, or its changes are committed together at its end.
use sacm_agent_runtime.Base.{
  Bool, Error, Exec, Key, List, Option, String, [], any, atomic, bad_run_status, err, false, first,
  get, if◌then◌else◌, incomplete_steps, invalid_transition, is_some, missing_supply_chain, modify,
  no_evidence_pack, none, not, ok, pure, raise, run_not_found, select, some, step_not_found, true,
  update, ℕ, ◌&&◌, ◌++◌, ◌==◌, ◌>>=◌, ◌>>◌, ◌||◌, ◌∷◌,
}
use sacm_agent_runtime.Model.{
  CredentialLease, Env, ExecutionJob, ExecutionState, Payload, Run, RunStatus, RunStep, Store,
  allowed_transitions, empty, is_closed, is_completed, is_failed, is_final, is_withdrawable, member,
  put_run, run_key, run_transition, same_status, step_is_completed,
}
use sacm_agent_runtime.RunService.Events.{append_event}
use sacm_agent_runtime.RunService.Snapshots.{checkpoint, list_steps}

abbrev found : {A : Type 0} → Error → Option A → Exec Store A
found e none = raise e
found e (some a) = pure a

-- `_require`
unfoldable pub require : Key → Exec Store Run
require run_id s = found run_not_found (get run_key run_id s.runs) s

abbrev pub step_of : Key → Key → RunStep → Bool
step_of run_id step_id x = (x.run_id == run_id) && (x.id == step_id)

-- `get_step`, and `_require_step`
unfoldable pub get_step : Key → Key → Store → Option RunStep
get_step run_id step_id s = first (step_of run_id step_id) s.steps

unfoldable pub require_step : Key → Key → Exec Store RunStep
unfolding get_step
require_step run_id step_id s = found step_not_found (get_step run_id step_id s) s

module _ (env : Env) where
  -- the row of the run after `SupplyChainService.refresh_completeness`, which commits it
  abbrev pub refreshed : Run → Run
  refreshed run = record run { missing_supply_chain_evidence = env.missing_evidence run.id }

  abbrev pub no_evidence : List String → Bool
  no_evidence [] = true
  no_evidence (x ∷ xs) = false

  -- `_validate_completion`; the run is the one object whose columns the refresh has changed.
  unfoldable pub validate_completion : Run → Exec Store Run
  unfolding list_steps
  validate_completion run s =
      if not (any (λ k. k == run.id) s.evidence_packs)
      then (err no_evidence_pack, s)
      else if any (λ (x : RunStep). not (step_is_completed x.status)) (list_steps run.id s)
      then (err incomplete_steps, s)
      else if env.production && not (no_evidence (env.missing_evidence run.id))
      then (err missing_supply_chain, put_run (refreshed run) s)
      else (ok (refreshed run), put_run (refreshed run) s)

  abbrev started : RunStatus → Option ℕ → Option ℕ
  started RunStatus.planning none = some env.now
  started _ at = at

  abbrev pub moved : RunStatus → Run → Run
  moved status run = record run {
    status = status;
    updated_at = env.now;
    started_at = started status run.started_at;
    completed_at = if is_closed status then some env.now else none;
  }

  -- the part of `transition` that changes the run, up to its commit
  unfoldable pub apply_status :
      Run → RunStatus → String → String → Payload → Option Key → Exec Store Run
  apply_status run status event_type actor payload step_id = atomic (do
    modify (put_run (moved status run))
    modify (append_event env (moved status run) event_type actor payload step_id)
    checkpoint env (moved status run) (run_transition event_type)
    pure (moved status run))

  abbrev pub validated : RunStatus → Run → Exec Store Run
  validated status run s = if is_completed status then validate_completion run s else (ok run, s)

  unfoldable pub transition :
      Key → RunStatus → String → String → Payload → Option Key → Exec Store Run
  transition run_id status event_type actor payload step_id = do
    run ← require run_id
    if same_status status run.status || member status (allowed_transitions run.status)
        then (do
          checked ← validated status run
          apply_status checked status event_type actor payload step_id)
        else raise invalid_transition

  -- `resume`
  unfoldable pub resume : Key → Exec Store Run
  resume run_id = do
    run ← require run_id
    if is_failed run.status
        then transition run_id RunStatus.planning "RunResumed" "user" empty none
        else raise bad_run_status

  abbrev pub is_active : ExecutionJob → Bool
  is_active job = is_withdrawable job.state

  abbrev pub withdrawn : ExecutionJob → ExecutionJob
  withdrawn job = record job {
    state = ExecutionState.cancelled;
    cancelled_at = some env.now;
    lease_owner_id = none;
    lease_token_hash = none;
    lease_expires_at = none;
    lease_heartbeat_at = none;
    updated_at = env.now;
  }

  -- `_revoke_record` of sacm/core/credential_lease_service.py
  abbrev revoked : String → String → CredentialLease → CredentialLease
  revoked actor reason l = record l {
    revoked_at = some env.now;
    revoked_by = some actor;
    revocation_reason = some reason;
  }

  -- `revoke_for_job` of sacm/core/credential_lease_service.py, with no commit of its own
  unfoldable pub revoke_for_job : Key → String → String → Store → Store
  revoke_for_job job_id actor reason s = record s {
    credential_leases =
        update (λ l. (l.job_id == job_id) && not (is_some l.revoked_at)) (revoked actor reason)
          s.credential_leases;
  }

  -- the loop of `cancel` over the active execution jobs of the run
  unfoldable pub withdraw_all : List ExecutionJob → Store → Store
  unfolding revoke_for_job
  withdraw_all [] s = s
  withdraw_all (job ∷ jobs) s = withdraw_all jobs (
      revoke_for_job job.id "user" "Execution run cancelled."
        (record s { execution_jobs = update (λ x. x.id == job.id) withdrawn s.execution_jobs }))

  unfoldable pub withdraw_active : Key → Store → Store
  withdraw_active run_id s =
      if env.execution_jobs_available
      then withdraw_all (select (λ j. (j.run_id == run_id) && is_active j) s.execution_jobs) s
      else s

  -- `LifecycleMetricService.record`
  unfoldable pub record_metric : String → Key → ℕ → Option Key → Store → Store
  record_metric metric run_id value details s = record s {
    metrics =
        s.metrics
        ++ record {
          run_id = run_id;
          task_id = elim (get run_key run_id s.runs) [ none ↦ none | some run ↦ some run.task_id ];
          metric = metric;
          value = value;
          details = details;
        }
          ∷ [];
  }

  -- `cancel`
  unfoldable pub cancel : Key → Exec Store Run
  cancel run_id = do
    run ← require run_id
    if is_final run.status then raise bad_run_status else (do
      stopped ← atomic (do
        modify (withdraw_active run_id)
        modify (put_run (record run { cancellation_requested = true }))
        transition run_id RunStatus.cancelled "RunCancelled" "user" empty none)
      modify (record_metric "workflow.cancelled" run_id 1 none)
      pure stopped)
