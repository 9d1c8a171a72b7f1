-- ===== src/WorkflowQueue/Processing.antt =====
-- `fail`, `complete` and `process_one` of sacm/core/workflow_queue_service.py. The workflow itself,
-- `LocalWorkflow.execute` under the lease guard, is a parameter.
use sacm_agent_runtime.Base.{
  Bool, Error, Exec, Key, Option, Result, String, atomic, err, false, first_chars, get,
  if◌then◌else◌, lease_held, lease_lost, ltb, min, modify, none, ok, pure, some, true, ℕ, ◌+◌, ◌-◌,
  ◌>>=◌, ◌>>◌, ◌^◌,
}
use sacm_agent_runtime.Model.{
  Env, JobState, Run, RunStatus, Store, WorkflowJob, is_closed, job_failed, put_job, run_key,
}
use sacm_agent_runtime.RunService.Transitions.{record_metric, transition}
use sacm_agent_runtime.WorkflowQueue.{claim, require_owned}

-- `min(300, 2 ** max(0, attempt - 1))`; the subtraction of ℕ stops at 0 too.
unfoldable pub retry_delay : ℕ → ℕ
retry_delay attempt = min 300 (2 ^ (attempt - 1))

module _ (env : Env) where
  abbrev released : String → WorkflowJob → WorkflowJob
  released error job = record job {
    last_error = some (first_chars 4000 error);
    lease_token = none;
    lease_expires_at = none;
    updated_at = env.now;
  }

  abbrev pub retried : String → WorkflowJob → WorkflowJob
  retried error job = record (released error job) {
    state = JobState.queued;
    available_at = env.now + retry_delay job.attempt;
  }

  abbrev pub given_up : String → WorkflowJob → WorkflowJob
  given_up error job = record (released error job) {
    state = JobState.failed;
    completed_at = some env.now;
  }

  -- The run of a job with no attempts left fails too, unless it is closed already.
  abbrev pub fail_run : WorkflowJob → Option Run → Exec Store (Unit {0})
  fail_run job none = pure tt
  fail_run job (some run) = if is_closed run.status then pure tt else (do
    transition env run.id RunStatus.failed "WorkflowJobFailed" "system"
        (job_failed job.id job.last_error) none
    pure tt)

  -- one commit: the job and its run
  abbrev pub give_up : String → WorkflowJob → Exec Store (Unit {0})
  give_up error job = do
    modify (put_job (given_up error job))
    λ s. fail_run (given_up error job) (get run_key job.run_id s.runs) s

  abbrev pub settle : String → WorkflowJob → Exec Store (Unit {0})
  settle error job =
      if ltb job.attempt job.max_attempts
      then (do
        modify (put_job (retried error job))
        modify (record_metric env "workflow.retry_scheduled" job.run_id 1 (some job.id)))
      else (do
        atomic (give_up error job)
        modify (record_metric env "workflow.failed" job.run_id 1 (some job.id)))

  -- `fail`
  unfoldable pub fail : Key → Key → String → Exec Store (Unit {0})
  unfolding require_owned transition record_metric
  fail job_id token error = do job ← require_owned job_id token; settle error job

  abbrev pub finished : WorkflowJob → WorkflowJob
  finished job = record job {
    state = JobState.completed;
    lease_token = none;
    lease_expires_at = none;
    updated_at = env.now;
    completed_at = some env.now;
  }

  abbrev pub conclude : WorkflowJob → Exec Store (Unit {0})
  conclude job = do
    modify (put_job (finished job))
    modify (record_metric env "workflow.completed" job.run_id 1 (some job.id))

  -- `complete`, which is `_finish` with the state COMPLETED
  unfoldable pub complete : Key → Key → Exec Store (Unit {0})
  unfolding require_owned record_metric
  complete job_id token = do job ← require_owned job_id token; conclude job

  pub data Report : Type 0 where
    completed_with : (output : String) → Report
    failed_with_error : Error → Report
    lease_lost_with : Error → Report

  -- the exceptions of the services that are a `RuntimeError`
  abbrev pub is_runtime_error : Error → Bool
  is_runtime_error lease_lost = true
  is_runtime_error lease_held = true
  is_runtime_error _ = false

  module _ (lease_seconds : ℕ) (describe : Error → String)
      (work : Key → Key → Key → Exec Store String) where
    -- `except Exception`: the job is failed, and a lost lease is only reported.
    abbrev handle_error :
        WorkflowJob → Key → Error → Result (Unit {0}) × Store → Result (Option Report) × Store
    handle_error job token e (ok _, s) = (ok (some (failed_with_error e)), s)
    handle_error job token e (err f, s) =
        if is_runtime_error f then (ok (some (lease_lost_with e)), s) else (err f, s)

    abbrev after_work : WorkflowJob → Key → Result String × Store → Result (Option Report) × Store
    after_work job token (err e, s) = handle_error job token e (fail job.id token (describe e) s)
    after_work job token (ok output, s) =
        (do complete job.id token; pure (some (completed_with output))) s

    abbrev process : Option (WorkflowJob × Key) → Exec Store (Option Report)
    process none s = (ok none, s)
    process (some (job, token)) s = after_work job token (work job.id token job.run_id s)

    unfoldable pub process_one : Exec Store (Option Report)
    unfolding claim fail complete
    process_one = do taken ← claim env lease_seconds; process taken
