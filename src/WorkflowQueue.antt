-- ===== src/WorkflowQueue.antt =====
-- sacm/core/workflow_queue_service.py: one durable job for each run, claimed by workers under a
-- lease. Times are whole seconds; one clock reading serves a whole operation.
pub mod Processing
pub mod Claims
pub mod Fencing
pub mod Submission
pub mod Invariant
pub mod Settling
pub mod Outcomes
pub mod Histories
pub mod Heartbeat
pub mod Guard
use sacm_agent_runtime.Base.{
  Bool, Exec, Key, List, Option, String, [], any, cannot_be_queued, err, false, first, get,
  if◌then◌else◌, keyed, lease_lost, leb, ltb, none, ok, raise, same, select, some, true, update, ℕ,
  ◌&&◌, ◌*◌, ◌++◌, ◌+◌, ◌-◌, ◌==◌, ◌>>=◌, ◌>>◌, ◌||◌, ◌∷◌,
}
use sacm_agent_runtime.Model.{
  Env, JobState, Store, WorkflowJob, cancelled, failed, is_final, job_key, put_job, queued, running,
}
use sacm_agent_runtime.RunService.Transitions.{record_metric, require}

abbrev pub is_queued : JobState → Bool
is_queued JobState.queued = true
is_queued _ = false

abbrev pub is_running : JobState → Bool
is_running JobState.running = true
is_running _ = false

-- the run of `lease_expires_at <= now`; a missing time is never before another
abbrev pub before : Option ℕ → ℕ → Bool
before none now = false
before (some t) now = leb t now

abbrev pub after : Option ℕ → ℕ → Bool
after none now = false
after (some t) now = ltb now t

-- `get_for_run`
abbrev pub for_run : Key → WorkflowJob → Bool
for_run run_id j = j.run_id == run_id

unfoldable pub get_for_run : Key → Store → Option WorkflowJob
get_for_run run_id s = first (for_run run_id) s.workflow_jobs

module _ (env : Env) where
  abbrev pub new_job : Key → ℕ → WorkflowJob
  new_job run_id max_attempts = record {
    id = env.fresh;
    run_id = run_id;
    state = JobState.queued;
    attempt = 0;
    max_attempts = max_attempts;
    available_at = env.now;
    lease_token = none;
    lease_expires_at = none;
    last_error = none;
    created_at = env.now;
    updated_at = env.now;
    started_at = none;
    completed_at = none;
  }

  -- A finished job goes back to the queue. Its count of attempts stays.
  abbrev pub requeued : WorkflowJob → WorkflowJob
  requeued job = record job {
    state = JobState.queued;
    available_at = env.now;
    lease_token = none;
    lease_expires_at = none;
    last_error = none;
    updated_at = env.now;
    completed_at = none;
  }

  abbrev announced : String → WorkflowJob → Store → Store
  announced metric job s = record_metric env metric job.run_id 1 (some job.id) s

  abbrev pub enqueue : Key → ℕ → Option WorkflowJob → Exec Store WorkflowJob
  enqueue run_id max_attempts none s =
      let job = new_job run_id max_attempts in
      (
        ok job,
        announced "workflow.queued" job (record s { workflow_jobs = s.workflow_jobs ++ job ∷ [] }),
      )
  enqueue run_id max_attempts (some job) s =
      if is_queued job.state || is_running job.state then (ok job, s) else (
        ok (requeued job),
        announced "workflow.queued" (requeued job) (put_job (requeued job) s),
      )

  -- `submit`; the second argument is SACM_WORKFLOW_MAX_ATTEMPTS.
  unfoldable pub submit : Key → ℕ → Exec Store WorkflowJob
  unfolding require get_for_run record_metric
  submit run_id max_attempts = do
    run ← require run_id
    if is_final run.status
        then raise cannot_be_queued
        else (λ s. enqueue run_id max_attempts (get_for_run run_id s) s)

  abbrev pub is_open : JobState → Bool
  is_open state = is_queued state || is_running state

  abbrev pub withdrawn_job : WorkflowJob → WorkflowJob
  withdrawn_job job = record job {
    state = JobState.cancelled;
    lease_token = none;
    lease_expires_at = none;
    updated_at = env.now;
    completed_at = some env.now;
  }

  abbrev withdraw_job : Option WorkflowJob → Exec Store (Option WorkflowJob)
  withdraw_job none s = (ok none, s)
  withdraw_job (some job) s =
      if is_open job.state
      then (
        ok (some (withdrawn_job job)),
        announced "workflow.queue_cancelled" job (put_job (withdrawn_job job) s),
      )
      else (ok (some job), s)

  -- `cancel`
  unfoldable pub cancel_job : Key → Exec Store (Option WorkflowJob)
  unfolding get_for_run record_metric
  cancel_job run_id s = withdraw_job (get_for_run run_id s) s

  -- the body of the loop of `_recover_expired`
  abbrev pub lapsed : WorkflowJob → Bool
  lapsed job = is_running job.state && before job.lease_expires_at env.now

  abbrev pub reclaimed : WorkflowJob → WorkflowJob
  reclaimed job =
      let freed = record job {
        lease_token = none;
        lease_expires_at = none;
        last_error = some "Workflow worker lease expired.";
        updated_at = env.now;
      } in
      if ltb job.attempt job.max_attempts
      then record freed { state = JobState.queued; available_at = env.now }
      else record freed { state = JobState.failed; completed_at = some env.now }

  -- the metrics of the jobs that were expired
  unfoldable pub record_lapses : List WorkflowJob → Store → Store
  record_lapses [] s = s
  record_lapses (job ∷ jobs) s = record_lapses jobs (announced "workflow.lease_expired" job s)

  unfoldable pub recover_expired : Store → Store
  unfolding record_lapses record_metric
  recover_expired s =
      record_lapses (select lapsed s.workflow_jobs)
        (record s { workflow_jobs = update lapsed reclaimed s.workflow_jobs })

  abbrev pub claimable : WorkflowJob → Bool
  claimable job = is_queued job.state && leb job.available_at env.now

  -- `order_by(available_at, created_at)`
  abbrev pub comes_first : WorkflowJob → WorkflowJob → Bool
  comes_first j k =
      ltb j.available_at k.available_at
      || ((j.available_at == k.available_at) && leb j.created_at k.created_at)

  abbrev earlier : WorkflowJob → Option WorkflowJob → WorkflowJob
  earlier j none = j
  earlier j (some k) = if comes_first j k then j else k

  -- the first of the claimable jobs in that order
  unfoldable pub next_job : List WorkflowJob → Option WorkflowJob
  next_job [] = none
  next_job (j ∷ js) = let rest = next_job js in if claimable j then some (earlier j rest) else rest

  module _ (lease_seconds : ℕ) where
    abbrev pub claimed : WorkflowJob → WorkflowJob
    claimed job = record job {
      state = JobState.running;
      attempt = job.attempt + 1;
      lease_token = some env.fresh;
      lease_expires_at = some (env.now + lease_seconds);
      updated_at = env.now;
      started_at = some env.now;
    }

    -- the conditional update of `claim`, and the row that it leaves
    abbrev pub take_job : Option WorkflowJob → Exec Store (Option (WorkflowJob × Key))
    take_job none s = (ok none, s)
    take_job (some candidate) s =
        let mine = keyed job_key candidate.id (λ j. is_queued j.state) in
        if any mine s.workflow_jobs
        then (let s' : Store = record s { workflow_jobs = update mine claimed s.workflow_jobs } in
            elim (get job_key candidate.id s'.workflow_jobs) [
              | none ↦ (ok none, s')
              | some job ↦ (
                ok (some (job, env.fresh)),
                record_metric env "workflow.queue_latency_ms" job.run_id
                    (1000 * (env.now - job.available_at)) (some job.id) s',
              )
            ])
        else (ok none, s)

    -- `claim`
    unfoldable pub claim : Exec Store (Option (WorkflowJob × Key))
    claim s = let s' : Store = recover_expired s in take_job (next_job s'.workflow_jobs) s'

    abbrev pub extended : WorkflowJob → WorkflowJob
    extended job = record job {
      lease_expires_at = some (env.now + lease_seconds);
      updated_at = env.now;
    }

    abbrev pub holds : Key → WorkflowJob → Bool
    holds token job =
        is_running job.state
        && (same job.lease_token (some token) && after job.lease_expires_at env.now)

    -- `renew`
    unfoldable pub renew : Key → Key → Exec Store (Unit {0})
    renew job_id token s =
        let mine = keyed job_key job_id (holds token) in
        if any mine s.workflow_jobs
        then (ok tt, record s { workflow_jobs = update mine extended s.workflow_jobs })
        else (err lease_lost, s)

abbrev pub owns : Key → WorkflowJob → Bool
owns token job = is_running job.state && same job.lease_token (some token)

abbrev owned_by : Key → Option WorkflowJob → Exec Store WorkflowJob
owned_by token none s = (err lease_lost, s)
owned_by token (some job) s = if owns token job then (ok job, s) else (err lease_lost, s)

-- `_require_owned`; it does not look at the time.
unfoldable pub require_owned : Key → Key → Exec Store WorkflowJob
require_owned job_id token s = owned_by token (get job_key job_id s.workflow_jobs) s
