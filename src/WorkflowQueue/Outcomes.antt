-- ===== src/WorkflowQueue/Outcomes.antt =====
-- What a failed job becomes, and what becomes of its run.
use mathlib.Core.Path.{subst}
use sacm_agent_runtime.Base.{
  Key, String, arith, err, false, first_chars, get, get-key, get-put, if◌then◌else◌, inl, inr,
  invalid_transition, ltb, min, none, ok, refl, some, suc, sym, true, zero, ℕ, ◌+◌, ◌-◌, ◌<◌, ◌==◌,
  ◌^◌, ◌≡◌, ◌≤◌, ◌⊎◌,
}
use sacm_agent_runtime.Model.{
  Env, JobState, Payload, Run, RunStatus, Store, WorkflowJob, allowed_transitions, is_closed,
  job_failed, job_key, put_job, run_key,
}
use sacm_agent_runtime.RunService.Transitions.{record_metric, require, transition}
use sacm_agent_runtime.WorkflowQueue.{owns, require_owned}
use sacm_agent_runtime.WorkflowQueue.Processing.{fail, given_up, retried, retry_delay, settle}

power-le : (n : ℕ) → 1 ≤ 2 ^ n
power-le zero = omega arith
power-le (suc n) = omega (arith, power-le n)

-- The delay before the next attempt is at least one second and at most five minutes, and it never
-- becomes shorter from one attempt to the next.
pub retry_delay-bounds :
    (attempt : ℕ)
    → (1 ≤ retry_delay attempt)
      × (retry_delay attempt ≤ 300)
      × (retry_delay attempt ≤ retry_delay (attempt + 1))
unfolding retry_delay
retry_delay-bounds zero = (omega arith, omega arith, omega arith)
retry_delay-bounds (suc n) =
    let this : suc n - 1 ≡ n = omega arith in
    let next : suc n + 1 - 1 ≡ suc n = omega arith in
    rw (this, next) (omega (arith, power-le n), omega arith, omega (arith, power-le n))

-- A run that is CREATED or AWAITING_APPROVAL cannot become FAILED.
refused_failure :
    (env : Env) (run : Run) (payload : Payload) (s : Store)
    → get run_key run.id s.runs ≡ some run
    → (run.status ≡ RunStatus.created) ⊎ (run.status ≡ RunStatus.awaiting_approval)
    → transition env run.id RunStatus.failed "WorkflowJobFailed" "system" payload none s
      ≡ (err invalid_transition, s)
unfolding transition require allowed_transitions
refused_failure env run payload s h (inl e) = ground arith
refused_failure env run payload s h (inr e) = ground arith

-- A job that waits for its next attempt, after one that has failed.
pub record IsRetried (env : Env) (error : String) (job job' : WorkflowJob) : Type 0 where
  pub waits : job'.state ≡ JobState.queued
  pub no_token : job'.lease_token ≡ none
  pub no_lease : job'.lease_expires_at ≡ none
  pub reported : job'.last_error ≡ some (first_chars 4000 error)
  pub delayed : job'.available_at ≡ env.now + min 300 (2 ^ (job.attempt - 1))
  pub updated_at : job'.updated_at ≡ env.now
  pub others : job' ≡ record job {
    state = job'.state;
    lease_token = job'.lease_token;
    lease_expires_at = job'.lease_expires_at;
    last_error = job'.last_error;
    available_at = job'.available_at;
    updated_at = job'.updated_at;
  }

retried-IsRetried :
    (env : Env) (error : String) (job : WorkflowJob)
    → IsRetried env error job (retried env error job)
unfolding retry_delay
retried-IsRetried env error job = record {
  waits = refl;
  no_token = refl;
  no_lease = refl;
  reported = refl;
  delayed = refl;
  updated_at = refl;
  others = refl;
}

module _ (env : Env) (job_id token : Key) (error : String) (s : Store) (job : WorkflowJob) where
  fail-owned :
      get job_key job_id s.workflow_jobs ≡ some job
      → owns token job ≡ true
      → fail env job_id token error s ≡ settle env error job s
  unfolding fail require_owned
  fail-owned h o = rw h (rw o refl)

  -- A worker that holds a job with attempts left and reports a failure: the call succeeds; the job
  -- is QUEUED with the first 4,000 characters of the error, without a token and a lease, and
  -- available again after two to the number of its attempts but one seconds, or five minutes if
  -- these are fewer, with the time of the change, and with all else of it as it was; and no other
  -- job, no run and no event changes.
  pub fail_retries :
      get job_key job_id s.workflow_jobs ≡ some job
      → owns token job ≡ true
      → job.attempt < job.max_attempts
      → let (result, s') = fail env job_id token error s in
        (result ≡ ok tt)
        × ((job' : WorkflowJob) × IsRetried env error job job'
            × ((k : Key)
                → get job_key k s'.workflow_jobs
                  ≡ (if job_id == k then some job' else get job_key k s.workflow_jobs)))
        × (s'.runs ≡ s.runs)
        × (s'.events ≡ s.events)
  unfolding record_metric
  fail_retries h o l =
      let same_id : job.id ≡ job_id = get-key job_key job_id s.workflow_jobs job h in
      let more : ltb job.attempt job.max_attempts ≡ true = ground arith in
      rw (fail-owned h o) (
        rw more (
          refl,
          (
            retried env error job,
            retried-IsRetried env error job,
            λ k.
                let put = get-put job_key (retried env error job) k s.workflow_jobs in ground arith,
          ),
          refl,
          refl,
        ))

  -- If the last attempt of a job fails while its run is still CREATED or AWAITING_APPROVAL, then
  -- `fail` raises, because the run cannot become FAILED from there, and nothing is written: the job
  -- stays RUNNING with its lease.
  pub fail_stranded :
      (run : Run)
      → get job_key job_id s.workflow_jobs ≡ some job
      → owns token job ≡ true
      → job.max_attempts ≤ job.attempt
      → get run_key job.run_id s.runs ≡ some run
      → (run.status ≡ RunStatus.created) ⊎ (run.status ≡ RunStatus.awaiting_approval)
      → fail env job_id token error s ≡ (err invalid_transition, s)
  fail_stranded run h o l r st =
      let spent : ltb job.attempt job.max_attempts ≡ false = ground arith in
      let same_id : run.id ≡ job.run_id = get-key run_key job.run_id s.runs run r in
      let own : get run_key run.id s.runs ≡ some run =
        subst (λ k. get run_key k s.runs ≡ some run) (sym same_id) r in
      let open_run : is_closed run.status ≡ false = ground arith in
      let refused =
        refused_failure env run (job_failed job.id (some (first_chars 4000 error)))
          (put_job (given_up env error job) s) own st in
      rw (fail-owned h o) (rw spent (rw r (rw open_run (rw refused refl))))
