-- ===== src/Samples/Queues.antt =====
-- The theorems on the queue at concrete jobs.
use sacm_agent_runtime.Base.{
  ◌⊎◌, Key, [], any, arith, err, false, get, if◌then◌else◌, inr, invalid_transition, lease_lost,
  ltb, none, ok, refl, some, true, ℕ, ◌&&◌, ◌+◌, ◌==◌, ◌∷◌, ◌≡◌, ◌≤◌,
}
use sacm_agent_runtime.Model.{
  job_key, WorkflowJob, Env, JobState, RunStatus, Store, WorkflowJob, job_key,
}
use sacm_agent_runtime.RunService.Transitions.{require}
use sacm_agent_runtime.WorkflowQueue.{
  claim, claimable, claimed, get_for_run, is_open, next_job, recover_expired, renew, requeued,
  submit,
}
use sacm_agent_runtime.WorkflowQueue.Processing.{complete, conclude, fail, retry_delay, settle}
use sacm_agent_runtime.WorkflowQueue.Claims.{
  is_next, HasEnded, IsReclaimed, next_job-IsNext, recover_expired_contract,
}
use sacm_agent_runtime.WorkflowQueue.Fencing.{claim_fences}
use sacm_agent_runtime.WorkflowQueue.Invariant.{AllWellFormed}
use sacm_agent_runtime.WorkflowQueue.Submission.{submit_twice}
use sacm_agent_runtime.WorkflowQueue.Histories.{claiming, failing, perform, perform-AllWellFormed}
use sacm_agent_runtime.WorkflowQueue.Outcomes.{
  IsRetried, fail_retries, fail_stranded, retry_delay-bounds,
}
use sacm_agent_runtime.WorkflowQueue.Heartbeat.{
  Round, WorkflowLeaseHeartbeat, beat, check, enter, exit, run, stop,
}
use sacm_agent_runtime.WorkflowQueue.Guard.{exit-renewed, renewed}
use sacm_agent_runtime.Samples.{job_with, later_env, run_with, sample_env, sample_store}

-- a job that waits, and one that runs
abbrev waiting : WorkflowJob
waiting = job_with JobState.queued 0 none

abbrev working : ℕ → WorkflowJob
working attempt = job_with JobState.running attempt (some 40)

abbrev queue_store : WorkflowJob → Store
queue_store job = sample_store (run_with RunStatus.awaiting_approval ∷ []) [] (job ∷ [])

claim_fences_example :
    let j = claimed sample_env 300 waiting in
    let s' = (claim sample_env 300 (queue_store waiting)).1 in
    let valid = 77 == 40 in
    (complete later_env j.id 40 s'
      ≡ (if valid then conclude later_env j s' else (err lease_lost, s')))
    × (fail later_env j.id 40 "error" s'
        ≡ (if valid then settle later_env "error" j s' else (err lease_lost, s')))
    × ((renew later_env 300 j.id 40 s').0
        ≡ (if valid && ltb later_env.now (sample_env.now + 300) then ok tt else err lease_lost))
unfolding claim recover_expired next_job
claim_fences_example =
    claim_fences sample_env 300 (queue_store waiting) (claimed sample_env 300 waiting) 77 40
      later_env 300 "error" (refl, tt) refl

perform-AllWellFormed_example : AllWellFormed (
    perform
      ((sample_env, claiming 300) ∷ (later_env, failing 9 77 "error") ∷ [])
      (queue_store waiting))
perform-AllWellFormed_example =
    perform-AllWellFormed ((sample_env, claiming 300) ∷ (later_env, failing 9 77 "error") ∷ [])
      (queue_store waiting) (record { token = refl; expiry = refl; completion = refl }, tt)

next_job-IsNext_example :
    (claimable sample_env waiting ≡ true)
    × (is_next sample_env waiting (working 1 ∷ waiting ∷ []) ≡ true)
unfolding next_job
next_job-IsNext_example = next_job-IsNext sample_env (working 1 ∷ waiting ∷ []) waiting refl

recover_expired_contract_example :
    let row = get job_key 9 (recover_expired later_env (queue_store (working 1))).workflow_jobs in
    (HasEnded later_env (working 1)
      × ((job : WorkflowJob) × (row ≡ some job) × IsReclaimed later_env (working 1) job))
    ⊎ (¬ HasEnded later_env (working 1) × (row ≡ some (working 1)))
recover_expired_contract_example =
    recover_expired_contract later_env (queue_store (working 1)) 9 (working 1) refl

retry_delay-bounds_example :
    (1 ≤ retry_delay 3) × (retry_delay 3 ≤ 300) × (retry_delay 3 ≤ retry_delay 4)
retry_delay-bounds_example = retry_delay-bounds 3

fail_retries_example :
    let (result, s') = fail sample_env 9 40 "error" (queue_store (working 1)) in
    (result ≡ ok tt)
    × ((job : WorkflowJob) × IsRetried sample_env "error" (working 1) job
        × ((k : Key)
            → get job_key k s'.workflow_jobs
              ≡ (if 9 == k then some job else get job_key k (working 1 ∷ []))))
    × (s'.runs ≡ run_with RunStatus.awaiting_approval ∷ [])
    × (s'.events ≡ [])
fail_retries_example =
    fail_retries sample_env 9 40 "error" (queue_store (working 1)) (working 1) refl refl
      (omega arith)

fail_stranded_example :
    fail sample_env 9 40 "error" (queue_store (working 3))
    ≡ (err invalid_transition, queue_store (working 3))
fail_stranded_example =
    fail_stranded sample_env 9 40 "error" (queue_store (working 3)) (working 3)
      (run_with RunStatus.awaiting_approval) refl refl (omega arith) refl (inr refl)

abbrev sample_guard : WorkflowLeaseHeartbeat
sample_guard = record {
  job_id = 9;
  token = 40;
  lease_seconds = 300;
  interval = 90000;
  stop_set = false;
  failure = none;
  started = false;
}

abbrev round : Env → Round
round env = record { env = env; others = λ s. s; session_error = none; close_error = none }

exit-renewed_example :
    any
      (renewed sample_guard 1030)
      (run
        (round sample_env ∷ round later_env ∷ [])
        (enter sample_guard, queue_store (working 1))).1.workflow_jobs
    ≡ true
unfolding enter run beat renew exit stop check
exit-renewed_example =
    exit-renewed sample_guard (queue_store (working 1)) (round sample_env ∷ []) (round later_env)
      false refl refl refl

-- a failed job goes back to the queue
abbrev failed_store : Store
failed_store = queue_store (job_with JobState.failed 3 none)

submit_twice_example :
    let job = requeued sample_env (job_with JobState.failed 3 none) in
    (is_open sample_env job.state ≡ true)
    × (submit later_env 1 5 (submit sample_env 1 3 failed_store).1
        ≡ (ok job, (submit sample_env 1 3 failed_store).1))
unfolding submit require get_for_run
submit_twice_example =
    submit_twice sample_env 1 3 failed_store later_env 5
      (requeued sample_env (job_with JobState.failed 3 none)) refl
