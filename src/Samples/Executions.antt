-- ===== src/Samples/Executions.antt =====
-- The theorems on the execution plane at concrete jobs.
use sacm_agent_runtime.Base.{
  get, Key, List, [], any, err, false, none, ok, refl, some, true, wrong_lease_token, ◌+◌, ◌==◌,
  ◌∷◌, ◌≡◌, ◌≤◌, ◌⊎◌,
}
use sacm_agent_runtime.Model.{
  execution_key, Env, ExecutionJob, ExecutionState, ExecutorRegistration, ExecutorStatus, RunStatus,
  StepStatus, Store,
}
use sacm_agent_runtime.ExecutionPlane.{
  release_or_expire, owned_job, acquire_lease, candidates, leased_job, leased_to, matches,
  owned_job, recover_expired_jobs, released, revoke_all, start_job,
}
use sacm_agent_runtime.ExecutionPlane.Orphans.{
  is_orphan, recover_orphaned, requeue_dead_letter, requeued_job,
}
use sacm_agent_runtime.ExecutionPlane.Scheduling.{JobRequest, JobScope, schedule_job, scheduled_job}
use sacm_agent_runtime.RunService.Transitions.{get_step, require, require_step}
use sacm_agent_runtime.RunService.Events.{append_event, latest}
use sacm_agent_runtime.RunService.Snapshots.{checkpoint, create_snapshot, list_steps}
use sacm_agent_runtime.ExecutionPlane.Idempotence.{schedule_job_twice}
use sacm_agent_runtime.ExecutionPlane.Results.{AgentOperations, SignedResult}
use sacm_agent_runtime.ExecutionPlane.Histories.{
  AllFresh, PlaneAction, acquiring, finishing, perform_on_jobs, recovering_expired, scheduling,
}
use sacm_agent_runtime.ExecutionPlane.Invariant.{
  AllJobsWellFormed, perform_on_jobs-AllJobsWellFormed,
}
use sacm_agent_runtime.ExecutionPlane.Refinement.{AllLater, perform_on_jobs-AllLater}
use sacm_agent_runtime.ExecutionPlane.Acquisition.{IsAcquired, acquire_lease_contract, recovered}
use sacm_agent_runtime.ExecutionPlane.Fencing.{IsReleased, leased_job_fences}
use sacm_agent_runtime.ExecutionPlane.Recovered.{recover_orphaned_contract}
use sacm_agent_runtime.ExecutionPlane.Stranding.{requeue_dead_letter_strands}
use sacm_agent_runtime.Samples.{
  later_env, remote_job, run_with, sample_env, sample_store, step_with,
}

abbrev executor : ExecutorRegistration
executor = record {
  id = 51;
  organization_id = none;
  project_id = some 4;
  customer_deployment_id = none;
  status = ExecutorStatus.active;
  capabilities = 54 ∷ [];
  labels = [];
  auth_token_hash = 57;
  signing_key_fingerprint = 63;
  last_heartbeat_at = some 950;
  revoked_at = none;
  revoked_by = none;
  revocation_reason = none;
}

abbrev plane_store : ExecutionJob → Store
plane_store job =
    record (sample_store (run_with RunStatus.planning ∷ []) (step_with StepStatus.pending ∷ [])
      []) { execution_jobs = job ∷ []; executors = executor ∷ [] }

abbrev queued_job : ExecutionJob
queued_job = remote_job ExecutionState.queued none none none

-- its lease is over at the sample's clock
abbrev lapsing_job : ExecutionJob
lapsing_job = remote_job ExecutionState.running (some 51) (some 52) (some 990)

abbrev dead_job : ExecutionJob
dead_job = record (remote_job ExecutionState.dead_letter none none none) { attempt = 3 }

abbrev work : JobRequest
work = record {
  run_id = 1;
  run_step_id = 5;
  task = record { run_id = 1; step_id = 5; digest = 56 };
  idempotency_key = 59;
  required_capabilities = 54 ∷ [];
  required_labels = [];
  max_attempts = 3;
  customer_deployment_id = none;
  default_deployment_id = 61;
}

abbrev deployment_scope : JobScope
deployment_scope = record {
  organization_id = none;
  project_id = none;
  customer_deployment_id = some 61;
}

-- a service that records nothing and takes every signature
abbrev silent_agents : AgentOperations
silent_agents = record {
  submit = λ commit job result s. (ok none, s);
  has_committed = λ job result s. false;
  verify = λ e result signature. true;
  default_deployment_id = 61;
  recovery_key = λ run_id attempt. run_id + attempt;
  submit-jobs = λ commit job result s. refl;
}

abbrev signed_result : SignedResult
signed_result = record {
  lease_token = 78;
  result = record {
    run_id = 1;
    step_id = 5;
    is_failed_result = false;
    failure = none;
    digest = 64;
  };
  result_hash = 64;
  signing_key_fingerprint = 63;
  signature = 65;
}

abbrev calls : List (Env × PlaneAction)
calls =
    (sample_env, scheduling work)
    ∷ (later_env, recovering_expired)
    ∷ (later_env, acquiring executor 300)
    ∷ (later_env, finishing executor 50 false signed_result)
    ∷ []

calls_fresh : AllFresh silent_agents calls (plane_store lapsing_job)
unfolding schedule_job recover_expired_jobs revoke_all acquire_lease candidates matches require
    require_step get_step append_event checkpoint create_snapshot list_steps latest start_job
    leased_job owned_job
calls_fresh = (refl, (refl, (refl, (refl, tt))))

perform_on_jobs-AllJobsWellFormed_example :
    AllJobsWellFormed (perform_on_jobs silent_agents calls (plane_store lapsing_job))
perform_on_jobs-AllJobsWellFormed_example =
    perform_on_jobs-AllJobsWellFormed silent_agents calls (plane_store lapsing_job) calls_fresh
      (refl, tt) (refl, tt)

perform_on_jobs-AllLater_example :
    AllLater
      (lapsing_job ∷ [])
      (perform_on_jobs silent_agents calls (plane_store lapsing_job)).execution_jobs
perform_on_jobs-AllLater_example =
    perform_on_jobs-AllLater silent_agents calls (plane_store lapsing_job) calls_fresh (refl, tt)
      (refl, tt)

abbrev after_recovery : Store
after_recovery = recovered sample_env executor 300 (plane_store queued_job)

acquire_lease_contract_example :
    ((any (matches executor) (candidates sample_env executor after_recovery) ≡ false)
      × (acquire_lease sample_env executor 300 (plane_store queued_job)
          ≡ (ok none, after_recovery)))
    ⊎ ((any (matches executor) (candidates sample_env executor after_recovery) ≡ true)
        × ((job : ExecutionJob) × (token : Key) × ((acquire_lease sample_env executor 300
                (plane_store queued_job)).0
              ≡ ok (some (job, token)))
            × IsAcquired sample_env executor 300 after_recovery
                (acquire_lease sample_env executor 300 (plane_store queued_job)).1
                job
                token))
acquire_lease_contract_example =
    acquire_lease_contract sample_env executor 300 (plane_store queued_job) refl (refl, tt)

leased_job_fences_example :
    let s' = (acquire_lease sample_env executor 300 (plane_store queued_job)).1 in
    let late : Store = release_or_expire later_env "LeaseExpired" 50 s' in
    (leased_job later_env executor 50 40 s' ≡ (err wrong_lease_token, s'))
    × ((row : ExecutionJob) × (get execution_key 50 late.execution_jobs ≡ some row)
        × IsReleased (leased_to sample_env executor 300 queued_job) row)
    × (owned_job later_env executor 50 40 s' ≡ (err wrong_lease_token, s'))
unfolding acquire_lease recover_expired_jobs revoke_all candidates matches
leased_job_fences_example =
    leased_job_fences sample_env executor 300 (plane_store queued_job)
      (leased_to sample_env executor 300 queued_job) 77 later_env executor 40 refl (refl, tt) refl

recover_orphaned_contract_example :
    let (r, s') = recover_orphaned sample_env none (plane_store lapsing_job) in
    (s'.execution_jobs ≡ released sample_env "LeaseExpired" lapsing_job ∷ [])
    × (any (is_orphan sample_env none s') s'.execution_jobs ≡ false)
    × (r.recovered ≡ 1)
    × (r.requeued + r.dead_lettered ≡ r.recovered)
    × (r.reconciled_steps ≤ r.recovered)
recover_orphaned_contract_example =
    recover_orphaned_contract sample_env none (plane_store lapsing_job)

abbrev two_jobs : Store
two_jobs = record (plane_store dead_job) {
  execution_jobs = dead_job ∷ record queued_job { id = 58 } ∷ [];
}

requeue_dead_letter_strands_example : (58 == 50) ≡ false
unfolding requeue_dead_letter acquire_lease recover_expired_jobs revoke_all candidates matches
requeue_dead_letter_strands_example =
    requeue_dead_letter_strands sample_env 50 "checked" two_jobs
      (requeued_job sample_env "checked" false dead_job) later_env executor 300
      (leased_to later_env executor 300 (record queued_job { id = 58 })) 78 (refl, (refl, tt))
      (refl, (refl, tt)) refl refl refl

schedule_job_twice_example :
    schedule_job later_env work (schedule_job sample_env work (plane_store lapsing_job)).1 ≡ (
      ok (scheduled_job sample_env deployment_scope work),
      (schedule_job sample_env work (plane_store lapsing_job)).1,
    )
unfolding schedule_job require require_step get_step append_event checkpoint create_snapshot
    list_steps latest
schedule_job_twice_example =
    schedule_job_twice sample_env work (plane_store lapsing_job)
      (scheduled_job sample_env deployment_scope work) later_env refl
