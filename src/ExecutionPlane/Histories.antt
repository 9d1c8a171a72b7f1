-- ===== src/ExecutionPlane/Histories.antt =====
-- Whole histories of the execution plane, and the life of a job that they refine.
use sacm_agent_runtime.Base.{Bool, Key, List, Option, String, [], get, none, ℕ, ◌∷◌, ◌≡◌}
use sacm_agent_runtime.Model.{Env, ExecutionJob, ExecutorRegistration, Store, execution_key}
use sacm_agent_runtime.ExecutionPlane.{
  acquire_lease, heartbeat_job, recover_expired_jobs, start_job,
}
use sacm_agent_runtime.ExecutionPlane.Orphans.{recover_orphaned, requeue_dead_letter}
use sacm_agent_runtime.ExecutionPlane.Results.{AgentOperations, SignedResult, finish_job}
use sacm_agent_runtime.ExecutionPlane.Finishing.{finish-IsEvolved}
use sacm_agent_runtime.ExecutionPlane.Scheduling.{JobRequest, schedule_job}
use sacm_agent_runtime.ExecutionPlane.Scheduled.{schedule-IsEvolved}
use sacm_agent_runtime.ExecutionPlane.Evolution.{
  IsEvolved, acquire-IsEvolved, recover_expired-IsEvolved, recover_orphaned-IsEvolved,
  requeue-IsEvolved,
}
use sacm_agent_runtime.ExecutionPlane.Leasing.{heartbeat-IsEvolved, start-IsEvolved}

-- the methods that schedule, lease, run, end, recover and requeue jobs, with their arguments
pub data PlaneAction : Type 0 where
  scheduling : (request : JobRequest) → PlaneAction
  acquiring : (e : ExecutorRegistration) (lease_seconds : ℕ) → PlaneAction
  finishing :
      (e : ExecutorRegistration) (job_id : Key) (as_failed : Bool) (signed : SignedResult)
      → PlaneAction
  starting : (e : ExecutorRegistration) (job_id token : Key) → PlaneAction
  beating : (e : ExecutorRegistration) (job_id token : Key) (lease_seconds : ℕ) → PlaneAction
  recovering_expired : PlaneAction
  recovering_orphans : (organization_id : Option Key) → PlaneAction
  requeueing : (job_id : Key) (reason : String) (reset_attempts : Bool) → PlaneAction

module _ (agents : AgentOperations) (env : Env) where
  abbrev pub act_on_jobs : PlaneAction → Store → Store
  act_on_jobs (scheduling request) s = (schedule_job env request s).1
  act_on_jobs (acquiring e lease_seconds) s = (acquire_lease env e lease_seconds s).1
  act_on_jobs (starting e job_id token) s = (start_job env e job_id token s).1
  act_on_jobs (beating e job_id token lease_seconds) s =
      (heartbeat_job env e job_id token lease_seconds s).1
  act_on_jobs (finishing e job_id as_failed signed) s =
      (finish_job agents env e job_id as_failed signed s).1
  act_on_jobs recovering_expired s = (recover_expired_jobs env s).1
  act_on_jobs (recovering_orphans organization_id) s = (recover_orphaned env organization_id s).1
  act_on_jobs (requeueing job_id reason reset_attempts) s =
      (requeue_dead_letter env job_id reason reset_attempts s).1

  act_on_jobs-IsEvolved :
      (from : List ExecutionJob) (a : PlaneAction) (s : Store)
      → get execution_key env.fresh s.execution_jobs ≡ none
      → IsEvolved from s
      → IsEvolved from (act_on_jobs a s)
  act_on_jobs-IsEvolved from (scheduling request) s g h = schedule-IsEvolved from env request s h g
  act_on_jobs-IsEvolved from (acquiring e n) s g h = acquire-IsEvolved from env e n s h
  act_on_jobs-IsEvolved from (starting e job_id token) s g h =
      start-IsEvolved env e job_id token from s h
  act_on_jobs-IsEvolved from (beating e job_id token n) s g h =
      heartbeat-IsEvolved env e job_id token from n s h
  act_on_jobs-IsEvolved from (finishing e job_id as_failed signed) s g h =
      finish-IsEvolved from agents env e job_id as_failed signed s h g
  act_on_jobs-IsEvolved from recovering_expired s g h = recover_expired-IsEvolved from env s h
  act_on_jobs-IsEvolved from (recovering_orphans organization_id) s g h =
      recover_orphaned-IsEvolved from env organization_id s h
  act_on_jobs-IsEvolved from (requeueing job_id reason reset_attempts) s g h =
      requeue-IsEvolved from env job_id reason reset_attempts s h

-- the calls in the order in which they commit, each with its own environment
unfoldable pub perform_on_jobs : AgentOperations → List (Env × PlaneAction) → Store → Store
perform_on_jobs agents [] s = s
perform_on_jobs agents (c ∷ cs) s = perform_on_jobs agents cs (act_on_jobs agents c.0 c.1 s)

-- The fresh id of each call is the id of no job at that time.
abbrev pub AllFresh : AgentOperations → List (Env × PlaneAction) → Store → Type 0
AllFresh agents [] s = Unit
AllFresh agents (c ∷ cs) s =
    (get execution_key c.0.fresh s.execution_jobs ≡ none)
    × AllFresh agents cs (act_on_jobs agents c.0 c.1 s)

pub perform-IsEvolved :
    (agents : AgentOperations) (from : List ExecutionJob) (cs : List (Env × PlaneAction))
    (s : Store)
    → AllFresh agents cs s
    → IsEvolved from s
    → IsEvolved from (perform_on_jobs agents cs s)
unfolding perform_on_jobs
perform-IsEvolved agents from [] s g h = h
perform-IsEvolved agents from (c ∷ cs) s g h =
    perform-IsEvolved agents from cs (act_on_jobs agents c.0 c.1 s) g.1
      (act_on_jobs-IsEvolved agents c.0 from c.1 s g.0 h)
