-- ===== src/WorkflowQueue/Histories.antt =====
-- Whole histories of the queue: the operations of workers and of users, in any order.
use sacm_agent_runtime.Base.{Key, List, String, [], ℕ, ◌∷◌}
use sacm_agent_runtime.Model.{Env, Store}
use sacm_agent_runtime.WorkflowQueue.{cancel_job, claim, renew, submit}
use sacm_agent_runtime.WorkflowQueue.Processing.{complete, fail}
use sacm_agent_runtime.WorkflowQueue.Invariant.{
  AllWellFormed, cancel_job-AllWellFormed, claim-AllWellFormed, renew-AllWellFormed,
  submit-AllWellFormed,
}
use sacm_agent_runtime.WorkflowQueue.Settling.{complete-AllWellFormed, fail-AllWellFormed}

-- a public method of the queue that writes, with its arguments
pub data Action : Type 0 where
  submitting : (run_id : Key) (max_attempts : ℕ) → Action
  cancelling : (run_id : Key) → Action
  claiming : (lease_seconds : ℕ) → Action
  renewing : (lease_seconds : ℕ) (job_id token : Key) → Action
  completing : (job_id token : Key) → Action
  failing : (job_id token : Key) (error : String) → Action

module _ (env : Env) where
  abbrev pub act : Action → Store → Store
  act (submitting run_id max_attempts) s = (submit env run_id max_attempts s).1
  act (cancelling run_id) s = (cancel_job env run_id s).1
  act (claiming lease_seconds) s = (claim env lease_seconds s).1
  act (renewing lease_seconds job_id token) s = (renew env lease_seconds job_id token s).1
  act (completing job_id token) s = (complete env job_id token s).1
  act (failing job_id token error) s = (fail env job_id token error s).1

  act-AllWellFormed : (a : Action) (s : Store) → AllWellFormed s → AllWellFormed (act a s)
  act-AllWellFormed (submitting run_id max_attempts) s h =
      submit-AllWellFormed env s h run_id max_attempts
  act-AllWellFormed (cancelling run_id) s h = cancel_job-AllWellFormed env s h run_id
  act-AllWellFormed (claiming lease_seconds) s h = claim-AllWellFormed env lease_seconds s h
  act-AllWellFormed (renewing lease_seconds job_id token) s h =
      renew-AllWellFormed env s h lease_seconds job_id token
  act-AllWellFormed (completing job_id token) s h = (complete-AllWellFormed env job_id token).at s h
  act-AllWellFormed (failing job_id token error) s h =
      (fail-AllWellFormed env job_id token error).at s h

-- the calls in the order in which they commit, each with its own environment
unfoldable pub perform : List (Env × Action) → Store → Store
perform [] s = s
perform (c ∷ cs) s = perform cs (act c.0 c.1 s)

-- Whatever the calls, in whatever order, and whether they succeed or raise: if at the start every
-- job has a token and an end of its lease exactly when it is RUNNING, and a time of completion
-- exactly when it is neither QUEUED nor RUNNING, then so it is at the end.
pub perform-AllWellFormed :
    (cs : List (Env × Action)) (s : Store) → AllWellFormed s → AllWellFormed (perform cs s)
unfolding perform
perform-AllWellFormed [] s h = h
perform-AllWellFormed (c ∷ cs) s h =
    perform-AllWellFormed cs (act c.0 c.1 s) (act-AllWellFormed c.0 c.1 s h)
