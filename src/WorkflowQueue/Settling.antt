-- ===== src/WorkflowQueue/Settling.antt =====
-- Completing and failing a job: what they keep of the queue.
use sacm_agent_runtime.Base.{
  All-get, All-update, Bool-cases, Exec, Keeps, Key, Option, Option-cases, String, arith, atomic,
  atomic-Keeps, get, if-Keeps, inl, inr, keeps_rules, ltb, modify, modify-Keeps, none, some,
  then-Keeps, true, ℕ, ◌==◌, ◌>>=◌, ◌≡◌,
}
use sacm_agent_runtime.Model.{Env, Run, Store, WorkflowJob, job_key, put_job, run_key}
use sacm_agent_runtime.RunService.Transitions.{record_metric}
use sacm_agent_runtime.RunService.Frame.{IsApart, transition-Keeps}
use sacm_agent_runtime.WorkflowQueue.{is_running, owns, require_owned}
use sacm_agent_runtime.WorkflowQueue.Processing.{
  complete, conclude, fail, fail_run, finished, give_up, given_up, retried, settle,
}
use sacm_agent_runtime.WorkflowQueue.Invariant.{AllWellFormed, IsWellFormed}

-- The queue is apart from the tables of the run service.
workflow_jobs-IsApart : IsApart AllWellFormed
workflow_jobs-IsApart = record {
  runs = λ s rows h. h;
  steps = λ s rows h. h;
  events = λ s rows h. h;
  snapshots = λ s rows h. h;
}

module _ (env : Env) where
  put-AllWellFormed :
      (j : WorkflowJob)
      → IsWellFormed j
      → (s : Store) → AllWellFormed s
      → AllWellFormed (put_job j s)
  put-AllWellFormed j v s h =
      All-update IsWellFormed (λ x. x.id == j.id) (λ _. j) s.workflow_jobs (λ _ _ _. v) h

  metric-AllWellFormed :
      (metric : String) (run_id : Key) (value : ℕ) (job_id : Option Key) (s : Store)
      → AllWellFormed s
      → AllWellFormed (record_metric env metric run_id value job_id s)
  unfolding record_metric
  metric-AllWellFormed metric run_id value job_id s h = h

  retried-IsWellFormed :
      (error : String) (j : WorkflowJob)
      → IsWellFormed j
      → is_running j.state ≡ true
      → IsWellFormed (retried env error j)
  retried-IsWellFormed error j v r = ground arith

  given_up-IsWellFormed : (error : String) (j : WorkflowJob) → IsWellFormed (given_up env error j)
  given_up-IsWellFormed error j = ground arith

  finished-IsWellFormed : (j : WorkflowJob) → IsWellFormed (finished env j)
  finished-IsWellFormed j = ground arith

  fail_run-AllWellFormed :
      (job : WorkflowJob) (o : Option Run) → Keeps AllWellFormed (fail_run env job o)
  fail_run-AllWellFormed job none = search keeps_rules
  fail_run-AllWellFormed job (some run) =
      search (keeps_rules, transition-Keeps, workflow_jobs-IsApart) depth 9

  fail_run_of-AllWellFormed :
      (job : WorkflowJob)
      → Keeps AllWellFormed (λ s. fail_run env job (get run_key job.run_id s.runs) s)
  fail_run_of-AllWellFormed job = record {
    at = λ s h. (fail_run-AllWellFormed job (get run_key job.run_id s.runs)).at s h;
  }

  put_retried-AllWellFormed :
      (error : String) (j : WorkflowJob)
      → IsWellFormed j
      → is_running j.state ≡ true
      → (s : Store) → AllWellFormed s
      → AllWellFormed (put_job (retried env error j) s)
  put_retried-AllWellFormed error j v r =
      put-AllWellFormed (retried env error j) (retried-IsWellFormed error j v r)

  put_given_up-AllWellFormed :
      (error : String) (j : WorkflowJob) (s : Store)
      → AllWellFormed s
      → AllWellFormed (put_job (given_up env error j) s)
  put_given_up-AllWellFormed error j =
      put-AllWellFormed (given_up env error j) (given_up-IsWellFormed error j)

  put_finished-AllWellFormed :
      (j : WorkflowJob) (s : Store) → AllWellFormed s → AllWellFormed (put_job (finished env j) s)
  put_finished-AllWellFormed j = put-AllWellFormed (finished env j) (finished-IsWellFormed j)

  noted_metric :
      (metric : String) (j : WorkflowJob)
      → Keeps AllWellFormed (modify (record_metric env metric j.run_id 1 (some j.id)))
  noted_metric metric j =
      modify-Keeps AllWellFormed (record_metric env metric j.run_id 1 (some j.id))
        (metric-AllWellFormed metric j.run_id 1 (some j.id))

  settle-AllWellFormed :
      (error : String) (j : WorkflowJob)
      → IsWellFormed j
      → is_running j.state ≡ true
      → Keeps AllWellFormed (settle env error j)
  settle-AllWellFormed error j v r =
      if-Keeps AllWellFormed (ltb j.attempt j.max_attempts) _ _
        (then-Keeps AllWellFormed (modify (put_job (retried env error j))) _
          (modify-Keeps AllWellFormed (put_job (retried env error j))
            (put_retried-AllWellFormed error j v r))
          (noted_metric "workflow.retry_scheduled" j))
        (then-Keeps AllWellFormed (atomic (give_up env error j)) _
          (atomic-Keeps AllWellFormed (give_up env error j) (
            then-Keeps AllWellFormed (modify (put_job (given_up env error j))) _
              (modify-Keeps AllWellFormed (put_job (given_up env error j))
                (put_given_up-AllWellFormed error j))
              (fail_run_of-AllWellFormed (given_up env error j))))
          (noted_metric "workflow.failed" j))

  conclude-AllWellFormed : (j : WorkflowJob) → Keeps AllWellFormed (conclude env j)
  conclude-AllWellFormed j =
      search (keeps_rules, put_finished-AllWellFormed, metric-AllWellFormed) depth 9

  -- what follows `_require_owned` starts from a job that runs
  owned-AllWellFormed :
      {A : Type 0} (job_id token : Key) (f : WorkflowJob → Exec Store A)
      → ((j : WorkflowJob) → IsWellFormed j → is_running j.state ≡ true → Keeps AllWellFormed (f j))
      → Keeps AllWellFormed (require_owned job_id token >>= f)
  unfolding require_owned
  owned-AllWellFormed job_id token f k = record {
    at = λ s h. elim (Option-cases (get job_key job_id s.workflow_jobs)) [
      | inl e ↦ rw e h
      | inr (j, e) ↦ elim (Bool-cases (owns token j)) [
        | inr o ↦ rw e (rw o h)
        | inl o ↦ rw e (
            rw o (
              (k j (All-get IsWellFormed job_key job_id s.workflow_jobs j e h) (ground arith)).at s
                h))
      ]
    ];
  }

  -- `fail` keeps the queue well formed, whether the job is retried or given up.
  pub fail-AllWellFormed :
      (job_id token : Key) (error : String) → Keeps AllWellFormed (fail env job_id token error)
  unfolding fail
  fail-AllWellFormed job_id token error =
      owned-AllWellFormed job_id token (settle env error) (settle-AllWellFormed error)

  pub complete-AllWellFormed :
      (job_id token : Key) → Keeps AllWellFormed (complete env job_id token)
  unfolding complete
  complete-AllWellFormed job_id token =
      owned-AllWellFormed job_id token (conclude env) (λ j v r. conclude-AllWellFormed j)
