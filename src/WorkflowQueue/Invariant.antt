-- ===== src/WorkflowQueue/Invariant.antt =====
-- The rows of the queue stay well formed, whatever operations are made, in whatever order.
use sacm_agent_runtime.Base.{
  All, All-append, All-update, Bool-cases, Key, Option, Option-cases, any, arith, first, get, inl,
  inr, is_some, keyed, none, not, some, update, ℕ, ◌==◌, ◌||◌, ◌≡◌,
}
use sacm_agent_runtime.Model.{Env, Store, WorkflowJob, is_final, job_key, put_job, run_key}
use sacm_agent_runtime.RunService.Transitions.{record_metric}
use sacm_agent_runtime.WorkflowQueue.{
  cancel_job, claim, claimed, enqueue, extended, for_run, get_for_run, holds, is_open, is_queued,
  is_running, lapsed, new_job, next_job, reclaimed, recover_expired, renew, requeued, submit,
  take_job, withdrawn_job,
}
use sacm_agent_runtime.WorkflowQueue.Claims.{jobs-recover_expired}

-- A job has a lease, with its token and its end, exactly while it runs, and a time of completion
-- exactly when it is over.
pub record IsWellFormed (j : WorkflowJob) : Type 0 where
  pub token : is_some j.lease_token ≡ is_running j.state
  pub expiry : is_some j.lease_expires_at ≡ is_running j.state
  pub completion : is_some j.completed_at ≡ not (is_queued j.state || is_running j.state)

abbrev pub AllWellFormed : Store → Type 0
AllWellFormed s = All IsWellFormed s.workflow_jobs

module _ (env : Env) (s : Store) (h : AllWellFormed s) where
  put_job-AllWellFormed : (j : WorkflowJob) → IsWellFormed j → AllWellFormed (put_job j s)
  put_job-AllWellFormed j v =
      All-update IsWellFormed (λ x. x.id == j.id) (λ _. j) s.workflow_jobs (λ _ _ _. v) h

  enqueue-AllWellFormed :
      (run_id : Key) (m : ℕ) (o : Option WorkflowJob) → AllWellFormed (enqueue env run_id m o s).1
  unfolding record_metric
  enqueue-AllWellFormed run_id m none =
      All-append IsWellFormed s.workflow_jobs (new_job env run_id m) (ground arith) h
  enqueue-AllWellFormed run_id m (some j) = elim (Bool-cases (is_open env j.state)) [
    | inl o ↦ rw o h
    | inr o ↦ rw o (put_job-AllWellFormed (requeued env j) (ground arith))
  ]

  pub submit-AllWellFormed : (run_id : Key) (m : ℕ) → AllWellFormed (submit env run_id m s).1
  unfolding submit
  submit-AllWellFormed run_id m = elim (Option-cases (get run_key run_id s.runs)) [
    | inl e ↦ rw e h
    | inr (r, e) ↦ elim (Bool-cases (is_final r.status)) [
      | inl f ↦ rw e (rw f h)
      | inr f ↦ rw e (rw f (enqueue-AllWellFormed run_id m (get_for_run run_id s)))
    ]
  ]

  pub cancel_job-AllWellFormed : (run_id : Key) → AllWellFormed (cancel_job env run_id s).1
  unfolding cancel_job
  cancel_job-AllWellFormed run_id = elim (Option-cases (first (for_run run_id) s.workflow_jobs)) [
    | inl e ↦ rw (e, get_for_run) h
    | inr (j, e) ↦ elim (Bool-cases (is_open env j.state)) [
      | inl o ↦ ground (arith, put_job-AllWellFormed (withdrawn_job env j) (ground arith))
      | inr o ↦ ground arith
    ]
  ]

  pub recover_expired-AllWellFormed : AllWellFormed (recover_expired env s)
  recover_expired-AllWellFormed = rw (jobs-recover_expired env s) (
      All-update IsWellFormed (lapsed env) (reclaimed env) s.workflow_jobs (λ j p v. ground arith)
        h)

  pub renew-AllWellFormed :
      (n : ℕ) (job_id token : Key) → AllWellFormed (renew env n job_id token s).1
  unfolding renew
  renew-AllWellFormed n job_id token = ground (
    arith,
    All-update IsWellFormed (keyed job_key job_id (holds env n token)) (extended env n)
        s.workflow_jobs (λ j p v. ground arith) h,
  )

  take_job-AllWellFormed : (n : ℕ) (o : Option WorkflowJob) → AllWellFormed (take_job env n o s).1
  unfolding record_metric
  take_job-AllWellFormed n none = h
  take_job-AllWellFormed n (some j) =
      let mine = keyed job_key j.id (λ x. is_queued x.state) in
      let taken =
        All-update IsWellFormed mine (claimed env n) s.workflow_jobs (λ x p v. ground arith) h in
      elim (Bool-cases (any mine s.workflow_jobs)) [
        | inr e ↦ rw e h
        | inl e ↦
            elim (Option-cases (get job_key j.id (update mine (claimed env n) s.workflow_jobs))) [
              | inl f ↦ rw e (rw f taken)
              | inr (k, f) ↦ rw e (rw f taken)
            ]
      ]

-- claim = recover_expired and then the conditional update
pub claim-AllWellFormed :
    (env : Env) (n : ℕ) (s : Store) → AllWellFormed s → AllWellFormed (claim env n s).1
unfolding claim
claim-AllWellFormed env n s h =
    take_job-AllWellFormed env (recover_expired env s) (recover_expired-AllWellFormed env s h) n
      (next_job env (recover_expired env s).workflow_jobs)
