-- ===== src/ExecutionPlane/Finishing.antt =====
-- What the end of a job does to the jobs.
use mathlib.Core.Path.{subst}
use sacm_agent_runtime.Base.{
  Bool, Bool-cases, Error, Exec, IsKeyed, Keeps, Key, List, Option, and_then, and_then-Keeps,
  atomic, atomic-Keeps, atomic_result, execution_conflict, false, get, get-update, inl, inr, err,
  keeps_rules, ok, Result, none, pure, pure-Keeps, refl, same, some, sym, true, ℕ, ◌&&◌, ◌==◌, ◌>>◌,
  ◌∙◌, ◌≡◌,
}
use sacm_agent_runtime.Model.{
  Env, ExecutionJob, ExecutorRegistration, Run, Store, execution_key, run_key,
}
use sacm_agent_runtime.RunService.Transitions.{revoke_for_job}
use sacm_agent_runtime.RunService.Frame.{append_event-Keeps, checkpoint-Keeps}
use sacm_agent_runtime.ExecutionPlane.{is_live, reread}
use sacm_agent_runtime.ExecutionPlane.Jobs.{Evolves, finish}
use sacm_agent_runtime.ExecutionPlane.Evolution.{
  IsEvolved, execution_jobs-IsApart, revise-IsEvolved,
}
use sacm_agent_runtime.ExecutionPlane.Scheduling.{AgentContract}
use sacm_agent_runtime.ExecutionPlane.Scheduled.{IsReady, and_then_ends, schedule-IsEvolved}
use sacm_agent_runtime.ExecutionPlane.Results.{
  AgentOperations, AgentResult, SignedResult, check_result, deliver, end_job, ended_as, ended_job,
  finish_checked, finish_job, finish_owned, is_ended, log_end, log_end_of_run, retry_request,
  roll_back, schedule_retry,
}
use sacm_agent_runtime.ExecutionPlane.Leasing.{owned-cases, reread-Keeps}

module _ (from : List ExecutionJob) (agents : AgentOperations) (env : Env) where
  submit-Keeps :
      (commit : Bool) (job : ExecutionJob) (result : AgentResult)
      → Keeps (IsReady from env) (agents.submit commit job result)
  submit-Keeps commit job result = record {
    at = λ s h.
        subst
          (λ rows.
            (IsKeyed execution_key rows × Evolves from rows)
            × (get execution_key env.fresh rows ≡ none))
          (sym (agents.submit-jobs commit job result s)) h;
  }

  -- the job that ends is written, and no job has the fresh id
  ended-IsReady :
      (job_id : Key) (as_failed : Bool) (result : AgentResult) (s : Store) (job : ExecutionJob)
      → get execution_key job_id s.execution_jobs ≡ some job
      → is_live job.state ≡ true
      → IsReady from env s
      → IsReady from env (end_job agents env as_failed result job s)
  unfolding revoke_for_job
  ended-IsReady job_id as_failed result s job f l (h, gone) =
      let end = ended_job agents env as_failed result in
      (
        revise-IsEvolved from end job_id (λ _. refl) s job f (finish agents env as_failed result l)
            h,
        get-update execution_key (λ x. x.id == job.id) end (λ _. refl) env.fresh s.execution_jobs
            ∙ rw gone refl,
      )

  schedule_retry-IsEvolved :
      (job : ExecutionJob) (o : Option (ℕ × AgentContract)) (s : Store)
      → IsReady from env s
      → IsEvolved from (schedule_retry agents env job o s).1
  schedule_retry-IsEvolved job none s h = h.0
  schedule_retry-IsEvolved job (some (attempt, task)) s (h, gone) =
      and_then-Keeps (IsEvolved from) (λ _. pure tt) _ (λ _. pure-Keeps (IsEvolved from) tt)
        (schedule-IsEvolved from env (retry_request agents env job attempt task) s h gone)

  log_end-Keeps :
      (as_failed : Bool) (job : ExecutionJob) (digest : Key) (o : Option Run)
      → Keeps (IsEvolved from) (log_end agents env as_failed job digest o)
  log_end-Keeps as_failed job digest none = search keeps_rules
  log_end-Keeps as_failed job digest (some run) =
      search (keeps_rules, append_event-Keeps, checkpoint-Keeps, execution_jobs-IsApart) depth 9

  log_end_of_run-Keeps :
      (as_failed : Bool) (job : ExecutionJob) (digest : Key)
      → Keeps (IsEvolved from) (log_end_of_run agents env as_failed job digest)
  log_end_of_run-Keeps as_failed job digest = record {
    at = λ s h. (log_end-Keeps as_failed job digest (get run_key job.run_id s.runs)).at s h;
  }

  roll_back-IsReady :
      (committed : Bool) (s : Store) (r : Result (Option (ℕ × AgentContract)) × Store)
      → IsReady from env s
      → IsReady from env r.1
      → IsReady from env (roll_back agents env committed s r).1
  roll_back-IsReady committed s (ok o, s') h k = k
  roll_back-IsReady true s (err x, s') h k = k
  roll_back-IsReady false s (err x, s') h k = h

  deliver-IsEvolved :
      (as_failed : Bool) (result : AgentResult) (job : ExecutionJob) (s : Store)
      → IsReady from env s
      → IsReady from env (end_job agents env as_failed result job s)
      → IsEvolved from (deliver agents env as_failed result job s).1
  deliver-IsEvolved true result job s h k =
      let sent = agents.submit false job result (end_job agents env true result job s) in
      let log : Exec Store (Unit {0}) = log_end_of_run agents env true job result.digest in
      let rest : Option (ℕ × AgentContract) → Exec Store (Unit {0}) =
        λ o. schedule_retry agents env job o >> log in
      atomic_result (IsEvolved from) s (and_then rest sent) h.0 (
        and_then_ends (IsReady from env) (IsEvolved from) (λ _ l. l.0) rest sent
          (λ o s' l.
            and_then-Keeps (IsEvolved from) (λ _. log) (schedule_retry agents env job o s')
              (λ _. log_end_of_run-Keeps true job result.digest)
              (schedule_retry-IsEvolved job o s' l))
          ((submit-Keeps false job result).at (end_job agents env true result job s) k))
  deliver-IsEvolved false result job s h k =
      let sent = agents.submit true job result (end_job agents env false result job s) in
      let committed = agents.has_committed job result (end_job agents env false result job s) in
      let ready =
        roll_back-IsReady committed s sent h
          ((submit-Keeps true job result).at (end_job agents env false result job s) k) in
      and_then-Keeps (IsEvolved from)
        (λ _. atomic (log_end_of_run agents env false job result.digest))
        (roll_back agents env committed s sent)
        (λ _.
          atomic-Keeps (IsEvolved from) (log_end_of_run agents env false job result.digest)
            (log_end_of_run-Keeps false job result.digest))
        ready.0

  finish_checked-IsEvolved :
      (o : Option Error) (as_failed : Bool) (result : AgentResult) (job : ExecutionJob) (s : Store)
      → IsReady from env s
      → (o ≡ none → IsReady from env (end_job agents env as_failed result job s))
      → IsEvolved from (finish_checked agents env o as_failed result job s).1
  finish_checked-IsEvolved (some x) as_failed result job s h k = h.0
  finish_checked-IsEvolved none as_failed result job s h k =
      and_then-Keeps (IsEvolved from) (λ _. reread job.id) _ (λ _. reread-Keeps from job.id)
        (deliver-IsEvolved as_failed result job s h (k refl))

  check_result-live :
      (e : ExecutorRegistration) (as_failed : Bool) (signed : SignedResult) (job : ExecutionJob)
      → check_result agents env e as_failed signed job ≡ none
      → is_live job.state ≡ true
  check_result-live e as_failed signed job h = elim (Bool-cases (is_live job.state)) [
    | inl l ↦ l
    | inr l ↦ let refused : some execution_conflict ≡ none = rw l at h in cc
  ]

  finish_owned-IsEvolved :
      (e : ExecutorRegistration) (job_id : Key) (as_failed : Bool) (signed : SignedResult)
      (job : ExecutionJob) (s : Store)
      → get execution_key job_id s.execution_jobs ≡ some job
      → IsReady from env s
      → IsEvolved from (finish_owned agents env e as_failed signed job s).1
  finish_owned-IsEvolved e job_id as_failed signed job s f h =
      elim (Bool-cases (signed.result.digest == signed.result_hash)) [
        | inr d ↦ rw d h.0
        | inl d ↦ elim (Bool-cases (is_ended job.state)) [
          | inl o ↦
              elim (Bool-cases (
                ended_as as_failed job.state && same job.result_hash (some signed.result.digest))) [
                  | inl m ↦ rw (d, o, m) h.0
                  | inr m ↦ rw (d, o, m) h.0
                ]
          | inr o ↦
              rw (d, o)
                (finish_checked-IsEvolved (check_result agents env e as_failed signed job) as_failed
                  signed.result job s h
                  (λ c.
                    ended-IsReady job_id as_failed signed.result s job f
                      (check_result-live e as_failed signed job c) h))
        ]
      ]

  pub finish-IsEvolved :
      (e : ExecutorRegistration) (job_id : Key) (as_failed : Bool) (signed : SignedResult)
      (s : Store)
      → IsEvolved from s
      → get execution_key env.fresh s.execution_jobs ≡ none
      → IsEvolved from (finish_job agents env e job_id as_failed signed s).1
  unfolding finish_job
  finish-IsEvolved e job_id as_failed signed s h gone =
      elim (owned-cases env e job_id signed.lease_token s) [
        | inl (x, eq) ↦ rw eq h
        | inr (job, eq, f, o) ↦
            rw eq (finish_owned-IsEvolved e job_id as_failed signed job s f (h, gone))
      ]
