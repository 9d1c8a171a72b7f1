-- ===== src/ExecutionPlane/Leasing.antt =====
-- The operations of the executor that holds a lease change its job by moves.
use sacm_agent_runtime.Base.{
  Bool, Bool-cases, Error, Exec, Keeps, Key, List, Option, Option-cases, and_then-Keeps, arith,
  atomic_result, err, executor_inactive, get, inl, inr, job_not_found, none, ok, pure, pure-Keeps,
  refl, same, some, true, wrong_lease_owner, wrong_lease_token, ℕ, ◌&&◌, ◌>>=◌, ◌≡◌, ◌⊎◌,
}
use sacm_agent_runtime.Model.{
  Env, ExecutionJob, ExecutorRegistration, RunStatus, RunStep, Store, execution_key,
  execution_started, run_key, same_status, step_row_key,
}
use sacm_agent_runtime.RunService.Transitions.{revoke_for_job}
use sacm_agent_runtime.RunService.Steps.{start_step}
use sacm_agent_runtime.RunService.Frame.{start_step-Keeps, transition-Keeps}
use sacm_agent_runtime.ExecutionPlane.{
  advance_run, extended_lease, heartbeat_job, is_active_executor, is_late, is_leased, is_live,
  is_run_by_executor, leased_job, owned_job, release_or_expire, released, reread, revise,
  run_started, start_job, start_with, waits,
}
use sacm_agent_runtime.ExecutionPlane.Jobs.{extend, release, start}
use sacm_agent_runtime.ExecutionPlane.Evolution.{
  IsEvolved, execution_jobs-IsApart, id-released, revise-IsEvolved,
}

pub reread-Keeps : (from : List ExecutionJob) (k : Key) → Keeps (IsEvolved from) (reread k)
reread-Keeps from k = record {
  at = λ s h. elim (Option-cases (get execution_key k s.execution_jobs)) [
    | inl f ↦ rw (reread, f) h
    | inr (job, f) ↦ rw (reread, f) h
  ];
}

module _ (env : Env) (e : ExecutorRegistration) (job_id token : Key) where
  -- The job is the executor's, by its id and by the token that it shows.
  abbrev pub is_owner : ExecutionJob → Bool
  is_owner job =
      same job.lease_owner_id (some e.id) && same job.lease_token_hash (some (env.token_hash token))

  -- `_owned_job` refuses, or it returns the job of the id.
  pub owned-cases :
      (s : Store)
      → ((x : Error) × (owned_job env e job_id token s ≡ (err x, s)))
        ⊎ ((job : ExecutionJob) × (owned_job env e job_id token s ≡ (ok job, s))
            × (get execution_key job_id s.execution_jobs ≡ some job)
            × (is_owner job ≡ true))
  unfolding owned_job
  owned-cases s = elim (Bool-cases (is_active_executor e.status)) [
    | inr a ↦ rw a (inl (executor_inactive, refl))
    | inl a ↦ elim (Option-cases (get execution_key job_id s.execution_jobs)) [
      | inl f ↦ rw (a, f) (inl (job_not_found, refl))
      | inr (job, f) ↦ elim (Bool-cases (same job.lease_owner_id (some e.id))) [
        | inr o ↦ rw (a, f, o) (inl (wrong_lease_owner, refl))
        | inl o ↦ elim (Bool-cases (same job.lease_token_hash (some (env.token_hash token)))) [
          | inr t ↦ rw (a, f, o, t) (inl (wrong_lease_token, refl))
          | inl t ↦ rw (a, f, o, t) (inr (job, refl, refl, ground arith))
        ]
      ]
    ]
  ]

  module _ (from : List ExecutionJob) where
    released-IsEvolved :
        (s : Store) (job : ExecutionJob)
        → get execution_key job_id s.execution_jobs ≡ some job
        → is_live job.state ≡ true
        → IsEvolved from s
        → IsEvolved from (release_or_expire env "LeaseExpired" job.id s)
    unfolding release_or_expire revoke_for_job
    released-IsEvolved s job f l h =
        revise-IsEvolved from (released env "LeaseExpired") job_id
          (id-released from env "LeaseExpired") s job f (release env "LeaseExpired" l) h

    -- what follows `_leased_job`
    leased-IsEvolved :
        {A : Type 0} (m : ExecutionJob → Exec Store A) (s : Store)
        → ((job : ExecutionJob)
            → get execution_key job_id s.execution_jobs ≡ some job
            → IsEvolved from (m job s).1)
        → IsEvolved from s
        → IsEvolved from ((leased_job env e job_id token >>= m) s).1
    unfolding leased_job
    leased-IsEvolved m s k h = elim (owned-cases s) [
      | inl (x, eq) ↦ rw eq h
      | inr (job, eq, f, o) ↦
          elim (Bool-cases (is_live job.state && is_late env job.lease_expires_at)) [
            | inl l ↦ rw (eq, l) (released-IsEvolved s job f (ground arith) h)
            | inr l ↦ rw (eq, l) (k job f)
          ]
    ]

    pub heartbeat-IsEvolved :
        (n : ℕ) (s : Store)
        → IsEvolved from s
        → IsEvolved from (heartbeat_job env e job_id token n s).1
    unfolding heartbeat_job
    heartbeat-IsEvolved n s h =
        leased-IsEvolved _ s
          (λ job f. elim (Bool-cases (is_live job.state)) [
            | inr l ↦ rw l h
            | inl l ↦ rw l (
                revise-IsEvolved from (extended_lease env n) job_id (λ _. refl) s job f
                  (extend env n l) h)
          ])
          h

    advance-IsEvolved :
        (job : ExecutionJob) (s : Store)
        → IsEvolved from s
        → IsEvolved from (advance_run env e job s).1
    advance-IsEvolved job s h = elim (Option-cases (get run_key job.run_id s.runs)) [
      | inl f ↦ rw (reread, f) h
      | inr (run, f) ↦ elim (Bool-cases (same_status run.status RunStatus.planning)) [
        | inr p ↦ rw (f, p) h
        | inl p ↦
            rw (f, p)
              (and_then-Keeps (IsEvolved from) (λ _. pure tt) _
                (λ _. pure-Keeps (IsEvolved from) tt)
                ((transition-Keeps env (IsEvolved from) (execution_jobs-IsApart from) job.run_id
                    RunStatus.implementing "RemoteExecutionStarted" "executor"
                    (execution_started job.id job.attempt) (some job.run_step_id)).at
                  s h))
      ]
    ]

    start_with-IsEvolved :
        (job : ExecutionJob) (o : Option RunStep) (s : Store)
        → IsEvolved from s
        → IsEvolved from (revise (run_started env) job.id s)
        → IsEvolved from (start_with env e job o s).1
    start_with-IsEvolved job none s h k = h
    start_with-IsEvolved job (some step) s h k =
        let s' : Store = revise (run_started env) job.id s in
        elim (Bool-cases (waits env step.status)) [
          | inr w ↦ rw w (
              atomic_result (IsEvolved from) s (advance_run env e job s') h
                (advance-IsEvolved job s' k))
          | inl w ↦ rw w (
              and_then-Keeps (IsEvolved from) (λ _. advance_run env e job) _
                (λ _. record { at = advance-IsEvolved job })
                (atomic_result (IsEvolved from) s (start_step env job.run_id job.run_step_id s') h (
                  (start_step-Keeps env (IsEvolved from) (execution_jobs-IsApart from) job.run_id
                      job.run_step_id).at
                    s' k)))
        ]

    pub start-IsEvolved :
        (s : Store) → IsEvolved from s → IsEvolved from (start_job env e job_id token s).1
    unfolding start_job
    start-IsEvolved s h =
        leased-IsEvolved _ s
          (λ job f. elim (Bool-cases (is_run_by_executor job.state)) [
            | inl r ↦ rw r h
            | inr r ↦ elim (Bool-cases (is_leased job.state)) [
              | inr l ↦ rw (r, l) h
              | inl l ↦
                  rw (r, l)
                    (and_then-Keeps (IsEvolved from) (λ _. reread job.id) _
                      (λ _. reread-Keeps from job.id)
                      (start_with-IsEvolved job (get step_row_key job.run_step_id s.steps) s h (
                        revise-IsEvolved from (run_started env) job_id (λ _. refl) s job f
                          (start env l) h)))
            ]
          ])
          h
