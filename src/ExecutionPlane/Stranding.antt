-- ===== src/ExecutionPlane/Stranding.antt =====
-- A job that is requeued with no attempt left waits for ever.
use sacm_agent_runtime.Base.{
  ==-refl, All-get, Bool, Bool-cases, IsKeyed, IsKeyed-update, Key, Option-cases, String, [], arith,
  false, get, get-key, get-update, inl, inr, leb, ok, refl, some, true, update, ℕ, ◌&&◌, ◌==◌, ◌∙◌,
  ◌≡◌,
}
use sacm_agent_runtime.Model.{Env, ExecutionJob, ExecutorRegistration, Store, execution_key}
use sacm_agent_runtime.ExecutionPlane.{
  acquire_lease, is_active_executor, is_dead, is_waiting, lapsed_job, leased_to, released, revise,
}
use sacm_agent_runtime.ExecutionPlane.Evolution.{id-released}
use sacm_agent_runtime.ExecutionPlane.Fencing.{acquired}
use sacm_agent_runtime.ExecutionPlane.Recovered.{recover_expired-jobs}
use sacm_agent_runtime.ExecutionPlane.Orphans.{reopen, requeue_dead_letter, requeued_job}
use sacm_agent_runtime.ExecutionPlane.Invariant.{AllJobsWellFormed, is_well_formed}

-- a waiting job without an attempt left
abbrev is_stranded : ExecutionJob → Bool
is_stranded job = is_waiting job.state && leb job.max_attempts job.attempt

module _ (env : Env) (e : ExecutorRegistration) (n : ℕ) (s : Store) where
  -- A stranded job is not what an executor acquires.
  stranded_waits :
      (k : Key) (x job : ExecutionJob) (token : Key)
      → get execution_key k s.execution_jobs ≡ some x
      → is_stranded x ≡ true
      → is_active_executor e.status ≡ true
      → IsKeyed execution_key s.execution_jobs
      → (acquire_lease env e n s).0 ≡ ok (some (job, token))
      → (job.id == k) ≡ false
  stranded_waits k x job token f t a u h =
      let w = acquired env e n s job token a u h in
      let leased : job ≡ leased_to env e n w.candidate = w.leased in
      let found : get execution_key w.candidate.id
            (update (lapsed_job env) (released env "LeaseExpired") s.execution_jobs)
          ≡ some w.candidate =
        rw⁻¹ (recover_expired-jobs env s) w.found in
      let at_k =
        get-update execution_key (lapsed_job env) (released env "LeaseExpired")
          (id-released [] env "LeaseExpired") k s.execution_jobs in
      elim (Bool-cases (job.id == k)) [
        | inr e ↦ e
        | inl e ↦
            let same_key : w.candidate.id ≡ k = ground arith in
            let able = w.able in let same_row : x ≡ w.candidate = ground arith in ground arith
      ]

module _ (env : Env) (job_id : Key) (reason : String) (s : Store) where
  -- the job of the id waits without an attempt left
  requeued_row :
      (x : ExecutionJob)
      → get execution_key job_id s.execution_jobs ≡ some x
      → get execution_key job_id
          (update (λ j. j.id == x.id) (requeued_job env reason false) s.execution_jobs)
        ≡ some (requeued_job env reason false x)
  requeued_row x f =
      let own : x.id ≡ job_id = get-key execution_key job_id s.execution_jobs x f in
      get-update execution_key (λ j. j.id == x.id) (requeued_job env reason false) (λ _. refl)
        job_id s.execution_jobs
      ∙ rw (f, own, ==-refl job_id) refl

  -- If `requeue_dead_letter` has requeued a job without resetting its attempts, in a database with
  -- unique ids where every job is well formed, then until the next change the job is not what
  -- `acquire_lease` gives to any active executor, at any later clock.
  pub requeue_dead_letter_strands :
      (job : ExecutionJob) (later : Env) (e : ExecutorRegistration) (n : ℕ)
      (given_job : ExecutionJob) (token : Key)
      → IsKeyed execution_key s.execution_jobs
      → AllJobsWellFormed s
      → (requeue_dead_letter env job_id reason false s).0 ≡ ok job
      → is_active_executor e.status ≡ true
      → (acquire_lease later e n (requeue_dead_letter env job_id reason false s).1).0
        ≡ ok (some (given_job, token))
      → (given_job.id == job_id) ≡ false
  unfolding requeue_dead_letter
  requeue_dead_letter_strands job later e n given_job token u w r a h =
      elim (Option-cases (get execution_key job_id s.execution_jobs)) [
        | inl f ↦ ground arith
        | inr (x, f) ↦ elim (Bool-cases (is_dead x.state)) [
          | inr d ↦ ground arith
          | inl d ↦
              let s' : Store =
                reopen env x.run_step_id (revise (requeued_job env reason false) x.id s) in
              let well =
                All-get (λ j. is_well_formed j ≡ true) execution_key job_id s.execution_jobs x f
                  w in
              let stranded : is_stranded (requeued_job env reason false x) ≡ true = ground arith in
              stranded_waits later e n s' job_id (requeued_job env reason false x) given_job token
                (requeued_row x f) stranded a
                (IsKeyed-update execution_key (λ j. j.id == x.id) (requeued_job env reason false)
                  (λ _. refl) s.execution_jobs u)
                (rw (f, d) at h)
        ]
      ]
