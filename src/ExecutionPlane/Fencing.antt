-- ===== src/ExecutionPlane/Fencing.antt =====
-- What the executor that was given a job can do with it, and what nobody else can.
use sacm_agent_runtime.Base.{
  ==-refl, Bool-cases, IsKeyed, Key, String, arith, err, executor_inactive, get, get-update,
  if◌then◌else◌, inl, inr, lease_expired, leb, none, not, ok, refl, some, true, wrong_lease_owner,
  wrong_lease_token, ℕ, ◌+◌, ◌<◌, ◌==◌, ◌∙◌, ◌≡◌, ◌≤◌, ◌⊎◌,
}
use sacm_agent_runtime.Model.{
  Env, ExecutionJob, ExecutionState, ExecutorRegistration, Store, execution_key,
}
use sacm_agent_runtime.RunService.Transitions.{revoke_for_job}
use sacm_agent_runtime.ExecutionPlane.{
  acquire_lease, is_active_executor, leased_job, leased_to, owned_job, release_or_expire, released,
}
use sacm_agent_runtime.ExecutionPlane.Acquisition.{IsAcquired, acquire_lease_contract, recovered}

-- The row of a job whose lease is taken away.
pub record IsReleased (job row : ExecutionJob) : Type 0 where
  pub no_owner : row.lease_owner_id ≡ none
  pub no_token : row.lease_token_hash ≡ none
  pub no_lease : row.lease_expires_at ≡ none
  pub next :
      ((job.attempt < job.max_attempts) × (row.state ≡ ExecutionState.queued))
      ⊎ ((job.max_attempts ≤ job.attempt) × (row.state ≡ ExecutionState.dead_letter))

released_id : (env : Env) (job : ExecutionJob) → (released env "LeaseExpired" job).id ≡ job.id
released_id env job = ground arith

released-IsReleased :
    (env : Env) (reason : String) (job : ExecutionJob) → IsReleased job (released env reason job)
released-IsReleased env reason job = elim (Bool-cases (leb job.max_attempts job.attempt)) [
  | inl l ↦ rw l (record {
    no_owner = refl;
    no_token = refl;
    no_lease = refl;
    next = inr (ground arith, refl);
  })
  | inr l ↦ rw l (record {
    no_owner = refl;
    no_token = refl;
    no_lease = refl;
    next = inl (ground arith, refl);
  })
]

module _ (env : Env) (e : ExecutorRegistration) (n : ℕ) (s : Store) where
  -- A job that is returned was acquired.
  pub acquired :
      (job : ExecutionJob) (token : Key)
      → is_active_executor e.status ≡ true
      → IsKeyed execution_key s.execution_jobs
      → (acquire_lease env e n s).0 ≡ ok (some (job, token))
      → IsAcquired env e n (recovered env e n s) (acquire_lease env e n s).1 job token
  acquired job token a u h = elim (acquire_lease_contract env e n s a u) [
    | inl (m, eq) ↦ cc
    | inr (m, (job', token', eq, w)) ↦
        let same_job : job' ≡ job = cc in
        let same_token : token' ≡ token = cc in rw⁻¹ same_job (rw⁻¹ same_token w)
  ]

  -- If an active executor has acquired a job, in a database with unique ids, then until the next
  -- change `_leased_job`, with which `start_job` and `heartbeat_job` begin, answers for any executor
  -- and any token at any later clock: an executor that is not active is refused, then one that is
  -- not the owner, then a token whose hash is not that of the token that was returned; at the end
  -- of the lease or after it the call is refused and the row of the job loses its owner, its token
  -- and its lease, and is QUEUED if an attempt is left and DEAD_LETTER otherwise; else the job is
  -- returned and nothing is changed. `_owned_job`, with which `_finish_job` begins, makes the first
  -- three tests, does not look at the clock and changes nothing.
  pub leased_job_fences :
      (job : ExecutionJob) (token : Key) (later : Env) (other : ExecutorRegistration) (shown : Key)
      → is_active_executor e.status ≡ true
      → IsKeyed execution_key s.execution_jobs
      → (acquire_lease env e n s).0 ≡ ok (some (job, token))
      → let s' : Store = (acquire_lease env e n s).1 in
        let late : Store = release_or_expire later "LeaseExpired" job.id s' in
        (leased_job later other job.id shown s' ≡ (
          if not (is_active_executor other.status)
          then (err executor_inactive, s')
          else if not (e.id == other.id)
          then (err wrong_lease_owner, s')
          else if not (env.token_hash token == later.token_hash shown)
          then (err wrong_lease_token, s')
          else if leb (env.now + n) later.now
          then (err lease_expired, late)
          else (ok job, s')))
        × ((row : ExecutionJob) × (get execution_key job.id late.execution_jobs ≡ some row)
            × IsReleased job row)
        × (owned_job later other job.id shown s' ≡ (
            if not (is_active_executor other.status)
            then (err executor_inactive, s')
            else if not (e.id == other.id)
            then (err wrong_lease_owner, s')
            else if not (env.token_hash token == later.token_hash shown)
            then (err wrong_lease_token, s')
            else (ok job, s')))
  unfolding leased_job owned_job release_or_expire revoke_for_job
  leased_job_fences job token later other shown a u h =
      let w = acquired job token a u h in
      let leased : job ≡ leased_to env e n w.candidate = w.leased in
      let row : get execution_key job.id (acquire_lease env e n s).1.execution_jobs ≡ some job =
        cc (leased, w.row) in
      let reason = released later "LeaseExpired" in
      (
        ground arith,
        (
          reason job,
          get-update execution_key (λ x. x.id == job.id) reason (released_id later) job.id
                (acquire_lease env e n s).1.execution_jobs
              ∙ rw (row, ==-refl job.id) refl,
          released-IsReleased later "LeaseExpired" job,
        ),
        ground arith,
      )
