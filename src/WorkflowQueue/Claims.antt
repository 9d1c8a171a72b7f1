-- ===== src/WorkflowQueue/Claims.antt =====
-- Which job is claimed, and what a claim makes of it.
use sacm_agent_runtime.Base.{
  Bool, Bool-cases, Key, List, Option-cases, [], arith, every, false, get, get-update, inl, inr,
  ltb, none, not, refl, select, some, true, update, ℕ, ◌<◌, ◌||◌, ◌∷◌, ◌≡◌, ◌≤◌, ◌⊎◌,
}
use sacm_agent_runtime.Model.{Env, JobState, Store, WorkflowJob, job_key}
use sacm_agent_runtime.RunService.Transitions.{record_metric}
use sacm_agent_runtime.WorkflowQueue.{
  claimable, comes_first, lapsed, next_job, reclaimed, record_lapses, recover_expired,
}

-- A job whose worker has lost it to the time.
pub record HasEnded (env : Env) (job : WorkflowJob) : Type 0 where
  pub runs : job.state ≡ JobState.running
  pub end : ℕ
  pub lease : job.lease_expires_at ≡ some end
  pub over : end ≤ env.now

-- The job as the recovery leaves it.
pub record IsReclaimed (env : Env) (job job' : WorkflowJob) : Type 0 where
  pub no_token : job'.lease_token ≡ none
  pub no_lease : job'.lease_expires_at ≡ none
  pub reported : job'.last_error ≡ some "Workflow worker lease expired."
  pub next :
      ((job.attempt < job.max_attempts)
        × (job'.state ≡ JobState.queued)
        × (job'.available_at ≡ env.now)
        × (job'.completed_at ≡ job.completed_at))
      ⊎ ((job.max_attempts ≤ job.attempt)
          × (job'.state ≡ JobState.failed)
          × (job'.available_at ≡ job.available_at)
          × (job'.completed_at ≡ some env.now))
  pub others : job' ≡ record job {
    state = job'.state;
    available_at = job'.available_at;
    lease_token = job'.lease_token;
    lease_expires_at = job'.lease_expires_at;
    last_error = job'.last_error;
    updated_at = env.now;
    completed_at = job'.completed_at;
  }

module _ (env : Env) where
  comes_first_trans :
      (i j k : WorkflowJob)
      → comes_first env i j ≡ true
      → comes_first env j k ≡ true
      → comes_first env i k ≡ true
  comes_first_trans i j k p q = ground arith

  comes_first-total : (i j : WorkflowJob) → comes_first env i j ≡ false → comes_first env j i ≡ true
  comes_first-total i j p = ground arith

  -- No claimable job of the list comes before `j`.
  abbrev pub is_next : WorkflowJob → List WorkflowJob → Bool
  is_next j js = every (λ k. not (claimable env k) || comes_first env j k) js

  is_next-weaken :
      (i j : WorkflowJob) (ks : List WorkflowJob)
      → comes_first env i j ≡ true
      → is_next j ks ≡ true
      → is_next i ks ≡ true
  is_next-weaken i j [] p h = refl
  is_next-weaken i j (k ∷ ks) p h = ground (arith, comes_first_trans i j k, is_next-weaken i j ks)

  none_claimable :
      (i : WorkflowJob) (js : List WorkflowJob) → next_job env js ≡ none → is_next i js ≡ true
  unfolding next_job
  none_claimable i [] h = refl
  none_claimable i (j ∷ js) h = ground (arith, none_claimable i js)

  comes_first_refl : (j : WorkflowJob) → comes_first env j j ≡ true
  comes_first_refl j = ground arith

  -- If there is a job that a worker tries to claim, it is queued and due, and no other job that is
  -- due was available earlier, or at the same time and created earlier.
  pub next_job-IsNext :
      (js : List WorkflowJob) (j : WorkflowJob)
      → next_job env js ≡ some j
      → (claimable env j ≡ true) × (is_next j js ≡ true)
  unfolding next_job
  next_job-IsNext [] j h = cc
  next_job-IsNext (k ∷ ks) j h = elim (Bool-cases (claimable env k)) [
    | inr c ↦
        let rest : next_job env ks ≡ some j = ground arith in
        ground (arith, next_job-IsNext ks j rest)
    | inl c ↦ elim (Option-cases (next_job env ks)) [
      | inl e ↦
          let same_job : k ≡ j = ground arith in
          ground (arith, none_claimable j ks e, comes_first_refl j)
      | inr (l, e) ↦
          let ih = next_job-IsNext ks l e in
          elim (Bool-cases (comes_first env k l)) [
            | inl f ↦
                let same_job : k ≡ j = ground arith in
                ground (arith, is_next-weaken k l ks, comes_first_refl j, ih)
            | inr f ↦
                let same_job : l ≡ j = ground arith in ground (arith, comes_first-total k l, ih)
          ]
    ]
  ]

  reclaimed_id : (job : WorkflowJob) → (reclaimed env job).id ≡ job.id
  reclaimed_id job = ground arith

  lapsed-HasEnded : (job : WorkflowJob) → lapsed env job ≡ true → HasEnded env job
  lapsed-HasEnded job l = elim (Option-cases job.lease_expires_at) [
    | inl e ↦ ground arith
    | inr (t, e) ↦ record { runs = ground arith; end = t; lease = e; over = ground arith }
  ]

  HasEnded-lapsed : (job : WorkflowJob) → HasEnded env job → lapsed env job ≡ true
  HasEnded-lapsed job e =
      let runs = e.runs in let lease = e.lease in let over = e.over in ground arith

  reclaimed-IsReclaimed : (job : WorkflowJob) → IsReclaimed env job (reclaimed env job)
  reclaimed-IsReclaimed job = elim (Bool-cases (ltb job.attempt job.max_attempts)) [
    | inl l ↦ rw l (record {
      no_token = refl;
      no_lease = refl;
      reported = refl;
      next = inl (ground arith, refl, refl, refl);
      others = refl;
    })
    | inr l ↦ rw l (record {
      no_token = refl;
      no_lease = refl;
      reported = refl;
      next = inr (ground arith, refl, refl, refl);
      others = refl;
    })
  ]

  jobs-record_lapses :
      (js : List WorkflowJob) (s : Store) → (record_lapses env js s).workflow_jobs ≡ s.workflow_jobs
  unfolding record_lapses record_metric
  jobs-record_lapses [] s = refl
  jobs-record_lapses (j ∷ js) s = jobs-record_lapses js _

  pub jobs-recover_expired :
      (s : Store)
      → (recover_expired env s).workflow_jobs ≡ update (lapsed env) (reclaimed env) s.workflow_jobs
  unfolding recover_expired
  jobs-recover_expired s = jobs-record_lapses (select (lapsed env) s.workflow_jobs) _

  -- The recovery takes a job exactly if it is RUNNING with a lease that has ended by now. Such a
  -- job loses its token and its lease, with the fact as its error; it is QUEUED and available at
  -- once if an attempt is left, and else FAILED with a time of completion; but for the time of the
  -- change the rest of it stays. Every other job stays as it is.
  pub recover_expired_contract :
      (s : Store) (k : Key) (job : WorkflowJob)
      → get job_key k s.workflow_jobs ≡ some job
      → let row = get job_key k (recover_expired env s).workflow_jobs in
        (HasEnded env job × ((job' : WorkflowJob) × (row ≡ some job') × IsReclaimed env job job'))
        ⊎ (¬ HasEnded env job × (row ≡ some job))
  recover_expired_contract s k job h =
      let row = get-update job_key (lapsed env) (reclaimed env) reclaimed_id k s.workflow_jobs in
      rw (jobs-recover_expired s, row, h)
        (elim (Bool-cases (lapsed env job)) [
          | inl l ↦
              inl (lapsed-HasEnded job l, (reclaimed env job, rw l refl, reclaimed-IsReclaimed job))
          | inr l ↦ inr ((λ e. let ended = HasEnded-lapsed job e in cc), rw l refl)
        ])
