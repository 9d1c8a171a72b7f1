-- ===== src/WorkflowQueue/Fencing.antt =====
-- What a claim hands out: the token of the new lease opens the job, and no other token does.
use sacm_agent_runtime.Base.{
  Bool-cases, Exec, IsKeyed, IsKeyed-update, Key, Option, Option-cases, Result, String, and_then,
  any, any-keyed, ap, arith, err, get, get-key, get-update, if◌then◌else◌, inl, inr, keyed,
  lease_lost, ltb, none, ok, refl, some, true, update, ℕ, ◌&&◌, ◌+◌, ◌==◌, ◌∙◌, ◌≡◌,
}
use sacm_agent_runtime.Model.{Env, Store, WorkflowJob, job_key}
use sacm_agent_runtime.RunService.Transitions.{record_metric}
use sacm_agent_runtime.WorkflowQueue.{
  claim, claimed, holds, is_queued, is_running, lapsed, next_job, reclaimed, recover_expired, renew,
  require_owned, take_job,
}
use sacm_agent_runtime.WorkflowQueue.Claims.{jobs-recover_expired}
use sacm_agent_runtime.WorkflowQueue.Processing.{complete, conclude, fail, settle}

-- The database has the job as it is given, running under the token.
pub record IsHeld (env : Env) (n : ℕ) (j : WorkflowJob) (token : Key) (s : Store) : Type 0 where
  pub row : get job_key j.id s.workflow_jobs ≡ some j
  pub unique : IsKeyed job_key s.workflow_jobs
  pub state : is_running j.state ≡ true
  pub lease_token : j.lease_token ≡ some token
  pub lease_expires_at : j.lease_expires_at ≡ some (env.now + n)

module _ (env : Env) (n : ℕ) where
  take_job-IsHeld :
      (o : Option WorkflowJob) (s : Store) (j : WorkflowJob) (token : Key)
      → IsKeyed job_key s.workflow_jobs
      → (take_job env n o s).0 ≡ ok (some (j, token))
      → IsHeld env n j token (take_job env n o s).1
  unfolding record_metric
  take_job-IsHeld none s j token k e = cc
  take_job-IsHeld (some c) s j token k e =
      let mine = keyed job_key c.id (λ x. is_queued x.state) in
      let js = update mine (claimed env n) s.workflow_jobs in
      let unique : IsKeyed job_key js =
        IsKeyed-update job_key mine (claimed env n) (λ _. refl) s.workflow_jobs k in
      let found = get-update job_key mine (claimed env n) (λ _. refl) c.id s.workflow_jobs in
      let test_mine = any-keyed job_key c.id (λ x. is_queued x.state) s.workflow_jobs k in
      elim (Option-cases (get job_key c.id s.workflow_jobs)) [
        | inl f ↦ ground arith
        | inr (x, f) ↦
            let own_key = get-key job_key c.id s.workflow_jobs x f in
            elim (Bool-cases (is_queued x.state)) [
              | inr q ↦ ground arith
              | inl q ↦
                  let hit : any mine s.workflow_jobs ≡ true = ground arith in
                  let row : get job_key c.id js ≡ some (claimed env n x) = ground arith in
                  let result : Result (Option (WorkflowJob × Key)) =
                    ok (some (claimed env n x, env.fresh)) in
                  let pair : result ≡ ok (some (j, token)) = rw (hit, row) at e in
                  let same_job : claimed env n x ≡ j = ground arith in
                  rw hit (
                    rw row (record {
                      row = ground arith;
                      unique = unique;
                      state = ground arith;
                      lease_token = ground arith;
                      lease_expires_at = ground arith;
                    }))
            ]
      ]

  IsKeyed-recover_expired :
      (s : Store)
      → IsKeyed job_key s.workflow_jobs
      → IsKeyed job_key (recover_expired env s).workflow_jobs
  IsKeyed-recover_expired s k =
      rw (jobs-recover_expired env s)
        (IsKeyed-update job_key (lapsed env) (reclaimed env) (λ j. ground arith) s.workflow_jobs k)

  claim-IsHeld :
      (s : Store) (j : WorkflowJob) (token : Key)
      → IsKeyed job_key s.workflow_jobs
      → (claim env n s).0 ≡ ok (some (j, token))
      → IsHeld env n j token (claim env n s).1
  unfolding claim
  claim-IsHeld s j token k e =
      take_job-IsHeld (next_job env (recover_expired env s).workflow_jobs) (recover_expired env s) j
        token (IsKeyed-recover_expired s k) e

  require_owned_held :
      (j : WorkflowJob) (token shown : Key) (s : Store)
      → IsHeld env n j token s
      → require_owned j.id shown s ≡ (if token == shown then (ok j, s) else (err lease_lost, s))
  unfolding require_owned
  require_owned_held j token shown s h = ground arith

  owned_then :
      (token shown : Key) (j : WorkflowJob) (s : Store) (f : WorkflowJob → Exec Store (Unit {0}))
      (r : Result WorkflowJob × Store)
      → r ≡ (if token == shown then (ok j, s) else (err lease_lost, s))
      → and_then f r ≡ (if token == shown then f j s else (err lease_lost, s))
  owned_then token shown j s f r h =
      ap (and_then f) h
      ∙ elim (Bool-cases (token == shown)) [ inl v ↦ rw v refl | inr v ↦ rw v refl ]

  renew_held :
      (m : ℕ) (later : Env) (j : WorkflowJob) (token shown : Key) (s : Store)
      → IsHeld env n j token s
      → (renew later m j.id shown s).0
        ≡ (if (token == shown) && ltb later.now (env.now + n) then ok tt else err lease_lost)
  unfolding renew
  renew_held m later j token shown s h =
      ground (arith, any-keyed job_key j.id (holds later m shown) s.workflow_jobs h.unique)

  -- In a queue with one row for each job at most: once a claim has handed out a job with a token,
  -- and in the database that the claim leaves, whoever shows another token, such as that of an
  -- earlier lease, gets the error of a lost lease from `complete`, `fail` and `renew`, and the first
  -- two leave the database as it is. With the token itself `complete` and `fail` go on to settle the
  -- job, at any time, and `renew` succeeds until the lease ends.
  pub claim_fences :
      (s : Store) (j : WorkflowJob) (token shown : Key) (later : Env) (m : ℕ) (error : String)
      → IsKeyed job_key s.workflow_jobs
      → (claim env n s).0 ≡ ok (some (j, token))
      → let s' = (claim env n s).1 in
        let valid = token == shown in
        (complete later j.id shown s'
          ≡ (if valid then conclude later j s' else (err lease_lost, s')))
        × (fail later j.id shown error s'
            ≡ (if valid then settle later error j s' else (err lease_lost, s')))
        × ((renew later m j.id shown s').0
            ≡ (if valid && ltb later.now (env.now + n) then ok tt else err lease_lost))
  unfolding complete fail
  claim_fences s j token shown later m error k e =
      let s' = (claim env n s).1 in
      let h : IsHeld env n j token s' = claim-IsHeld s j token k e in
      (
        owned_then token shown j s' (conclude later) _ (require_owned_held j token shown s' h),
        owned_then token shown j s' (settle later error) _ (require_owned_held j token shown s' h),
        renew_held m later j token shown s' h,
      )
