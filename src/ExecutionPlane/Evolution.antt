-- ===== src/ExecutionPlane/Evolution.antt =====
-- Every operation of the execution plane changes its jobs by moves.
use mathlib.Core.Path.{subst}
use sacm_agent_runtime.Base.{
  All, All-first, All-limit, All-order_by, All-select, Bool, Bool-cases, IsFound, IsKeyed,
  IsKeyed-AllFound, IsKeyed-update, Key, List, Option, Option-cases, String, [], arith, first, get,
  get-key, inl, inr, none, order_by, refl, select, some, sym, true, update, ℕ, ◌==◌, ◌∷◌, ◌≡◌,
}
use sacm_agent_runtime.Model.{Env, ExecutionJob, ExecutorRegistration, Store, execution_key}
use sacm_agent_runtime.RunService.Transitions.{revoke_for_job}
use sacm_agent_runtime.RunService.Frame.{IsApart}
use sacm_agent_runtime.ExecutionPlane.{
  acquire_lease, candidates, eligible, is_active_executor, is_dead, lapsed_job, lease_job,
  leased_to, matches, recover_expired_jobs, released, revise, revoke_all,
}
use sacm_agent_runtime.ExecutionPlane.Orphans.{
  OrphanReport, is_orphan, nothing_recovered, orphans, recover_orphaned, release_orphans,
  released_orphan, requeue_dead_letter, requeued_job, settle_orphan, settle_orphans,
}
use sacm_agent_runtime.ExecutionPlane.Jobs.{
  AllMove, Evolves, Move, all_move, changed, lease, one_moves, release, requeue_dead,
}

-- The ids are unique, and the jobs have come about by moves.
abbrev pub IsEvolved : List ExecutionJob → Store → Type 0
IsEvolved from s = IsKeyed execution_key s.execution_jobs × Evolves from s.execution_jobs

pub execution_jobs-IsApart : (from : List ExecutionJob) → IsApart (IsEvolved from)
execution_jobs-IsApart from = record {
  runs = λ s rows h. h;
  steps = λ s rows h. h;
  events = λ s rows h. h;
  snapshots = λ s rows h. h;
}

module _ (from : List ExecutionJob) where
  changed-IsEvolved :
      (p : ExecutionJob → Bool) (f : ExecutionJob → ExecutionJob)
      → ((x : ExecutionJob) → (f x).id ≡ x.id)
      → (s : Store) → IsEvolved from s
      → AllMove p f s.execution_jobs
      → IsEvolved from (record s { execution_jobs = update p f s.execution_jobs })
  changed-IsEvolved p f same_key s h m =
      (IsKeyed-update execution_key p f same_key s.execution_jobs h.0, changed p f h.1 m)

  -- an attribute that is set on the job that was found by its key
  pub revise-IsEvolved :
      (f : ExecutionJob → ExecutionJob) (k : Key)
      → ((x : ExecutionJob) → (f x).id ≡ x.id)
      → (s : Store) (c : ExecutionJob) → get execution_key k s.execution_jobs ≡ some c
      → Move c (f c)
      → IsEvolved from s
      → IsEvolved from (revise f c.id s)
  revise-IsEvolved f k same_key s c e m h =
      subst (λ i. IsEvolved from (revise f i s))
        (sym (get-key execution_key k s.execution_jobs c e))
        (changed-IsEvolved (λ x. x.id == k) f same_key s h
          (one_moves f k s.execution_jobs c e h.0 m))

  module _ (env : Env) where
    pub id-released : (reason : String) (x : ExecutionJob) → (released env reason x).id ≡ x.id
    id-released reason x = ground arith

    revoke-IsEvolved :
        (job_id : Key) (actor reason : String) (s : Store)
        → IsEvolved from s
        → IsEvolved from (revoke_for_job env job_id actor reason s)
    unfolding revoke_for_job
    revoke-IsEvolved job_id actor reason s h = h

    revoke_all-IsEvolved :
        (reason : ExecutionJob → String) (jobs : List ExecutionJob) (s : Store)
        → IsEvolved from s
        → IsEvolved from (revoke_all env reason jobs s)
    unfolding revoke_all
    revoke_all-IsEvolved reason [] s h = h
    revoke_all-IsEvolved reason (job ∷ jobs) s h =
        revoke_all-IsEvolved reason jobs (revoke_for_job env job.id "control-plane" (reason job) s)
          (revoke-IsEvolved job.id "control-plane" (reason job) s h)

    pub recover_expired-IsEvolved :
        (s : Store) → IsEvolved from s → IsEvolved from (recover_expired_jobs env s).1
    unfolding recover_expired_jobs
    recover_expired-IsEvolved s h =
        revoke_all-IsEvolved (λ _. "LeaseExpired") (select (lapsed_job env) s.execution_jobs) _
          (changed-IsEvolved (lapsed_job env) (released env "LeaseExpired")
            (id-released "LeaseExpired") s h
            (all_move (lapsed_job env) (released env "LeaseExpired") s.execution_jobs
              (λ j l. release env "LeaseExpired" (ground arith))))

    settle_orphan-IsEvolved :
        (j : ExecutionJob × String) (s : Store)
        → IsEvolved from s
        → IsEvolved from (settle_orphan env j s)
    unfolding settle_orphan revoke_for_job
    settle_orphan-IsEvolved (job, reason) s h = ground arith

    settle_orphans-IsEvolved :
        (js : List (ExecutionJob × String)) (tally : OrphanReport) (s : Store)
        → IsEvolved from s
        → IsEvolved from (settle_orphans env js tally s).1
    unfolding settle_orphans
    settle_orphans-IsEvolved [] tally s h = h
    settle_orphans-IsEvolved (j ∷ js) tally s h =
        settle_orphans-IsEvolved js _ (settle_orphan env j s) (settle_orphan-IsEvolved j s h)

    pub recover_orphaned-IsEvolved :
        (organization_id : Option Key) (s : Store)
        → IsEvolved from s
        → IsEvolved from (recover_orphaned env organization_id s).1
    unfolding recover_orphaned
    recover_orphaned-IsEvolved organization_id s h =
        settle_orphans-IsEvolved (orphans env organization_id s) (nothing_recovered env)
          (release_orphans env organization_id s)
          (changed-IsEvolved (is_orphan env organization_id s) (released_orphan env s)
            (λ x. id-released _ x) s h
            (all_move (is_orphan env organization_id s) (released_orphan env s) s.execution_jobs
              (λ j l. release env _ (ground arith))))

    pub requeue-IsEvolved :
        (job_id : Key) (reason : String) (reset_attempts : Bool) (s : Store)
        → IsEvolved from s
        → IsEvolved from (requeue_dead_letter env job_id reason reset_attempts s).1
    unfolding requeue_dead_letter
    requeue-IsEvolved job_id reason reset_attempts s h =
        elim (Option-cases (get execution_key job_id s.execution_jobs)) [
          | inl e ↦ rw e h
          | inr (c, e) ↦ elim (Bool-cases (is_dead c.state)) [
            | inr d ↦ rw e (rw d h)
            | inl d ↦ rw e (
                rw d (
                  revise-IsEvolved (requeued_job env reason reset_attempts) job_id (λ _. refl) s c e
                    (requeue_dead env reason reset_attempts d) h))
          ]
        ]

module _ (env : Env) where
  -- The jobs that a query of `acquire_lease` returns are rows that may be leased.
  abbrev pub IsEligible : ExecutorRegistration → List ExecutionJob → ExecutionJob → Type 0
  IsEligible e js c = IsFound execution_key js c × (eligible env e c ≡ true)

  pub candidates-AllEligible :
      (e : ExecutorRegistration) (s : Store)
      → IsKeyed execution_key s.execution_jobs
      → All (IsEligible e s.execution_jobs) (candidates env e s)
  unfolding candidates
  candidates-AllEligible e s u =
      let P = IsEligible e s.execution_jobs in
      let eligible_jobs = select (eligible env e) s.execution_jobs in
      let by_id = order_by (λ (j : ExecutionJob). j.id) eligible_jobs in
      All-limit P 100 (order_by (λ j. j.queued_at) by_id) (
        All-order_by P (λ j. j.queued_at) by_id
          (All-order_by P (λ j. j.id) eligible_jobs
            (All-select (IsFound execution_key s.execution_jobs) (eligible env e) s.execution_jobs
              (IsKeyed-AllFound execution_key s.execution_jobs u))))

module _ (from : List ExecutionJob) (env : Env) where
  lease_job-IsEvolved :
      (e : ExecutorRegistration) (n : ℕ) (o : Option ExecutionJob) (s : Store)
      → ((c : ExecutionJob) → o ≡ some c → IsEligible env e s.execution_jobs c)
      → IsEvolved from s
      → IsEvolved from (lease_job env e n o s).1
  lease_job-IsEvolved e n none s found h = h
  lease_job-IsEvolved e n (some c) s found h =
      let (row, able) = found c refl in
      revise-IsEvolved from (leased_to env e n) c.id (λ _. refl) s c row (lease env e n able) h

  pub acquire-IsEvolved :
      (e : ExecutorRegistration) (n : ℕ) (s : Store)
      → IsEvolved from s
      → IsEvolved from (acquire_lease env e n s).1
  unfolding acquire_lease
  acquire-IsEvolved e n s h = elim (Bool-cases (is_active_executor e.status)) [
    | inr a ↦ rw a h
    | inl a ↦
        let s' : Store = (recover_expired_jobs env s).1 in
        let h' = recover_expired-IsEvolved from env s h in
        rw a (
          lease_job-IsEvolved e n (first (matches e) (candidates env e s')) s'
            (λ c f.
              All-first (IsEligible env e s'.execution_jobs) (matches e) (candidates env e s') c f
                (candidates-AllEligible env e s' h'.0))
            h')
  ]
