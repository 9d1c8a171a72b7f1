-- ===== src/ExecutionPlane/Acquisition.antt =====
-- Which job an executor is given, and which it is never given.
use sacm_agent_runtime.Base.{
  ==-refl, All-first, Bool, Bool-cases, IsKeyed, Key, List, [], any, arith, false, first,
  first-true, get, get-update, inl, inr, limit, none, ok, order_by, refl, select, some, true, ℕ,
  ◌==◌, ◌∙◌, ◌∷◌, ◌≡◌, ◌⊎◌,
}
use sacm_agent_runtime.Model.{Env, ExecutionJob, ExecutorRegistration, Store, execution_key}
use sacm_agent_runtime.ExecutionPlane.{
  acquire_lease, candidates, eligible, is_active_executor, leased_to, matches, recover_expired_jobs,
  revise,
}
use sacm_agent_runtime.ExecutionPlane.Jobs.{unchanged}
use sacm_agent_runtime.ExecutionPlane.Evolution.{
  IsEligible, candidates-AllEligible, recover_expired-IsEvolved,
}

-- The job as it is leased, and the row that it was before: the first that the executor matches of
-- the first hundred that may be leased, in their order.
pub record IsAcquired (env : Env) (e : ExecutorRegistration) (n : ℕ) (before after : Store)
    (job : ExecutionJob) (token : Key) : Type 0 where
  pub candidate : ExecutionJob
  pub chosen :
      first (matches e) (
        limit 100 (
          order_by
            (λ j. j.queued_at)
            (order_by (λ j. j.id) (select (eligible env e) before.execution_jobs))))
      ≡ some candidate
  pub found : get execution_key candidate.id before.execution_jobs ≡ some candidate
  pub able : eligible env e candidate ≡ true
  pub matching : matches e candidate ≡ true
  pub fresh_token : token ≡ env.fresh
  pub leased : job ≡ leased_to env e n candidate
  pub row : get execution_key candidate.id after.execution_jobs ≡ some job

first-none : {A : Type 0} (q : A → Bool) (xs : List A) → any q xs ≡ false → first q xs ≡ none
first-none q [] h = refl
first-none q (x ∷ xs) h = ground (arith, first-none q xs)

first-some :
    {A : Type 0} (q : A → Bool) (xs : List A) → any q xs ≡ true → (x : A) × (first q xs ≡ some x)
first-some q [] h = cc
first-some q (x ∷ xs) h = elim (Bool-cases (q x)) [
  | inl e ↦ (x, rw e refl)
  | inr e ↦ let (y, f) = first-some q xs (ground arith) in (y, rw e f)
]

module _ (env : Env) (e : ExecutorRegistration) (n : ℕ) (s : Store) where
  -- the database once the lapsed leases are recovered
  abbrev pub recovered : Store
  recovered = (recover_expired_jobs env s).1

  leased_row :
      (c : ExecutionJob)
      → get execution_key c.id recovered.execution_jobs ≡ some c
      → get execution_key c.id (revise (leased_to env e n) c.id recovered).execution_jobs
        ≡ some (leased_to env e n c)
  leased_row c f =
      get-update execution_key (λ x. x.id == c.id) (leased_to env e n) (λ _. refl) c.id
        recovered.execution_jobs
      ∙ rw (f, ==-refl c.id) refl

  -- If the executor is active and the ids of the jobs are unique, then `acquire_lease` returns no
  -- job if and only if none of the first hundred waiting jobs of the executor's scope that have an
  -- attempt left, by the time when they were queued and by id, has requirements that the executor
  -- meets; then the database is as the recovery of lapsed leases leaves it. Otherwise it returns
  -- the first of those hundred rows, in that order after the recovery, whose requirements the
  -- executor meets, and the row is now LEASED to the executor under the fresh token that is
  -- returned, with one more attempt used.
  pub acquire_lease_contract :
      is_active_executor e.status ≡ true
      → IsKeyed execution_key s.execution_jobs
      → ((any (matches e) (candidates env e recovered) ≡ false)
          × (acquire_lease env e n s ≡ (ok none, recovered)))
        ⊎ ((any (matches e) (candidates env e recovered) ≡ true)
            × ((job : ExecutionJob) × (token : Key) × ((acquire_lease env e n s).0
                  ≡ ok (some (job, token)))
                × IsAcquired env e n recovered (acquire_lease env e n s).1 job token))
  unfolding acquire_lease candidates
  acquire_lease_contract a u = elim (Bool-cases (any (matches e) (candidates env e recovered))) [
    | inr m ↦ inl (m, rw (a, first-none (matches e) (candidates env e recovered) m) refl)
    | inl m ↦
        let (c, f) = first-some (matches e) (candidates env e recovered) m in
        let (unique, _) = recover_expired-IsEvolved s.execution_jobs env s (u, unchanged) in
        let (row, able) =
          All-first (IsEligible env e recovered.execution_jobs) (matches e)
            (candidates env e recovered) c f (candidates-AllEligible env e recovered unique) in
        let job = leased_to env e n c in
        inr (
          m,
          (
            job,
            env.fresh,
            rw (a, f) refl,
            rw (a, f)
                (record {
                  candidate = c;
                  chosen = f;
                  found = row;
                  able = able;
                  matching = first-true (matches e) (candidates env e recovered) c f;
                  fresh_token = refl;
                  leased = refl;
                  row = leased_row c row;
                }),
          ),
        )
  ]
