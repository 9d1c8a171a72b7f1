-- ===== src/ExecutionPlane/Invariant.antt =====
-- What holds of every job of the execution plane.
use sacm_agent_runtime.Base.{
  All, All-append, Bool, Bool-cases, IsKeyed, List, [], arith, false, if◌then◌else◌, inl, inr,
  is_some, leb, not, true, update, ◌&&◌, ◌∷◌, ◌≡◌,
}
use sacm_agent_runtime.Model.{Env, ExecutionJob, Store, execution_key}
use sacm_agent_runtime.ExecutionPlane.{is_dead, is_live, is_waiting}
use sacm_agent_runtime.ExecutionPlane.Results.{AgentOperations}
use sacm_agent_runtime.ExecutionPlane.Histories.{
  AllFresh, PlaneAction, perform-IsEvolved, perform_on_jobs,
}
use sacm_agent_runtime.ExecutionPlane.Jobs.{
  AllMove, Evolves, Move, added, changed, extend, finish, is_new, lease, release, requeue_dead,
  start, unchanged,
}

-- A lease has an owner, a token and an end, and has used an attempt; a job that waits or was given
-- up has none of these, and a job that was given up has no attempt left.
abbrev has_lease : ExecutionJob → Bool
has_lease j = is_some j.lease_owner_id && (is_some j.lease_token_hash && is_some j.lease_expires_at)

abbrev is_free : ExecutionJob → Bool
is_free j =
    not (is_some j.lease_owner_id)
    && (not (is_some j.lease_token_hash) && not (is_some j.lease_expires_at))

abbrev pub is_well_formed : ExecutionJob → Bool
is_well_formed j =
    leb j.attempt j.max_attempts
    && (if is_live j.state
        then has_lease j && leb 1 j.attempt
        else if is_waiting j.state
        then is_free j
        else if is_dead j.state
        then is_free j && leb j.max_attempts j.attempt
        else true)

abbrev pub AllJobsWellFormed : Store → Type 0
AllJobsWellFormed s = All (λ j. is_well_formed j ≡ true) s.execution_jobs

pub Move-is_well_formed :
    (j k : ExecutionJob) → Move j k → is_well_formed j ≡ true → is_well_formed k ≡ true
Move-is_well_formed j k (lease env e n h) w = ground arith
Move-is_well_formed j k (release env reason h) w = ground arith
Move-is_well_formed j k (start env h) w = ground arith
Move-is_well_formed j k (extend env n h) w = ground arith
Move-is_well_formed j k (finish agents env true result h) w = ground arith
Move-is_well_formed j k (finish agents env false result h) w = ground arith
Move-is_well_formed j k (requeue_dead env reason reset_attempts h) w = ground arith

module _ (P : ExecutionJob → Type 0) (keep : (j k : ExecutionJob) → Move j k → P j → P k)
    (begin_with : (j : ExecutionJob) → is_new j ≡ true → P j) where
  All-moves :
      (p : ExecutionJob → Bool) (f : ExecutionJob → ExecutionJob) (js : List ExecutionJob)
      → AllMove p f js
      → All P js
      → All P (update p f js)
  All-moves p f [] m h = tt
  All-moves p f (j ∷ js) m h = elim (Bool-cases (p j)) [
    | inl e ↦ rw e (keep j (f j) (m.0 e) h.0, All-moves p f js m.1 h.1)
    | inr e ↦ rw e (h.0, All-moves p f js m.1 h.1)
  ]

  -- What every move keeps holds of all jobs that have evolved.
  pub Evolves-All :
      (from : List ExecutionJob) {js : List ExecutionJob} → Evolves from js → All P from → All P js
  Evolves-All from unchanged h = h
  Evolves-All from (changed p f {js} d m) h = All-moves p f js m (Evolves-All from d h)
  Evolves-All from (added j {js} d n) h = All-append P js j (begin_with j n) (Evolves-All from d h)

is_new-is_well_formed : (j : ExecutionJob) → is_new j ≡ true → is_well_formed j ≡ true
is_new-is_well_formed j n = ground arith

-- The jobs of a database that has evolved are well formed, if they were.
pub Evolves-AllJobsWellFormed :
    (from js : List ExecutionJob)
    → Evolves from js
    → All (λ j. is_well_formed j ≡ true) from
    → All (λ j. is_well_formed j ≡ true) js
Evolves-AllJobsWellFormed from js d h =
    Evolves-All (λ j. is_well_formed j ≡ true) Move-is_well_formed is_new-is_well_formed from d h

-- Whatever the calls that schedule, lease, start, prolong, end, recover and requeue jobs, in
-- whatever order, and whether they succeed or raise, and whatever the agent service does but for
-- writing jobs: if the fresh id of each call is then the id of no job, and at the start the ids
-- of the jobs are unique and every job is well formed, then every job is well formed at the end.
-- A job is well formed if it has not more attempts than its maximum; a LEASED or RUNNING job has
-- an owner, a token and an end of its lease and has used an attempt; a QUEUED or DEAD_LETTER job
-- has no owner, no token and no end; and a DEAD_LETTER job has used all its attempts.
pub perform_on_jobs-AllJobsWellFormed :
    (agents : AgentOperations) (cs : List (Env × PlaneAction)) (s : Store)
    → AllFresh agents cs s
    → IsKeyed execution_key s.execution_jobs
    → AllJobsWellFormed s
    → AllJobsWellFormed (perform_on_jobs agents cs s)
perform_on_jobs-AllJobsWellFormed agents cs s g u h =
    let (_, d) = perform-IsEvolved agents s.execution_jobs cs s g (u, unchanged) in
    Evolves-AllJobsWellFormed s.execution_jobs (perform_on_jobs agents cs s).execution_jobs d h
