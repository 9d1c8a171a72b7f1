-- ===== src/ExecutionPlane/Jobs.antt =====
-- How the jobs of the execution plane change: the moves of one job, and of the whole table.
use mathlib.Core.Path.{subst}
use sacm_agent_runtime.Base.{
  All, Bool, Bool-cases, IsKeyed, Key, List, String, [], arith, get, inl, inr, is_some, none, not,
  refl, some, sym, true, update, ℕ, ◌&&◌, ◌++◌, ◌==◌, ◌∷◌, ◌≡◌,
}
use sacm_agent_runtime.Model.{Env, ExecutionJob, ExecutorRegistration, execution_key}
use sacm_agent_runtime.ExecutionPlane.{
  eligible, extended_lease, is_dead, is_leased, is_live, is_waiting, leased_to, released,
  run_started,
}
use sacm_agent_runtime.ExecutionPlane.Results.{AgentOperations, AgentResult, ended_job}
use sacm_agent_runtime.ExecutionPlane.Orphans.{requeued_job}

-- What an operation may make of a job, with the guard that the operation has tested.
pub data Move : ExecutionJob → ExecutionJob → Type 0 where
  lease :
      {j : ExecutionJob} (env : Env) (e : ExecutorRegistration) (n : ℕ)
      → eligible env e j ≡ true
      → Move j (leased_to env e n j)
  release :
      {j : ExecutionJob} (env : Env) (reason : String)
      → is_live j.state ≡ true
      → Move j (released env reason j)
  start : {j : ExecutionJob} (env : Env) → is_leased j.state ≡ true → Move j (run_started env j)
  extend :
      {j : ExecutionJob} (env : Env) (n : ℕ)
      → is_live j.state ≡ true
      → Move j (extended_lease env n j)
  finish :
      {j : ExecutionJob} (agents : AgentOperations) (env : Env) (as_failed : Bool)
      (result : AgentResult)
      → is_live j.state ≡ true
      → Move j (ended_job agents env as_failed result j)
  requeue_dead :
      {j : ExecutionJob} (env : Env) (reason : String) (reset_attempts : Bool)
      → is_dead j.state ≡ true
      → Move j (requeued_job env reason reset_attempts j)

-- Each job that is selected moves.
abbrev pub AllMove :
    (ExecutionJob → Bool) → (ExecutionJob → ExecutionJob) → List ExecutionJob → Type 0
AllMove p f js = All (λ j. p j ≡ true → Move j (f j)) js

-- a job as it is scheduled
abbrev pub is_new : ExecutionJob → Bool
is_new j =
    is_waiting j.state
    && ((j.attempt == 0)
        && (not (is_some j.lease_owner_id)
            && (not (is_some j.lease_token_hash) && not (is_some j.lease_expires_at))))

pub data Evolves (start : List ExecutionJob) : List ExecutionJob → Type 0 where
  unchanged : Evolves start start
  changed :
      (p : ExecutionJob → Bool) (f : ExecutionJob → ExecutionJob) {js : List ExecutionJob}
      → Evolves start js
      → AllMove p f js
      → Evolves start (update p f js)
  added :
      (j : ExecutionJob) {js : List ExecutionJob}
      → Evolves start js
      → is_new j ≡ true
      → Evolves start (js ++ j ∷ [])

module _ (p : ExecutionJob → Bool) (f : ExecutionJob → ExecutionJob) where
  pub all_move :
      (js : List ExecutionJob) → ((j : ExecutionJob) → p j ≡ true → Move j (f j)) → AllMove p f js
  all_move [] h = tt
  all_move (j ∷ js) h = (h j, all_move js h)

module _ (f : ExecutionJob → ExecutionJob) (k : Key) where
  elsewhere_moves :
      (js : List ExecutionJob) → get execution_key k js ≡ none → AllMove (λ x. x.id == k) f js
  elsewhere_moves [] h = tt
  elsewhere_moves (j ∷ js) h = (ground arith, elsewhere_moves js (ground arith))

  -- The one row of the key moves.
  pub one_moves :
      (js : List ExecutionJob) (c : ExecutionJob)
      → get execution_key k js ≡ some c
      → IsKeyed execution_key js
      → Move c (f c)
      → AllMove (λ x. x.id == k) f js
  one_moves [] c h u m = cc
  one_moves (j ∷ js) c h u m = elim (Bool-cases (j.id == k)) [
    | inl e ↦
        let same_job : j ≡ c = ground arith in
        let same_key : j.id ≡ k = ground arith in
        (λ _. subst (λ x. Move x (f x)) (sym same_job) m, elsewhere_moves js (rw same_key at u.0))
    | inr e ↦ (ground arith, one_moves js c (ground arith) u.1 m)
  ]

pub key-Move : {j k : ExecutionJob} → Move j k → k.id ≡ j.id
key-Move (lease env e n h) = refl
key-Move (release env reason h) = ground arith
key-Move (start env h) = refl
key-Move (extend env n h) = refl
key-Move (finish agents env as_failed result h) = refl
key-Move (requeue_dead env reason reset_attempts h) = refl

pub max_attempts-Move : {j k : ExecutionJob} → Move j k → k.max_attempts ≡ j.max_attempts
max_attempts-Move (lease env e n h) = refl
max_attempts-Move (release env reason h) = ground arith
max_attempts-Move (start env h) = refl
max_attempts-Move (extend env n h) = refl
max_attempts-Move (finish agents env as_failed result h) = refl
max_attempts-Move (requeue_dead env reason reset_attempts h) = refl
