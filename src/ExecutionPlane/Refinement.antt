-- ===== src/ExecutionPlane/Refinement.antt =====
-- The life of a job, by the attempts that it has left, and that the execution plane keeps to it.
use mathlib.Core.Path.{subst}
use sacm_agent_runtime.Base.{
  All, Bool, Bool-cases, IsKeyed, List, String, [], arith, false, if◌then◌else◌, inl, inr, refl,
  suc, sym, true, update, zero, ℕ, ◌++◌, ◌+◌, ◌-◌, ◌∙◌, ◌∷◌, ◌≡◌,
}
use sacm_agent_runtime.Model.{Env, ExecutionJob, Store, execution_key}
use sacm_agent_runtime.ExecutionPlane.{
  extended_lease, is_dead, is_live, is_waiting, leased_to, released, run_started,
}
use sacm_agent_runtime.ExecutionPlane.Results.{AgentOperations, ended_job}
use sacm_agent_runtime.ExecutionPlane.Orphans.{requeued_job}
use sacm_agent_runtime.ExecutionPlane.Jobs.{
  AllMove, Evolves, Move, added, changed, extend, finish, is_new, key-Move, lease,
  max_attempts-Move, release, requeue_dead, start, unchanged,
}
use sacm_agent_runtime.ExecutionPlane.Invariant.{
  AllJobsWellFormed, Evolves-AllJobsWellFormed, is_well_formed,
}
use sacm_agent_runtime.ExecutionPlane.Histories.{
  AllFresh, PlaneAction, perform-IsEvolved, perform_on_jobs,
}

pub data Phase : Type 0 where
  unleased held : (left : ℕ) → Phase
  abandoned settled : Phase

-- Taking a job uses an attempt; a job that is lost goes back while one is left; a job that was
-- given up comes back by hand, with no attempt or with all of them.
pub data Step (most : ℕ) : Phase → Phase → Type 0 where
  take : (n : ℕ) → Step most (unleased (suc n)) (held n)
  lose : (n : ℕ) → Step most (held (suc n)) (unleased (suc n))
  exhaust : Step most (held 0) abandoned
  go_on : (n : ℕ) → Step most (held n) (held n)
  end_it : (n : ℕ) → Step most (held n) settled
  reopen_empty : Step most abandoned (unleased 0)
  reopen_full : Step most abandoned (unleased most)

pub data Reaches (most : ℕ) (p : Phase) : Phase → Type 0 where
  stay : Reaches most p p
  then_step : {q r : Phase} → Reaches most p q → Step most q r → Reaches most p r

abbrev pub phase : ExecutionJob → Phase
phase j =
    let left = j.max_attempts - j.attempt in
    if is_live j.state
    then held left
    else if is_waiting j.state
    then unleased left
    else if is_dead j.state
    then abandoned
    else settled

-- The same job, further in its life.
pub record IsLater (i j : ExecutionJob) : Type 0 where
  pub id : j.id ≡ i.id
  pub max_attempts : j.max_attempts ≡ i.max_attempts
  pub reached : Reaches i.max_attempts (phase i) (phase j)

-- The same jobs in the same order, each further in its life, and behind them the jobs that are new,
-- each of which has begun with all its attempts.
pub data AllLater : List ExecutionJob → List ExecutionJob → Type 0 where
  no_jobs : AllLater [] []
  new_job :
      {j : ExecutionJob} {js : List ExecutionJob}
      → Reaches j.max_attempts (unleased j.max_attempts) (phase j)
      → AllLater [] js
      → AllLater [] (j ∷ js)
  next_job :
      {i j : ExecutionJob} {is js : List ExecutionJob}
      → IsLater i j
      → AllLater is js
      → AllLater (i ∷ is) (j ∷ js)

module _ (most : ℕ) where
  step_by : (p q : Phase) {p' q' : Phase} → p ≡ p' → q ≡ q' → Step most p' q' → Step most p q
  step_by p q {p'} e f s =
      subst (λ x. Step most x q) (sym e) (subst (λ x. Step most p' x) (sym f) s)

  released-Step :
      (env : Env) (reason : String) (j : ExecutionJob) (left : ℕ)
      → j.max_attempts - j.attempt ≡ left
      → is_live j.state ≡ true
      → Step most (phase j) (phase (released env reason j))
  released-Step env reason j zero e l =
      step_by (phase j) (phase (released env reason j)) (ground arith) (ground arith) exhaust
  released-Step env reason j (suc n) e l =
      step_by (phase j) (phase (released env reason j)) (ground arith) (ground arith) (lose n)

Move-Step :
    (j k : ExecutionJob)
    → Move j k
    → is_well_formed j ≡ true
    → Step j.max_attempts (phase j) (phase k)
Move-Step j k (lease env e n h) w =
    step_by j.max_attempts (phase j) (phase (leased_to env e n j)) (ground arith) (ground arith)
      (take (j.max_attempts - (j.attempt + 1)))
Move-Step j k (release env reason h) w = released-Step j.max_attempts env reason j _ refl h
Move-Step j k (start env h) w =
    step_by j.max_attempts (phase j) (phase (run_started env j)) (ground arith) (ground arith)
      (go_on (j.max_attempts - j.attempt))
Move-Step j k (extend env n h) w =
    step_by j.max_attempts (phase j) (phase (extended_lease env n j)) (ground arith) (ground arith)
      (go_on (j.max_attempts - j.attempt))
Move-Step j k (finish agents env true result h) w =
    step_by j.max_attempts (phase j) (phase (ended_job agents env true result j)) (ground arith)
      refl (end_it (j.max_attempts - j.attempt))
Move-Step j k (finish agents env false result h) w =
    step_by j.max_attempts (phase j) (phase (ended_job agents env false result j)) (ground arith)
      refl (end_it (j.max_attempts - j.attempt))
Move-Step j k (requeue_dead env reason false h) w =
    step_by j.max_attempts (phase j) (phase (requeued_job env reason false j)) (ground arith)
      (ground arith) reopen_empty
Move-Step j k (requeue_dead env reason true h) w =
    step_by j.max_attempts (phase j) (phase (requeued_job env reason true j)) (ground arith)
      (ground arith) reopen_full

Move-Reaches :
    (j k : ExecutionJob)
    → Move j k
    → is_well_formed j ≡ true
    → Reaches j.max_attempts (unleased j.max_attempts) (phase j)
    → Reaches k.max_attempts (unleased k.max_attempts) (phase k)
Move-Reaches j k m w reached =
    subst (λ n. Reaches n (unleased n) (phase k)) (sym (max_attempts-Move m))
      (then_step reached (Move-Step j k m w))

is_new-phase : (j : ExecutionJob) → is_new j ≡ true → phase j ≡ unleased j.max_attempts
is_new-phase j n = ground arith

AllLater-append :
    (is js : List ExecutionJob) (j : ExecutionJob)
    → AllLater is js
    → is_new j ≡ true
    → AllLater is (js ++ j ∷ [])
AllLater-append [] [] j no_jobs n =
    new_job
      (subst (λ p. Reaches j.max_attempts (unleased j.max_attempts) p) (sym (is_new-phase j n))
        stay)
      no_jobs
AllLater-append [] (k ∷ js) j (new_job r l) n = new_job r (AllLater-append [] js j l n)
AllLater-append (i ∷ is) [] j l n = elim l [ ]
AllLater-append (i ∷ is) (k ∷ js) j (next_job r l) n = next_job r (AllLater-append is js j l n)

Move-IsLater :
    (i j k : ExecutionJob) → Move j k → is_well_formed j ≡ true → IsLater i j → IsLater i k
Move-IsLater i j k m w later =
    let same_most : k.max_attempts ≡ j.max_attempts = max_attempts-Move m in
    let same_id : k.id ≡ j.id = key-Move m in
    record {
      id = same_id ∙ later.id;
      max_attempts = same_most ∙ later.max_attempts;
      reached =
          then_step later.reached
            (subst (λ n. Step n (phase j) (phase k)) later.max_attempts (Move-Step j k m w));
    }

AllLater_refl : (js : List ExecutionJob) → AllLater js js
AllLater_refl [] = no_jobs
AllLater_refl (j ∷ js) =
    next_job (record { id = refl; max_attempts = refl; reached = stay }) (AllLater_refl js)

AllLater-moves :
    (p : ExecutionJob → Bool) (f : ExecutionJob → ExecutionJob) (is js : List ExecutionJob)
    → AllLater is js
    → AllMove p f js
    → All (λ j. is_well_formed j ≡ true) js
    → AllLater is (update p f js)
AllLater-moves p f [] [] no_jobs m w = no_jobs
AllLater-moves p f [] (j ∷ js) (new_job r l) m w = elim (Bool-cases (p j)) [
  | inl e ↦ rw e (new_job (Move-Reaches j (f j) (m.0 e) w.0 r) (AllLater-moves p f [] js l m.1 w.1))
  | inr e ↦ rw e (new_job r (AllLater-moves p f [] js l m.1 w.1))
]
AllLater-moves p f (i ∷ is) [] l m w = elim l [ ]
AllLater-moves p f (i ∷ is) (j ∷ js) (next_job l ls) m w = elim (Bool-cases (p j)) [
  | inl e ↦
      rw e (next_job (Move-IsLater i j (f j) (m.0 e) w.0 l) (AllLater-moves p f is js ls m.1 w.1))
  | inr e ↦ rw e (next_job l (AllLater-moves p f is js ls m.1 w.1))
]

Evolves-AllLater :
    (from : List ExecutionJob) {js : List ExecutionJob}
    → Evolves from js
    → All (λ j. is_well_formed j ≡ true) from
    → AllLater from js
Evolves-AllLater from unchanged w = AllLater_refl from
Evolves-AllLater from (changed p f {js} d m) w =
    AllLater-moves p f from js (Evolves-AllLater from d w) m (Evolves-AllJobsWellFormed from js d w)
Evolves-AllLater from (added j {js} d n) w = AllLater-append from js j (Evolves-AllLater from d w) n

-- Whatever the calls that schedule, lease, start, prolong, end, recover and requeue jobs, in
-- whatever order, and whether they succeed or raise, and whatever the agent service does but for
-- writing jobs: if the fresh id of each call is then the id of no job, and at the start the ids
-- are unique and every job is well formed, then at the end there are the same jobs in the same
-- order, with the same numbers of attempts allowed, and behind them the jobs that were scheduled.
-- Each has gone through its life, a new one from its beginning, by these steps only. A job that
-- waits is taken while an attempt is left, which uses one. A job that is held goes on, or is
-- lost: it waits again while an attempt is left, and is given up when none is; or it is ended. A
-- job that was given up comes back with no attempt left or with all of them.
pub perform_on_jobs-AllLater :
    (agents : AgentOperations) (cs : List (Env × PlaneAction)) (s : Store)
    → AllFresh agents cs s
    → IsKeyed execution_key s.execution_jobs
    → AllJobsWellFormed s
    → AllLater s.execution_jobs (perform_on_jobs agents cs s).execution_jobs
perform_on_jobs-AllLater agents cs s g u h =
    let (_, d) = perform-IsEvolved agents s.execution_jobs cs s g (u, unchanged) in
    Evolves-AllLater s.execution_jobs d h
