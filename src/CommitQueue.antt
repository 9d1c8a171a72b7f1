-- ===== src/CommitQueue.antt =====
-- sacm/core/cognitive_commit_queue_service.py: one durable job for each commit of a project, and the
-- workers that analyse the commits under a lease. The analysis is a parameter, and the events that
-- the cognitive state keeps are an interface. Times are whole seconds.

pub mod Attempts
pub mod Uniqueness
use sacm_agent_runtime.Base.{
  Bool, Exec, Key, List, Option, String, [], and_then, atomic, err, false, first, first_chars, get,
  if◌then◌else◌, lease_lost, leb, ltb, min, none, ok, order_by, pure, same, select, some, true,
  update, ℕ, ◌&&◌, ◌++◌, ◌+◌, ◌-◌, ◌==◌, ◌>>=◌, ◌>>◌, ◌^◌, ◌∷◌, ◌≡◌,
}
use sacm_agent_runtime.Model.{CognitiveCommitJob, Env, JobState, Store}

-- what `GitCommitAnalyzeV1` asks for
pub record CommitRequest : Type 0 where
  pub commit_hash : Key
  pub agent_id : Option Key
  pub trace_id : Option Key
  pub semantic_summary : Option String

-- the events that the queue reports
pub data CommitEvent : Type 0 where
  analysis_queued : (project_id : Key) (request : CommitRequest) → CommitEvent
  commit_analyzed : CognitiveCommitJob → CommitEvent

-- `record_event` of sacm/core/cognitive_state_service.py, which raises for an unknown project,
-- returns the time of the event and writes no commit jobs.
pub record StateOperations : Type 0 where
  pub record_event : CommitEvent → Exec Store ℕ
  pub record_event-commit_jobs :
      (event : CommitEvent) (s : Store) → (record_event event s).1.commit_jobs ≡ s.commit_jobs

abbrev pub commit_key : CognitiveCommitJob → Key
commit_key j = j.id

abbrev pub is_queued_job : JobState → Bool
is_queued_job JobState.queued = true
is_queued_job _ = false

abbrev pub is_running_job : JobState → Bool
is_running_job JobState.running = true
is_running_job _ = false

-- `query.filter(project_id, commit_hash).first()`
abbrev pub for_commit : Key → Key → CognitiveCommitJob → Bool
for_commit project_id commit_hash j = (j.project_id == project_id) && (j.commit_hash == commit_hash)

abbrev pub put_commit_job : CognitiveCommitJob → Store → Store
put_commit_job j s = record s { commit_jobs = update (λ x. x.id == j.id) (λ _. j) s.commit_jobs }

-- `min(300, 2 ** (job.attempt - 1))`, of a job that has been claimed
abbrev pub commit_retry_delay : ℕ → ℕ
commit_retry_delay attempt = min 300 (2 ^ (attempt - 1))

module _ (env : Env) where
  abbrev pub new_commit_job : Key → CommitRequest → ℕ → ℕ → CognitiveCommitJob
  new_commit_job project_id request max_attempts at = record {
    id = env.fresh;
    project_id = project_id;
    commit_hash = request.commit_hash;
    agent_id = request.agent_id;
    trace_id = request.trace_id;
    semantic_summary = request.semantic_summary;
    state = JobState.queued;
    attempt = 0;
    max_attempts = max_attempts;
    available_at = at;
    lease_token = none;
    lease_expires_at = none;
    last_error = none;
    created_at = at;
    updated_at = at;
    completed_at = none;
  }

  abbrev pub add_commit_job : CognitiveCommitJob → Exec Store CognitiveCommitJob
  add_commit_job job s = (ok job, record s { commit_jobs = s.commit_jobs ++ job ∷ [] })

  abbrev pub enqueue_commit :
      StateOperations
      → Key
      → CommitRequest
      → ℕ
      → Option CognitiveCommitJob
      → Exec Store CognitiveCommitJob
  enqueue_commit state project_id request max_attempts (some existing) = pure existing
  enqueue_commit state project_id request max_attempts none = atomic (do
    at ← state.record_event (analysis_queued project_id request)
    add_commit_job (new_commit_job project_id request max_attempts at))

  -- `submit`; the last argument is SACM_COGNITIVE_COMMIT_MAX_ATTEMPTS.
  unfoldable pub submit_commit :
      StateOperations → Key → CommitRequest → ℕ → Exec Store CognitiveCommitJob
  submit_commit state project_id request max_attempts s =
      enqueue_commit state project_id request max_attempts
        (first (for_commit project_id request.commit_hash) s.commit_jobs) s

  -- `_recover_expired`
  abbrev pub is_lapsed : CognitiveCommitJob → Bool
  is_lapsed j =
      is_running_job j.state && elim j.lease_expires_at [ none ↦ false | some t ↦ leb t env.now ]

  abbrev pub taken_back : CognitiveCommitJob → CognitiveCommitJob
  taken_back j =
      let freed = record j {
        lease_token = none;
        lease_expires_at = none;
        available_at = env.now;
        updated_at = env.now;
      } in
      if ltb j.attempt j.max_attempts
      then record freed { state = JobState.queued }
      else record freed {
        state = JobState.failed;
        completed_at = some env.now;
        last_error = some "Cognitive commit worker lease expired.";
      }

  abbrev pub take_back_lapsed : Store → Store
  take_back_lapsed s = record s { commit_jobs = update is_lapsed taken_back s.commit_jobs }

  abbrev pub is_due : CognitiveCommitJob → Bool
  is_due j = is_queued_job j.state && leb j.available_at env.now

  -- `order_by(available_at, created_at).first()`
  abbrev pub next_commit : List CognitiveCommitJob → Option CognitiveCommitJob
  next_commit js =
      first (λ _. true)
        (order_by (λ j. j.available_at) (order_by (λ j. j.created_at) (select is_due js)))

  module _ (lease_seconds : ℕ) where
    abbrev pub claimed_commit : CognitiveCommitJob → CognitiveCommitJob
    claimed_commit j = record j {
      state = JobState.running;
      attempt = j.attempt + 1;
      lease_token = some env.fresh;
      lease_expires_at = some (env.now + lease_seconds);
      updated_at = env.now;
    }

    abbrev pub take_commit :
        Option CognitiveCommitJob → Exec Store (Option (CognitiveCommitJob × Key))
    take_commit none s = (ok none, s)
    take_commit (some j) s =
        (ok (some (claimed_commit j, env.fresh)), put_commit_job (claimed_commit j) s)

    -- `_claim`
    unfoldable pub claim_commit : Exec Store (Option (CognitiveCommitJob × Key))
    claim_commit s =
        let s' : Store = take_back_lapsed s in take_commit (next_commit s'.commit_jobs) s'

  -- `_owned`
  abbrev pub holds_commit : Key → CognitiveCommitJob → Bool
  holds_commit token j = is_running_job j.state && same j.lease_token (some token)

  abbrev pub owned_commit : Key → Option CognitiveCommitJob → Exec Store CognitiveCommitJob
  owned_commit token none s = (err lease_lost, s)
  owned_commit token (some j) s = if holds_commit token j then (ok j, s) else (err lease_lost, s)

  abbrev pub completed_commit : CognitiveCommitJob → CognitiveCommitJob
  completed_commit j = record j {
    state = JobState.completed;
    lease_token = none;
    lease_expires_at = none;
    completed_at = some env.now;
    updated_at = env.now;
  }

  -- `_complete`
  unfoldable pub complete_commit : Key → Key → Exec Store (Unit {0})
  complete_commit job_id token s =
      and_then (λ j s'. (ok tt, put_commit_job (completed_commit j) s'))
        (owned_commit token (get commit_key job_id s.commit_jobs) s)

  abbrev pub failed_commit : String → CognitiveCommitJob → CognitiveCommitJob
  failed_commit error j =
      let freed = record j {
        last_error = some (first_chars 4000 error);
        lease_token = none;
        lease_expires_at = none;
        updated_at = env.now;
      } in
      if leb j.max_attempts j.attempt
      then record freed { state = JobState.failed; completed_at = some env.now }
      else record freed {
        state = JobState.queued;
        available_at = env.now + commit_retry_delay j.attempt;
      }

  -- `_fail`
  unfoldable pub fail_commit : Key → Key → String → Exec Store (Unit {0})
  fail_commit job_id token error s =
      and_then (λ j s'. (ok tt, put_commit_job (failed_commit error j) s'))
        (owned_commit token (get commit_key job_id s.commit_jobs) s)

-- how an analysis ends
pub data Analysis : Type 0 where
  analyzed : Analysis
  failed_with_error : String → Analysis

-- `process_one`: `meanwhile` is what other workers do while the commit is analysed, and `later` the
-- environment when it ends. The event of a commit that was analysed has its own commit.
module _ (state : StateOperations) (env later : Env) (lease_seconds : ℕ)
    (analyze : CognitiveCommitJob → Analysis) (meanwhile : Store → Store) where
  abbrev pub settle_commit : Analysis → CognitiveCommitJob → Key → Exec Store (Unit {0})
  settle_commit analyzed j token = do
    complete_commit later j.id token
    at ← atomic (state.record_event (commit_analyzed j))
    pure tt
  settle_commit (failed_with_error error) j token = fail_commit later j.id token error

  abbrev pub work_on :
      Option (CognitiveCommitJob × Key) → Exec Store (Option (CognitiveCommitJob × Analysis))
  work_on none s = (ok none, s)
  work_on (some (j, token)) s =
      and_then (λ _. pure (some (j, analyze j))) (settle_commit (analyze j) j token (meanwhile s))

  unfoldable pub process_one : Exec Store (Option (CognitiveCommitJob × Analysis))
  unfolding claim_commit complete_commit fail_commit
  process_one s = and_then work_on (claim_commit env lease_seconds s)
