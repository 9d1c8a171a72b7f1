-- ===== src/CommitQueue/Attempts.antt =====
-- Every job of the commit queue is sound, whatever the workers do.
use mathlib.Core.Path.{subst}
use sacm_agent_runtime.Base.{
  All, All-append, All-first, All-get, All-order_by, All-select, All-update, Bool, Bool-cases, Key,
  List, Option, Option-cases, String, [], and_then, and_then-Keeps, arith, atomic_result, first,
  get, if◌then◌else◌, inl, inr, is_some, leb, ltb, none, not, ok, order_by, refl, select, some, suc,
  sym, true, ℕ, ◌&&◌, ◌==◌, ◌∷◌, ◌≡◌,
}
use sacm_agent_runtime.Model.{CognitiveCommitJob, Env, Store}
use sacm_agent_runtime.CommitQueue.{
  CommitRequest, StateOperations, add_commit_job, analysis_queued, claim_commit, claimed_commit,
  commit_key, complete_commit, completed_commit, fail_commit, failed_commit, for_commit,
  holds_commit, is_due, is_lapsed, is_queued_job, is_running_job, new_commit_job, next_commit,
  owned_commit, put_commit_job, submit_commit, take_back_lapsed, take_commit, taken_back,
}

-- A job that waits has an attempt left and no token; a job that runs has used an attempt, and has a
-- token and an end of its lease; no job has used more attempts than it may.
abbrev pub is_sound : CognitiveCommitJob → Bool
is_sound j =
    if is_queued_job j.state
    then ltb j.attempt j.max_attempts && not (is_some j.lease_token)
    else leb j.attempt j.max_attempts
      && (if is_running_job j.state
          then leb 1 j.attempt && (is_some j.lease_token && is_some j.lease_expires_at)
          else not (is_some j.lease_token))

abbrev pub AllSound : Store → Type 0
AllSound s = All (λ j. is_sound j ≡ true) s.commit_jobs

-- the calls of users and of workers; the configured number of attempts is at least one.
pub data CommitAction : Type 0 where
  submitting : (project_id : Key) (request : CommitRequest) (more_attempts : ℕ) → CommitAction
  claiming : (lease_seconds : ℕ) → CommitAction
  completing : (job_id token : Key) → CommitAction
  failing : (job_id token : Key) (error : String) → CommitAction

module _ (env : Env) where
  put-AllSound :
      (j : CognitiveCommitJob) (s : Store)
      → is_sound j ≡ true
      → AllSound s
      → AllSound (put_commit_job j s)
  put-AllSound j s v h =
      All-update (λ x. is_sound x ≡ true) (λ x. x.id == j.id) (λ _. j) s.commit_jobs (λ _ _ _. v) h

  submit-AllSound :
      (state : StateOperations) (project_id : Key) (request : CommitRequest) (more : ℕ) (s : Store)
      → AllSound s
      → AllSound (submit_commit env state project_id request (suc more) s).1
  unfolding submit_commit
  submit-AllSound state project_id request more s h =
      let event = analysis_queued project_id request in
      let kept = state.record_event-commit_jobs event s in
      elim (Option-cases (first (for_commit project_id request.commit_hash) s.commit_jobs)) [
        | inr (j, e) ↦ rw e h
        | inl e ↦ rw e (
            atomic_result AllSound s
              (and_then
                (λ at. add_commit_job env (new_commit_job env project_id request (suc more) at))
                (state.record_event event s))
              h
              (and_then-Keeps AllSound
                (λ at. add_commit_job env (new_commit_job env project_id request (suc more) at))
                (state.record_event event s)
                (λ at. record {
                  at = λ s' h'.
                      All-append (λ x. is_sound x ≡ true) s'.commit_jobs
                        (new_commit_job env project_id request (suc more) at) (ground arith) h';
                })
                (subst (All (λ x. is_sound x ≡ true)) (sym kept) h)))
      ]

  taken_back-is_sound :
      (j : CognitiveCommitJob)
      → is_lapsed env j ≡ true
      → is_sound j ≡ true
      → is_sound (taken_back env j) ≡ true
  taken_back-is_sound j l v = ground arith

  -- the row that a claim takes
  pub next_commit-row :
      (P : CognitiveCommitJob → Type 0) (js : List CognitiveCommitJob) (j : CognitiveCommitJob)
      → next_commit env js ≡ some j
      → All P js
      → P j × (is_due env j ≡ true)
  next_commit-row P js j e h =
      let Q = λ (x : CognitiveCommitJob). P x × (is_due env x ≡ true) in
      let due = select (is_due env) js in
      let by_creation = order_by (λ (x : CognitiveCommitJob). x.created_at) due in
      All-first Q (λ _. true) (order_by (λ x. x.available_at) by_creation) j e
        (All-order_by Q (λ x. x.available_at) by_creation
          (All-order_by Q (λ x. x.created_at) due (All-select P (is_due env) js h)))

  take_commit-AllSound :
      (n : ℕ) (o : Option CognitiveCommitJob) (s : Store)
      → ((j : CognitiveCommitJob) → o ≡ some j → (is_sound j ≡ true) × (is_due env j ≡ true))
      → AllSound s
      → AllSound (take_commit env n o s).1
  take_commit-AllSound n none s row h = h
  take_commit-AllSound n (some j) s row h =
      let (v, due) = row j refl in put-AllSound (claimed_commit env n j) s (ground arith) h

  claim-AllSound : (n : ℕ) (s : Store) → AllSound s → AllSound (claim_commit env n s).1
  unfolding claim_commit
  claim-AllSound n s h =
      let s' : Store = take_back_lapsed env s in
      let h' : AllSound s' =
        All-update (λ x. is_sound x ≡ true) (is_lapsed env) (taken_back env) s.commit_jobs
          taken_back-is_sound h in
      take_commit-AllSound n (next_commit env s'.commit_jobs) s'
        (λ j e. next_commit-row (λ x. is_sound x ≡ true) s'.commit_jobs j e h') h'

  -- a job that is settled by the worker that holds it
  settled-AllSound :
      (job_id token : Key) (f : CognitiveCommitJob → CognitiveCommitJob) (s : Store)
      → ((j : CognitiveCommitJob)
          → is_running_job j.state ≡ true
          → is_sound j ≡ true
          → is_sound (f j) ≡ true)
      → AllSound s
      → AllSound
          (and_then
            (λ j s'. (ok (tt {0}), put_commit_job (f j) s'))
            (owned_commit env token (get commit_key job_id s.commit_jobs) s)).1
  settled-AllSound job_id token f s keep h =
      elim (Option-cases (get commit_key job_id s.commit_jobs)) [
        | inl e ↦ rw e h
        | inr (j, e) ↦ elim (Bool-cases (holds_commit env token j)) [
          | inr o ↦ rw (e, o) h
          | inl o ↦
              rw (e, o)
                (put-AllSound (f j) s
                  (keep j (ground arith)
                    (All-get (λ x. is_sound x ≡ true) commit_key job_id s.commit_jobs j e h))
                  h)
        ]
      ]

  abbrev pub act_on_commits : StateOperations → CommitAction → Store → Store
  act_on_commits state (submitting project_id request more) s =
      (submit_commit env state project_id request (suc more) s).1
  act_on_commits state (claiming lease_seconds) s = (claim_commit env lease_seconds s).1
  act_on_commits state (completing job_id token) s = (complete_commit env job_id token s).1
  act_on_commits state (failing job_id token error) s = (fail_commit env job_id token error s).1

  act_on_commits-AllSound :
      (state : StateOperations) (a : CommitAction) (s : Store)
      → AllSound s
      → AllSound (act_on_commits state a s)
  unfolding complete_commit fail_commit
  act_on_commits-AllSound state (submitting project_id request more) s h =
      submit-AllSound state project_id request more s h
  act_on_commits-AllSound state (claiming n) s h = claim-AllSound n s h
  act_on_commits-AllSound state (completing job_id token) s h =
      settled-AllSound job_id token (completed_commit env) s (λ j r v. ground arith) h
  act_on_commits-AllSound state (failing job_id token error) s h =
      settled-AllSound job_id token (failed_commit env error) s (λ j r v. ground arith) h

-- the calls in the order in which they commit, each with its own environment
unfoldable pub perform_on_commits : StateOperations → List (Env × CommitAction) → Store → Store
perform_on_commits state [] s = s
perform_on_commits state (c ∷ cs) s = perform_on_commits state cs (act_on_commits c.0 state c.1 s)

-- Whatever the calls that submit, claim, complete and fail jobs of the commit queue, in whatever
-- order, with at least one attempt configured, whether they succeed or raise, and whatever the recording
-- of an event does but for writing jobs: if every job is
-- sound at the start, then it is so at the end. A job is sound if it has not used more attempts
-- than its maximum; a QUEUED job has an attempt left and no token; a RUNNING job has used an
-- attempt and has a token and an end of its lease; and another job has no token.
pub perform_on_commits-AllSound :
    (state : StateOperations) (cs : List (Env × CommitAction)) (s : Store)
    → AllSound s
    → AllSound (perform_on_commits state cs s)
unfolding perform_on_commits
perform_on_commits-AllSound state [] s h = h
perform_on_commits-AllSound state (c ∷ cs) s h =
    perform_on_commits-AllSound state cs (act_on_commits c.0 state c.1 s)
      (act_on_commits-AllSound c.0 state c.1 s h)
