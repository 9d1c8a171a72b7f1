-- ===== src/CommitQueue/Uniqueness.antt =====
-- One job for each commit, and one worker for each job.
use sacm_agent_runtime.Base.{
  ==-refl, Bool, Bool-cases, IsFound, IsKeyed, IsKeyed-AllFound, IsKeyed-put, IsKeyed-update, Key,
  List, Option-cases, Result, [], and_then, ap, arith, err, false, first, get, get-put, get-update,
  inl, inr, keep_or_drop, none, ok, refl, some, sym, true, ℕ, ◌++◌, ◌+◌, ◌<◌, ◌==◌, ◌∙◌, ◌∷◌, ◌≡◌,
}
use sacm_agent_runtime.Model.{CognitiveCommitJob, Env, Store}
use sacm_agent_runtime.CommitQueue.{
  CommitRequest, StateOperations, add_commit_job, analysis_queued, claim_commit, claimed_commit,
  commit_key, for_commit, is_due, is_lapsed, is_running_job, new_commit_job, next_commit,
  put_commit_job, submit_commit, take_back_lapsed, taken_back,
}
use sacm_agent_runtime.CommitQueue.Attempts.{next_commit-row}

first_appended :
    (p : CognitiveCommitJob → Bool) (js : List CognitiveCommitJob) (j : CognitiveCommitJob)
    → first p js ≡ none
    → p j ≡ true
    → first p (js ++ j ∷ []) ≡ some j
first_appended p [] j h k = ground arith
first_appended p (i ∷ js) j h k = ground (arith, first_appended p js j)

module _ (state : StateOperations) where
  found_again :
      (env : Env) (project_id : Key) (request : CommitRequest) (most : ℕ) (s : Store)
      (j : CognitiveCommitJob)
      → first (for_commit project_id request.commit_hash) s.commit_jobs ≡ some j
      → submit_commit env state project_id request most s ≡ (ok j, s)
  unfolding submit_commit
  found_again env project_id request most s j f = rw f refl

  -- A job that is added is found.
  added_job :
      (env : Env) (project_id : Key) (request : CommitRequest) (most : ℕ) (s : Store)
      (r : Result ℕ × Store) (j : CognitiveCommitJob)
      → first (for_commit project_id request.commit_hash) r.1.commit_jobs ≡ none
      → let added =
          keep_or_drop s (
            and_then
              (λ at. add_commit_job env (new_commit_job env project_id request most at))
              r) in
        added.0 ≡ ok j
        → first (for_commit project_id request.commit_hash) added.1.commit_jobs ≡ some j
  added_job env project_id request most s (err x, s') j f e = cc
  added_job env project_id request most s (ok at, s') j f e =
      let job = new_commit_job env project_id request most at in
      let same_job : job ≡ j = cc in
      let own : for_commit project_id request.commit_hash job ≡ true =
        ground (arith, ==-refl project_id, ==-refl request.commit_hash) in
      first_appended (for_commit project_id request.commit_hash) s'.commit_jobs job f own
      ∙ ap some same_job

  -- After a submission the commit has its job.
  submitted_job :
      (env : Env) (project_id : Key) (request : CommitRequest) (most : ℕ) (s : Store)
      (j : CognitiveCommitJob)
      → (submit_commit env state project_id request most s).0 ≡ ok j
      → first
          (for_commit project_id request.commit_hash)
          (submit_commit env state project_id request most s).1.commit_jobs
        ≡ some j
  unfolding submit_commit
  submitted_job env project_id request most s j e =
      elim (Option-cases (first (for_commit project_id request.commit_hash) s.commit_jobs)) [
        | inr (i, f) ↦
            let returned : ok i ≡ ok j = rw f at e in
            let same_job : i ≡ j = cc in rw f (f ∙ ap some same_job)
        | inl f ↦
            let event = analysis_queued project_id request in
            let none_yet =
              ap (first (for_commit project_id request.commit_hash))
                (state.record_event-commit_jobs event s)
              ∙ f in
            rw f (
              added_job env project_id request most s (state.record_event event s) j none_yet
                (rw f at e))
      ]

  -- Whatever the database: if `submit` returns a job, then submitting the same commit of the same
  -- project again before anything else changes, at any time, by whomever and with whatever number of
  -- attempts configured, returns the same job and changes nothing.
  pub submit_commit_twice :
      (env : Env) (project_id : Key) (request : CommitRequest) (most : ℕ) (s : Store) (later : Env)
      (again : CommitRequest) (most' : ℕ) (j : CognitiveCommitJob)
      → again.commit_hash ≡ request.commit_hash
      → (submit_commit env state project_id request most s).0 ≡ ok j
      → submit_commit later state project_id again most'
          (submit_commit env state project_id request most s).1
        ≡ (ok j, (submit_commit env state project_id request most s).1)
  submit_commit_twice env project_id request most s later again most' j same_hash e =
      let s' : Store = (submit_commit env state project_id request most s).1 in
      found_again later project_id again most' s' j (
        ap (λ h. first (for_commit project_id h) s'.commit_jobs) same_hash
        ∙ submitted_job env project_id request most s j e)

module _ (env : Env) (n : ℕ) (s : Store) where
  -- What a claim returns was due, and now runs under the token in its row.
  record IsClaimed (j : CognitiveCommitJob) (token : Key) : Type 0 where
    candidate : CognitiveCommitJob
    row : get commit_key candidate.id (take_back_lapsed env s).commit_jobs ≡ some candidate
    due : is_due env candidate ≡ true
    claimed : j ≡ claimed_commit env n candidate
    fresh_token : token ≡ env.fresh
    left :
        (claim_commit env n s).1
        ≡ put_commit_job (claimed_commit env n candidate) (take_back_lapsed env s)

  taken_back_id : (j : CognitiveCommitJob) → (taken_back env j).id ≡ j.id
  taken_back_id j = ground arith

  claim_commit-IsClaimed :
      (j : CognitiveCommitJob) (token : Key)
      → IsKeyed commit_key s.commit_jobs
      → (claim_commit env n s).0 ≡ ok (some (j, token))
      → IsClaimed j token
  unfolding claim_commit
  claim_commit-IsClaimed j token u e =
      let js = (take_back_lapsed env s).commit_jobs in
      let unique : IsKeyed commit_key js =
        IsKeyed-update commit_key (is_lapsed env) (taken_back env) taken_back_id s.commit_jobs u in
      elim (Option-cases (next_commit env js)) [
        | inl f ↦ let nothing : ok none ≡ ok (some (j, token)) = rw f at e in cc
        | inr (c, f) ↦
            let (row, due) =
              next_commit-row env (IsFound commit_key js) js c f
                (IsKeyed-AllFound commit_key js unique) in
            let hit : ok (some (claimed_commit env n c, env.fresh)) ≡ ok (some (j, token)) =
              rw f at e in
            record {
              candidate = c;
              row = row;
              due = due;
              claimed = cc;
              fresh_token = cc;
              left = rw f refl;
            }
      ]

unique_put :
    (x : CognitiveCommitJob) (s : Store)
    → IsKeyed commit_key s.commit_jobs
    → IsKeyed commit_key (put_commit_job x s).commit_jobs
unique_put x s u = IsKeyed-put commit_key x s.commit_jobs u

-- A job whose lease lasts is not what a claim gets.
held_stays :
    (later : Env) (m : ℕ) (s : Store) (x k : CognitiveCommitJob) (other : Key) (end : ℕ)
    → IsKeyed commit_key s.commit_jobs
    → get commit_key x.id s.commit_jobs ≡ some x
    → is_running_job x.state ≡ true
    → x.lease_expires_at ≡ some end
    → later.now < end
    → (claim_commit later m s).0 ≡ ok (some (k, other))
    → (k.id == x.id) ≡ false
held_stays later m s x k other end u row runs lease in_time e =
    let w = claim_commit-IsClaimed later m s k other u e in
    let c : CognitiveCommitJob = w.candidate in
    let not_lapsed : is_lapsed later x ≡ false = ground arith in
    let kept : get commit_key x.id (take_back_lapsed later s).commit_jobs ≡ some x =
      get-update commit_key (is_lapsed later) (taken_back later) (taken_back_id later m s) x.id
        s.commit_jobs
      ∙ rw (row, not_lapsed) refl in
    let same_id : k.id ≡ c.id = ap (λ (y : CognitiveCommitJob). y.id) w.claimed in
    elim (Bool-cases (k.id == x.id)) [
      | inr o ↦ o
      | inl o ↦
          let at_x : c.id ≡ x.id = ground arith in
          let found : get commit_key x.id (take_back_lapsed later s).commit_jobs ≡ some c =
            ap (λ i. get commit_key i (take_back_lapsed later s).commit_jobs) (sym at_x) ∙ w.row in
          let same_job : x ≡ c = cc in
          let due : is_due later x ≡ true = ap (is_due later) same_job ∙ w.due in ground arith
    ]

-- If a worker has claimed a job, in a database with unique ids, then until the next change no other
-- claim, at whatever clock before the end of the lease, gets the same job.
pub claim_commit_excludes :
    (env : Env) (n : ℕ) (s : Store) (j : CognitiveCommitJob) (token : Key) (later : Env) (m : ℕ)
    (k : CognitiveCommitJob) (other : Key)
    → IsKeyed commit_key s.commit_jobs
    → (claim_commit env n s).0 ≡ ok (some (j, token))
    → later.now < env.now + n
    → (claim_commit later m (claim_commit env n s).1).0 ≡ ok (some (k, other))
    → (k.id == j.id) ≡ false
claim_commit_excludes env n s j token later m k other u e in_time f =
    let w = claim_commit-IsClaimed env n s j token u e in
    let held : CognitiveCommitJob = claimed_commit env n w.candidate in
    let taken : Store = take_back_lapsed env s in
    let unique : IsKeyed commit_key taken.commit_jobs =
      IsKeyed-update commit_key (is_lapsed env) (taken_back env) (taken_back_id env n s)
        s.commit_jobs u in
    let row : get commit_key held.id (put_commit_job held taken).commit_jobs ≡ some held =
      get-put commit_key held held.id taken.commit_jobs ∙ rw (w.row, ==-refl held.id) refl in
    let later_claim : (claim_commit later m (put_commit_job held taken)).0 ≡ ok (some (k, other)) =
      ap (λ y. (claim_commit later m y).0) (sym w.left) ∙ f in
    let apart =
      held_stays later m (put_commit_job held taken) held k other (env.now + n)
        (unique_put held taken unique) row refl refl in_time later_claim in
    rw (ap (λ (y : CognitiveCommitJob). y.id) w.claimed) apart
