-- ===== src/Samples/Commits.antt =====
-- The theorems on the commit queue at concrete jobs.
use sacm_agent_runtime.Base.{Key, [], arith, false, none, ok, refl, ℕ, ◌==◌, ◌∷◌, ◌≡◌}
use sacm_agent_runtime.Model.{CognitiveCommitJob, Store}
use sacm_agent_runtime.CommitQueue.{
  CommitRequest, StateOperations, claim_commit, claimed_commit, new_commit_job, submit_commit,
}
use sacm_agent_runtime.CommitQueue.Attempts.{
  AllSound, claiming, failing, perform_on_commits, perform_on_commits-AllSound,
}
use sacm_agent_runtime.CommitQueue.Uniqueness.{claim_commit_excludes, submit_commit_twice}
use sacm_agent_runtime.Samples.{later_env, sample_env, sample_store}

abbrev request : CommitRequest
request = record { commit_hash = 90; agent_id = none; trace_id = none; semantic_summary = none }

-- a log of events that is not part of the database
abbrev event_log : StateOperations
event_log = record {
  record_event = λ event s. (ok 1000, s);
  record_event-commit_jobs = λ event s. refl;
}

-- two commits that wait, of which the first was queued earlier
abbrev commit_job : Key → ℕ → CognitiveCommitJob
commit_job id at = record (new_commit_job sample_env 4 request 3 1000) {
  id = id;
  available_at = at;
}

abbrev commit_store : Store
commit_store = record (sample_store [] [] []) {
  commit_jobs = commit_job 91 700 ∷ commit_job 92 800 ∷ [];
}

perform_on_commits-AllSound_example : AllSound (
    perform_on_commits event_log
      ((sample_env, claiming 300) ∷ (later_env, failing 91 77 "error") ∷ [])
      commit_store)
perform_on_commits-AllSound_example =
    perform_on_commits-AllSound event_log
      ((sample_env, claiming 300) ∷ (later_env, failing 91 77 "error") ∷ []) commit_store
      (refl, (refl, tt))

submit_commit_twice_example :
    submit_commit later_env event_log 4 request 5
      (submit_commit sample_env event_log 4 request 3 (sample_store [] [] [])).1
    ≡ (
      ok (new_commit_job sample_env 4 request 3 1000),
      (submit_commit sample_env event_log 4 request 3 (sample_store [] [] [])).1,
    )
unfolding submit_commit
submit_commit_twice_example =
    submit_commit_twice event_log sample_env 4 request 3 (sample_store [] [] []) later_env request 5
      (new_commit_job sample_env 4 request 3 1000) refl refl

claim_commit_excludes_example : (92 == 91) ≡ false
unfolding claim_commit
claim_commit_excludes_example =
    claim_commit_excludes sample_env 300 commit_store
      (claimed_commit sample_env 300 (commit_job 91 700)) 77 later_env 300
      (claimed_commit later_env 300 (commit_job 92 800)) 78 (refl, (refl, tt)) refl (omega arith)
      refl
