-- ===== src/WorkflowQueue/Guard.antt =====
-- What leaving the guard of a job without an exception proves about its lease.
use sacm_agent_runtime.Base.{
  Bool, List, [], any, any-update, arith, false, is_some, keyed, none, ok, refl, same, some, true,
  ℕ, ◌&&◌, ◌++◌, ◌+◌, ◌==◌, ◌∷◌, ◌≡◌,
}
use sacm_agent_runtime.Model.{Store, WorkflowJob, job_key}
use sacm_agent_runtime.WorkflowQueue.{extended, holds, renew}
use sacm_agent_runtime.WorkflowQueue.Heartbeat.{
  Round, WorkflowLeaseHeartbeat, beat, enter, exit, run,
}

-- The row that a renewal at the time `now` leaves behind.
abbrev pub renewed : WorkflowLeaseHeartbeat → ℕ → WorkflowJob → Bool
renewed h now j =
    (j.id == h.job_id)
    && (same j.lease_token (some h.token) && same j.lease_expires_at (some (now + h.lease_seconds)))

-- The thread works for `h`, and its stop event is set exactly when it has recorded a failure.
record IsRunning (h : WorkflowLeaseHeartbeat) (s : WorkflowLeaseHeartbeat × Store) : Type 0 where
  job_id : s.0.job_id ≡ h.job_id
  token : s.0.token ≡ h.token
  lease_seconds : s.0.lease_seconds ≡ h.lease_seconds
  stop_on_failure : s.0.stop_set ≡ is_some s.0.failure

module _ (h : WorkflowLeaseHeartbeat) where
  beat-IsRunning :
      (r : Round) (s : WorkflowLeaseHeartbeat × Store) → IsRunning h s → IsRunning h (beat r s)
  unfolding beat
  beat-IsRunning r s v = ground arith

  beat_renews :
      (r : Round) (s : WorkflowLeaseHeartbeat × Store)
      → IsRunning h s
      → (beat r s).0.failure ≡ none
      → any (renewed h r.env.now) (beat r s).1.workflow_jobs ≡ true
  unfolding beat renew
  beat_renews r s v e = ground (
    arith,
    any-update (keyed job_key s.0.job_id (holds r.env s.0.lease_seconds s.0.token))
        (renewed h r.env.now) (extended r.env s.0.lease_seconds) (λ x p. ground arith)
        (r.others s.1).workflow_jobs,
  )

  run_renews :
      (rs : List Round) (r : Round) (s : WorkflowLeaseHeartbeat × Store)
      → IsRunning h s
      → (run (rs ++ r ∷ []) s).0.failure ≡ none
      → any (renewed h r.env.now) (run (rs ++ r ∷ []) s).1.workflow_jobs ≡ true
  unfolding run
  run_renews [] r s v e = ground (arith, beat_renews r s v)
  run_renews (r' ∷ rs) r s v e = ground (arith, run_renews rs r (beat r' s) (beat-IsRunning r' s v))

-- If a guard that has no failure yet is left without an exception, then the last renewal of its
-- thread was made with its own token: when the thread stops, the database has a row of the job with
-- that token and with a lease that ends the lease's duration after the last round, whatever others
-- did to the database between the rounds.
pub exit-renewed :
    (h : WorkflowLeaseHeartbeat) (s : Store) (rs : List Round) (r : Round) (alive : Bool)
    → h.failure ≡ none
    → h.stop_set ≡ false
    → exit (run (rs ++ r ∷ []) (enter h, s)).0 alive none ≡ ok tt
    → any (renewed h r.env.now) (run (rs ++ r ∷ []) (enter h, s)).1.workflow_jobs ≡ true
unfolding exit enter
exit-renewed h s rs r alive clean unset e =
    run_renews h rs r (record h { started = true }, s)
      (record { job_id = refl; token = refl; lease_seconds = refl; stop_on_failure = ground arith })
      (ground arith)
