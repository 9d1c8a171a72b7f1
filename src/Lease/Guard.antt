-- ===== src/Lease/Guard.antt =====
-- What leaving the guard without an exception proves about the lease.
use sacm_agent_runtime.Base.{
  Bool, Key, List, [], any, any-update, arith, false, is_some, keyed, min, none, ok, refl, true, ℕ,
  ◌&&◌, ◌*◌, ◌++◌, ◌+◌, ◌/◌, ◌<◌, ◌==◌, ◌∷◌, ◌≡◌, ◌≤◌, ◌⊎◌,
}
use sacm_agent_runtime.Lease.{Leases, TaskRunLease, TaskRunLeaseService, extend, is_live, task_key}
use sacm_agent_runtime.Lease.Heartbeat.{
  Round, TaskLeaseHeartbeat, beat, enter, exit, guard, run, ticks,
}

-- With no interval given or configured, and a lease that has a duration, `guard` creates a
-- heartbeat for the given task and token with the service's lease. Its interval is positive and at
-- most thirty seconds, three intervals fit into one lease, and no longer interval has both
-- properties.
pub guard_default :
    (service : TaskRunLeaseService) (task_id token : Key)
    → 0 < service.lease_seconds
    → (h : TaskLeaseHeartbeat) × (guard service task_id token none none ≡ ok h)
      × (h.task_id ≡ task_id)
      × (h.owner_token ≡ token)
      × (h.lease_seconds ≡ service.lease_seconds)
      × (0 < h.interval)
      × (h.interval ≤ 90000)
      × (3 * h.interval ≤ ticks h.lease_seconds)
      × ((h.interval ≡ 90000) ⊎ (ticks h.lease_seconds < 3 * (h.interval + 1)))
unfolding guard
guard_default service task_id token positive = (
  record {
    task_id = task_id;
    owner_token = token;
    lease_seconds = service.lease_seconds;
    interval = min 90000 (ticks service.lease_seconds / 3);
    stop_set = false;
    failure = none;
    started = false;
  },
  ground arith,
  refl,
  refl,
  refl,
  omega arith,
  omega arith,
  omega arith,
  ground arith,
)

-- The row that a renewal at the time `now` leaves behind.
abbrev pub renewed : TaskLeaseHeartbeat → ℕ → TaskRunLease → Bool
renewed h now l =
    (l.task_id == h.task_id)
    && ((l.owner_token == h.owner_token) && (l.expires_at == now + h.lease_seconds))

-- The thread works for `h`, and its stop event is set exactly when it has recorded a failure.
record IsRunning (h : TaskLeaseHeartbeat) (s : TaskLeaseHeartbeat × Leases) : Type 0 where
  task_id : s.0.task_id ≡ h.task_id
  owner_token : s.0.owner_token ≡ h.owner_token
  lease_seconds : s.0.lease_seconds ≡ h.lease_seconds
  stop_on_failure : s.0.stop_set ≡ is_some s.0.failure

module _ (h : TaskLeaseHeartbeat) where
  beat-IsRunning :
      (r : Round) (s : TaskLeaseHeartbeat × Leases) → IsRunning h s → IsRunning h (beat r s)
  unfolding beat
  beat-IsRunning r s v = ground arith

  beat_renews :
      (r : Round) (s : TaskLeaseHeartbeat × Leases)
      → IsRunning h s
      → (beat r s).0.failure ≡ none
      → any (renewed h r.now) (beat r s).1 ≡ true
  unfolding beat
  beat_renews r s v e = ground (
    arith,
    any-update (keyed task_key s.0.task_id (is_live s.0.owner_token r.now)) (renewed h r.now)
        (extend (record { lease_seconds = s.0.lease_seconds }) r.now) (λ x p. ground arith)
        (r.others s.1),
  )

  run_renews :
      (rs : List Round) (r : Round) (s : TaskLeaseHeartbeat × Leases)
      → IsRunning h s
      → (run (rs ++ r ∷ []) s).0.failure ≡ none
      → any (renewed h r.now) (run (rs ++ r ∷ []) s).1 ≡ true
  unfolding run
  run_renews [] r s v e = ground (arith, beat_renews r s v)
  run_renews (r' ∷ rs) r s v e = ground (arith, run_renews rs r (beat r' s) (beat-IsRunning r' s v))

-- If a started guard that has no failure yet is left without an exception, then the last renewal
-- was made by its own token: when the thread stops, the table holds a row of the task with the
-- owner's token that expires the lease's duration after the last round, whatever other workers
-- did to the table between the rounds.
pub exit_proves_ownership :
    (h : TaskLeaseHeartbeat) (leases : Leases) (rs : List Round) (r : Round) (alive : Bool)
    → h.failure ≡ none
    → h.stop_set ≡ false
    → exit (run (rs ++ r ∷ []) (enter h, leases)).0 alive none ≡ ok tt
    → any (renewed h r.now) (run (rs ++ r ∷ []) (enter h, leases)).1 ≡ true
unfolding exit enter
exit_proves_ownership h leases rs r alive clean unset e =
    run_renews h rs r (record h { started = true }, leases)
      (record {
        task_id = refl;
        owner_token = refl;
        lease_seconds = refl;
        stop_on_failure = ground arith;
      })
      (ground arith)
