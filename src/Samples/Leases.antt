-- ===== src/Samples/Leases.antt =====
-- The theorems on leases at concrete tables.
use sacm_agent_runtime.Base.{
  ◌⊎◌, ◌*◌, ◌+◌, List, [], any, arith, err, false, lease_held, none, ok, refl, true, ℕ, ◌*◌, ◌<◌,
  ◌∷◌, ◌≡◌, ◌≤◌,
}
use sacm_agent_runtime.Lease.{Leases, TaskRunLeaseService, acquire, granted, heartbeat}
use sacm_agent_runtime.Lease.Exclusion.{Call, acquire_excludes, acquiring, calls, releasing}
use sacm_agent_runtime.Lease.Heartbeat.{
  Round, TaskLeaseHeartbeat, beat, check, enter, exit, guard, run, stop, ticks,
}
use sacm_agent_runtime.Lease.Guard.{exit_proves_ownership, guard_default, renewed}

abbrev hour : TaskRunLeaseService
hour = record { lease_seconds = 3600 }

-- another worker tries to take the task, and one to release it
abbrev attempts : List Call
attempts = acquiring 1 200 41 ∷ releasing 1 42 ∷ []

acquire_excludes_example :
    ((heartbeat hour 1 40 300 (calls hour attempts (acquire hour 1 100 40 []).1)).0 ≡ ok tt)
    × ((acquire hour 1 300 43 (calls hour attempts (acquire hour 1 100 40 []).1)).0
        ≡ err lease_held)
unfolding acquire
acquire_excludes_example =
    acquire_excludes hour 1 100 40 attempts [] 300 43 tt refl (omega arith, (λ e. omega arith, tt))
      (omega arith)

abbrev sample_guard : TaskLeaseHeartbeat
sample_guard = record {
  task_id = 1;
  owner_token = 40;
  lease_seconds = 3600;
  interval = 90000;
  stop_set = false;
  failure = none;
  started = false;
}

abbrev round : ℕ → Round
round now = record {
  others = λ leases. leases;
  now = now;
  session_error = none;
  close_error = none;
}

abbrev table : Leases
table = granted hour 1 40 100 ∷ []

exit_proves_ownership_example :
    any (renewed sample_guard 160) (run (round 130 ∷ round 160 ∷ []) (enter sample_guard, table)).1
    ≡ true
unfolding enter run beat heartbeat exit stop check
exit_proves_ownership_example =
    exit_proves_ownership sample_guard table (round 130 ∷ []) (round 160) false refl refl refl

guard_default_example :
    (h : TaskLeaseHeartbeat) × (guard hour 1 40 none none ≡ ok h)
    × (h.task_id ≡ 1)
    × (h.owner_token ≡ 40)
    × (h.lease_seconds ≡ hour.lease_seconds)
    × (0 < h.interval)
    × (h.interval ≤ 90000)
    × (3 * h.interval ≤ ticks h.lease_seconds)
    × ((h.interval ≡ 90000) ⊎ (ticks h.lease_seconds < 3 * (h.interval + 1)))
guard_default_example = guard_default hour 1 40 (omega arith)
