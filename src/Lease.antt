-- ===== src/Lease.antt =====
-- sacm/core/task_run_lease_service.py: one row of `task_run_leases` for each task that an
-- orchestrator is running. A time is a whole number of seconds. The table is the state.
mod Contract
pub mod Heartbeat
pub mod Exclusion
pub mod Guard
use sacm_agent_runtime.Base.{
  Bool, Exec, Key, List, Option, [], any, err, get, if◌then◌else◌, is_some, keyed, lease_held,
  lease_lost, leb, ltb, none, ok, remove, some, update, ℕ, ◌&&◌, ◌++◌, ◌+◌, ◌==◌, ◌∷◌,
}

pub record TaskRunLease : Type 0 where
  pub task_id : Key
  pub owner_token : Key
  pub acquired_at : ℕ
  pub heartbeat_at : ℕ
  pub expires_at : ℕ

abbrev pub Leases : Type 0
Leases = List TaskRunLease

-- the primary key of the table
abbrev pub task_key : TaskRunLease → Key
task_key l = l.task_id

-- the filters of the queries, beside the task
abbrev pub is_expired : ℕ → TaskRunLease → Bool
is_expired current l = leb l.expires_at current

abbrev pub has_token : Key → TaskRunLease → Bool
has_token token l = l.owner_token == token

abbrev pub is_live : Key → ℕ → TaskRunLease → Bool
is_live token current l = (l.owner_token == token) && ltb current l.expires_at

pub record TaskRunLeaseService : Type 0 where
  pub lease_seconds : ℕ

-- `None` takes the default, which the environment configures.
unfoldable pub init : Option ℕ → ℕ → Option TaskRunLeaseService
init given default =
    let seconds : ℕ = elim given [ none ↦ default | some s ↦ s ] in
    if seconds == 0 then none else some (record { lease_seconds = seconds })

module _ (service : TaskRunLeaseService) where
  -- the row that `acquire` writes, inserted or updated
  abbrev pub granted : Key → Key → ℕ → TaskRunLease
  granted task_id owner_token current = record {
    task_id = task_id;
    owner_token = owner_token;
    acquired_at = current;
    heartbeat_at = current;
    expires_at = current + service.lease_seconds;
  }

  abbrev pub take_over : Key → ℕ → TaskRunLease → TaskRunLease
  take_over owner_token current l = record l {
    owner_token = owner_token;
    acquired_at = current;
    heartbeat_at = current;
    expires_at = current + service.lease_seconds;
  }

  abbrev pub extend : ℕ → TaskRunLease → TaskRunLease
  extend current l = record l {
    heartbeat_at = current;
    expires_at = current + service.lease_seconds;
  }

  -- An expired row is taken over in place. Otherwise a row is inserted, and the primary key
  -- refuses a second one (`IntegrityError`, then a rollback). The token is the fresh UUID.
  unfoldable pub acquire : Key → ℕ → Key → Exec Leases Key
  acquire task_id current owner_token leases =
      let expired = keyed task_key task_id (is_expired current) in
      if any expired leases
      then (ok owner_token, update expired (take_over owner_token current) leases)
      else if is_some (get task_key task_id leases)
      then (err lease_held, leases)
      else (ok owner_token, leases ++ granted task_id owner_token current ∷ [])

  unfoldable pub heartbeat : Key → Key → ℕ → Exec Leases (Unit {0})
  heartbeat task_id owner_token current leases =
      let held = keyed task_key task_id (is_live owner_token current) in
      if any held leases
      then (ok tt, update held (extend current) leases)
      else (err lease_lost, leases)

unfoldable pub release : Key → Key → Exec Leases Bool
release task_id owner_token leases =
    let owned = keyed task_key task_id (has_token owner_token) in
    (ok (any owned leases), remove owned leases)
