-- ===== src/Lease/Exclusion.antt =====
-- A task has one orchestrator at a time: what the calls of other workers can do to a lease.
use sacm_agent_runtime.Base.{
  IsKeyed, Key, List, [], arith, err, get, lease_held, ok, some, ℕ, ◌+◌, ◌<◌, ◌∷◌, ◌≡◌, ◌≢◌,
}
use sacm_agent_runtime.Lease.{
  Leases, TaskRunLease, TaskRunLeaseService, acquire, granted, heartbeat, release, task_key,
}
use sacm_agent_runtime.Lease.Contract.{
  acquire-IsKeyed, acquire_result, acquire_table, heartbeat-IsKeyed, heartbeat_result,
  heartbeat_table, release-IsKeyed, release_table,
}

-- A call of the service, as any worker may make it.
pub data Call : Type 0 where
  acquiring : (task_id : Key) (current : ℕ) (token : Key) → Call
  beating : (task_id token : Key) (current : ℕ) → Call
  releasing : (task_id token : Key) → Call

-- The call is made before `until`, and not with this token.
abbrev pub IsForeign : Key → ℕ → Call → Type 0
IsForeign owner until (acquiring task_id current token) = current < until
IsForeign owner until (beating task_id token current) = token ≢ owner
IsForeign owner until (releasing task_id token) = token ≢ owner

abbrev pub AllForeign : Key → ℕ → List Call → Type 0
AllForeign owner until [] = Unit
AllForeign owner until (c ∷ cs) = IsForeign owner until c × AllForeign owner until cs

module _ (service : TaskRunLeaseService) where
  unfoldable pub call : Call → Leases → Leases
  call (acquiring task_id current token) leases = (acquire service task_id current token leases).1
  call (beating task_id token current) leases = (heartbeat service task_id token current leases).1
  call (releasing task_id token) leases = (release task_id token leases).1

  unfoldable pub calls : List Call → Leases → Leases
  calls [] leases = leases
  calls (c ∷ cs) leases = calls cs (call c leases)

  pub call-IsKeyed :
      (c : Call) (leases : Leases) → IsKeyed task_key leases → IsKeyed task_key (call c leases)
  unfolding call
  call-IsKeyed (acquiring task_id current token) leases h =
      acquire-IsKeyed service task_id current token leases h
  call-IsKeyed (beating task_id token current) leases h =
      heartbeat-IsKeyed service task_id token current leases h
  call-IsKeyed (releasing task_id token) leases h = release-IsKeyed task_id token leases h

  -- Whatever the calls, in whatever order, no task ever has two leases.
  pub calls-IsKeyed :
      (cs : List Call) (leases : Leases)
      → IsKeyed task_key leases
      → IsKeyed task_key (calls cs leases)
  unfolding calls
  calls-IsKeyed [] leases h = h
  calls-IsKeyed (c ∷ cs) leases h = calls-IsKeyed cs (call c leases) (call-IsKeyed c leases h)

  call_foreign :
      (task_id : Key) (l : TaskRunLease) (c : Call) (leases : Leases)
      → IsKeyed task_key leases
      → get task_key task_id leases ≡ some l
      → IsForeign l.owner_token l.expires_at c
      → get task_key task_id (call c leases) ≡ some l
  unfolding call
  call_foreign task_id l (acquiring t current token) leases h e f =
      ground (arith, acquire_table service t current token task_id leases h)
  call_foreign task_id l (beating t token current) leases h e f =
      ground (arith, heartbeat_table service t token current task_id leases h)
  call_foreign task_id l (releasing t token) leases h e f =
      ground (arith, release_table t token leases h task_id)

  pub calls_foreign :
      (task_id : Key) (l : TaskRunLease) (cs : List Call) (leases : Leases)
      → IsKeyed task_key leases
      → get task_key task_id leases ≡ some l
      → AllForeign l.owner_token l.expires_at cs
      → get task_key task_id (calls cs leases) ≡ some l
  unfolding calls
  calls_foreign task_id l [] leases h e f = e
  calls_foreign task_id l (c ∷ cs) leases h e f =
      calls_foreign task_id l cs (call c leases) (call-IsKeyed c leases h)
        (call_foreign task_id l c leases h e f.0) f.1

  -- In a table with one row for each task at most: after a successful `acquire`, and until the lease
  -- ends, no sequence of calls takes it away, if `acquire` is called before that end and `heartbeat`
  -- and `release` with other tokens. The owner can still renew the lease, and whoever tries to
  -- acquire it is refused.
  pub acquire_excludes :
      (task_id : Key) (start : ℕ) (token : Key) (cs : List Call) (leases : Leases) (now : ℕ)
      (other : Key)
      → IsKeyed task_key leases
      → (acquire service task_id start token leases).0 ≡ ok token
      → AllForeign token (start + service.lease_seconds) cs
      → now < start + service.lease_seconds
      → let after = calls cs (acquire service task_id start token leases).1 in
        ((heartbeat service task_id token now after).0 ≡ ok tt)
        × ((acquire service task_id now other after).0 ≡ err lease_held)
  acquire_excludes task_id start token cs leases now other h e f t =
      let first = (acquire service task_id start token leases).1 in
      let keyed_first : IsKeyed task_key first =
        acquire-IsKeyed service task_id start token leases h in
      let held : get task_key task_id first ≡ some (granted service task_id token start) = ground (
        arith,
        acquire_result service task_id start token leases h,
        acquire_table service task_id start token task_id leases h,
      ) in
      let kept : get task_key task_id (calls cs first)
          ≡ some (granted service task_id token start) =
        calls_foreign task_id (granted service task_id token start) cs first keyed_first held f in
      let keyed_after : IsKeyed task_key (calls cs first) = calls-IsKeyed cs first keyed_first in
      (
        ground (arith, heartbeat_result service task_id token now (calls cs first) keyed_after),
        ground (arith, acquire_result service task_id now other (calls cs first) keyed_after),
      )
