-- ===== src/Lease/Heartbeat.antt =====
-- TaskLeaseHeartbeat of sacm/core/task_run_lease_service.py: a thread that renews the lease while
-- the guarded work runs. Intervals are counted in ticks of 1/3000 second, so that 30 seconds and a
-- third of a whole number of seconds are whole numbers of ticks.
use sacm_agent_runtime.Base.{
  Bool, Error, Key, List, Option, Result, [], err, false, heartbeat_failed, heartbeat_interval,
  heartbeat_stuck, if◌then◌else◌, leb, min, none, not, ok, some, true, ℕ, ◌*◌, ◌/◌, ◌==◌, ◌∷◌,
}
use sacm_agent_runtime.Lease.{Leases, TaskRunLeaseService, heartbeat}

abbrev pub ticks : ℕ → ℕ
ticks seconds = 3000 * seconds

pub record TaskLeaseHeartbeat : Type 0 where
  pub task_id : Key
  pub owner_token : Key
  pub lease_seconds : ℕ
  pub interval : ℕ
  pub stop_set : Bool
  pub failure : Option Error
  pub started : Bool

-- `__init__`
unfoldable pub create : Key → Key → ℕ → ℕ → Result TaskLeaseHeartbeat
create task_id owner_token lease_seconds interval =
    if interval == 0
    then err heartbeat_interval
    else if leb (ticks lease_seconds) interval
    then err heartbeat_interval
    else ok (record {
      task_id = task_id;
      owner_token = owner_token;
      lease_seconds = lease_seconds;
      interval = interval;
      stop_set = false;
      failure = none;
      started = false;
    })

-- `TaskRunLeaseService.guard`: the argument, else the environment, else the smaller of 30 seconds
-- and a third of the lease
unfoldable pub guard :
    TaskRunLeaseService → Key → Key → Option ℕ → Option ℕ → Result TaskLeaseHeartbeat
unfolding create
guard service task_id owner_token given configured =
    let fallback : ℕ = min 90000 (ticks service.lease_seconds / 3) in
    let from_environment : ℕ = elim configured [ none ↦ fallback | some i ↦ i ] in
    let interval : ℕ = elim given [ none ↦ from_environment | some i ↦ i ] in
    create task_id owner_token service.lease_seconds interval

-- `__enter__` starts the thread.
unfoldable pub enter : TaskLeaseHeartbeat → TaskLeaseHeartbeat
enter h = record h { started = true }

-- One wait of the thread that timed out: what the other workers have done to the table, the clock,
-- and the exceptions of the session's factory and of `close`, which are not the service's.
pub record Round : Type 0 where
  pub others : Leases → Leases
  pub now : ℕ
  pub session_error : Option Error
  pub close_error : Option Error

abbrev fail : Error → TaskLeaseHeartbeat → TaskLeaseHeartbeat
fail e h = record h { failure = some e; stop_set = true }

abbrev note_heartbeat : Result (Unit {0}) → TaskLeaseHeartbeat → TaskLeaseHeartbeat
note_heartbeat (ok _) h = h
note_heartbeat (err e) h = fail e h

-- the `finally` block
abbrev note_close : Option Error → TaskLeaseHeartbeat → TaskLeaseHeartbeat
note_close none h = h
note_close (some e) h = record h {
  failure = elim h.failure [ none ↦ some e | some f ↦ some f ];
  stop_set = true;
}

-- the body of the `while` loop of `_run`
unfoldable pub beat : Round → TaskLeaseHeartbeat × Leases → TaskLeaseHeartbeat × Leases
unfolding heartbeat
beat r (h, leases) = elim r.session_error [
  | some e ↦ (fail e h, r.others leases)
  | none ↦
      let (result, after) =
        heartbeat (record { lease_seconds = h.lease_seconds }) h.task_id h.owner_token r.now
          (r.others leases) in
      (note_close r.close_error (note_heartbeat result h), after)
]

-- `_run`: the rounds are the waits that time out before the stop event is set from outside.
unfoldable pub run : List Round → TaskLeaseHeartbeat × Leases → TaskLeaseHeartbeat × Leases
run [] s = s
run (r ∷ rs) s = elim s.0.stop_set [ true ↦ s | false ↦ run rs (beat r s) ]

-- `stop`; the second argument says whether the thread is still alive after the join.
unfoldable pub stop : TaskLeaseHeartbeat → Bool → Result (Unit {0})
stop h alive = if not h.started then ok tt else if alive then err heartbeat_stuck else ok tt

unfoldable pub check : TaskLeaseHeartbeat → Result (Unit {0})
check h = elim h.failure [ none ↦ ok tt | some _ ↦ err heartbeat_failed ]

-- `__exit__`: what leaves the `with` block, from the exception of its body
unfoldable pub exit : TaskLeaseHeartbeat → Bool → Option Error → Result (Unit {0})
unfolding stop check
exit h alive (some e) = err e
exit h alive none = elim (stop h alive) [ err e ↦ err e | ok _ ↦ check h ]
