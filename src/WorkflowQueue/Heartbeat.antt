-- ===== src/WorkflowQueue/Heartbeat.antt =====
-- WorkflowLeaseHeartbeat and `lease_guard` of sacm/core/workflow_queue_service.py: a thread that
-- renews the lease of a job while the workflow runs. Intervals are counted in ticks of 1/3000
-- second, so that 30 seconds and a third of a whole number of seconds are whole numbers of ticks.
use sacm_agent_runtime.Base.{
  Bool, Error, Key, List, Option, Result, [], err, false, heartbeat_failed, heartbeat_interval,
  heartbeat_stuck, if◌then◌else◌, leb, min, none, not, ok, some, true, ℕ, ◌*◌, ◌/◌, ◌==◌, ◌||◌, ◌∷◌,
}
use sacm_agent_runtime.Model.{Env, Store}
use sacm_agent_runtime.WorkflowQueue.{after, renew}

abbrev pub ticks : ℕ → ℕ
ticks seconds = 3000 * seconds

pub record WorkflowLeaseHeartbeat : Type 0 where
  pub job_id : Key
  pub token : Key
  pub lease_seconds : ℕ
  pub interval : ℕ
  pub stop_set : Bool
  pub failure : Option Error
  pub started : Bool

-- `__init__`
unfoldable pub create : Key → Key → ℕ → ℕ → Result WorkflowLeaseHeartbeat
create job_id token lease_seconds interval =
    if (interval == 0) || leb (ticks lease_seconds) interval
    then err heartbeat_interval
    else ok (record {
      job_id = job_id;
      token = token;
      lease_seconds = lease_seconds;
      interval = interval;
      stop_set = false;
      failure = none;
      started = false;
    })

-- `lease_guard`, of the service's lease: the argument, else the environment, else the smaller of
-- 30 seconds and a third of the lease
unfoldable pub lease_guard : ℕ → Key → Key → Option ℕ → Option ℕ → Result WorkflowLeaseHeartbeat
unfolding create
lease_guard lease_seconds job_id token argument configured =
    let fallback : ℕ = min 90000 (ticks lease_seconds / 3) in
    let from_environment : ℕ = elim configured [ none ↦ fallback | some i ↦ i ] in
    let interval : ℕ = elim argument [ none ↦ from_environment | some i ↦ i ] in
    create job_id token lease_seconds interval

-- `__enter__` starts the thread.
unfoldable pub enter : WorkflowLeaseHeartbeat → WorkflowLeaseHeartbeat
enter h = record h { started = true }

-- One wait of the thread that timed out: the environment of the renewal, what others have done to
-- the database, and the exceptions of the session's factory and of `close`.
pub record Round : Type 0 where
  pub env : Env
  pub others : Store → Store
  pub session_error : Option Error
  pub close_error : Option Error

abbrev stop_with : Error → WorkflowLeaseHeartbeat → WorkflowLeaseHeartbeat
stop_with e h = record h { failure = some e; stop_set = true }

abbrev note_renewal : Result (Unit {0}) → WorkflowLeaseHeartbeat → WorkflowLeaseHeartbeat
note_renewal (ok _) h = h
note_renewal (err e) h = stop_with e h

-- the `finally` block
abbrev note_close : Option Error → WorkflowLeaseHeartbeat → WorkflowLeaseHeartbeat
note_close none h = h
note_close (some e) h = record h {
  failure = elim h.failure [ none ↦ some e | some f ↦ some f ];
  stop_set = true;
}

-- the body of the `while` loop of `_run`
unfoldable pub beat : Round → WorkflowLeaseHeartbeat × Store → WorkflowLeaseHeartbeat × Store
unfolding renew
beat r (h, s) = elim r.session_error [
  | some e ↦ (stop_with e h, r.others s)
  | none ↦
      let (result, after) = renew r.env h.lease_seconds h.job_id h.token (r.others s) in
      (note_close r.close_error (note_renewal result h), after)
]

-- `_run`: the rounds are the waits that time out before the stop event is set from outside.
unfoldable pub run : List Round → WorkflowLeaseHeartbeat × Store → WorkflowLeaseHeartbeat × Store
run [] s = s
run (r ∷ rs) s = elim s.0.stop_set [ true ↦ s | false ↦ run rs (beat r s) ]

-- `stop`; the second argument says whether the thread is still alive after the join.
unfoldable pub stop : WorkflowLeaseHeartbeat → Bool → Result (Unit {0})
stop h alive = if not h.started then ok tt else if alive then err heartbeat_stuck else ok tt

unfoldable pub check : WorkflowLeaseHeartbeat → Result (Unit {0})
check h = elim h.failure [ none ↦ ok tt | some _ ↦ err heartbeat_failed ]

-- `__exit__`: an exception of `stop` takes the place of the exception of the body.
unfoldable pub exit : WorkflowLeaseHeartbeat → Bool → Option Error → Result (Unit {0})
unfolding stop check
exit h alive raised = elim (stop h alive) [
  | err e ↦ err e
  | ok _ ↦ elim raised [ some e ↦ err e | none ↦ check h ]
]
