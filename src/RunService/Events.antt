-- ===== src/RunService/Events.antt =====
-- `_append_event` of sacm/core/run_service.py and `_validate_event_chain` of
-- sacm/core/snapshot_service.py: the append-only events of a run, chained by their hashes.
use sacm_agent_runtime.Base.{
  Bool, Key, List, Option, Result, String, [], err, false, if◌then◌else◌, leb, length, ltb, none,
  not, ok, order_by, same, select, snapshot_chain, some, true, ℕ, ◌&&◌, ◌++◌, ◌+◌, ◌==◌, ◌∷◌,
}
use sacm_agent_runtime.Model.{Env, EventPayload, Payload, Run, RuntimeEvent, Store}

abbrev pub of_run : Key → RuntimeEvent → Bool
of_run run_id e = e.run_id == run_id

abbrev newer : RuntimeEvent → Option RuntimeEvent → Option RuntimeEvent
newer e none = some e
newer e (some f) = if ltb e.sequence f.sequence then some f else some e

-- The event of the run with the greatest sequence number, flushed or pending.
unfoldable pub latest : Key → List RuntimeEvent → Option RuntimeEvent
latest run_id [] = none
latest run_id (e ∷ es) =
    let rest = latest run_id es in if of_run run_id e then newer e rest else rest

abbrev pub next_sequence : Option RuntimeEvent → ℕ
next_sequence none = 1
next_sequence (some e) = e.sequence + 1

abbrev pub hash_of : Option RuntimeEvent → Option Key
hash_of none = none
hash_of (some e) = some e.event_hash

module _ (env : Env) where
  abbrev pub event_after :
      Option RuntimeEvent → Key → String → String → Payload → Option Key → RuntimeEvent
  event_after previous run_id event_type actor payload step_id =
      let body : EventPayload = record {
        run_id = run_id;
        step_id = step_id;
        sequence = next_sequence previous;
        event_type = event_type;
        actor = actor;
        payload = payload;
        previous_event_hash = hash_of previous;
        occurred_at = env.now;
      } in
      record { body = body; event_hash = env.event_digest body }

  -- `_append_event`
  unfoldable pub append_event : Run → String → String → Payload → Option Key → Store → Store
  append_event run event_type actor payload step_id s = record s {
    events =
        s.events
        ++ event_after (latest run.id s.events) run.id event_type actor payload step_id ∷ [];
  }

  -- the loop of `_validate_event_chain`
  unfoldable pub check_chain : Key → ℕ → Option Key → List RuntimeEvent → Bool
  check_chain run_id expected previous_hash [] = true
  check_chain run_id expected previous_hash (e ∷ es) =
      ((e.sequence == expected)
        && (same e.previous_event_hash previous_hash
            && (e.event_hash == env.event_digest (record e.body { run_id = run_id }))))
      && check_chain run_id (expected + 1) (some e.event_hash) es

  abbrev pub last_event : List RuntimeEvent → Option RuntimeEvent
  last_event [] = none
  last_event (e ∷ []) = some e
  last_event (e ∷ f ∷ es) = last_event (f ∷ es)

  abbrev pub anchored : ℕ → Key → Option RuntimeEvent → Bool
  anchored sequence hash none = false
  anchored sequence hash (some e) = (e.sequence == sequence) && (e.event_hash == hash)

  -- `_validate_event_chain`, of the snapshot's sequence number and hash
  unfoldable pub validate_event_chain : Key → ℕ → Key → List RuntimeEvent → Result (Unit {0})
  unfolding check_chain
  validate_event_chain run_id sequence hash events =
      let chain =
        order_by (λ e. e.sequence)
          (select (λ e. of_run run_id e && leb e.sequence sequence) events) in
      if not (length chain == sequence)
      then err snapshot_chain
      else if not (check_chain run_id 1 none chain)
      then err snapshot_chain
      else if anchored sequence hash (last_event chain)
      then ok tt
      else err snapshot_chain
