-- ===== src/RunService/Saving.antt =====
-- Checkpoints change nothing but the snapshots, and fail only without a run or an event.
use sacm_agent_runtime.Base.{
  ==-refl, Bool-cases, Key, List, Option, String, [], arith, get, get-key, inl, inr, ltb, ok, some,
  true, ◌++◌, ◌∷◌, ◌≡◌,
}
use sacm_agent_runtime.Model.{
  CheckpointReason, Env, Payload, Run, RunSnapshot, RuntimeEvent, Store, run_key,
}
use sacm_agent_runtime.RunService.Events.{append_event, event_after, latest, of_run}
use sacm_agent_runtime.RunService.Snapshots.{checkpoint}

module _ (env : Env) (run : Run) (reason : CheckpointReason) (s : Store) where
  -- All tables but the snapshots are as they were.
  pub checkpoint_frame :
      (s' : List RunSnapshot) × ((checkpoint env run reason s).1 ≡ record s { snapshots = s' })
  unfolding checkpoint
  checkpoint_frame = ((checkpoint env run reason s).1.snapshots, ground arith)

  pub checkpoint_ok :
      {r : Run} {e : RuntimeEvent}
      → get run_key run.id s.runs ≡ some r
      → latest run.id s.events ≡ some e
      → (checkpoint env run reason s).0 ≡ ok tt
  unfolding checkpoint
  checkpoint_ok {r} h l =
      let same_id : r.id ≡ run.id = get-key run_key run.id s.runs r h in ground arith

latest_append :
    (run_id : Key) (es : List RuntimeEvent) (y : RuntimeEvent)
    → of_run run_id y ≡ true
    → (e : RuntimeEvent) × (latest run_id (es ++ y ∷ []) ≡ some e)
unfolding latest
latest_append run_id [] y h = (y, ground arith)
latest_append run_id (e ∷ es) y h =
    let (f, found) = latest_append run_id es y h in
    elim (Bool-cases (of_run run_id e)) [
      | inl own ↦ elim (Bool-cases (ltb e.sequence f.sequence)) [
        | inl less ↦ (f, ground arith)
        | inr more ↦ (e, ground arith)
      ]
      | inr other ↦ (f, ground arith)
    ]

-- After an event of a run that is in the database, the checkpoint of the run goes through.
pub logged_ok :
    (env : Env) (run : Run) (reason : CheckpointReason) (s : Store) (event_type actor : String)
    (payload : Payload) (step_id : Option Key) (r : Run)
    → get run_key run.id s.runs ≡ some r
    → (checkpoint env run reason (append_event env run event_type actor payload step_id s)).0
      ≡ ok tt
unfolding append_event
logged_ok env run reason s event_type actor payload step_id r h =
    let y = event_after env (latest run.id s.events) run.id event_type actor payload step_id in
    let (e, found) = latest_append run.id s.events y (==-refl run.id) in
    checkpoint_ok env run reason (record s { events = s.events ++ y ∷ [] }) h found
