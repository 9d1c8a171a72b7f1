-- ===== src/RunService/Lifecycle.antt =====
-- The life cycle of a run: what `transition` accepts, what it writes, and which states are final.
use mathlib.Core.Path.{subst}
use sacm_agent_runtime.Base.{
  Bool-cases, Key, List, Option, String, [], arith, err, false, get, get-key, get-put,
  if◌then◌else◌, inl, inr, invalid_transition, is_some, none, not, ok, refl, some, sym, true, ◌&&◌,
  ◌++◌, ◌==◌, ◌||◌, ◌∷◌, ◌≡◌, ◌⊎◌,
}
use sacm_agent_runtime.Model.{
  Env, Payload, Run, RunSnapshot, RunStatus, Store, allowed_transitions, is_closed, is_completed,
  is_final, member, put_run, run_key, run_transition, same_status,
}
use sacm_agent_runtime.RunService.Events.{append_event, event_after, latest}
use sacm_agent_runtime.RunService.Transitions.{apply_status, moved, require, transition}
use sacm_agent_runtime.RunService.Saving.{checkpoint_frame, logged_ok}

pub require_found :
    (run_id : Key) (s : Store) (run : Run)
    → get run_key run_id s.runs ≡ some run
    → require run_id s ≡ (ok run, s)
unfolding require
require_found run_id s run h = ground arith

module _ (env : Env) (run : Run) (status : RunStatus) (event_type actor : String)
    (payload : Payload) (step_id : Option Key) where
  put_found :
      (s : Store)
      → get run_key run.id s.runs ≡ some run
      → (r : Run) → r.id ≡ run.id
      → get run_key run.id (put_run r s).runs ≡ some r
  put_found s h r e = ground (arith, get-put run_key r run.id s.runs)

  pub applied :
      (s : Store)
      → get run_key run.id s.runs ≡ some run
      → (s' : List RunSnapshot) × (apply_status env run status event_type actor payload step_id s
          ≡ (
            ok (moved env status run),
            record (append_event env
                (moved env status run)
                event_type
                actor
                payload
                step_id
                (put_run (moved env status run) s)) { snapshots = s' },
          ))
  unfolding apply_status
  applied s h =
      let r = moved env status run in
      let written = append_event env r event_type actor payload step_id (put_run r s) in
      let (shots, frame) = checkpoint_frame env r (run_transition event_type) written in
      let passed =
        logged_ok env r (run_transition event_type) (put_run r s) event_type actor payload step_id r
          (put_found s h r refl) in
      (shots, ground arith)

-- The run as a change of its status leaves it.
pub record IsMoved (env : Env) (status : RunStatus) (run run' : Run) : Type 0 where
  pub new_status : run'.status ≡ status
  pub updated_at : run'.updated_at ≡ env.now
  pub completed_at : run'.completed_at ≡ (if is_closed status then some env.now else none)
  pub started_at : run'.started_at ≡ (
      if same_status RunStatus.planning status && not (is_some run.started_at)
      then some env.now
      else run.started_at)
  pub others : run' ≡ record run {
    status = run'.status;
    updated_at = run'.updated_at;
    started_at = run'.started_at;
    completed_at = run'.completed_at;
  }

pub moved-IsMoved :
    (env : Env) (run : Run) (status : RunStatus) → IsMoved env status run (moved env status run)
moved-IsMoved env run status = record {
  new_status = refl;
  updated_at = refl;
  completed_at = refl;
  started_at = ground arith;
  others = refl;
}

module _ (env : Env) (run_id : Key) (event_type actor : String) (payload : Payload)
    (step_id : Option Key) (s : Store) where
  -- For a run in the database and a status other than COMPLETED: `transition` accepts the move
  -- exactly when the table of transitions has it or the status stays. Then it returns the run with
  -- the new status and the time of the change; with a time of completion if the status is FAILED or
  -- CANCELLED, and none otherwise; with a time of start if it had none and is PLANNING now; and
  -- with every other column as it was. This run, and no other, is written to its row, one event is
  -- appended to the log, and nothing else but the snapshots changes. Otherwise `transition` raises
  -- and nothing changes.
  pub transition_moves :
      (run : Run) (status : RunStatus)
      → get run_key run_id s.runs ≡ some run
      → is_completed status ≡ false
      → let (result, s') = transition env run_id status event_type actor payload step_id s in
        let accepted =
          same_status status run.status || member status (allowed_transitions run.status) in
        ((accepted ≡ true)
          × ((run' : Run) × (result ≡ ok run')
              × IsMoved env status run run'
              × ((j : Key)
                  → get run_key j s'.runs
                    ≡ (if run_id == j then some run' else get run_key j s.runs))
              × (s'.events
                  ≡ s.events
                    ++ event_after env
                        (latest run_id s.events)
                        run_id
                        event_type
                        actor
                        payload
                        step_id
                      ∷ [])
              × (s' ≡ record s { runs = s'.runs; events = s'.events; snapshots = s'.snapshots })))
        ⊎ ((accepted ≡ false)
            × (transition env run_id status event_type actor payload step_id s
                ≡ (err invalid_transition, s)))
  unfolding transition append_event require allowed_transitions
  transition_moves run status h c =
      let same_id : run.id ≡ run_id = get-key run_key run_id s.runs run h in
      let own : get run_key run.id s.runs ≡ some run =
        subst (λ k. get run_key k s.runs ≡ some run) (sym same_id) h in
      let (shots, eq) = applied env run status event_type actor payload step_id s own in
      elim (Bool-cases
        (same_status status run.status || member status (allowed_transitions run.status))) [
          | inl yes_it ↦ inl (
            yes_it,
            (
              moved env status run,
              ground arith,
              moved-IsMoved env run status,
              λ j. ground (arith, get-put run_key (moved env status run) j s.runs),
              ground arith,
              ground arith,
            ),
          )
          | inr no_it ↦ inr (no_it, ground arith)
        ]

  -- A completed or cancelled run stays where it is: every transition to another status, also one to
  -- COMPLETED, is refused and changes nothing.
  pub final_stays :
      (run : Run) (status : RunStatus)
      → get run_key run_id s.runs ≡ some run
      → is_final run.status ≡ true
      → same_status status run.status ≡ false
      → transition env run_id status event_type actor payload step_id s
        ≡ (err invalid_transition, s)
  unfolding transition require allowed_transitions
  final_stays run status h f d = ground arith
