-- ===== src/Samples/Runs.antt =====
-- The theorems on runs at concrete databases.
use sacm_agent_runtime.Base.{
  ◌⊎◌, Key, List, [], any, err, false, get, if◌then◌else◌, invalid_transition, length, none, ok,
  refl, some, true, ◌++◌, ◌==◌, ◌||◌, ◌∷◌, ◌≡◌,
}
use sacm_agent_runtime.Model.{
  ExecutionState, RecoveryDecision, Run, RunStatus, RunStep, RuntimeEvent, StepInput, StepStatus,
  Store, allowed_transitions, debug, empty, is_closed, maps_to, member, run_key, same_status,
  scheduled, task_created, test_regression,
}
use sacm_agent_runtime.RunService.Events.{
  append_event, check_chain, event_after, latest, validate_event_chain,
}
use sacm_agent_runtime.RunService.Snapshots.{checkpoint}
use sacm_agent_runtime.RunService.Recovery.{schedule_recovery}
use sacm_agent_runtime.RunService.Recovered.{IsRecovered, schedule_recovery_contract}
use sacm_agent_runtime.RunService.Transitions.{
  apply_status, cancel, get_step, moved, refreshed, require, transition, validate_completion,
}
use sacm_agent_runtime.RunService.Creation.{create_for_task}
use sacm_agent_runtime.RunService.Completion.{IsComplete, completed_at-transition, completion_gate}
use sacm_agent_runtime.RunService.Cancellation.{cancel_succeeds, is_live_job}
use sacm_agent_runtime.RunService.Idempotence.{add_step_twice}
use sacm_agent_runtime.RunService.Steps.{add_step, new_step}
use sacm_agent_runtime.RunService.Histories.{
  Call, creating, perform, perform_validates, transitioning,
}
use sacm_agent_runtime.Samples.{
  failure, later_env, remote_job, run_with, sample_env, sample_store, step_with,
}
use sacm_agent_runtime.RunService.Chain.{IsChain, end_hash}
use sacm_agent_runtime.RunService.Validation.{read_events, validate_event_chain_sound}
use sacm_agent_runtime.RunService.Lifecycle.{IsMoved, final_stays, transition_moves}

abbrev history : List Call
history =
    record {
      now = 1000;
      fresh = 77;
      action =
          creating
            (record { id = 2; organization_id = none; project_id = none; target_repo_path = none });
    }
    ∷ record {
      now = 1001;
      fresh = 78;
      action = transitioning 77 RunStatus.planning "RunPlanned" "user" empty none;
    }
    ∷ []

abbrev nothing : Store
nothing = sample_store [] [] []

abbrev planned : RuntimeEvent
planned = record {
  body = record {
    run_id = 77;
    step_id = none;
    sequence = 2;
    event_type = "RunPlanned";
    actor = "user";
    payload = empty;
    previous_event_hash = some 501;
    occurred_at = 1001;
  };
  event_hash = 502;
}

perform_validates_example :
    validate_event_chain sample_env 77 2 502 (perform sample_env history nothing).events ≡ ok tt
unfolding perform create_for_task transition require allowed_transitions apply_status append_event
    checkpoint latest
perform_validates_example =
    perform_validates sample_env history nothing 77 planned (record { chain = λ r. tt }) refl

-- a run that delivers, with its step done
abbrev delivering_store : Store
delivering_store =
    sample_store (run_with RunStatus.delivering ∷ []) (step_with StepStatus.completed ∷ []) []

completion_gate_example :
    IsComplete sample_env 1 "RunCompleted" "system" empty none delivering_store
      (run_with RunStatus.delivering)
unfolding transition require allowed_transitions validate_completion apply_status checkpoint
    append_event
completion_gate_example =
    completion_gate sample_env 1 "RunCompleted" "system" empty none delivering_store
      (run_with RunStatus.delivering)
      (moved sample_env RunStatus.completed (refreshed sample_env (run_with RunStatus.delivering)))
      refl refl

transition_moves_example :
    let (result, s') =
      transition sample_env 1 RunStatus.implementing "Started" "system" empty none
        (sample_store (run_with RunStatus.planning ∷ []) [] []) in
    let s = sample_store (run_with RunStatus.planning ∷ []) [] [] in
    let run = run_with RunStatus.planning in
    let accepted =
      same_status RunStatus.implementing run.status
      || member RunStatus.implementing (allowed_transitions run.status) in
    ((accepted ≡ true)
      × ((run' : Run) × (result ≡ ok run')
          × IsMoved sample_env RunStatus.implementing run run'
          × ((j : Key)
              → get run_key j s'.runs ≡ (if 1 == j then some run' else get run_key j s.runs))
          × (s'.events
              ≡ s.events
                ++ event_after sample_env (latest 1 s.events) 1 "Started" "system" empty none ∷ [])
          × (s' ≡ record s { runs = s'.runs; events = s'.events; snapshots = s'.snapshots })))
    ⊎ ((accepted ≡ false)
        × (transition sample_env 1 RunStatus.implementing "Started" "system" empty none s
            ≡ (err invalid_transition, s)))
transition_moves_example =
    transition_moves sample_env 1 "Started" "system" empty none
      (sample_store (run_with RunStatus.planning ∷ []) [] []) (run_with RunStatus.planning)
      RunStatus.implementing refl refl

final_stays_example :
    transition sample_env 1 RunStatus.planning "RunResumed" "user" empty none
      (sample_store (run_with RunStatus.cancelled ∷ []) [] [])
    ≡ (err invalid_transition, sample_store (run_with RunStatus.cancelled ∷ []) [] [])
final_stays_example =
    final_stays sample_env 1 "RunResumed" "user" empty none
      (sample_store (run_with RunStatus.cancelled ∷ []) [] []) (run_with RunStatus.cancelled)
      RunStatus.planning refl refl refl

completed_at-transition_example :
    let r = moved sample_env RunStatus.failed (run_with RunStatus.planning) in
    (r.status ≡ RunStatus.failed)
    × (r.completed_at ≡ (if is_closed RunStatus.failed then some 1000 else none))
    × (r.id ≡ 1)
    × (get run_key 1
          (transition sample_env 1 RunStatus.failed "RunFailed" "system" empty none
            (sample_store (run_with RunStatus.planning ∷ []) [] [])).1.runs
        ≡ some r)
unfolding transition require allowed_transitions apply_status checkpoint append_event
completed_at-transition_example =
    completed_at-transition sample_env 1 "RunFailed" "system" empty none
      (sample_store (run_with RunStatus.planning ∷ []) [] []) (run_with RunStatus.planning)
      (moved sample_env RunStatus.failed (run_with RunStatus.planning)) RunStatus.failed refl refl

-- two events of the run, in the order in which they were written
abbrev first_event : RuntimeEvent
first_event = record {
  body = record {
    run_id = 77;
    step_id = none;
    sequence = 1;
    event_type = "RunCreated";
    actor = "system";
    payload = task_created 2 none;
    previous_event_hash = none;
    occurred_at = 1000;
  };
  event_hash = 501;
}

validate_event_chain_sound_example :
    IsChain sample_env 77 1 none (read_events 77 2 (planned ∷ first_event ∷ []))
    × (length (read_events 77 2 (planned ∷ first_event ∷ [])) ≡ 2)
    × (end_hash sample_env 77 none (read_events 77 2 (planned ∷ first_event ∷ [])) ≡ some 502)
unfolding validate_event_chain check_chain
validate_event_chain_sound_example =
    validate_event_chain_sound sample_env 77 2 502 (planned ∷ first_event ∷ []) refl

abbrev retry_decision : RecoveryDecision
retry_decision = record {
  action = debug;
  status = scheduled;
  reason = maps_to test_regression debug;
  attempt = 1;
  max_attempts = 3;
  target_run_status = RunStatus.fixing;
  instructions = [];
}

-- The step of a cancelled run is recovered, and the run is moved out of CANCELLED.
abbrev cancelled_store : Store
cancelled_store =
    sample_store (run_with RunStatus.cancelled ∷ []) (step_with StepStatus.failed ∷ []) []

schedule_recovery_contract_example :
    let (result, s') = schedule_recovery sample_env 1 5 failure retry_decision cancelled_store in
    (run' : Run) × (step' : RunStep) × (result ≡ ok step')
    × (get run_key 1 s'.runs ≡ some run')
    × (get_step 1 5 s' ≡ some step')
    × IsRecovered sample_env
        (run_with RunStatus.cancelled)
        (step_with StepStatus.failed)
        failure
        retry_decision
        run'
        step'
unfolding get_step
schedule_recovery_contract_example =
    schedule_recovery_contract sample_env (run_with RunStatus.cancelled)
      (step_with StepStatus.failed) failure retry_decision 1 5 cancelled_store refl refl refl

-- a run with a step that has failed and with a job that an executor runs
abbrev busy_store : Store
busy_store =
    record (sample_store (run_with RunStatus.implementing ∷ []) (step_with StepStatus.failed ∷ [])
      []) {
        execution_jobs = remote_job ExecutionState.running (some 51) (some 52) (some 1200) ∷ [];
      }

cancel_succeeds_example :
    let (result, s') = cancel sample_env 1 busy_store in
    (stopped : Run) × (result ≡ ok stopped)
    × (get run_key 1 s'.runs ≡ some stopped)
    × (stopped.status ≡ RunStatus.cancelled)
    × (stopped.cancellation_requested ≡ true)
    × (stopped.completed_at ≡ some 1000)
    × (any (is_live_job sample_env 1) s'.execution_jobs ≡ false)
cancel_succeeds_example =
    cancel_succeeds sample_env 1 (run_with RunStatus.implementing) busy_store refl refl refl

abbrev planning_store : Store
planning_store = sample_store (run_with RunStatus.planning ∷ []) [] []

abbrev build_input : StepInput
build_input = record { agent_task = none; recovery = none; other = "input" }

add_step_twice_example :
    let added = new_step sample_env 1 "build" build_input 6 0 in
    let s' = (add_step sample_env 1 "build" build_input 6 planning_store).1 in
    add_step later_env 1 "again" build_input 6 s' ≡ (ok added, s')
unfolding add_step require checkpoint append_event
add_step_twice_example =
    add_step_twice sample_env 1 6 "build" build_input
      (new_step sample_env 1 "build" build_input 6 0) planning_store later_env "again" build_input
      refl
