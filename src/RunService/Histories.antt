-- ===== src/RunService/Histories.antt =====
-- Whole histories of a database: the operations of the run service, made one after another.
use sacm_agent_runtime.Base.{
  Bool, Keeps, Key, List, Option, String, [], keeps_rules, ok, some, ℕ, ◌∷◌, ◌≡◌,
}
use sacm_agent_runtime.Model.{
  Env, Failure, FailureReport, Payload, RecoveryDecision, RunStatus, RuntimeEvent, StepInput, Store,
}
use sacm_agent_runtime.RunService.Events.{latest, validate_event_chain}
use sacm_agent_runtime.RunService.Chain.{IsLogged}
use sacm_agent_runtime.RunService.Validation.{validate_event_chain-latest}
use sacm_agent_runtime.RunService.Transitions.{cancel, resume, transition}
use sacm_agent_runtime.RunService.Creation.{Task, create_for_task}
use sacm_agent_runtime.RunService.Steps.{
  add_step, await_step_approval, complete_step, fail_step, interrupt_step, recover_interrupted,
  retry_step, start_step,
}
use sacm_agent_runtime.RunService.Recovery.{schedule_recovery}
use sacm_agent_runtime.RunService.Logged.{
  LogKept, add_step-LogKept, append-LogKept, await_step_approval-LogKept, cancel-LogKept,
  checkpoint-LogKept, complete_step-LogKept, fail_step-LogKept, interrupt_step-LogKept,
  recover_interrupted-LogKept, resume-LogKept, retry_step-LogKept, schedule_recovery-LogKept,
  start_step-LogKept, transition-LogKept,
}

-- a public method of the service that writes, with its arguments
pub data Action : Type 0 where
  transitioning :
      (run_id : Key) (status : RunStatus) (event_type actor : String) (payload : Payload)
      (step_id : Option Key)
      → Action
  creating : Task → Action
  adding : (run_id : Key) (name : String) (input : StepInput) (key : Key) → Action
  starting : (run_id step_id : Key) → Action
  completing : (run_id step_id : Key) (output : String) → Action
  awaiting_approval_of : (run_id step_id approval_id : Key) (output : String) → Action
  failing : (run_id step_id : Key) → Failure → Action
  interrupting : (run_id step_id : Key) (reason : String) (by_cancel : Bool) → Action
  retrying : (run_id step_id : Key) → Action
  resuming : (run_id : Key) → Action
  cancelling : (run_id : Key) → Action
  recovering_step : (run_id step_id : Key) → FailureReport → RecoveryDecision → Action
  recovering_run : (run_id : Key) → Action

-- A call reads the clock and draws its identifiers.
pub record Call : Type 0 where
  pub now : ℕ
  pub fresh : Key
  pub action : Action

module _ (env : Env) where
  abbrev pub act : Action → Store → Store
  act (transitioning run_id status event_type actor payload step_id) s =
      (transition env run_id status event_type actor payload step_id s).1
  act (creating task) s = (create_for_task env task s).1
  act (adding run_id name input key) s = (add_step env run_id name input key s).1
  act (starting run_id step_id) s = (start_step env run_id step_id s).1
  act (completing run_id step_id output) s = (complete_step env run_id step_id output s).1
  act (awaiting_approval_of run_id step_id approval_id output) s =
      (await_step_approval env run_id step_id approval_id output s).1
  act (failing run_id step_id failure) s = (fail_step env run_id step_id failure s).1
  act (interrupting run_id step_id reason by_cancel) s =
      (interrupt_step env run_id step_id reason by_cancel s).1
  act (retrying run_id step_id) s = (retry_step env run_id step_id s).1
  act (resuming run_id) s = (resume env run_id s).1
  act (cancelling run_id) s = (cancel env run_id s).1
  act (recovering_step run_id step_id failure decision) s =
      (schedule_recovery env run_id step_id failure decision s).1
  act (recovering_run run_id) s = (recover_interrupted env run_id s).1

  create-LogKept : (task : Task) → Keeps (LogKept env) (create_for_task env task)
  unfolding create_for_task
  create-LogKept task = search (keeps_rules, append-LogKept, checkpoint-LogKept) depth 9

  act-LogKept : (a : Action) (s : Store) → LogKept env s → LogKept env (act a s)
  act-LogKept (transitioning run_id status event_type actor payload step_id) =
      (transition-LogKept env run_id status event_type actor payload step_id).at
  act-LogKept (creating task) = (create-LogKept task).at
  act-LogKept (adding run_id name input key) = (add_step-LogKept env run_id name input key).at
  act-LogKept (starting run_id step_id) = (start_step-LogKept env run_id step_id).at
  act-LogKept (completing run_id step_id output) =
      (complete_step-LogKept env run_id step_id output).at
  act-LogKept (awaiting_approval_of run_id step_id approval_id output) =
      (await_step_approval-LogKept env run_id step_id approval_id output).at
  act-LogKept (failing run_id step_id failure) = (fail_step-LogKept env run_id step_id failure).at
  act-LogKept (interrupting run_id step_id reason by_cancel) =
      (interrupt_step-LogKept env run_id step_id reason by_cancel).at
  act-LogKept (retrying run_id step_id) = (retry_step-LogKept env run_id step_id).at
  act-LogKept (resuming run_id) = (resume-LogKept env run_id).at
  act-LogKept (cancelling run_id) = (cancel-LogKept env run_id).at
  act-LogKept (recovering_step run_id step_id failure decision) =
      (schedule_recovery-LogKept env run_id step_id failure decision).at
  act-LogKept (recovering_run run_id) = (recover_interrupted-LogKept env run_id).at

module _ (env : Env) where
  abbrev pub at_call : Call → Env
  at_call c = record env { now = c.now; fresh = c.fresh }

  -- the calls in the order in which they commit
  unfoldable pub perform : List Call → Store → Store
  perform [] s = s
  perform (c ∷ cs) s = perform cs (act (at_call c) c.action s)

  -- Whatever methods are called, in whatever order, on whatever runs and steps, with whatever
  -- results, the events of every run stay a hash chain from number 1.
  pub perform-IsLogged :
      (cs : List Call) (s : Store) → IsLogged env s.events → IsLogged env (perform cs s).events
  unfolding perform
  perform-IsLogged [] s h = h
  perform-IsLogged (c ∷ cs) s h =
      let kept : LogKept (at_call c) (act (at_call c) c.action s) =
        act-LogKept (at_call c) c.action s (record { chain = h.chain }) in
      perform-IsLogged cs (act (at_call c) c.action s) (record { chain = kept.chain })

  -- From a database in which the log of every run is a hash chain, such as an empty one: whatever
  -- methods of the service are called, on whatever runs and steps, in whatever order, and whether
  -- they succeed or raise, the newest event of a run passes the validation that a snapshot which
  -- records that event needs.
  pub perform_validates :
      (cs : List Call) (s : Store) (run_id : Key) (f : RuntimeEvent)
      → IsLogged env s.events
      → latest run_id (perform cs s).events ≡ some f
      → validate_event_chain env run_id f.sequence f.event_hash (perform cs s).events ≡ ok tt
  perform_validates cs s run_id f h e =
      validate_event_chain-latest env run_id (perform cs s).events f (perform-IsLogged cs s h) e
