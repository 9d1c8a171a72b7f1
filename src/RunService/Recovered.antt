-- ===== src/RunService/Recovered.antt =====
-- What a scheduled recovery makes of the run and of the failed step.
use mathlib.Core.Path.{subst}
use sacm_agent_runtime.Base.{
  ==-refl, Bool, Key, List, Option, Result, String, [], and_then, ap, arith, err, false, first,
  first-true, get, get-key, get-put, if◌then◌else◌, keep_or_drop, none, ok, pure, refl, some, sym,
  true, update, ◌++◌, ◌+◌, ◌==◌, ◌∙◌, ◌∷◌, ◌≡◌,
}
use sacm_agent_runtime.Model.{
  CheckpointReason, Env, FailureReport, Payload, RecoveryDecision, Run, RunStatus, RunStep,
  StepStatus, Store, decided, escalated, put_run, put_step, report, run_key, scheduled,
  step_is_failed,
}
use sacm_agent_runtime.RunService.Events.{append_event}
use sacm_agent_runtime.RunService.Recovery.{
  history_of, recorded, resolved, schedule_recovery, write_recovery, write_resolved,
}
use sacm_agent_runtime.RunService.Saving.{checkpoint_frame, logged_ok}
use sacm_agent_runtime.RunService.Snapshots.{checkpoint}
use sacm_agent_runtime.RunService.Transitions.{get_step, require, require_step, step_of}

runs-append_event :
    (env : Env) (run : Run) (event_type actor : String) (payload : Payload) (step_id : Option Key)
    (s : Store)
    → (append_event env run event_type actor payload step_id s).runs ≡ s.runs
unfolding append_event
runs-append_event env run event_type actor payload step_id s = refl

steps-append_event :
    (env : Env) (run : Run) (event_type actor : String) (payload : Payload) (step_id : Option Key)
    (s : Store)
    → (append_event env run event_type actor payload step_id s).steps ≡ s.steps
unfolding append_event
steps-append_event env run event_type actor payload step_id s = refl

found_step_ids :
    (run_id step_id : Key) (step : RunStep) (steps : List RunStep)
    → first (step_of run_id step_id) steps ≡ some step
    → (step.run_id ≡ run_id) × (step.id ≡ step_id)
found_step_ids run_id step_id step steps h =
    let found = first-true (step_of run_id step_id) steps step h in (ground arith, ground arith)

-- a step that is found and then written is the one that is found
first_written :
    (run_id step_id : Key) (step step' : RunStep) (steps : List RunStep)
    → step'.id ≡ step_id
    → step'.run_id ≡ run_id
    → first (step_of run_id step_id) steps ≡ some step
    → first (step_of run_id step_id) (update (λ x. x.id == step'.id) (λ _. step') steps)
      ≡ some step'
first_written run_id step_id step step' [] same_id same_run h = cc
first_written run_id step_id step step' (x ∷ xs) same_id same_run h = ground (
  arith,
  ==-refl run_id,
  ==-refl step_id,
  first_written run_id step_id step step' xs same_id same_run,
)

-- the end of a block that returns `x` after its checkpoint
returned :
    {A B : Type 0} (x : B) (s : Store) (r : Result A × Store) {a : A}
    → r.0 ≡ ok a
    → keep_or_drop s (and_then (λ _. pure x) r) ≡ (ok x, r.1)
returned x s (ok a, s') h = refl
returned x s (err e, s') h = cc

module _ (env : Env) (run : Run) (step : RunStep) (failure : FailureReport)
    (decision : RecoveryDecision) (s : Store) where
  write_resolved_ok :
      (run' : Run) (step' : RunStep) (payload : Payload) (event_type : String)
      → get run_key run.id s.runs ≡ some run
      → run'.id ≡ run.id
      → let (result, s') =
          write_resolved env run step failure decision run' step' payload event_type s in
        (result ≡ ok step')
        × (get run_key run.id s'.runs ≡ some run')
        × (s'.steps ≡ update (λ x. x.id == step'.id) (λ _. step') s.steps)
  unfolding write_resolved
  write_resolved_ok run' step' payload event_type h same_id =
      let s1 =
        append_event env run "FailureClassified" "system" (report failure) (some step.id) s in
      let s2 =
        append_event env run "RecoveryPlanned" "system" (decided decision) (some step.id) s1 in
      let s3 : Store = put_step step' (put_run run' s2) in
      let s4 = append_event env run' event_type "system" payload (some step.id) s3 in
      let reason = CheckpointReason.recovery decision.action in
      let (shots, frame) = checkpoint_frame env run' reason s4 in
      let put : get run_key run'.id s3.runs ≡ some run' =
        get-put run_key run' run'.id s2.runs
        ∙ rw (==-refl run'.id) (
            rw
              (
                same_id,
                runs-append_event env run "RecoveryPlanned" "system" (decided decision)
                    (some step.id) s1,
              )
              (rw
                (
                  runs-append_event env run "FailureClassified" "system" (report failure)
                      (some step.id) s,
                  h,
                )
                refl)) in
      let passed =
        logged_ok env run' reason s3 event_type "system" payload (some step.id) run' put in
      let end = returned step' s (checkpoint env run' reason s4) passed in
      let runs : (checkpoint env run' reason s4).1.runs ≡ s3.runs =
        ap (λ (x : Store). x.runs) frame
        ∙ runs-append_event env run' event_type "system" payload (some step.id) s3 in
      let steps : (checkpoint env run' reason s4).1.steps
          ≡ update (λ x. x.id == step'.id) (λ _. step') s.steps =
        ap (λ (x : Store). x.steps) frame
        ∙ (steps-append_event env run' event_type "system" payload (some step.id) s3
            ∙ ap (update (λ x. x.id == step'.id) (λ _. step')) (
                steps-append_event env run "RecoveryPlanned" "system" (decided decision)
                  (some step.id) s1
                ∙ steps-append_event env run "FailureClassified" "system" (report failure)
                    (some step.id) s)) in
      let stored : get run_key run.id s3.runs ≡ some run' =
        subst (λ k. get run_key k s3.runs ≡ some run') same_id put in
      (
        ap (λ (x : Result RunStep × Store). x.0) end,
        ap (λ (x : Result RunStep × Store). get run_key run.id x.1.runs) end
            ∙ (ap (get run_key run.id) runs ∙ stored),
        ap (λ (x : Result RunStep × Store). x.1.steps) end ∙ steps,
      )

abbrev pub escalates : RecoveryDecision → Bool
escalates decision = elim decision.status [ escalated ↦ true | scheduled ↦ false ]

-- The run and the step that a decision leads to.
pub record IsRecovered (env : Env) (run : Run) (step : RunStep) (failure : FailureReport)
    (decision : RecoveryDecision) (run' : Run) (step' : RunStep) : Type 0 where
  pub status :
      run'.status ≡ (if escalates decision then RunStatus.failed else decision.target_run_status)
  pub completed_at : run'.completed_at ≡ (if escalates decision then some env.now else none)
  pub attempts : run'.recovery_attempt_count ≡ decision.attempt
  pub history :
      history_of run'.recovery_state
      ≡ history_of run.recovery_state
        ++ record {
          attempt = decision.attempt;
          step_id = step.id;
          failure = failure;
          decision = decision;
          recorded_at = env.now;
        }
          ∷ []
  pub step_status : step'.status ≡ (if escalates decision then step.status else StepStatus.pending)
  pub retry_count :
      step'.retry_count ≡ (if escalates decision then step.retry_count else step.retry_count + 1)
  pub same_run : run'.id ≡ run.id
  pub same_step : step'.id ≡ step.id
  pub same_owner : step'.run_id ≡ step.run_id

module _ (env : Env) (run : Run) (step : RunStep) (failure : FailureReport)
    (decision : RecoveryDecision) where
  resolved-IsRecovered :
      let r =
        resolved env decision.status
          (recorded env run step failure decision)
          step
          failure
          decision in
      IsRecovered env run step failure decision r.0 r.1
  unfolding resolved
  resolved-IsRecovered = record {
    status = ground arith;
    completed_at = ground arith;
    attempts = ground arith;
    history = ground arith;
    step_status = ground arith;
    retry_count = ground arith;
    same_run = ground arith;
    same_step = ground arith;
    same_owner = ground arith;
  }

  -- Whatever the status of the run, also COMPLETED or CANCELLED, the recovery of a failed step goes
  -- through: the row of the run gets the decision's target status, or FAILED with a time of
  -- completion if the decision escalates, with the attempt counted and the failure and the decision
  -- added to its history; the row of the step is PENDING with one more retry, or keeps its status
  -- and retries if the decision escalates, and is the step that is returned.
  pub schedule_recovery_contract :
      (run_id step_id : Key) (s : Store)
      → get run_key run_id s.runs ≡ some run
      → get_step run_id step_id s ≡ some step
      → step_is_failed step.status ≡ true
      → let (result, s') = schedule_recovery env run_id step_id failure decision s in
        (run' : Run) × (step' : RunStep) × (result ≡ ok step')
        × (get run_key run_id s'.runs ≡ some run')
        × (get_step run_id step_id s' ≡ some step')
        × IsRecovered env run step failure decision run' step'
  unfolding schedule_recovery require require_step write_recovery get_step
  schedule_recovery_contract run_id step_id s h g f =
      let (run', step', payload, event_type) =
        resolved env decision.status (recorded env run step failure decision) step failure
          decision in
      let same_id : run.id ≡ run_id = get-key run_key run_id s.runs run h in
      let own : get run_key run.id s.runs ≡ some run =
        subst (λ k. get run_key k s.runs ≡ some run) (sym same_id) h in
      let recovered = resolved-IsRecovered in
      let own_step = found_step_ids run_id step_id step s.steps g in
      let (done, stored, rows) =
        write_resolved_ok env run step failure decision s run' step' payload event_type own
          recovered.same_run in
      let after : Store =
        (write_resolved env run step failure decision run' step' payload event_type s).1 in
      rw (h, g, f)
        (
          run',
          step',
          done,
          subst (λ k. get run_key k after.runs ≡ some run') same_id stored,
          ap (first (step_of run_id step_id)) rows
              ∙ first_written run_id step_id step step' s.steps (recovered.same_step ∙ own_step.1)
                  (recovered.same_owner ∙ own_step.0) g,
          recovered,
        )
