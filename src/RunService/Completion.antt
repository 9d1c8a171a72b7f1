-- ===== src/RunService/Completion.antt =====
-- What a successful transition proves, and above all one to COMPLETED.
use mathlib.Core.Path.{subst}
use sacm_agent_runtime.Base.{
  ==-refl, Bool, Error, Exec, Key, Option, Result, String, [], and_then, and_then-eq-ok, any,
  any-order_by, ap, arith, err, false, get, get-key, get-put, if◌then◌else◌, invalid_transition,
  none, not, ok, raise, refl, select, some, sym, true, ◌&&◌, ◌==◌, ◌||◌, ◌∙◌, ◌≡◌, ◌⊎◌,
}
use sacm_agent_runtime.Model.{
  Env, Payload, Run, RunStatus, RunStep, Store, allowed_transitions, is_closed, member, run_key,
  same_status, step_is_completed,
}
use sacm_agent_runtime.RunService.Snapshots.{list_steps}
use sacm_agent_runtime.RunService.Transitions.{
  apply_status, moved, no_evidence, refreshed, transition, validate_completion, validated,
}
use sacm_agent_runtime.RunService.Lifecycle.{applied, require_found}
use sacm_agent_runtime.RunService.Events.{append_event}

if_ok :
    (b : Bool) (x : Error) (m : Exec Store Run) (s : Store) {r : Run}
    → ((if b then m else raise x) s).0 ≡ ok r
    → (b ≡ true) × ((m s).0 ≡ ok r) × ((if b then m else raise x) s ≡ m s)
if_ok true x m s h = (refl, h, refl)
if_ok false x m s h = cc

and_then_run :
    {A B : Type 0} (f : A → Exec Store B) (m : Result A × Store) {a : A}
    → m.0 ≡ ok a
    → and_then f m ≡ f a m.1
and_then_run f (ok a, s) h = ap (λ r. and_then f (r, s)) h
and_then_run f (err x, s) h = cc

module _ (env : Env) (run_id : Key) (event_type actor : String) (payload : Payload)
    (step_id : Option Key) (s : Store) where
  validation_gate :
      (run c : Run)
      → (validate_completion env run s).0 ≡ ok c
      → (any (λ k. k == run.id) s.evidence_packs ≡ true)
        × (any (λ (x : RunStep). not (step_is_completed x.status)) (list_steps run.id s) ≡ false)
        × ((env.production && not (no_evidence env (env.missing_evidence run.id))) ≡ false)
  unfolding validate_completion
  validation_gate run c e = (ground arith, ground arith, ground arith)

  validated_id :
      (run c : Run) (status : RunStatus) → (validated env status run s).0 ≡ ok c → c.id ≡ run.id
  unfolding validate_completion
  validated_id run c status e = ground arith

  apply_status_result :
      (c r : Run) (status : RunStatus) (s' : Store)
      → (apply_status env c status event_type actor payload step_id s').0 ≡ ok r
      → r ≡ moved env status c
  unfolding apply_status
  apply_status_result c r status s' e = ground arith

  -- the part of a successful transition behind its guard
  transition_block :
      (run r : Run) (status : RunStatus)
      → get run_key run_id s.runs ≡ some run
      → (transition env run_id status event_type actor payload step_id s).0 ≡ ok r
      → ((same_status status run.status || member status (allowed_transitions run.status)) ≡ true)
        × ((and_then
              (λ c. apply_status env c status event_type actor payload step_id)
              (validated env status run s)).0
            ≡ ok r)
        × (transition env run_id status event_type actor payload step_id s
            ≡ and_then
                (λ c. apply_status env c status event_type actor payload step_id)
                (validated env status run s))
  unfolding transition
  transition_block run r status h e =
      let (edge, block, same_end) =
        if_ok (same_status status run.status || member status (allowed_transitions run.status))
          invalid_transition
          (λ s.
            and_then (λ c. apply_status env c status event_type actor payload step_id)
              (validated env status run s))
          s (rw (require_found run_id s run h) at e) in
      (edge, block, rw (require_found run_id s run h) same_end)

  written_fields :
      (run c r : Run) (status : RunStatus) (s' : Store)
      → (validated env status run s).0 ≡ ok c
      → (apply_status env c status event_type actor payload step_id s').0 ≡ ok r
      → (r.status ≡ status)
        × (r.completed_at ≡ (if is_closed status then some env.now else none))
        × (r.id ≡ run.id)
  written_fields run c r status s' v e =
      let written : r ≡ moved env status c = apply_status_result c r status s' e in
      (
        ap (λ (x : Run). x.status) written,
        ap (λ (x : Run). x.completed_at) written,
        ap (λ (x : Run). x.id) written ∙ validated_id run c status v,
      )

  -- the row of the run behind the checks of a completion
  validated_row :
      (run c : Run) (status : RunStatus)
      → get run_key run_id s.runs ≡ some run
      → (validated env status run s).0 ≡ ok c
      → get run_key c.id (validated env status run s).1.runs ≡ some c
  unfolding validate_completion
  validated_row run c status h e =
      let own : run.id ≡ run_id = get-key run_key run_id s.runs run h in
      let row : get run_key run.id s.runs ≡ some run =
        subst (λ k. get run_key k s.runs ≡ some run) (sym own) h in
      ground (arith, get-put run_key (refreshed env run) run.id s.runs, ==-refl run.id)

  applied_row :
      (c r : Run) (status : RunStatus) (s' : Store)
      → get run_key c.id s'.runs ≡ some c
      → (apply_status env c status event_type actor payload step_id s').0 ≡ ok r
      → get run_key r.id (apply_status env c status event_type actor payload step_id s').1.runs
        ≡ some r
  unfolding append_event
  applied_row c r status s' row e =
      let (shots, eq) = applied env c status event_type actor payload step_id s' row in
      let same_run : r ≡ moved env status c = apply_status_result c r status s' e in
      rw (eq, same_run)
        (get-put run_key (moved env status c) c.id s'.runs ∙ rw (row, ==-refl c.id) refl)

  -- After a transition, also one to COMPLETED, the run that is returned is its row, with the status
  -- that was asked for, and a time of completion exactly if that status is COMPLETED, FAILED or
  -- CANCELLED.
  pub completed_at-transition :
      (run r : Run) (status : RunStatus)
      → get run_key run_id s.runs ≡ some run
      → (transition env run_id status event_type actor payload step_id s).0 ≡ ok r
      → (r.status ≡ status)
        × (r.completed_at ≡ (if is_closed status then some env.now else none))
        × (r.id ≡ run.id)
        × (get run_key run_id
              (transition env run_id status event_type actor payload step_id s).1.runs
            ≡ some r)
  completed_at-transition run r status h e =
      let checked = validated env status run s in
      let apply : Run → Exec Store Run =
        λ c. apply_status env c status event_type actor payload step_id in
      let (_, block, same_end) = transition_block run r status h e in
      let (c, v, written) = and_then-eq-ok apply checked block in
      let (new_status, closing, same_id) = written_fields run c r status checked.1 v written in
      let own : run.id ≡ run_id = get-key run_key run_id s.runs run h in
      let stored : get run_key r.id (apply c checked.1).1.runs ≡ some r =
        applied_row c r status checked.1 (validated_row run c status h v) written in
      (
        new_status,
        closing,
        same_id,
        rw (same_end, and_then_run apply checked v)
            (subst (λ k. get run_key k (apply c checked.1).1.runs ≡ some r) (same_id ∙ own) stored),
      )

  -- What the code demands of a run before it is COMPLETED.
  pub record IsComplete (run : Run) : Type 0 where
    pub delivered : (run.status ≡ RunStatus.delivering) ⊎ (run.status ≡ RunStatus.completed)
    pub has_evidence : any (λ k. k == run.id) s.evidence_packs ≡ true
    pub steps_completed :
        any
          (λ (x : RunStep). not (step_is_completed x.status))
          (select (λ x. x.run_id == run.id) s.steps)
        ≡ false
    pub evidence_complete : env.production ≡ true → env.missing_evidence run.id ≡ []

  deliverable :
      (status : RunStatus)
      → (same_status RunStatus.completed status
          || member RunStatus.completed (allowed_transitions status))
        ≡ true
      → (status ≡ RunStatus.delivering) ⊎ (status ≡ RunStatus.completed)
  unfolding allowed_transitions
  deliverable status h = ground arith

  gate :
      (run c : Run)
      → (validate_completion env run s).0 ≡ ok c
      → (run.status ≡ RunStatus.delivering) ⊎ (run.status ≡ RunStatus.completed)
      → IsComplete run
  unfolding list_steps
  gate run c passed d =
      let (pack, closed, evidence) = validation_gate run c passed in
      record {
        delivered = d;
        has_evidence = pack;
        steps_completed =
            sym (
              any-order_by (λ (x : RunStep). x.sequence) (λ x. not (step_is_completed x.status))
                (select (λ x. x.run_id == run.id) s.steps))
            ∙ closed;
        evidence_complete = λ p. ground (arith, evidence);
      }

  -- A run becomes COMPLETED only from DELIVERING (or again from COMPLETED), with an evidence pack,
  -- with all of its steps completed, and in production with no mandatory evidence missing.
  pub completion_gate :
      (run r : Run)
      → get run_key run_id s.runs ≡ some run
      → (transition env run_id RunStatus.completed event_type actor payload step_id s).0 ≡ ok r
      → IsComplete run
  completion_gate run r h e =
      let (edge, block, _) = transition_block run r RunStatus.completed h e in
      let (c, passed, _) =
        and_then-eq-ok
          (λ c. apply_status env c RunStatus.completed event_type actor payload step_id)
          (validate_completion env run s) block in
      gate run c passed (deliverable run.status edge)
