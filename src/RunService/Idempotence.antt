-- ===== src/RunService/Idempotence.antt =====
-- The idempotency key of a step: adding a step again finds the one that is there.
use sacm_agent_runtime.Base.{
  ==-refl, Bool, Key, List, Option-cases, Result, String, [], and_then, ap, arith, err, first, get,
  inl, inr, keep_or_drop, length, none, ok, pure, refl, some, sym, true, ◌++◌, ◌∙◌, ◌∷◌, ◌≡◌,
}
use sacm_agent_runtime.Model.{
  Env, Run, RunStep, StepInput, Store, run_key, step_key, step_scheduled,
}
use sacm_agent_runtime.RunService.Events.{append_event}
use sacm_agent_runtime.RunService.Snapshots.{checkpoint, list_steps}
use sacm_agent_runtime.RunService.Transitions.{require}
use sacm_agent_runtime.RunService.Steps.{add_step, new_step, of_key, schedule}
use sacm_agent_runtime.RunService.Saving.{checkpoint_frame}

-- a block that succeeds with its last checkpoint
kept :
    {A B : Type 0} (x y : B) (s : Store) (r : Result A × Store)
    → (keep_or_drop s (and_then (λ _. pure x) r)).0 ≡ ok y
    → (x ≡ y) × (keep_or_drop s (and_then (λ _. pure x) r) ≡ (ok y, r.1))
kept x y s (ok a, s') h = ground arith
kept x y s (err e, s') h = cc

ok_injective : (x y : RunStep) → ok x ≡ ok y → x ≡ y
ok_injective x y h = cc

first-append :
    {A : Type 0} (p : A → Bool) (xs : List A) (y : A)
    → first p xs ≡ none
    → p y ≡ true
    → first p (xs ++ y ∷ []) ≡ some y
first-append p [] y h k = ground arith
first-append p (x ∷ xs) y h k = ground (arith, first-append p xs y)

module _ (env : Env) where
  schedule_writes :
      (run : Run) (step x : RunStep) (s : Store)
      → (schedule env run step s).0 ≡ ok x
      → (x ≡ step)
        × ((schedule env run step s).1.steps ≡ s.steps ++ step ∷ [])
        × ((schedule env run step s).1.runs ≡ s.runs)
  unfolding append_event
  schedule_writes run step x s h =
      let s1 : Store = record s { steps = s.steps ++ step ∷ [] } in
      let s2 =
        append_event env run "StepScheduled" "system" (step_key step.name step.idempotency_key)
          (some step.id) s1 in
      let (shots, frame) = checkpoint_frame env run (step_scheduled step.id) s2 in
      let (same_step, eq) = kept step x s (checkpoint env run (step_scheduled step.id) s2) h in
      (
        sym same_step,
        ap (λ (r : Result RunStep × Store). r.1.steps) eq ∙ ap (λ (t : Store). t.steps) frame,
        ap (λ (r : Result RunStep × Store). r.1.runs) eq ∙ ap (λ (t : Store). t.runs) frame,
      )

  found_again :
      (run_id key : Key) (name : String) (input : StepInput) (run : Run) (x : RunStep) (s : Store)
      → get run_key run_id s.runs ≡ some run
      → first (of_key env run_id key) s.steps ≡ some x
      → add_step env run_id name input key s ≡ (ok x, s)
  unfolding add_step require
  found_again run_id key name input run x s h f = rw (h, f) refl

module _ (env : Env) (run_id key : Key) (name : String) (input : StepInput) (x : RunStep)
    (s : Store) where
  -- what a successful call leaves: the run, and under the key the step that it returns
  add_step_leaves :
      (add_step env run_id name input key s).0 ≡ ok x
      → (run : Run) × (get run_key run_id (add_step env run_id name input key s).1.runs ≡ some run)
        × (first (of_key env run_id key) (add_step env run_id name input key s).1.steps ≡ some x)
  unfolding add_step require
  add_step_leaves h = elim (Option-cases (get run_key run_id s.runs)) [
    | inl e ↦ ground arith
    | inr (run, e) ↦ elim (Option-cases (first (of_key env run_id key) s.steps)) [
      | inr (old, f) ↦ rw (e, f) (run, e, f ∙ ap some (ok_injective old x (rw (e, f) at h)))
      | inl f ↦
          let step = new_step env run_id name input key (length (list_steps run_id s)) in
          let (same_step, steps, runs) = schedule_writes env run step x s (rw (e, f) at h) in
          let own : of_key env run_id key step ≡ true =
            ground (arith, ==-refl run_id, ==-refl key) in
          rw (e, f)
            (
              run,
              rw runs e,
              rw steps (rw same_step (first-append (of_key env run_id key) s.steps step f own)),
            )
    ]
  ]

  -- If a step was added under a key, or found there, then adding a step of the run under the same
  -- key, at any time and with whatever name and input, returns that step and changes nothing.
  pub add_step_twice :
      (later : Env) (name' : String) (input' : StepInput)
      → (add_step env run_id name input key s).0 ≡ ok x
      → add_step later run_id name' input' key (add_step env run_id name input key s).1
        ≡ (ok x, (add_step env run_id name input key s).1)
  add_step_twice later name' input' h =
      let (run, e, f) = add_step_leaves h in
      found_again later run_id key name' input' run x (add_step env run_id name input key s).1 e f
