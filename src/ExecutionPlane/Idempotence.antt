-- ===== src/ExecutionPlane/Idempotence.antt =====
-- An idempotency key names one job in its scope.
use mathlib.Core.Path.{subst}
use sacm_agent_runtime.Base.{
  ==-refl, Bool, Bool-cases, Key, List, Option, Option-cases, Result, [], ap, arith, err,
  execution_conflict, first, get, inl, inr, kept_when_ok, none, ok, project_not_found, refl,
  run_not_found, same_refl, some, step_not_found, sym, true, ◌++◌, ◌==◌, ◌∙◌, ◌∷◌, ◌≡◌,
}
use sacm_agent_runtime.Model.{
  Env, ExecutionJob, Run, RunStep, Store, execution_job_queued, execution_queued, run_key,
}
use sacm_agent_runtime.RunService.Transitions.{get_step, require, require_step, step_of}
use sacm_agent_runtime.ExecutionPlane.Scheduling.{
  JobRequest, JobScope, add_job, names_step, of_request, reuse_job, save_job, schedule_job,
  scheduled_job, scope_in,
}
use sacm_agent_runtime.RunService.Events.{append_event}
use sacm_agent_runtime.RunService.Snapshots.{checkpoint}
use sacm_agent_runtime.RunService.Saving.{checkpoint_frame}

-- The run, its step and its scope are there, and the task names the step.
record IsSchedulable (request : JobRequest) (run : Run) (scope : JobScope) (s : Store)
    : Type 0 where
  run_row : get run_key request.run_id s.runs ≡ some run
  step : RunStep
  step_row : get_step request.run_id request.run_step_id s ≡ some step
  named : (env : Env) → names_step env request ≡ true
  scope_row : scope_in s.projects request run.project_id ≡ some scope

module _ (env : Env) (request : JobRequest) (s : Store) where
  -- what `schedule` does once all is found
  abbrev settle_request : Run → JobScope → Result ExecutionJob × Store
  settle_request run scope =
      reuse_job env run request scope
        (first (of_request scope request.idempotency_key) s.execution_jobs) s

  schedule_runs :
      (run : Run) (scope : JobScope)
      → IsSchedulable request run scope s
      → schedule_job env request s ≡ settle_request run scope
  unfolding schedule_job require require_step
  schedule_runs run scope w = rw (w.run_row, w.step_row, w.named env, w.scope_row) refl

  schedule-IsSchedulable :
      (job : ExecutionJob)
      → (schedule_job env request s).0 ≡ ok job
      → (run : Run) × ((scope : JobScope) × IsSchedulable request run scope s)
  unfolding schedule_job require require_step
  schedule-IsSchedulable job e = elim (Option-cases (get run_key request.run_id s.runs)) [
    | inl f ↦ let missing : err run_not_found ≡ ok job = rw f at e in cc
    | inr (run, f) ↦ elim (Option-cases (get_step request.run_id request.run_step_id s)) [
      | inl g ↦ let missing : err step_not_found ≡ ok job = rw (f, g) at e in cc
      | inr (step, g) ↦ elim (Bool-cases (names_step env request)) [
        | inr n ↦ let refused : err execution_conflict ≡ ok job = rw (f, g, n) at e in cc
        | inl n ↦ elim (Option-cases (scope_in s.projects request run.project_id)) [
          | inl o ↦ let missing : err project_not_found ≡ ok job = rw (f, g, n, o) at e in cc
          | inr (scope, o) ↦ (
            run,
            (
              scope,
              record { run_row = f; step = step; step_row = g; named = λ _. n; scope_row = o },
            ),
          )
        ]
      ]
    ]
  ]

first_at_end :
    (p : ExecutionJob → Bool) (js : List ExecutionJob) (j : ExecutionJob)
    → first p js ≡ none
    → p j ≡ true
    → first p (js ++ j ∷ []) ≡ some j
first_at_end p [] j h k = ground arith
first_at_end p (i ∷ js) j h k = ground (arith, first_at_end p js j)

-- The job is what the key names, and what `schedule` reads besides is as it was.
record IsNamed (request : JobRequest) (scope : JobScope) (job : ExecutionJob) (s s' : Store)
    : Type 0 where
  row : first (of_request scope request.idempotency_key) s'.execution_jobs ≡ some job
  payload : (job.payload_hash == request.task.digest) ≡ true
  same_runs : s'.runs ≡ s.runs
  same_steps : s'.steps ≡ s.steps
  same_projects : s'.projects ≡ s.projects

module _ (env : Env) (request : JobRequest) (run : Run) (scope : JobScope) (s : Store) where
  new_job_named :
      (env' : Env)
      → of_request scope request.idempotency_key (scheduled_job env scope request) ≡ true
  new_job_named env' = ground (
    arith,
    same_refl scope.project_id,
    same_refl scope.customer_deployment_id,
    ==-refl request.idempotency_key,
  )

  save_job-IsNamed :
      (job : ExecutionJob)
      → first (of_request scope request.idempotency_key) s.execution_jobs ≡ none
      → (save_job env run (scheduled_job env scope request) s).0 ≡ ok job
      → IsNamed request scope job s (save_job env run (scheduled_job env scope request) s).1
  unfolding append_event
  save_job-IsNamed job f e =
      let j = scheduled_job env scope request in
      let s1 : Store =
        append_event env run "ExecutionJobQueued" "control-plane"
          (execution_queued j.id j.payload_hash j.required_capabilities) (some j.run_step_id)
          (add_job env j s) in
      let c = checkpoint env run (execution_job_queued j.id) s1 in
      let (same_job, same_store) = kept_when_ok s c j job e in
      let (rows, frame) = checkpoint_frame env run (execution_job_queued j.id) s1 in
      let left = same_store ∙ frame in
      record {
        row =
            ap (λ (x : Store). first (of_request scope request.idempotency_key) x.execution_jobs)
              left
            ∙ first_at_end (of_request scope request.idempotency_key) s.execution_jobs j f
                (new_job_named env)
            ∙ ap some (sym same_job);
        payload =
            ap (λ (x : ExecutionJob). x.payload_hash == request.task.digest) same_job
            ∙ ==-refl request.task.digest;
        same_runs = ap (λ (x : Store). x.runs) left;
        same_steps = ap (λ (x : Store). x.steps) left;
        same_projects = ap (λ (x : Store). x.projects) left;
      }

  reuse_job-IsNamed :
      (job : ExecutionJob) (o : Option ExecutionJob)
      → first (of_request scope request.idempotency_key) s.execution_jobs ≡ o
      → (reuse_job env run request scope o s).0 ≡ ok job
      → IsNamed request scope job s (reuse_job env run request scope o s).1
  reuse_job-IsNamed job none f e = save_job-IsNamed job f e
  reuse_job-IsNamed job (some old) f e =
      elim (Bool-cases (old.payload_hash == request.task.digest)) [
        | inr p ↦ let refused : err execution_conflict ≡ ok job = rw p at e in cc
        | inl p ↦
            let returned : ok old ≡ ok job = rw p at e in
            let same_job : old ≡ job = cc in
            rw p (record {
              row = f ∙ ap some same_job;
              payload =
                  ap (λ (x : ExecutionJob). x.payload_hash == request.task.digest) (sym same_job)
                  ∙ p;
              same_runs = refl;
              same_steps = refl;
              same_projects = refl;
            })
      ]

get_step-steps :
    (run_id step_id : Key) (s s' : Store)
    → s.steps ≡ s'.steps
    → get_step run_id step_id s ≡ get_step run_id step_id s'
unfolding get_step
get_step-steps run_id step_id s s' e = ap (first (step_of run_id step_id)) e

again :
    (env : Env) (request : JobRequest) (run : Run) (scope : JobScope) (s : Store)
    (job : ExecutionJob)
    → first (of_request scope request.idempotency_key) s.execution_jobs ≡ some job
    → (job.payload_hash == request.task.digest) ≡ true
    → settle_request env request s run scope ≡ (ok job, s)
again env request run scope s job f p = rw (f, p) refl

-- If `schedule` returns a job, then calling it again with the same arguments before anything else
-- changes, at any clock and with whatever fresh id, returns the same job and changes nothing.
pub schedule_job_twice :
    (env : Env) (request : JobRequest) (s : Store) (job : ExecutionJob) (later : Env)
    → (schedule_job env request s).0 ≡ ok job
    → schedule_job later request (schedule_job env request s).1
      ≡ (ok job, (schedule_job env request s).1)
schedule_job_twice env request s job later e =
    let (run, (scope, w)) = schedule-IsSchedulable env request s job e in
    let first_call = schedule_runs env request s run scope w in
    let s' : Store = (settle_request env request s run scope).1 in
    let kept =
      reuse_job-IsNamed env request run scope s job
        (first (of_request scope request.idempotency_key) s.execution_jobs) refl
        (ap (λ r. r.0) (sym first_call) ∙ e) in
    subst (λ r. schedule_job later request r.1 ≡ (ok job, r.1)) (sym first_call)
      (schedule_runs later request s' run scope (record {
        run_row = ap (get run_key request.run_id) kept.same_runs ∙ w.run_row;
        step = w.step;
        step_row =
            get_step-steps request.run_id request.run_step_id s' s kept.same_steps ∙ w.step_row;
        named = w.named;
        scope_row = ap (λ ps. scope_in ps request run.project_id) kept.same_projects ∙ w.scope_row;
      })
        ∙ again later request run scope s' job kept.row kept.payload)
