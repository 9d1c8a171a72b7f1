-- ===== src/ExecutionPlane/Scheduled.antt =====
-- What `schedule` does to the jobs.
use sacm_agent_runtime.Base.{
  Bool-cases, Exec, IsKeyed-append, Keeps, List, Option, Option-cases, Result, and_then,
  atomic_result, err, execution_conflict, first, get, if◌then◌else◌, inl, inr, keeps_rules, modify,
  none, ok, pure, raise, refl, some, ◌==◌, ◌>>◌, ◌≡◌,
}
use sacm_agent_runtime.Model.{
  Env, ExecutionJob, Run, Store, execution_job_queued, execution_key, execution_queued,
}
use sacm_agent_runtime.RunService.Events.{append_event}
use sacm_agent_runtime.RunService.Snapshots.{checkpoint}
use sacm_agent_runtime.RunService.Transitions.{require, require_step}
use sacm_agent_runtime.RunService.Frame.{
  IsApart, append_event-Keeps, checkpoint-Keeps, require-Keeps, require_step-Keeps,
}
use sacm_agent_runtime.ExecutionPlane.Jobs.{added}
use sacm_agent_runtime.ExecutionPlane.Evolution.{IsEvolved, execution_jobs-IsApart}
use sacm_agent_runtime.ExecutionPlane.Scheduling.{
  JobRequest, JobScope, add_job, names_step, of_request, save_job, schedule_for, schedule_in,
  schedule_job, scheduled_job, scope_in,
}

module _ {A B : Type 0} (P Q : Store → Type 0) (weaken : (s : Store) → P s → Q s) where
  pub and_then_ends :
      (f : A → Exec Store B) (r : Result A × Store)
      → ((a : A) (s : Store) → P s → Q (f a s).1)
      → P r.1
      → Q (and_then f r).1
  and_then_ends f (ok a, s) k h = k a s h
  and_then_ends f (err x, s) k h = weaken s h

module _ (from : List ExecutionJob) (env : Env) where
  -- evolved jobs, none of which has the fresh id
  abbrev pub IsReady : Store → Type 0
  IsReady s = IsEvolved from s × (get execution_key env.fresh s.execution_jobs ≡ none)

  IsReady-IsApart : IsApart IsReady
  IsReady-IsApart = record {
    runs = λ s rows h. h;
    steps = λ s rows h. h;
    events = λ s rows h. h;
    snapshots = λ s rows h. h;
  }

  logged-Keeps :
      (run : Run) (job : ExecutionJob)
      → Keeps (IsEvolved from) (
          modify (
            append_event env run "ExecutionJobQueued" "control-plane"
              (execution_queued job.id job.payload_hash job.required_capabilities)
              (some job.run_step_id))
          >> (checkpoint env run (execution_job_queued job.id) >> pure job))
  logged-Keeps run job =
      search (keeps_rules, append_event-Keeps, checkpoint-Keeps, execution_jobs-IsApart) depth 9

  save_job-IsEvolved :
      (run : Run) (scope : JobScope) (request : JobRequest) (s : Store)
      → IsReady s
      → IsEvolved from (save_job env run (scheduled_job env scope request) s).1
  save_job-IsEvolved run scope request s ((u, d), gone) =
      let job = scheduled_job env scope request in
      atomic_result (IsEvolved from) s _ (u, d)
        ((logged-Keeps run job).at (add_job env job s)
          (IsKeyed-append execution_key s.execution_jobs job gone u, added job d refl))

  schedule_in-IsEvolved :
      (run : Run) (request : JobRequest) (o : Option JobScope) (s : Store)
      → IsReady s
      → IsEvolved from (schedule_in env run request o s).1
  schedule_in-IsEvolved run request none s h = h.0
  schedule_in-IsEvolved run request (some scope) s h =
      elim (Option-cases (first (of_request scope request.idempotency_key) s.execution_jobs)) [
        | inl f ↦ rw f (save_job-IsEvolved run scope request s h)
        | inr (job, f) ↦ elim (Bool-cases (job.payload_hash == request.task.digest)) [
          | inl p ↦ rw (f, p) h.0
          | inr p ↦ rw (f, p) h.0
        ]
      ]

  schedule_for-IsEvolved :
      (request : JobRequest) (run : Run) (s : Store)
      → IsReady s
      → IsEvolved from
          ((if names_step env request
              then schedule_for env request run
              else raise execution_conflict)
            s).1
  schedule_for-IsEvolved request run s h = elim (Bool-cases (names_step env request)) [
    | inl n ↦
        rw n (schedule_in-IsEvolved run request (scope_in s.projects request run.project_id) s h)
    | inr n ↦ rw n h.0
  ]

  pub schedule-IsEvolved :
      (request : JobRequest) (s : Store)
      → IsEvolved from s
      → get execution_key env.fresh s.execution_jobs ≡ none
      → IsEvolved from (schedule_job env request s).1
  unfolding schedule_job
  schedule-IsEvolved request s h gone =
      and_then_ends IsReady (IsEvolved from) (λ _ k. k.0) _ (require request.run_id s)
        (λ run s' k.
          and_then_ends IsReady (IsEvolved from) (λ _ l. l.0) _
            (require_step request.run_id request.run_step_id s')
            (λ step s'' l. schedule_for-IsEvolved request run s'' l)
            ((require_step-Keeps env IsReady IsReady-IsApart request.run_id request.run_step_id).at
              s' k))
        ((require-Keeps env IsReady IsReady-IsApart request.run_id).at s (h, gone))
