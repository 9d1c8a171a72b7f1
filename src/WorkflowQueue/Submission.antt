-- ===== src/WorkflowQueue/Submission.antt =====
-- Submitting a run twice: one job for each run.
use mathlib.Core.Path.{subst}
use sacm_agent_runtime.Base.{
  ==-refl, Bool, Bool-cases, Key, List, Option, Option-cases, [], arith, false, first, get, inl,
  inr, none, ok, refl, some, sym, true, update, ℕ, ◌++◌, ◌==◌, ◌∷◌, ◌≡◌,
}
use sacm_agent_runtime.Model.{Env, Run, Store, WorkflowJob, is_final, put_job, run_key}
use sacm_agent_runtime.RunService.Transitions.{record_metric, require}
use sacm_agent_runtime.WorkflowQueue.{
  enqueue, for_run, get_for_run, is_open, new_job, requeued, submit,
}

module _ (p : WorkflowJob → Bool) (y : WorkflowJob) where
  first-put :
      (js : List WorkflowJob) (x : WorkflowJob)
      → first p js ≡ some x
      → x.id ≡ y.id
      → p y ≡ true
      → first p (update (λ j. j.id == y.id) (λ _. y) js) ≡ some y
  first-put [] x h e k = cc
  first-put (j ∷ js) x h e k = ground (arith, first-put js x)

  first_at_end :
      (js : List WorkflowJob) → first p js ≡ none → p y ≡ true → first p (js ++ y ∷ []) ≡ some y
  first_at_end [] h k = ground arith
  first_at_end (j ∷ js) h k = ground (arith, first_at_end js)

  first-satisfies : (js : List WorkflowJob) → first p js ≡ some y → p y ≡ true
  first-satisfies [] h = cc
  first-satisfies (j ∷ js) h = ground (arith, first-satisfies js)

job_of-ok : (x y : WorkflowJob) → ok x ≡ ok y → x ≡ y
job_of-ok x y h = cc

submitted_again :
    (env : Env) (run_id : Key) (m : ℕ) (run : Run) (j : WorkflowJob) (s : Store)
    → get run_key run_id s.runs ≡ some run
    → is_final run.status ≡ false
    → first (for_run run_id) s.workflow_jobs ≡ some j
    → is_open env j.state ≡ true
    → submit env run_id m s ≡ (ok j, s)
unfolding submit require get_for_run
submitted_again env run_id m run j s e f found o = rw (e, f, found, o) refl

module _ (env : Env) (run_id : Key) (m : ℕ) (s : Store) where
  -- an open job that is the run's, in a database with the same runs
  abbrev IsSubmitted : WorkflowJob → Store → Type 0
  IsSubmitted j s' =
      (is_open env j.state ≡ true)
      × (first (for_run run_id) s'.workflow_jobs ≡ some j)
      × (s'.runs ≡ s.runs)

  enqueue-IsSubmitted :
      (o : Option WorkflowJob) (j : WorkflowJob)
      → first (for_run run_id) s.workflow_jobs ≡ o
      → (enqueue env run_id m o s).0 ≡ ok j
      → IsSubmitted j (enqueue env run_id m o s).1
  unfolding record_metric
  enqueue-IsSubmitted none j e h =
      let job = new_job env run_id m in
      subst (λ x. IsSubmitted x (enqueue env run_id m none s).1) (job_of-ok job j h)
        (refl, first_at_end (for_run run_id) job s.workflow_jobs e (==-refl run_id), refl)
  enqueue-IsSubmitted (some k) j e h = elim (Bool-cases (is_open env k.state)) [
    | inl o ↦
        let same_job : k ≡ j = job_of-ok k j (rw o at h) in
        rw o (subst (λ x. IsSubmitted x s) same_job (o, e, refl))
    | inr o ↦
        let same_job : requeued env k ≡ j = job_of-ok (requeued env k) j (rw o at h) in
        let own : for_run run_id (requeued env k) ≡ true =
          first-satisfies (for_run run_id) k s.workflow_jobs e in
        rw o (
          subst (λ x. IsSubmitted x (put_job (requeued env k) s)) same_job
            (refl, first-put (for_run run_id) (requeued env k) s.workflow_jobs k e refl own, refl))
  ]

  -- If a run was submitted, then the job that is returned is QUEUED or RUNNING, and submitting the
  -- run again before anything else changes, at any time and with whatever number of attempts
  -- configured, returns the same job and changes nothing.
  pub submit_twice :
      (later : Env) (m' : ℕ) (j : WorkflowJob)
      → (submit env run_id m s).0 ≡ ok j
      → (is_open env j.state ≡ true)
        × (submit later run_id m' (submit env run_id m s).1 ≡ (ok j, (submit env run_id m s).1))
  unfolding submit require get_for_run
  submit_twice later m' j h = elim (Option-cases (get run_key run_id s.runs)) [
    | inl e ↦ ground arith
    | inr (run, e) ↦ elim (Bool-cases (is_final run.status)) [
      | inl f ↦ ground arith
      | inr f ↦
          let (open_job, found, runs) =
            enqueue-IsSubmitted (first (for_run run_id) s.workflow_jobs) j refl (rw (e, f) at h) in
          let now : submit env run_id m s
              ≡ enqueue env run_id m (first (for_run run_id) s.workflow_jobs) s =
            rw (e, f) refl in
          let left : Store = (enqueue env run_id m (first (for_run run_id) s.workflow_jobs) s).1 in
          (
            open_job,
            subst (λ r. submit later run_id m' r.1 ≡ (ok j, r.1)) (sym now)
                (submitted_again later run_id m' run j left (rw runs e) f found open_job),
          )
    ]
  ]
