-- ===== src/RunService/Cancellation.antt =====
-- What cancelling a run does to the run and to its jobs on executors.
use mathlib.Core.Path.{subst}
use sacm_agent_runtime.Base.{
  ==-refl, Bool, Bool-cases, Key, List, [], any, arith, every, false, get, get-key, get-put,
  if◌then◌else◌, inl, inr, none, not, ok, refl, select, some, sym, true, update, ◌&&◌, ◌==◌, ◌||◌,
  ◌∷◌, ◌≡◌,
}
use sacm_agent_runtime.Model.{
  Env, ExecutionJob, Run, RunSnapshot, RunStatus, Store, allowed_transitions, empty, is_final,
  member, put_run, run_key, same_status,
}
use sacm_agent_runtime.RunService.Transitions.{
  cancel, is_active, moved, record_metric, revoke_for_job, transition, withdraw_active,
  withdraw_all, withdrawn,
}
use sacm_agent_runtime.RunService.Events.{append_event}
use sacm_agent_runtime.RunService.Lifecycle.{applied, require_found}

-- The job is of the run, and an executor may still take or run it.
abbrev pub is_live_job : Env → Key → ExecutionJob → Bool
is_live_job env run_id j = (j.run_id == run_id) && is_active env j

put_stored :
    (k : Key) (r old : Run) (s : Store)
    → r.id ≡ k
    → get run_key k s.runs ≡ some old
    → get run_key k (put_run r s).runs ≡ some r
put_stored k r old s e h = ground (arith, get-put run_key r k s.runs)

module _ (env : Env) (run_id : Key) where
  -- Every live job of the table is in the list.
  abbrev covered : List ExecutionJob → List ExecutionJob → Bool
  covered jobs table =
      every (λ x. not (is_live_job env run_id x) || any (λ j. x.id == j.id) jobs) table

  covered-cons :
      (job : ExecutionJob) (jobs table : List ExecutionJob)
      → covered (job ∷ jobs) table ≡ true
      → covered jobs (update (λ x. x.id == job.id) (withdrawn env) table) ≡ true
  covered-cons job jobs [] h = refl
  covered-cons job jobs (x ∷ table) h = ground (arith, covered-cons job jobs table)

  covered-nil :
      (table : List ExecutionJob)
      → covered [] table ≡ true
      → any (is_live_job env run_id) table ≡ false
  covered-nil [] h = refl
  covered-nil (x ∷ table) h = ground (arith, covered-nil table)

  covered_more :
      (x : ExecutionJob) (jobs table : List ExecutionJob)
      → covered jobs table ≡ true
      → covered (x ∷ jobs) table ≡ true
  covered_more x jobs [] h = refl
  covered_more x jobs (y ∷ table) h = ground (arith, covered_more x jobs table)

  covered-select :
      (table : List ExecutionJob) → covered (select (is_live_job env run_id) table) table ≡ true
  covered-select [] = refl
  covered-select (x ∷ table) = elim (Bool-cases (is_live_job env run_id x)) [
    | inl e ↦ ground (
      arith,
      ==-refl x.id,
      covered_more x (select (is_live_job env run_id) table) table (covered-select table),
    )
    | inr e ↦ ground (arith, covered-select table)
  ]

  withdraw_all_lem :
      (jobs : List ExecutionJob) (s : Store)
      → covered jobs s.execution_jobs ≡ true
      → (any (is_live_job env run_id) (withdraw_all env jobs s).execution_jobs ≡ false)
        × ((withdraw_all env jobs s).runs ≡ s.runs)
  unfolding withdraw_all revoke_for_job
  withdraw_all_lem [] s h = (covered-nil s.execution_jobs h, refl)
  withdraw_all_lem (job ∷ jobs) s h =
      withdraw_all_lem jobs _ (covered-cons job jobs s.execution_jobs h)

  withdraw_active_lem :
      (s : Store)
      → env.execution_jobs_available ≡ true
      → (any (is_live_job env run_id) (withdraw_active env run_id s).execution_jobs ≡ false)
        × ((withdraw_active env run_id s).runs ≡ s.runs)
  unfolding withdraw_active
  withdraw_active_lem s a =
      let jobs = select (is_live_job env run_id) s.execution_jobs in
      subst
        (λ b.
          (any (is_live_job env run_id) (if b then withdraw_all env jobs s else s).execution_jobs
            ≡ false)
          × ((if b then withdraw_all env jobs s else s).runs ≡ s.runs))
        (sym a) (withdraw_all_lem jobs s (covered-select s.execution_jobs))

  transition_to_cancelled :
      (run : Run) (s : Store)
      → run.id ≡ run_id
      → get run_key run_id s.runs ≡ some run
      → is_final run.status ≡ false
      → (shots : List RunSnapshot) × (transition env run_id RunStatus.cancelled "RunCancelled"
            "user" empty none s
          ≡ (
            ok (moved env RunStatus.cancelled run),
            record (append_event env
                (moved env RunStatus.cancelled run)
                "RunCancelled"
                "user"
                empty
                none
                (put_run (moved env RunStatus.cancelled run) s)) { snapshots = shots },
          ))
  unfolding transition allowed_transitions
  transition_to_cancelled run s same_id h f =
      let own : get run_key run.id s.runs ≡ some run =
        subst (λ k. get run_key k s.runs ≡ some run) (sym same_id) h in
      let (shots, eq) =
        applied env run RunStatus.cancelled "RunCancelled" "user" empty none s own in
      let accepted : (same_status RunStatus.cancelled run.status
            || member RunStatus.cancelled (allowed_transitions run.status))
          ≡ true =
        ground arith in
      (shots, rw (require_found run_id s run h) (rw accepted eq))

  -- Where the tables of executors exist, a run that is neither COMPLETED nor CANCELLED can always be
  -- cancelled, whatever its steps and its jobs do: the call succeeds, the run is CANCELLED with its
  -- request noted and a time of completion, and no job of the run is left that an executor may take
  -- or still runs.
  pub cancel_succeeds :
      (run : Run) (s : Store)
      → env.execution_jobs_available ≡ true
      → get run_key run_id s.runs ≡ some run
      → is_final run.status ≡ false
      → let (result, s') = cancel env run_id s in
        (stopped : Run) × (result ≡ ok stopped)
        × (get run_key run_id s'.runs ≡ some stopped)
        × (stopped.status ≡ RunStatus.cancelled)
        × (stopped.cancellation_requested ≡ true)
        × (stopped.completed_at ≡ some env.now)
        × (any (is_live_job env run_id) s'.execution_jobs ≡ false)
  unfolding cancel record_metric append_event
  cancel_succeeds run s a h f =
      let (none_live, same_runs) = withdraw_active_lem s a in
      let run' : Run = record run { cancellation_requested = true } in
      let s2 : Store = put_run run' (withdraw_active env run_id s) in
      let same_id : run.id ≡ run_id = get-key run_key run_id s.runs run h in
      let stored : get run_key run_id s2.runs ≡ some run' =
        put_stored run_id run' run (withdraw_active env run_id s) same_id (rw same_runs h) in
      let (shots, eq) = transition_to_cancelled run' s2 same_id stored f in
      let moved_run = moved env RunStatus.cancelled run' in
      let written : get run_key run_id (put_run moved_run s2).runs ≡ some moved_run =
        put_stored run_id moved_run run' s2 same_id stored in
      rw (require_found run_id s run h)
        (rw f (rw eq (moved_run, refl, written, refl, refl, refl, none_live)))
