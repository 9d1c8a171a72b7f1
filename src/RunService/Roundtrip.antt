-- ===== src/RunService/Roundtrip.antt =====
-- A snapshot that is restored is what was captured.
use mathlib.Core.Path.{subst}
use sacm_agent_runtime.Base.{
  ==-refl, All, Bool-cases, Key, List, String, [], any, ap, arith, every, false, first, get,
  get-key, get-put, inl, inr, ok, refl, select, some, sym, true, update, ◌==◌, ◌∙◌, ◌∷◌, ◌≡◌,
}
use sacm_agent_runtime.Model.{
  Env, Run, RunSnapshot, RunStep, StepCapture, Store, is_closed, is_failed, run_key,
}
use sacm_agent_runtime.RunService.Snapshots.{capture_run}
use sacm_agent_runtime.RunService.Restore.{
  check_restorable, find_item, restore, restored_run, restored_step, same_run_state,
  snapshot_of_run, steps_of, validate, write_back,
}
use sacm_agent_runtime.RunService.Restored.{restore-IsRestorable, restore_rows-ok, same_text-path}

-- What a step has of the item that was captured under its id.
pub record IsRestoredFrom (items : List StepCapture) (y : RunStep) : Type 0 where
  pub item : StepCapture
  pub captured : find_item y.id items ≡ some item
  pub status : y.status ≡ item.status
  pub input : y.input ≡ item.input
  pub output : y.output ≡ item.output
  pub retry_count : y.retry_count ≡ item.retry_count
  pub started_at : y.started_at ≡ item.started_at
  pub completed_at : y.completed_at ≡ item.completed_at

find_item_there :
    (k : Key) (items : List StepCapture)
    → any (λ (i : StepCapture). i.id == k) items ≡ true
    → (i : StepCapture) × (find_item k items ≡ some i)
find_item_there k [] h = cc
find_item_there k (i ∷ items) h = elim (Bool-cases (i.id == k)) [
  | inl e ↦ (i, rw e refl)
  | inr e ↦ let (j, f) = find_item_there k items (ground arith) in (j, rw e f)
]

module _ (env : Env) (run_id : Key) (items : List StepCapture) where
  restored_step-IsRestoredFrom :
      (y : RunStep)
      → any (λ (i : StepCapture). i.id == y.id) items ≡ true
      → IsRestoredFrom items (restored_step env items y)
  restored_step-IsRestoredFrom y h =
      let (i, f) = find_item_there y.id items h in
      rw (restored_step, f)
        (record {
          item = i;
          captured = f;
          status = refl;
          input = refl;
          output = refl;
          retry_count = refl;
          started_at = refl;
          completed_at = refl;
        })

  -- each step of the run, once all are restored
  abbrev pub AllRestored : List RunStep → Type 0
  AllRestored = All (λ y. (y.run_id == run_id) ≡ true → IsRestoredFrom items y)

  steps_restored :
      (ys : List RunStep)
      → every
          (λ (y : RunStep). any (λ (i : StepCapture). i.id == y.id) items)
          (select (λ y. y.run_id == run_id) ys)
        ≡ true
      → AllRestored (update (λ y. y.run_id == run_id) (restored_step env items) ys)
  steps_restored [] h = tt
  steps_restored (y ∷ ys) h = elim (Bool-cases (y.run_id == run_id)) [
    | inl o ↦
        rw o
          ((λ _. restored_step-IsRestoredFrom y (ground arith)), steps_restored ys (ground arith))
    | inr o ↦ rw o ((λ own. cc (rw o at own)), steps_restored ys (ground arith))
  ]

module _ (env : Env) (run : Run) (x : RunSnapshot) (s : Store) where
  validate-same_run_state :
      validate env run x s.events ≡ ok tt → same_run_state env run x.content.run_state ≡ true
  unfolding validate
  validate-same_run_state h = ground arith

  captured_again :
      same_run_state env run x.content.run_state ≡ true
      → capture_run (restored_run env x.content.run_state run)
        ≡ record x.content.run_state { target_repo_path = run.target_repo_path }
  captured_again h =
      let state = x.content.run_state in
      let same_run : state.run_id ≡ run.id = ground arith in
      let same_task : state.task_id ≡ run.task_id = ground arith in
      let same_source : state.source_revision ≡ run.source_revision =
        same_text-path state.source_revision run.source_revision (ground arith) in
      cc

  fits-every :
      check_restorable env run x (steps_of env run.id s) ≡ ok tt
      → (is_failed run.status ≡ true)
        × (is_closed x.content.run_state.status ≡ false)
        × (every
              (λ (y : RunStep). any (λ (i : StepCapture). i.id == y.id) x.content.step_state)
              (steps_of env run.id s)
            ≡ true)
  fits-every h = ground arith

written_run :
    (env : Env) (run : Run) (x : RunSnapshot) (s : Store) (run_id : Key)
    → run.id ≡ run_id
    → get run_key run_id s.runs ≡ some run
    → get run_key run_id (write_back env run x s).runs
      ≡ some (restored_run env x.content.run_state run)
written_run env run x s run_id own h =
    get-put run_key (restored_run env x.content.run_state run) run_id s.runs
    ∙ rw (h, own, ==-refl run_id) refl

-- If `restore` returns, in any database, then the run was FAILED and the snapshot was taken while
-- the run was not closed. The run that is returned is its row now, and captured as `create`
-- captures it, it is the state that the snapshot holds, but for the path of the repository, which
-- a restore leaves alone. And each step of the run has the status, input, output, retries and
-- times that the snapshot holds under its id.
pub restore_roundtrip :
    (env : Env) (run_id snapshot_id : Key) (reason : String) (s : Store) (run' : Run)
    (ids : List Key)
    → (restore env run_id snapshot_id reason s).0 ≡ ok (run', ids)
    → (run : Run) × (x : RunSnapshot) × (get run_key run_id s.runs ≡ some run)
      × (first (snapshot_of_run run_id snapshot_id) s.snapshots ≡ some x)
      × (is_failed run.status ≡ true)
      × (is_closed x.content.run_state.status ≡ false)
      × (get run_key run_id (restore env run_id snapshot_id reason s).1.runs ≡ some run')
      × (capture_run run' ≡ record x.content.run_state { target_repo_path = run.target_repo_path })
      × AllRestored env run_id x.content.step_state
          (restore env run_id snapshot_id reason s).1.steps
restore_roundtrip env run_id snapshot_id reason s run' ids e =
    let (run, (x, w)) = restore-IsRestorable env run_id snapshot_id reason s (run', ids) e in
    let own : run.id ≡ run_id = get-key run_key run_id s.runs run w.run_row in
    let (same_result, rows, steps) =
      restore_rows-ok env run x reason s (run', ids) (ap (λ r. r.0) (sym w.result) ∙ e) in
    let (was_failed, was_open, there) = fits-every env run x s w.fits in
    let same_run : run' ≡ restored_run env x.content.run_state run = ap (λ p. p.0) same_result in
    let left = ap (λ r. r.1.steps) w.result ∙ steps in
    let left_runs = ap (λ r. r.1.runs) w.result ∙ rows in
    (
      run,
      x,
      w.run_row,
      w.snapshot_row,
      was_failed,
      was_open,
      rw left_runs (written_run env run x s run_id own w.run_row ∙ ap some (sym same_run)),
      ap capture_run same_run
          ∙ captured_again env run x s (validate-same_run_state env run x s w.valid),
      rw left (
          subst
            (λ k.
              AllRestored env k x.content.step_state
                (update (λ y. y.run_id == run.id) (restored_step env x.content.step_state) s.steps))
            own (steps_restored env run.id x.content.step_state s.steps there)),
    )
