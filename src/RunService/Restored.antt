-- ===== src/RunService/Restored.antt =====
-- A restore that ends well: its checks have passed, and which rows it has written.
use text.Mathlib.TextEquality.{eq_iff}
use sacm_agent_runtime.Base.{
  Error, Exec, Key, List, Option, Option-cases, Result, String, and_then, ap, arith, err, first,
  get, inl, inr, kept_when_ok, none, ok, refl, run_not_found, snapshot_not_found, some, sym, true,
  ◌>>=◌, ◌∙◌, ◌≡◌,
}
use sacm_agent_runtime.Model.{
  CheckpointReason, Env, Run, RunSnapshot, Store, restored, run_key, snapshot_restored,
}
use sacm_agent_runtime.RunService.Transitions.{require}
use sacm_agent_runtime.RunService.Restore.{
  check_restorable, lift, or_raise, require_snapshot, restore, restore_found, restore_rows,
  restored_ids, restored_run, same_text, snapshot_of_run, steps_of, validate, write_back,
}
use sacm_agent_runtime.RunService.Events.{append_event}
use sacm_agent_runtime.RunService.Snapshots.{create_snapshot}

pub same_text-path : (a b : Option String) → same_text a b ≡ true → a ≡ b
same_text-path none none h = refl
same_text-path (some a) (some b) h = ap some ((eq_iff a b).0 h)
same_text-path none (some b) h = cc
same_text-path (some a) none h = cc

-- A call that ends well after its checks ends as what follows them.
checked-ok :
    {A : Type 0} (env : Env) (m : Exec Store A) (v c : Result (Unit {0})) (s : Store) (p : A)
    → (and_then (λ _. m) (and_then (λ _. lift env c) (v, s))).0 ≡ ok p
    → (v ≡ ok tt) × (c ≡ ok tt) × (and_then (λ _. m) (and_then (λ _. lift env c) (v, s)) ≡ m s)
checked-ok env m (err x) c s p e = cc
checked-ok env m (ok _) (err x) s p e = cc
checked-ok env m (ok _) (ok _) s p e = (refl, refl, refl)

-- A row that is required is there when the call ends well.
or_raise-ok :
    {A B : Type 0} (x : Error) (o : Option A) (f : A → Exec Store B) (s : Store) (b : B)
    → (and_then f (or_raise x o s)).0 ≡ ok b
    → (a : A) × (o ≡ some a) × (and_then f (or_raise x o s) ≡ f a s)
or_raise-ok x none f s b e = cc
or_raise-ok x (some a) f s b e = (a, refl, refl)

module _ (env : Env) (run_id snapshot_id : Key) (reason : String) (s : Store) where
  -- the run and the snapshot that a restore has found fit, and how the call ends
  pub record IsRestorable (run : Run) (x : RunSnapshot) : Type 0 where
    pub run_row : get run_key run_id s.runs ≡ some run
    pub snapshot_row : first (snapshot_of_run run_id snapshot_id) s.snapshots ≡ some x
    pub valid : validate env run x s.events ≡ ok tt
    pub fits : check_restorable env run x (steps_of env run.id s) ≡ ok tt
    pub result : restore env run_id snapshot_id reason s ≡ restore_rows env run x reason s

  require-ok :
      {B : Type 0} (f : Run → Exec Store B) (b : B)
      → (and_then f (require run_id s)).0 ≡ ok b
      → (run : Run) × (get run_key run_id s.runs ≡ some run)
        × (and_then f (require run_id s) ≡ f run s)
  unfolding require
  require-ok f b e = elim (Option-cases (get run_key run_id s.runs)) [
    | inl g ↦ let missing : err run_not_found ≡ ok b = rw g at e in cc
    | inr (run, g) ↦ (run, g, rw g refl)
  ]

  restore_found-ok :
      (run : Run) (x : RunSnapshot) (p : Run × List Key)
      → (restore_found env run x reason s).0 ≡ ok p
      → (validate env run x s.events ≡ ok tt)
        × (check_restorable env run x (steps_of env run.id s) ≡ ok tt)
        × (restore_found env run x reason s ≡ restore_rows env run x reason s)
  unfolding restore_found
  restore_found-ok run x p e =
      checked-ok env (restore_rows env run x reason) (validate env run x s.events)
        (check_restorable env run x (steps_of env run.id s)) s p e

  pub restore-IsRestorable :
      (p : Run × List Key)
      → (restore env run_id snapshot_id reason s).0 ≡ ok p
      → (run : Run) × ((x : RunSnapshot) × IsRestorable run x)
  unfolding restore
  restore-IsRestorable p e =
      let (run, f, after_run) =
        require-ok
          (λ run. require_snapshot run_id snapshot_id >>= (λ x. restore_found env run x reason)) p
          e in
      let (x, g, after_snapshot) =
        or_raise-ok snapshot_not_found (first (snapshot_of_run run_id snapshot_id) s.snapshots)
          (λ x. restore_found env run x reason) s p (ap (λ r. r.0) (sym after_run) ∙ e) in
      let result = after_run ∙ after_snapshot in
      let (v, c, rows) = restore_found-ok run x p (ap (λ r. r.0) (sym result) ∙ e) in
      (
        run,
        (x, record { run_row = f; snapshot_row = g; valid = v; fits = c; result = result ∙ rows }),
      )

create_snapshot_frame :
    (env : Env) (run_id : Key) (reason : CheckpointReason) (s : Store)
    → (rows : List RunSnapshot) × ((create_snapshot env run_id reason s).1
        ≡ record s { snapshots = rows })
unfolding create_snapshot
create_snapshot_frame env run_id reason s =
    ((create_snapshot env run_id reason s).1.snapshots, ground arith)

module _ (env : Env) (run : Run) (x : RunSnapshot) (reason : String) (s : Store) where
  pub restore_rows-ok :
      (p : Run × List Key)
      → (restore_rows env run x reason s).0 ≡ ok p
      → (p ≡ (restored_run env x.content.run_state run, restored_ids env x))
        × ((restore_rows env run x reason s).1.runs ≡ (write_back env run x s).runs)
        × ((restore_rows env run x reason s).1.steps ≡ (write_back env run x s).steps)
  unfolding restore_rows append_event
  restore_rows-ok p e =
      let run' = restored_run env x.content.run_state run in
      let s1 : Store =
        append_event env run' "SnapshotRestored" "user"
          (restored x.id x.checksum reason run'.status (restored_ids env x)) none
          (write_back env run x s) in
      let c = create_snapshot env run.id (snapshot_restored x.id) s1 in
      let (same_result, same_store) = kept_when_ok s c (run', restored_ids env x) p e in
      let (rows, frame) = create_snapshot_frame env run.id (snapshot_restored x.id) s1 in
      let left = same_store ∙ frame in
      (same_result, ap (λ (y : Store). y.runs) left, ap (λ (y : Store). y.steps) left)
