-- ===== src/RecoveryService/Repeated.antt =====
-- A patch that has failed for a root cause, and comes back.
use mathlib.Core.Path.{subst}
use sacm_agent_runtime.Base.{
  ==-refl, Key, List, Option, String, [], arith, err, get, inl, inr, ok, refl, some, sym, true, ℕ,
  ◌++◌, ◌∙◌, ◌∷◌, ◌≡◌, ◌≤◌, ap,
}
use sacm_agent_runtime.Model.{
  Env, FailureReport, HistoryItem, RecoveryAction, RecoveryDecision, Run, RunStatus, RunStep, Store,
  escalated, run_key, step_is_failed,
}
use sacm_agent_runtime.RunService.Transitions.{get_step}
use sacm_agent_runtime.RunService.Recovery.{history_of}
use sacm_agent_runtime.RunService.Recovered.{escalates}
use sacm_agent_runtime.RecoveryService.{decide, handle}
use sacm_agent_runtime.RecoveryService.Decision.{Settings, decide_for_attempt, one, same_patch}
use sacm_agent_runtime.RecoveryService.Handled.{handle-cases, handled}
use sacm_agent_runtime.RecoveryService.Bounded.{decide_for_attempt_iff, repeated_escalates}

append_assoc :
    (xs : List HistoryItem) (y : HistoryItem) (zs : List HistoryItem)
    → (xs ++ y ∷ []) ++ zs ≡ xs ++ y ∷ zs
append_assoc [] y zs = refl
append_assoc (x ∷ xs) y zs = ap (λ ws. x ∷ ws) (append_assoc xs y zs)

-- After a failure is handled, its patch and root cause are in the history of the run.
remembered :
    (env : Env) (settings : Settings) (diagnose : String → FailureReport) (run_id step_id : Key)
    (failure : String) (requested : Option RecoveryAction) (s : Store)
    (result : RunStep × FailureReport × RecoveryDecision) (run : Run) (fingerprint patch : Key)
    → (handle env settings diagnose run_id step_id failure requested s).0 ≡ ok result
    → get run_key run_id (handle env settings diagnose run_id step_id failure requested s).1.runs
      ≡ some run
    → (diagnose failure).diagnosis_fingerprint ≡ some fingerprint
    → (diagnose failure).patch_hash ≡ some patch
    → (old : List HistoryItem) × (item : HistoryItem) × (history_of run.recovery_state
        ≡ old ++ item ∷ [])
      × (same_patch fingerprint patch item ≡ true)
remembered env settings diagnose run_id step_id failure requested s result run fingerprint patch e r
      fp p =
    elim (handle-cases env settings diagnose run_id step_id failure requested s) [
      | inl (x, raised) ↦ let refused : err x ≡ ok result = rw raised at e in cc
      | inr (run0, step0, d0, _, _, w) ↦
          let same_row : w.run' ≡ run = cc (w.row, r) in
          (
            history_of run0.recovery_state,
            record {
              attempt = d0.attempt;
              step_id = step0.id;
              failure = diagnose failure;
              decision = d0;
              recorded_at = env.now;
            },
            ap (λ (x : Run). history_of x.recovery_state) (sym same_row) ∙ w.recovered.history,
            rw (fp, p) (ground (arith, ==-refl fingerprint, ==-refl patch)),
          )
    ]

-- A failure has been handled, whose report has a patch and a root cause. Later the same run, with
-- what was added to its history and nothing taken away, has a step that has failed with the same
-- patch and root cause. Then, with valid settings and whatever is asked for, `handle` returns, its
-- decision is an escalation, and the row of the run is FAILED.
pub same_patch_escalates :
    (env : Env) (settings : Settings) (diagnose : String → FailureReport) (run_id step_id : Key)
    (failure : String) (requested : Option RecoveryAction) (s : Store)
    (result : RunStep × FailureReport × RecoveryDecision) (run1 : Run) (later : Env) (m minimum : ℕ)
    (diagnose' : String → FailureReport) (step_id' : Key) (failure' : String)
    (requested' : Option RecoveryAction) (s' : Store) (run : Run) (step : RunStep)
    (more : List HistoryItem) (fingerprint patch : Key)
    → (handle env settings diagnose run_id step_id failure requested s).0 ≡ ok result
    → get run_key run_id (handle env settings diagnose run_id step_id failure requested s).1.runs
      ≡ some run1
    → (diagnose failure).diagnosis_fingerprint ≡ some fingerprint
    → (diagnose failure).patch_hash ≡ some patch
    → get run_key run_id s'.runs ≡ some run
    → history_of run.recovery_state ≡ history_of run1.recovery_state ++ more
    → get_step run_id step_id' s' ≡ some step
    → step_is_failed step.status ≡ true
    → (diagnose' failure').diagnosis_fingerprint ≡ some fingerprint
    → (diagnose' failure').patch_hash ≡ some patch
    → minimum ≤ one
    → let (result', after) =
        handle later
          (record { max_attempts = some m; minimum_confidence = minimum })
          diagnose'
          run_id
          step_id'
          failure'
          requested'
          s' in
      (step' : RunStep) × (d : RecoveryDecision) × (run' : Run) × (result'
        ≡ ok (step', diagnose' failure', d))
      × (d.status ≡ escalated)
      × (get run_key run_id after.runs ≡ some run')
      × (run'.status ≡ RunStatus.failed)
unfolding decide
same_patch_escalates env settings diagnose run_id step_id failure requested s result run1 later m
      minimum diagnose' step_id' failure' requested' s' run step more fingerprint patch e r fp p f
      kept g failed fp' p' valid =
    let settings' : Settings = record { max_attempts = some m; minimum_confidence = minimum } in
    let report : FailureReport = diagnose' failure' in
    let count : ℕ = run.recovery_attempt_count in
    let (old, item, history, same_failure) =
      remembered env settings diagnose run_id step_id failure requested s result run1 fingerprint
        patch e r fp p in
    let grown : history_of run.recovery_state ≡ old ++ item ∷ more =
      kept ∙ ap (λ h. h ++ more) history ∙ append_assoc old item more in
    let (d, decided, _, _, _) =
      decide_for_attempt_iff m minimum report count (history_of run.recovery_state) requested'
        valid in
    let v =
      handled later settings' diagnose' run_id step_id' failure' requested' s' run step d f g failed
        decided in
    let ended : d.status ≡ escalated =
      repeated_escalates settings' report fingerprint patch old more item count requested' d fp' p'
        same_failure
        (subst (λ h. decide_for_attempt settings' report count h requested' ≡ ok d) grown
          decided) in
    let escalation : escalates d ≡ true = rw (escalates, ended) refl in
    (v.step', d, v.run', v.result, ended, v.row, v.recovered.status ∙ rw escalation refl)
