-- ===== src/RecoveryService/Handled.antt =====
-- What `handle` of sacm/core/recovery_service.py leaves behind, and what follows for the failures of
-- a run that are handled one after another.
use mathlib.Core.Path.{subst}
use sacm_agent_runtime.Base.{
  All, Bool-cases, Error, Key, List, Option, Option-cases, Result, Result-cases, String, [], arith,
  bad_step_status, err, get, if◌then◌else◌, inl, inr, none, ok, refl, run_not_found, some,
  step_not_found, true, ℕ, ◌+◌, ◌-◌, ◌∷◌, ◌≡◌, ◌≤◌, ◌⊎◌,
}
use sacm_agent_runtime.Model.{
  Env, FailureReport, RecoveryAction, RecoveryDecision, Run, RunStep, Store, run_key,
  step_is_failed,
}
use sacm_agent_runtime.RunService.Transitions.{get_step, record_metric, require, require_step}
use sacm_agent_runtime.RunService.Recovery.{history_of}
use sacm_agent_runtime.RunService.Recovered.{IsRecovered, schedule_recovery_contract}
use sacm_agent_runtime.RecoveryService.{decide, handle}
use sacm_agent_runtime.RecoveryService.Decision.{Settings, decide_for_attempt}
use sacm_agent_runtime.RecoveryService.Bounded.{
  attempt_counted, is_escalated, scheduled_one, scheduled_one-le,
}

module _ (env : Env) (settings : Settings) (diagnose : String → FailureReport)
    (run_id step_id : Key) (failure : String) (requested : Option RecoveryAction) (s : Store) where
  -- A failure that is handled: what was found, what was decided, and the row that is left.
  pub record IsHandled (run : Run) (step : RunStep) (d : RecoveryDecision) : Type 0 where
    pub run' : Run
    pub step' : RunStep
    pub result :
        (handle env settings diagnose run_id step_id failure requested s).0
        ≡ ok (step', diagnose failure, d)
    pub row :
        get run_key run_id (handle env settings diagnose run_id step_id failure requested s).1.runs
        ≡ some run'
    pub recovered : IsRecovered env run step (diagnose failure) d run' step'

  pub handled :
      (run : Run) (step : RunStep) (d : RecoveryDecision)
      → get run_key run_id s.runs ≡ some run
      → get_step run_id step_id s ≡ some step
      → step_is_failed step.status ≡ true
      → decide env settings diagnose run (diagnose failure) requested ≡ ok d
      → IsHandled run step d
  unfolding handle require require_step record_metric
  handled run step d f g failed decided =
      let (run', step', done, row, _, recovered) =
        schedule_recovery_contract env run step (diagnose failure) d run_id step_id s f g failed in
      record {
        run' = run';
        step' = step';
        result = rw (f, g, failed, decided) (ground (arith, done));
        row = rw (f, g, failed, decided) (ground (arith, done, row));
        recovered = recovered;
      }

  pub handle-cases :
      ((x : Error) × (handle env settings diagnose run_id step_id failure requested s ≡ (err x, s)))
      ⊎ ((run : Run) × (step : RunStep) × (d : RecoveryDecision) × (get run_key run_id s.runs
            ≡ some run)
          × (decide env settings diagnose run (diagnose failure) requested ≡ ok d)
          × IsHandled run step d)
  unfolding handle require require_step
  handle-cases = elim (Option-cases (get run_key run_id s.runs)) [
    | inl e ↦ inl (run_not_found, rw e refl)
    | inr (run, f) ↦ elim (Option-cases (get_step run_id step_id s)) [
      | inl e ↦ inl (step_not_found, rw (f, e) refl)
      | inr (step, g) ↦ elim (Bool-cases (step_is_failed step.status)) [
        | inr e ↦ inl (bad_step_status, rw (f, g, e) refl)
        | inl failed ↦
            elim (Result-cases (decide env settings diagnose run (diagnose failure) requested)) [
              | inr (x, e) ↦ inl (x, rw (f, g, failed, e) refl)
              | inl (d, e) ↦ inr (run, step, d, f, e, handled run step d f g failed e)
            ]
      ]
    ]
  ]

-- the attempts that are counted in the row of a run
abbrev pub attempts_of : Key → Store → ℕ
attempts_of run_id s = elim (get run_key run_id s.runs) [
  | none ↦ 0
  | some run ↦ run.recovery_attempt_count
]

attempts_of_row :
    (run_id : Key) (s : Store) (run : Run)
    → get run_key run_id s.runs ≡ some run
    → attempts_of run_id s ≡ run.recovery_attempt_count
attempts_of_row run_id s run h = rw (attempts_of, h) refl

-- A failure as `handle` meets it, and what is done to the database before.
pub record Incident : Type 0 where
  pub env : Env
  pub diagnose : String → FailureReport
  pub before : Store → Store
  pub step_id : Key
  pub failure : String
  pub requested : Option RecoveryAction

abbrev pub scheduled_by : Result (RunStep × FailureReport × RecoveryDecision) → ℕ
scheduled_by (ok (step, report, d)) = if is_escalated d.status then 0 else 1
scheduled_by (err x) = 0

-- How many recoveries are scheduled when `handle` is called for one failure after another.
unfoldable pub scheduled_in : Settings → Key → List Incident → Store → ℕ
scheduled_in settings run_id [] s = 0
scheduled_in settings run_id (i ∷ is) s =
    let (result, s') =
      handle i.env settings i.diagnose run_id i.step_id i.failure i.requested (i.before s) in
    scheduled_by result + scheduled_in settings run_id is s'

-- What happens between the failures does not lower the count.
abbrev pub AllKeepCount : Key → List Incident → Type 0
AllKeepCount run_id =
    All (λ i. (s : Store) → attempts_of run_id s ≤ attempts_of run_id (i.before s))

scheduled_by-le :
    (m minimum : ℕ) (env : Env) (diagnose : String → FailureReport) (run_id step_id : Key)
    (failure : String) (requested : Option RecoveryAction) (s : Store)
    → let settings : Settings = record { max_attempts = some m; minimum_confidence = minimum } in
      let (result, s') = handle env settings diagnose run_id step_id failure requested s in
      scheduled_by result + (m - attempts_of run_id s') ≤ m - attempts_of run_id s
unfolding decide
scheduled_by-le m minimum env diagnose run_id step_id failure requested s =
    let settings : Settings = record { max_attempts = some m; minimum_confidence = minimum } in
    elim (handle-cases env settings diagnose run_id step_id failure requested s) [
      | inl (x, e) ↦ rw e (omega arith)
      | inr (run, step, d, f, e, w) ↦
          let history = history_of run.recovery_state in
          let count : ℕ = run.recovery_attempt_count in
          let counted : d.attempt ≡ count + 1 =
            attempt_counted settings (diagnose failure) count history requested d e in
          let attempts : w.run'.recovery_attempt_count ≡ d.attempt = w.recovered.attempts in
          let decided : decide_for_attempt settings (diagnose failure) count history requested
              ≡ ok d =
            e in
          let bound : scheduled_one
                  (decide_for_attempt settings (diagnose failure) count history requested)
                + (m - (count + 1))
              ≤ m - count =
            scheduled_one-le m minimum (diagnose failure) count history requested in
          let within = subst (λ r. scheduled_one r + (m - (count + 1)) ≤ m - count) decided bound in
          rw
            (
              w.result,
              attempts_of_row run_id
                  (handle env settings diagnose run_id step_id failure requested s).1 w.run' w.row,
              attempts_of_row run_id s run f,
              attempts,
              counted,
            )
            within
    ]

-- Whatever failures of a run are handled one after another, on whatever steps, with whatever
-- diagnosis and request, and whether the calls succeed or raise: if nothing that happens to the
-- database before each call lowers the count in the row of the run, then the calls that schedule a
-- recovery are at most the configured number, less the count in the row at the start.
pub scheduled_in-le :
    (m minimum : ℕ) (run_id : Key) (incidents : List Incident) (s : Store)
    → AllKeepCount run_id incidents
    → scheduled_in
        (record { max_attempts = some m; minimum_confidence = minimum })
        run_id
        incidents
        s
      ≤ m - attempts_of run_id s
unfolding scheduled_in
scheduled_in-le m minimum run_id [] s k = omega arith
scheduled_in-le m minimum run_id (i ∷ is) s (k, ks) =
    let settings : Settings = record { max_attempts = some m; minimum_confidence = minimum } in
    let s' : Store =
      (handle i.env settings i.diagnose run_id i.step_id i.failure i.requested (i.before s)).1 in
    let here =
      scheduled_by-le m minimum i.env i.diagnose run_id i.step_id i.failure i.requested
        (i.before s) in
    let rest = scheduled_in-le m minimum run_id is s' ks in omega (arith, here, rest, k s)
