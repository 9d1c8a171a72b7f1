-- ===== src/RecoveryService/Decision.antt =====
-- The decision of sacm/core/recovery_service.py, which is a pure function of the report.
use sacm_agent_runtime.Base.{
  Bool, Key, List, Option, Result, String, [], any, bad_confidence, err, false, if◌then◌else◌, ltb,
  map, negative_max_attempts, none, not, ok, same, some, true, ℕ, ◌&&◌, ◌++◌, ◌+◌, ◌||◌, ◌∷◌,
}
use sacm_agent_runtime.Model.{
  FailureClassification, FailureReport, HistoryItem, Instruction, Reason, RecoveryAction,
  RecoveryDecision, RunStatus, api_incompatibility, architecture_mismatch, bad_plan,
  budget_exhausted, compilation, debug, environment, escalate, escalated, expand_context,
  failure_note, maps_to, missing_context, model_stuck, non_retryable, repair_code, replan, retry,
  same_patch_failed, scheduled, sentence, switch_model, test_regression, tool_failure,
  wrong_assumption,
}

-- `_ACTION_BY_FAILURE`
unfoldable pub action_by_failure : FailureClassification → RecoveryAction
action_by_failure compilation = repair_code
action_by_failure test_regression = debug
action_by_failure wrong_assumption = replan
action_by_failure missing_context = expand_context
action_by_failure architecture_mismatch = replan
action_by_failure bad_plan = replan
action_by_failure api_incompatibility = repair_code
action_by_failure environment = retry
action_by_failure tool_failure = retry
action_by_failure model_stuck = switch_model

-- `_TARGET_BY_ACTION`
unfoldable pub target_by_action : RecoveryAction → RunStatus
target_by_action repair_code = RunStatus.fixing
target_by_action debug = RunStatus.fixing
target_by_action replan = RunStatus.planning
target_by_action expand_context = RunStatus.planning
target_by_action switch_model = RunStatus.planning
target_by_action retry = RunStatus.implementing
target_by_action escalate = RunStatus.failed

abbrev pub is_escalate : RecoveryAction → Bool
is_escalate escalate = true
is_escalate _ = false

-- `_instructions`
unfoldable pub sentences : RecoveryAction → List String
sentences repair_code =
    "Use the diagnostics to produce the smallest compatible code repair."
    ∷ "Add or update a regression test before resubmitting." ∷ []
sentences debug =
    "Reproduce the failure and isolate its root cause before editing."
    ∷ "Return the reproducer and the passing regression test as evidence." ∷ []
sentences replan =
    "Discard assumptions invalidated by the failure."
    ∷ "Produce a revised plan linked to the acceptance criteria." ∷ []
sentences expand_context =
    "Request the missing symbols, callers, tests, and contracts."
    ∷ "Do not modify code until the context gap is resolved." ∷ []
sentences switch_model =
    "Route the retry to a different model family."
    ∷ "Include the previous failed approach as negative evidence." ∷ []
sentences retry = "Retry only after validating the execution environment and tools." ∷ []
sentences escalate = "Stop autonomous execution and request human intervention." ∷ []

unfoldable pub instructions : RecoveryAction → FailureReport → List Instruction
unfolding sentences
instructions action failure = map sentence (sentences action) ++ failure_note failure.message ∷ []

abbrev pub same_patch : Key → Key → HistoryItem → Bool
same_patch fingerprint patch_hash item =
    same item.failure.diagnosis_fingerprint (some fingerprint)
    && same item.failure.patch_hash (some patch_hash)

-- `_repeated_identical_patch`
unfoldable pub repeated_identical_patch : List HistoryItem → Option Key → Option Key → Bool
repeated_identical_patch history (some fingerprint) (some patch_hash) =
    any (same_patch fingerprint patch_hash) history
repeated_identical_patch history _ _ = false

-- SACM_MAX_RECOVERY_ATTEMPTS, where `none` is a negative number, and SACM_DIAGNOSTIC_MIN_CONFIDENCE
pub record Settings : Type 0 where
  pub max_attempts : Option ℕ
  pub minimum_confidence : ℕ

abbrev pub one : ℕ
one = 1000000

-- What the decision tests of the report, in the order in which a reason is looked for.
pub record Blocks : Type 0 where
  pub exhausted : Bool
  pub not_retryable : Bool
  pub low_confidence : Bool
  pub repeated : Bool

abbrev pub is_blocked : Blocks → Bool
is_blocked b = b.exhausted || (b.not_retryable || (b.low_confidence || b.repeated))

abbrev not_requested : Option RecoveryAction → Bool
not_requested none = true
not_requested (some a) = false

unfoldable pub blocks :
    ℕ → ℕ → FailureReport → ℕ → List HistoryItem → Option RecoveryAction → Blocks
unfolding repeated_identical_patch
blocks max_attempts minimum failure attempt history requested = record {
  exhausted = ltb max_attempts attempt;
  not_retryable = not failure.retryable;
  low_confidence = not_requested requested && ltb failure.confidence minimum;
  repeated = repeated_identical_patch history failure.diagnosis_fingerprint failure.patch_hash;
}

abbrev pub requested_or_mapped : Option RecoveryAction → FailureReport → RecoveryAction
requested_or_mapped none failure = action_by_failure failure.classification
requested_or_mapped (some a) failure = a

abbrev reason_of : Blocks → ℕ → ℕ → FailureReport → RecoveryAction → Reason
reason_of b max_attempts minimum failure action =
    if b.exhausted
    then budget_exhausted max_attempts
    else if b.not_retryable
    then non_retryable
    else if b.low_confidence
    then Reason.low_confidence failure.confidence minimum
    else if b.repeated
    then same_patch_failed
    else maps_to failure.classification action

unfoldable pub decision_of : Blocks → RecoveryAction → ℕ → ℕ → ℕ → FailureReport → RecoveryDecision
unfolding target_by_action instructions
decision_of b wanted max_attempts minimum attempt failure =
    let action = if is_blocked b then escalate else wanted in
    record {
      action = action;
      status = if is_escalate action then escalated else scheduled;
      reason = reason_of b max_attempts minimum failure action;
      attempt = attempt;
      max_attempts = max_attempts;
      target_run_status = target_by_action action;
      instructions = instructions action failure;
    }

abbrev decide_within :
    ℕ → ℕ → FailureReport → ℕ → List HistoryItem → Option RecoveryAction → Result RecoveryDecision
decide_within max_attempts minimum failure attempt history requested =
    if ltb one minimum
    then err bad_confidence
    else ok (
        decision_of (blocks max_attempts minimum failure attempt history requested)
          (requested_or_mapped requested failure) max_attempts minimum attempt failure)

-- `decide_for_attempt`; a recorded count is never negative.
unfoldable pub decide_for_attempt :
    Settings
    → FailureReport
    → ℕ
    → List HistoryItem
    → Option RecoveryAction
    → Result RecoveryDecision
unfolding blocks decision_of action_by_failure
decide_for_attempt settings failure attempt_count history requested = elim settings.max_attempts [
  | none ↦ err negative_max_attempts
  | some m ↦
      decide_within m settings.minimum_confidence failure (attempt_count + 1) history requested
]
