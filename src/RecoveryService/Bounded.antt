-- ===== src/RecoveryService/Bounded.antt =====
-- When a recovery is attempted and when it is handed to a person.
use mathlib.Core.Path.{ap₂}
use sacm_agent_runtime.Base.{
  Bool, Key, List, Option, Result, [], any, arith, err, false, if◌then◌else◌, leb, ltb, none, not,
  ok, refl, some, true, ℕ, ◌++◌, ◌+◌, ◌-◌, ◌||◌, ◌∙◌, ◌∷◌, ◌≡◌, ◌≤◌,
}
use sacm_agent_runtime.Model.{
  DecisionStatus, FailureReport, HistoryItem, RecoveryAction, RecoveryDecision, escalated,
  is_failed, scheduled,
}
use sacm_agent_runtime.RecoveryService.Decision.{
  Blocks, Settings, action_by_failure, blocks, decide_for_attempt, decision_of, is_blocked,
  is_escalate, one, repeated_identical_patch, requested_or_mapped, same_patch,
}

abbrev pub is_escalated : DecisionStatus → Bool
is_escalated escalated = true
is_escalated scheduled = false

abbrev pub asks_escalation : Option RecoveryAction → Bool
asks_escalation none = false
asks_escalation (some a) = is_escalate a

-- Nobody asked for an action, and the diagnosis is not sure enough.
abbrev unsure : Option RecoveryAction → ℕ → ℕ → Bool
unsure none confidence minimum = ltb confidence minimum
unsure (some a) confidence minimum = false

abbrev pub blocked : ℕ → ℕ → FailureReport → ℕ → List HistoryItem → Option RecoveryAction → Bool
blocked m minimum failure count history requested =
    leb m count
    || (not failure.retryable
        || (unsure requested failure.confidence minimum
            || repeated_identical_patch history failure.diagnosis_fingerprint failure.patch_hash))

is_blocked-blocks :
    (m minimum : ℕ) (failure : FailureReport) (count : ℕ) (history : List HistoryItem)
    (requested : Option RecoveryAction)
    → is_blocked (blocks m minimum failure (count + 1) history requested)
      ≡ blocked m minimum failure count history requested
unfolding blocks
is_blocked-blocks m minimum failure count history requested = ground arith

-- No classification maps to an escalation.
wanted_escalates :
    (failure : FailureReport) (requested : Option RecoveryAction)
    → is_escalate (requested_or_mapped requested failure) ≡ asks_escalation requested
unfolding action_by_failure
wanted_escalates failure requested = ground arith

decision_of_status :
    (b : Blocks) (wanted : RecoveryAction) (m minimum attempt : ℕ) (failure : FailureReport)
    → let d = decision_of b wanted m minimum attempt failure in
      (is_escalated d.status ≡ (is_blocked b || is_escalate wanted))
      × (is_failed d.target_run_status ≡ is_escalated d.status)
      × (d.attempt ≡ attempt)
unfolding decision_of
decision_of_status b wanted m minimum attempt failure = (ground arith, ground arith, refl)

-- With a number of attempts that is not negative and a threshold of at most one, a decision is
-- always made. It counts the attempt, escalates exactly when the budget is used up, the failure is
-- not retryable, an unrequested diagnosis is below the threshold, the same patch has failed before,
-- or escalation was asked for, and sends the run to FAILED exactly when it escalates.
pub decide_for_attempt_iff :
    (m minimum : ℕ) (failure : FailureReport) (count : ℕ) (history : List HistoryItem)
    (requested : Option RecoveryAction)
    → minimum ≤ one
    → (d : RecoveryDecision) × (decide_for_attempt
          (record { max_attempts = some m; minimum_confidence = minimum })
          failure
          count
          history
          requested
        ≡ ok d)
      × (d.attempt ≡ count + 1)
      × (is_escalated d.status
          ≡ (blocked m minimum failure count history requested || asks_escalation requested))
      × (is_failed d.target_run_status ≡ is_escalated d.status)
unfolding decide_for_attempt
decide_for_attempt_iff m minimum failure count history requested h =
    let b = blocks m minimum failure (count + 1) history requested in
    let wanted = requested_or_mapped requested failure in
    let d = decision_of b wanted m minimum (count + 1) failure in
    let status = decision_of_status b wanted m minimum (count + 1) failure in
    (
      d,
      ground arith,
      status.2,
      status.0
          ∙ ap₂ ◌||◌ (is_blocked-blocks m minimum failure count history requested)
              (wanted_escalates failure requested),
      status.1,
    )

abbrev pub scheduled_one : Result RecoveryDecision → ℕ
scheduled_one (ok d) = if is_escalated d.status then 0 else 1
scheduled_one (err e) = 0

pub scheduled_one-le :
    (m minimum : ℕ) (failure : FailureReport) (count : ℕ) (history : List HistoryItem)
    (requested : Option RecoveryAction)
    → scheduled_one (
          decide_for_attempt
            (record { max_attempts = some m; minimum_confidence = minimum })
            failure
            count
            history
            requested)
        + (m - (count + 1))
      ≤ m - count
unfolding decide_for_attempt
scheduled_one-le m minimum failure count history requested =
    let b = blocks m minimum failure (count + 1) history requested in
    ground (
      arith,
      decision_of_status b (requested_or_mapped requested failure) m minimum (count + 1) failure,
      is_blocked-blocks m minimum failure count history requested,
    )

-- A decision counts the attempt that it is about.
pub attempt_counted :
    (settings : Settings) (failure : FailureReport) (count : ℕ) (history : List HistoryItem)
    (requested : Option RecoveryAction) (d : RecoveryDecision)
    → decide_for_attempt settings failure count history requested ≡ ok d
    → d.attempt ≡ count + 1
unfolding decide_for_attempt decision_of
attempt_counted settings failure count history requested d e = ground arith

any-append {ℓ} :
    {A : Type ℓ} (p : A → Bool) (xs ys : List A) → any p (xs ++ ys) ≡ (any p xs || any p ys)
any-append p [] ys = refl
any-append p (x ∷ xs) ys = ground (arith, any-append p xs ys)

-- A failure whose patch and root cause are in the history escalates.
pub repeated_escalates :
    (settings : Settings) (failure : FailureReport) (fingerprint patch : Key)
    (before after : List HistoryItem) (item : HistoryItem) (count : ℕ)
    (requested : Option RecoveryAction) (d : RecoveryDecision)
    → failure.diagnosis_fingerprint ≡ some fingerprint
    → failure.patch_hash ≡ some patch
    → same_patch fingerprint patch item ≡ true
    → decide_for_attempt settings failure count (before ++ item ∷ after) requested ≡ ok d
    → d.status ≡ escalated
unfolding decide_for_attempt repeated_identical_patch
repeated_escalates settings failure fingerprint patch before after item count requested d f p e h =
    ground (arith, any-append (same_patch fingerprint patch) before (item ∷ after))
