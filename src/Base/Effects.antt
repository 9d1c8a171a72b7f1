-- ===== src/Base/Effects.antt =====
-- Service methods over a database. The state beside an exception is what the method has committed
-- when the exception leaves it; `atomic` marks a part whose changes are not committed until its end.
use mathlib.Core.Path.{◌≡◌, refl}
use mathlib.Core.Logic.{◌⊎◌, inl, inr}

-- The exceptions that the services raise, by what their message says.
pub data Error : Type 0 where
  lease_held lease_lost heartbeat_interval heartbeat_failed heartbeat_stuck : Error
  run_not_found step_not_found step_running no_events : Error
  invalid_transition no_evidence_pack incomplete_steps missing_supply_chain : Error
  bad_step_status bad_run_status cannot_be_queued : Error
  negative_max_attempts bad_confidence : Error
  snapshot_not_found snapshot_identity snapshot_stale snapshot_checksum snapshot_chain : Error
  not_resumable topology_changed : Error
  permission_denied approval_required approval_expired already_decided : Error
  job_not_found execution_conflict lease_expired executor_inactive : Error
  wrong_lease_owner wrong_lease_token wrong_signing_key : Error
  approval_not_found project_not_found : Error
  tenant_required unknown_policy_pack invalid_policy_decision : Error
  workflow_failed : Error

pub data Result {ℓ} (A : Type ℓ) : Type ℓ where
  ok : A → Result A
  err : Error → Result A

abbrev pub Exec {ℓ} : Type ℓ → Type ℓ → Type ℓ
Exec S A = S → Result A × S

module _ {ℓ} {S A : Type ℓ} where
  abbrev pub pure : A → Exec S A
  pure a s = (ok a, s)

  abbrev pub raise : Error → Exec S A
  raise e s = (err e, s)

  abbrev pub gets : (S → A) → Exec S A
  gets f s = (ok (f s), s)

  abbrev pub keep_or_drop : S → Result A × S → Result A × S
  keep_or_drop s (ok a, s') = (ok a, s')
  keep_or_drop s (err e, s') = (err e, s)

  -- Changes that were flushed and not committed are gone when an exception leaves the session.
  abbrev pub atomic : Exec S A → Exec S A
  atomic m s = keep_or_drop s (m s)

module _ {ℓ} {S A B : Type ℓ} where
  abbrev pub and_then : (A → Exec S B) → Result A × S → Result B × S
  and_then f (ok a, s) = f a s
  and_then f (err e, s) = (err e, s)

  infixl 5 ◌>>=◌ ◌>>◌
  abbrev pub ◌>>=◌ : Exec S A → (A → Exec S B) → Exec S B
  ◌>>=◌ m f s = and_then f (m s)

  abbrev pub ◌>>◌ : Exec S A → Exec S B → Exec S B
  ◌>>◌ m n s = and_then (λ _. n) (m s)

abbrev pub modify : {S : Type 0} → (S → S) → Exec S (Unit {0})
modify f s = (ok tt, f s)

module _ {ℓ} {S A B : Type ℓ} where
  -- A block that succeeds has passed its first step.
  pub and_then-eq-ok :
      (f : A → Exec S B) (m : Result A × S) {b : B}
      → (and_then f m).0 ≡ ok b
      → (a : A) × (m.0 ≡ ok a) × ((f a m.1).0 ≡ ok b)
  and_then-eq-ok f (ok a, s) e = (a, refl, e)
  and_then-eq-ok f (err x, s) e = cc

module _ {ℓ} {S A B C : Type ℓ} where
  -- The steps of a method may be grouped either way.
  pub and_then_assoc :
      (f : A → Exec S B) (g : B → Exec S C) (r : Result A × S)
      → and_then (λ a. f a >>= g) r ≡ and_then g (and_then f r)
  and_then_assoc f g (ok a, s) = refl
  and_then_assoc f g (err e, s) = refl

module _ {ℓ} {S A B : Type ℓ} where
  -- An atomic part that ends well keeps what it has done.
  pub kept_when_ok :
      (s : S) (c : Result A × S) (v p : B)
      → (keep_or_drop s (and_then (λ _. pure v) c)).0 ≡ ok p
      → (p ≡ v) × ((keep_or_drop s (and_then (λ _. pure v) c)).1 ≡ c.1)
  kept_when_ok s (ok a, s') v p e = (cc, refl)
  kept_when_ok s (err x, s') v p e = cc

pub Result-cases :
    {A : Type 0} (r : Result A) → ((a : A) × (r ≡ ok a)) ⊎ ((x : Error) × (r ≡ err x))
Result-cases (ok a) = inl (a, refl)
Result-cases (err x) = inr (x, refl)
