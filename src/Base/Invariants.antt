-- ===== src/Base/Invariants.antt =====
-- What a method keeps, whether it returns or raises: one rule for each way to build a method.
use mathlib.Core.Bool.{Bool, true, false}
use sacm_agent_runtime.Base.Tests.{if◌then◌else◌}
use sacm_agent_runtime.Base.Effects.{
  Error, Result, ok, err, Exec, keep_or_drop, pure, raise, gets, atomic, and_then, modify, ◌>>=◌,
  ◌>>◌,
}

pub record Keeps {S A : Type 0} (P : S → Type 0) (m : Exec S A) : Type 0 where
  pub at : (s : S) → P s → P (m s).1

module _ {S : Type 0} (P : S → Type 0) where
  pub modify-Keeps : (f : S → S) → ((s : S) → P s → P (f s)) → Keeps P (modify f)
  modify-Keeps f keep = record { at = keep }

module _ {S A : Type 0} (P : S → Type 0) where
  pub pure-Keeps : (a : A) → Keeps {A = A} P (pure a)
  pure-Keeps a = record { at = λ s h. h }

  pub raise-Keeps : (e : Error) → Keeps {A = A} P (raise e)
  raise-Keeps e = record { at = λ s h. h }

  pub gets-Keeps : (f : S → A) → Keeps {A = A} P (gets f)
  gets-Keeps f = record { at = λ s h. h }

  pub if-Keeps : (b : Bool) (m n : Exec S A) → Keeps P m → Keeps P n → Keeps P (if b then m else n)
  if-Keeps true m n km kn = km
  if-Keeps false m n km kn = kn

  pub atomic_result : (s : S) (r : Result A × S) → P s → P r.1 → P (keep_or_drop s r).1
  atomic_result s (ok a, s') h k = k
  atomic_result s (err e, s') h k = h

  -- An exception leaves an atomic part where it began.
  pub atomic-Keeps : (m : Exec S A) → Keeps P m → Keeps P (atomic m)
  atomic-Keeps m k = record { at = λ s h. atomic_result s (m s) h (k.at s h) }

module _ {S A B : Type 0} (P : S → Type 0) where
  pub and_then-Keeps :
      (f : A → Exec S B) (r : Result A × S) → ((a : A) → Keeps P (f a)) → P r.1 → P (and_then f r).1
  and_then-Keeps f (ok a, s) k h = (k a).at s h
  and_then-Keeps f (err e, s) k h = h

  pub bind-Keeps :
      (m : Exec S A) (f : A → Exec S B) → Keeps P m → ((a : A) → Keeps P (f a)) → Keeps P (m >>= f)
  bind-Keeps m f km kf = record { at = λ s h. and_then-Keeps f (m s) kf (km.at s h) }

  pub then-Keeps : (m : Exec S A) (n : Exec S B) → Keeps P m → Keeps P n → Keeps P (m >> n)
  then-Keeps m n km kn = record { at = λ s h. and_then-Keeps (λ _. n) (m s) (λ _. kn) (km.at s h) }

pub ruleset keeps_rules = (
  pure-Keeps, raise-Keeps, gets-Keeps, modify-Keeps, if-Keeps, atomic-Keeps, bind-Keeps, then-Keeps,
)
