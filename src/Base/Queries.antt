-- ===== src/Base/Queries.antt =====
-- What holds of every row holds of the rows that a query returns.
use mathlib.Core.Option.{none, some}
use mathlib.Core.Path.{◌≡◌, refl}
use mathlib.Core.Bool.{Bool, true}
use mathlib.Core.List.{List, [], ◌∷◌}
use mathlib.Core.Logic.{inl, inr}
use Prim.Native.Nat.{ℕ, zero, suc}
use native.Mathlib.Omega.{arith}
use sacm_agent_runtime.Base.Tests.{==-refl, Bool-cases, Key, leb, ◌==◌}
use sacm_agent_runtime.Base.Table.{All, IsKeyed, first, get, order_by, place, select}

-- `limit(n)`
abbrev pub limit {ℓ} : {A : Type ℓ} → ℕ → List A → List A
limit n [] = []
limit zero (x ∷ xs) = []
limit (suc n) (x ∷ xs) = x ∷ limit n xs

module _ {A : Type 0} where
  pub All-weaken : (P Q : A → Type 0) → ((x : A) → P x → Q x) → (xs : List A) → All P xs → All Q xs
  All-weaken P Q f [] h = tt
  All-weaken P Q f (x ∷ xs) h = (f x h.0, All-weaken P Q f xs h.1)

  module _ (P : A → Type 0) where
    pub All-place : (rank : A → ℕ) (x : A) (xs : List A) → P x → All P xs → All P (place rank x xs)
    All-place rank x [] h k = (h, tt)
    All-place rank x (y ∷ ys) h k = elim (Bool-cases (leb (rank x) (rank y))) [
      | inl e ↦ rw e (h, k)
      | inr e ↦ rw e (k.0, All-place rank x ys h k.1)
    ]

    pub All-order_by : (rank : A → ℕ) (xs : List A) → All P xs → All P (order_by rank xs)
    All-order_by rank [] h = tt
    All-order_by rank (x ∷ xs) h =
        All-place rank x (order_by rank xs) h.0 (All-order_by rank xs h.1)

    pub All-limit : (n : ℕ) (xs : List A) → All P xs → All P (limit n xs)
    All-limit n [] h = tt
    All-limit zero (x ∷ xs) h = tt
    All-limit (suc n) (x ∷ xs) h = (h.0, All-limit n xs h.1)

    pub All-select :
        (q : A → Bool) (xs : List A) → All P xs → All (λ x. P x × (q x ≡ true)) (select q xs)
    All-select q [] h = tt
    All-select q (x ∷ xs) h = elim (Bool-cases (q x)) [
      | inl e ↦ rw e ((h.0, e), All-select q xs h.1)
      | inr e ↦ rw e (All-select q xs h.1)
    ]

  -- The row that `first` finds satisfies the test.
  pub first-true : (q : A → Bool) (xs : List A) (x : A) → first q xs ≡ some x → q x ≡ true
  first-true q [] x e = cc
  first-true q (y ∷ ys) x e = ground (arith, first-true q ys x)

module _ {A : Type 0} (key : A → Key) where
  -- The key of a row finds that row.
  abbrev pub IsFound : List A → A → Type 0
  IsFound xs x = get key (key x) xs ≡ some x

  IsFound-behind :
      (x : A) (xs : List A) (y : A) → get key (key x) xs ≡ none → IsFound xs y → IsFound (x ∷ xs) y
  IsFound-behind x xs y u h = elim (Bool-cases (key x == key y)) [
    | inl e ↦ let same_key : key x ≡ key y = ground arith in cc (rw same_key at u, h)
    | inr e ↦ rw e h
  ]

  pub IsKeyed-AllFound : (xs : List A) → IsKeyed key xs → All (IsFound xs) xs
  IsKeyed-AllFound [] u = tt
  IsKeyed-AllFound (x ∷ xs) u = (
    rw (==-refl (key x)) refl,
    All-weaken (IsFound xs) (IsFound (x ∷ xs)) (λ y. IsFound-behind x xs y u.0) xs
        (IsKeyed-AllFound xs u.1),
  )
