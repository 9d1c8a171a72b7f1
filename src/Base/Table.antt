-- ===== src/Base/Table.antt =====
-- Tables as lists of rows: the queries and updates of a session, and the laws of the primary key.
use mathlib.Core.Option
use mathlib.Core.Option.{Option, none, some}
use mathlib.Core.Path.{◌≡◌, refl, ap, ◌∙◌, subst}
use mathlib.Core.Bool.{Bool, true, false, ◌&&◌, ◌||◌}
use mathlib.Core.List.{List, [], ◌∷◌, ◌++◌}
use mathlib.Core.Logic.{inl, inr}
use Prim.Native.Nat.{ℕ, suc, ◌+◌}
use native.Mathlib.Omega.{arith}
use sacm_agent_runtime.Base.Tests.{Bool-cases, Key, if◌then◌else◌, leb, ◌==◌}

module _ {ℓ} {A : Type ℓ} where
  abbrev pub length : List A → ℕ
  length [] = 0
  length (x ∷ xs) = suc (length xs)

  abbrev pub any : (A → Bool) → List A → Bool
  any p [] = false
  any p (x ∷ xs) = p x || any p xs

  -- `query.filter(p).first()`, in the order of the rows
  abbrev pub first : (A → Bool) → List A → Option A
  first p [] = none
  first p (x ∷ xs) = if p x then some x else first p xs

  -- `query.filter(p).all()`
  abbrev pub select : (A → Bool) → List A → List A
  select p [] = []
  select p (x ∷ xs) = let rest = select p xs in if p x then x ∷ rest else rest

  -- `query.filter(p).delete()`
  abbrev pub remove : (A → Bool) → List A → List A
  remove p [] = []
  remove p (x ∷ xs) = let rest = remove p xs in if p x then rest else x ∷ rest

  -- `query.filter(p).update(f)`
  abbrev pub where_then : (A → Bool) → (A → A) → A → A
  where_then p f x = if p x then f x else x

  abbrev pub update : (A → Bool) → (A → A) → List A → List A
  update p f [] = []
  update p f (x ∷ xs) = where_then p f x ∷ update p f xs

  pub length-append : (xs ys : List A) → length (xs ++ ys) ≡ length xs + length ys
  length-append [] ys = omega arith
  length-append (x ∷ xs) ys = omega (arith, length-append xs ys)

module _ {A : Type 0} (key : A → Key) where
  -- `session.get(Model, k)`
  abbrev pub get : Key → List A → Option A
  get k [] = none
  get k (x ∷ xs) = if key x == k then some x else get k xs

  -- The primary key names one row at most.
  abbrev pub IsKeyed : List A → Type 0
  IsKeyed [] = Unit
  IsKeyed (x ∷ xs) = (get (key x) xs ≡ none) × IsKeyed xs

  pub get-append :
      (k : Key) (xs : List A) (y : A)
      → get k xs ≡ none
      → get k (xs ++ y ∷ []) ≡ (if key y == k then some y else none)
  get-append k [] y h = refl
  get-append k (x ∷ xs) y h = ground (arith, get-append k xs y)

  pub get-append_ne :
      (k : Key) (xs : List A) (y : A) → (key y == k) ≡ false → get k (xs ++ y ∷ []) ≡ get k xs
  get-append_ne k [] y h = ground arith
  get-append_ne k (x ∷ xs) y h = ground (arith, get-append_ne k xs y)

  -- A row that is found has the key.
  pub get-key : (k : Key) (xs : List A) (x : A) → get k xs ≡ some x → key x ≡ k
  get-key k [] x h = ground arith
  get-key k (y ∷ xs) x h = ground (arith, get-key k xs x)

  module _ (p : A → Bool) (f : A → A) (same_key : (x : A) → key (f x) ≡ key x) where
    pub get-update :
        (k : Key) (xs : List A) → get k (update p f xs) ≡ Option.map (where_then p f) (get k xs)
    get-update k [] = refl
    get-update k (x ∷ xs) = ground (arith, get-update k xs, same_key x)

    pub IsKeyed-update : (xs : List A) → IsKeyed xs → IsKeyed (update p f xs)
    IsKeyed-update [] h = tt
    IsKeyed-update (x ∷ xs) h =
        (ground (arith, get-update (key x) xs, same_key x), IsKeyed-update xs h.1)

  pub IsKeyed-append :
      (xs : List A) (y : A) → get (key y) xs ≡ none → IsKeyed xs → IsKeyed (xs ++ y ∷ [])
  IsKeyed-append [] y h k = (refl, tt)
  IsKeyed-append (x ∷ xs) y h k =
      (ground (arith, get-append (key x) xs y), IsKeyed-append xs y (ground arith) k.1)

  pub get-remove-none :
      (k : Key) (p : A → Bool) (xs : List A) → get k xs ≡ none → get k (remove p xs) ≡ none
  get-remove-none k p [] h = refl
  get-remove-none k p (x ∷ xs) h = ground (arith, get-remove-none k p xs)

  pub IsKeyed-remove : (p : A → Bool) (xs : List A) → IsKeyed xs → IsKeyed (remove p xs)
  IsKeyed-remove p [] h = tt
  IsKeyed-remove p (x ∷ xs) h = elim (Bool-cases (p x)) [
    | inl e ↦ rw e (IsKeyed-remove p xs h.1)
    | inr e ↦ rw e (get-remove-none (key x) p xs h.0, IsKeyed-remove p xs h.1)
  ]

abbrev pub test : {A : Type 0} → (A → Bool) → Option A → Bool
test q none = false
test q (some x) = q x

-- A query by the primary key and one more test: it selects no row, or the one that has the key.
module _ {A : Type 0} (key : A → Key) (k : Key) (q : A → Bool) where
  abbrev pub keyed : A → Bool
  keyed x = (key x == k) && q x

  any-keyed-none : (xs : List A) → get key k xs ≡ none → any keyed xs ≡ false
  any-keyed-none [] h = refl
  any-keyed-none (x ∷ xs) h = ground (arith, any-keyed-none xs)

  pub any-keyed : (xs : List A) → IsKeyed key xs → any keyed xs ≡ test q (get key k xs)
  any-keyed [] h = refl
  any-keyed (x ∷ xs) h = elim (Bool-cases (key x == k)) [
    | inl e ↦
        let same_k : key x ≡ k = ground arith in
        let gone : any keyed xs ≡ false = any-keyed-none xs (rw same_k at h.0) in ground arith
    | inr e ↦ ground (arith, any-keyed xs h.1)
  ]

  -- what is left under each key once the selected row is deleted
  pub get-remove-keyed :
      (j : Key) (xs : List A)
      → IsKeyed key xs
      → get key j (remove keyed xs)
        ≡ (if (j == k) && test q (get key k xs) then none else get key j xs)
  get-remove-keyed j [] h = ground arith
  get-remove-keyed j (x ∷ xs) h = elim (Bool-cases (key x == k)) [
    | inl e ↦
        let same_k : key x ≡ k = ground arith in
        let gone : get key k xs ≡ none = rw same_k at h.0 in
        ground (arith, get-remove-keyed j xs h.1)
    | inr e ↦ ground (arith, get-remove-keyed j xs h.1)
  ]

  -- what stands under each key once the selected row is changed
  pub get-update-keyed :
      (f : A → A)
      → ((x : A) → key (f x) ≡ key x)
      → (j : Key) (xs : List A)
      → get key j (update keyed f xs)
        ≡ (if j == k then Option.map (where_then q f) (get key k xs) else get key j xs)
  get-update-keyed f same_key j [] = ground arith
  get-update-keyed f same_key j (x ∷ xs) =
      ground (arith, same_key x, get-update-keyed f same_key j xs)

module _ {ℓ} {A : Type ℓ} (p q : A → Bool) (f : A → A) where
  -- Some row that the update selects has afterwards what the update writes.
  pub any-update :
      ((x : A) → p x ≡ true → q (f x) ≡ true)
      → (xs : List A) → any p xs ≡ true
      → any q (update p f xs) ≡ true
  any-update writes [] h = h
  any-update writes (x ∷ xs) h = ground (arith, writes x, any-update writes xs)

-- `query.order_by(rank)`, which keeps the order of rows of the same rank
module _ {A : Type 0} (rank : A → ℕ) where
  abbrev pub place : A → List A → List A
  place x [] = x ∷ []
  place x (y ∷ ys) =
      let later = y ∷ place x ys in if leb (rank x) (rank y) then x ∷ y ∷ ys else later

  abbrev pub order_by : List A → List A
  order_by [] = []
  order_by (x ∷ xs) = place x (order_by xs)

  any-place : (p : A → Bool) (x : A) (xs : List A) → any p (place x xs) ≡ (p x || any p xs)
  any-place p x [] = refl
  any-place p x (y ∷ ys) = ground (arith, any-place p x ys)

  pub any-order_by : (p : A → Bool) (xs : List A) → any p (order_by xs) ≡ any p xs
  any-order_by p [] = refl
  any-order_by p (x ∷ xs) = any-place p x (order_by xs) ∙ ap (λ b. p x || b) (any-order_by p xs)

module _ {A : Type 0} (p : A → Bool) where
  pub select-append :
      (xs : List A) (y : A) → select p (xs ++ y ∷ []) ≡ select p xs ++ (if p y then y ∷ [] else [])
  select-append [] y = ground arith
  select-append (x ∷ xs) y = ground (arith, select-append xs y)

  pub select-and :
      (q : A → Bool) (xs : List A) → select (λ x. p x && q x) xs ≡ select q (select p xs)
  select-and q [] = refl
  select-and q (x ∷ xs) = ground (arith, select-and q xs)

  -- Every row satisfies `p`.
  abbrev pub every : List A → Bool
  every [] = true
  every (x ∷ xs) = p x && every xs

  pub every-select :
      (q : A → Bool) (xs : List A)
      → ((x : A) → q x ≡ true → p x ≡ true)
      → every (select q xs) ≡ true
  every-select q [] h = refl
  every-select q (x ∷ xs) h = ground (arith, h x, every-select q xs h)

  every-place :
      (rank : A → ℕ) (x : A) (xs : List A)
      → p x ≡ true
      → every xs ≡ true
      → every (place rank x xs) ≡ true
  every-place rank x [] h k = ground arith
  every-place rank x (y ∷ ys) h k = ground (arith, every-place rank x ys)

  pub every-order_by :
      (rank : A → ℕ) (xs : List A) → every xs ≡ true → every (order_by rank xs) ≡ true
  every-order_by rank [] h = refl
  every-order_by rank (x ∷ xs) h =
      ground (arith, every-place rank x (order_by rank xs), every-order_by rank xs)

-- A mapped object that is written to its row.
module _ {A : Type 0} (key : A → Key) (r : A) where
  pub get-put :
      (j : Key) (xs : List A)
      → get key j (update (λ x. key x == key r) (λ _. r) xs)
        ≡ (if key r == j then Option.map (λ _. r) (get key j xs) else get key j xs)
  get-put j [] = ground arith
  get-put j (x ∷ xs) = ground (arith, get-put j xs)

module _ {A : Type 0} (key : A → Key) (r : A) where
  -- A row that is written under its own key leaves the keys unique.
  pub IsKeyed-put :
      (xs : List A) → IsKeyed key xs → IsKeyed key (update (λ x. key x == key r) (λ _. r) xs)
  IsKeyed-put [] h = tt
  IsKeyed-put (x ∷ xs) h =
      let later = get-put key r (key x) xs in
      let at_r = get-put key r (key r) xs in (ground arith, IsKeyed-put xs h.1)

-- A predicate that holds of every row.
abbrev pub All {ℓ κ} : {A : Type ℓ} → (A → Type κ) → List A → Type κ
All P [] = Unit
All P (x ∷ xs) = P x × All P xs

module _ {A : Type 0} (P : A → Type 0) where
  pub All-update :
      (p : A → Bool) (f : A → A) (xs : List A)
      → ((x : A) → p x ≡ true → P x → P (f x))
      → All P xs
      → All P (update p f xs)
  All-update p f [] keep h = tt
  All-update p f (x ∷ xs) keep h = elim (Bool-cases (p x)) [
    | inl e ↦ rw e (keep x e h.0, All-update p f xs keep h.1)
    | inr e ↦ rw e (h.0, All-update p f xs keep h.1)
  ]

  pub All-append : (xs : List A) (y : A) → P y → All P xs → All P (xs ++ y ∷ [])
  All-append [] y h k = (h, tt)
  All-append (x ∷ xs) y h k = (k.0, All-append xs y h k.1)

  pub All-get :
      (key : A → Key) (k : Key) (xs : List A) (x : A) → get key k xs ≡ some x → All P xs → P x
  All-get key k [] x e h = cc
  All-get key k (y ∷ xs) x e h = elim (Bool-cases (key y == k)) [
    | inl c ↦ let same_row : y ≡ x = ground arith in subst P same_row h.0
    | inr c ↦ All-get key k xs x (ground arith) h.1
  ]

  pub All-first : (p : A → Bool) (xs : List A) (x : A) → first p xs ≡ some x → All P xs → P x
  All-first p [] x e h = cc
  All-first p (y ∷ xs) x e h = elim (Bool-cases (p y)) [
    | inl c ↦ let same_row : y ≡ x = ground arith in subst P same_row h.0
    | inr c ↦ All-first p xs x (ground arith) h.1
  ]
