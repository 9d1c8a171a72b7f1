-- ===== src/Lease/Contract.antt =====
-- What the three operations promise, read off the table by `get`: each task has one lease at most.
use mathlib.Core.Option
use sacm_agent_runtime.Base.{
  Bool, IsKeyed, IsKeyed-append, IsKeyed-remove, IsKeyed-update, Key, Option, Option-cases, [],
  any-keyed, arith, err, get, get-append, get-append_ne, get-key, get-remove-keyed,
  get-update-keyed, if◌then◌else◌, inl, inr, keyed, lease_held, lease_lost, none, ok, refl, some,
  test, true, update, ℕ, ◌&&◌, ◌++◌, ◌==◌, ◌∷◌, ◌≡◌,
}
use sacm_agent_runtime.Lease.{
  Leases, TaskRunLease, TaskRunLeaseService, acquire, extend, granted, has_token, heartbeat,
  is_expired, is_live, release, take_over, task_key,
}

-- Nobody holds an unexpired lease.
abbrev pub is_free : ℕ → Option TaskRunLease → Bool
is_free current none = true
is_free current (some l) = is_expired current l

-- The row that stands under a task once a lease was granted to the token.
module _ (service : TaskRunLeaseService) (task_id : Key) where
  pub acquire_result :
      (current : ℕ) (token : Key) (leases : Leases)
      → IsKeyed task_key leases
      → (acquire service task_id current token leases).0
        ≡ (if is_free current (get task_key task_id leases) then ok token else err lease_held)
  unfolding acquire
  acquire_result current token leases h =
      rw (any-keyed task_key task_id (is_expired current) leases h) (ground arith)

  taken_over :
      (current : ℕ) (token j : Key) (leases : Leases) (l : TaskRunLease)
      → get task_key task_id leases ≡ some l
      → is_expired current l ≡ true
      → get task_key j (
          update
            (keyed task_key task_id (is_expired current))
            (take_over service token current)
            leases)
        ≡ (if task_id == j
            then some (granted service task_id token current)
            else get task_key j leases)
  taken_over current token j leases l e x = ground (
    arith,
    get-update-keyed task_key task_id (is_expired current) (take_over service token current)
        (λ _. refl) j leases,
    get-key task_key task_id leases l,
  )

  inserted :
      (current : ℕ) (token j : Key) (leases : Leases)
      → get task_key task_id leases ≡ none
      → get task_key j (leases ++ granted service task_id token current ∷ []) ≡ (
          if task_id == j
          then some (granted service task_id token current)
          else get task_key j leases)
  inserted current token j leases e = ground (
    arith,
    get-append task_key j leases (granted service task_id token current),
    get-append_ne task_key j leases (granted service task_id token current),
  )

  pub acquire_table :
      (current : ℕ) (token j : Key) (leases : Leases)
      → IsKeyed task_key leases
      → get task_key j (acquire service task_id current token leases).1 ≡ (
          if (task_id == j) && is_free current (get task_key task_id leases)
          then some (granted service task_id token current)
          else get task_key j leases)
  unfolding acquire
  acquire_table current token j leases h =
      rw (any-keyed task_key task_id (is_expired current) leases h)
        (elim (Option-cases (get task_key task_id leases)) [
          | inl e ↦ ground (arith, inserted current token j leases)
          | inr (l, e) ↦ ground (arith, taken_over current token j leases l)
        ])

  pub heartbeat_result :
      (token : Key) (current : ℕ) (leases : Leases)
      → IsKeyed task_key leases
      → (heartbeat service task_id token current leases).0 ≡ (
          if test (is_live token current) (get task_key task_id leases)
          then ok tt
          else err lease_lost)
  unfolding heartbeat
  heartbeat_result token current leases h =
      rw (any-keyed task_key task_id (is_live token current) leases h) (ground arith)

  pub heartbeat_table :
      (token : Key) (current : ℕ) (j : Key) (leases : Leases)
      → IsKeyed task_key leases
      → get task_key j (heartbeat service task_id token current leases).1 ≡ (
          if (task_id == j) && test (is_live token current) (get task_key task_id leases)
          then Option.map (extend service current) (get task_key task_id leases)
          else get task_key j leases)
  unfolding heartbeat
  heartbeat_table token current j leases h =
      rw (any-keyed task_key task_id (is_live token current) leases h) (
        ground (
          arith,
          get-update-keyed task_key task_id (is_live token current) (extend service current)
              (λ _. refl) j leases,
        ))

  pub acquire-IsKeyed :
      (current : ℕ) (token : Key) (leases : Leases)
      → IsKeyed task_key leases
      → IsKeyed task_key (acquire service task_id current token leases).1
  unfolding acquire
  acquire-IsKeyed current token leases h =
      let expired = keyed task_key task_id (is_expired current) in
      ground (
        arith,
        IsKeyed-update task_key expired (take_over service token current) (λ _. refl) leases h,
        IsKeyed-append task_key leases (granted service task_id token current),
      )

  pub heartbeat-IsKeyed :
      (token : Key) (current : ℕ) (leases : Leases)
      → IsKeyed task_key leases
      → IsKeyed task_key (heartbeat service task_id token current leases).1
  unfolding heartbeat
  heartbeat-IsKeyed token current leases h =
      let held = keyed task_key task_id (is_live token current) in
      ground (arith, IsKeyed-update task_key held (extend service current) (λ _. refl) leases h)

module _ (task_id token : Key) (leases : Leases) (h : IsKeyed task_key leases) where
  pub release_result :
      (release task_id token leases).0 ≡ ok (test (has_token token) (get task_key task_id leases))
  unfolding release
  release_result = rw (any-keyed task_key task_id (has_token token) leases h)

  pub release_table :
      (j : Key)
      → get task_key j (release task_id token leases).1 ≡ (
          if (j == task_id) && test (has_token token) (get task_key task_id leases)
          then none
          else get task_key j leases)
  unfolding release
  release_table j = get-remove-keyed task_key task_id (has_token token) j leases h

  pub release-IsKeyed : IsKeyed task_key (release task_id token leases).1
  unfolding release
  release-IsKeyed = IsKeyed-remove task_key (keyed task_key task_id (has_token token)) leases h
