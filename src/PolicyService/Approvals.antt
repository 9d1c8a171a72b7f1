-- ===== src/PolicyService/Approvals.antt =====
-- `_pending_or_approved` of sacm/core/policy_service.py: the approval of an action on a resource.
use text.Mathlib.Text.{◌==◌ as str_eq}
use sacm_agent_runtime.Base.{
  Bool, Exec, Key, List, Option, Result, String, [], err, false, get, if◌then◌else◌, leb, ltb, none,
  not, ok, run_not_found, select, some, true, update, ℕ, ◌&&◌, ◌++◌, ◌+◌, ◌==◌, ◌||◌, ◌∷◌,
}
use sacm_agent_runtime.Model.{Approval, ApprovalStatus, Env, Run, Store, run_key}

abbrev pub approval_key : Approval → Key
approval_key a = a.id

abbrev pub is_pending : ApprovalStatus → Bool
is_pending ApprovalStatus.pending = true
is_pending _ = false

abbrev pub is_approved : ApprovalStatus → Bool
is_approved ApprovalStatus.approved = true
is_approved _ = false

-- `query.order_by(requested_at.desc())`; of equal ones the first row stays first.
abbrev pub insert_newest : Approval → List Approval → List Approval
insert_newest x [] = x ∷ []
insert_newest x (y ∷ ys) =
    let later = y ∷ insert_newest x ys in
    if leb y.requested_at x.requested_at then x ∷ y ∷ ys else later

abbrev pub newest_first : List Approval → List Approval
newest_first [] = []
newest_first (x ∷ xs) = insert_newest x (newest_first xs)

abbrev pub put_approval : Approval → Store → Store
put_approval a s = record s { approvals = update (λ x. x.id == a.id) (λ _. a) s.approvals }

module _ (env : Env) where
  abbrev pub digest_of : Approval → Key
  digest_of a = elim a.resource_digest [ none ↦ env.resource_digest a.resource | some d ↦ d ]

  abbrev pub is_over : Option ℕ → Bool
  is_over none = false
  is_over (some t) = leb t env.now

  abbrev pub expired_approval : Approval → Approval
  expired_approval a = record a { status = ApprovalStatus.expired }

  -- the loop of `_pending_or_approved`
  unfoldable pub find_approval : Key → List Approval → Store → Option Approval × Store
  find_approval digest [] s = (none, s)
  find_approval digest (a ∷ rest) s =
      let found = find_approval digest rest s in
      let found_after_expiry = find_approval digest rest (put_approval (expired_approval a) s) in
      if not (digest_of a == digest)
      then found
      else if is_over a.expires_at
      then if is_pending a.status || is_approved a.status then found_after_expiry else found
      else (some a, s)

  -- `_approval_expiry`
  abbrev approval_expiry : Option ℕ
  approval_expiry = if ltb 0 env.approval_ttl then some (env.now + env.approval_ttl) else none

  abbrev pub new_approval : Run → String → String → Approval
  new_approval run action resource = record {
    id = env.fresh;
    organization_id = run.organization_id;
    project_id = run.project_id;
    run_id = run.id;
    action = action;
    resource = resource;
    resource_digest = some (env.resource_digest resource);
    status = ApprovalStatus.pending;
    requested_at = env.now;
    expires_at = approval_expiry;
    decided_at = none;
    decided_by = none;
    decision_reason = none;
  }

  abbrev pub of_action : Key → String → Approval → Bool
  of_action run_id action a = (a.run_id == run_id) && str_eq a.action action

  abbrev pub reuse_or_ask :
      Run → String → String → Option Approval × Store → Result Approval × Store
  reuse_or_ask run action resource (some a, s) = (ok a, s)
  reuse_or_ask run action resource (none, s) =
      let a = new_approval run action resource in
      (ok a, record s { approvals = s.approvals ++ a ∷ [] })

  abbrev pub ask_for_run : String → String → Option Run → Exec Store Approval
  ask_for_run action resource none s = (err run_not_found, s)
  ask_for_run action resource (some run) s = reuse_or_ask run action resource (
      find_approval (env.resource_digest resource)
        (newest_first (select (of_action run.id action) s.approvals)) s)

  -- `_pending_or_approved`, which is `request_approval`
  unfoldable pub pending_or_approved : Key → String → String → Exec Store Approval
  unfolding find_approval
  pending_or_approved run_id action resource s =
      ask_for_run action resource (get run_key run_id s.runs) s
