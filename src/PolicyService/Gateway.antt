-- ===== src/PolicyService/Gateway.antt =====
-- `require_allowed` and `decide` of sacm/core/policy_service.py. The checks of
-- sacm/core/tenancy_service.py that come before them are an interface.
use sacm_agent_runtime.Base.{
  Bool, Exec, Key, Option, String, already_decided, approval_expired, approval_not_found,
  approval_required, err, get, if◌then◌else◌, none, not, ok, permission_denied, pure, raise, some,
  tenant_required, ◌&&◌, ◌>>=◌, ◌>>◌, ◌≡◌,
}
use sacm_agent_runtime.Model.{Actor, Approval, ApprovalStatus, Env, Run, Store}
use sacm_agent_runtime.PolicyService.Actions.{Policies, PolicyDecision, evaluate}
use sacm_agent_runtime.PolicyService.Approvals.{
  approval_key, expired_approval, is_approved, is_over, is_pending, pending_or_approved,
  put_approval,
}

-- What the policies ask of sacm/core/tenancy_service.py: whether an actor may act on a run, and to
-- write its audit log. Neither writes approvals or runs.
pub record TenancyOperations : Type 0 where
  pub require_run : Key → Actor → Exec Store Run
  pub audit : Actor → String → Exec Store (Unit {0})
  pub require_run-approvals :
      (k : Key) (actor : Actor) (s : Store) → (require_run k actor s).1.approvals ≡ s.approvals
  pub audit-approvals :
      (actor : Actor) (text : String) (s : Store) → (audit actor text s).1.approvals ≡ s.approvals

module _ (tenancy : TenancyOperations) (env : Env) where
  abbrev pub check_access : Option Key → Option Actor → Bool → Exec Store (Unit {0})
  check_access none actor trusted_internal = pure tt
  check_access (some run_id) (some actor) trusted_internal = do
    run ← tenancy.require_run run_id actor
    pure tt
  check_access (some run_id) none trusted_internal =
      if env.production && not trusted_internal then raise tenant_required else pure tt

  abbrev pub audit_decision : Option Key → Option Actor → String → Exec Store (Unit {0})
  audit_decision (some run_id) (some actor) action = tenancy.audit actor action
  audit_decision _ _ action = pure tt

  abbrev pub approved_or_raise : Approval → Exec Store (Unit {0})
  approved_or_raise a = if is_approved a.status then pure tt else raise approval_required

  abbrev pub require_approved : Option Key → String → String → Exec Store (Unit {0})
  require_approved none action resource = raise permission_denied
  require_approved (some run_id) action resource = do
    a ← pending_or_approved env run_id action resource
    approved_or_raise a

  abbrev pub apply_decision : PolicyDecision → Option Key → String → String → Exec Store (Unit {0})
  apply_decision d run_id action resource =
      if not d.allowed
      then raise permission_denied
      else if d.requires_approval
      then require_approved run_id action resource
      else pure tt

  -- `require_allowed` with a database, which is `ToolGateway.authorize`. The audit is written only
  -- for a run with a tenant, which the interface decides.
  unfoldable pub require_allowed :
      Policies → String → String → Option Key → Option Actor → Bool → Exec Store (Unit {0})
  unfolding pending_or_approved evaluate
  require_allowed policies action resource run_id actor trusted_internal = do
    check_access run_id actor trusted_internal
    audit_decision run_id actor action
    apply_decision (evaluate policies action resource run_id) run_id action resource

  -- `require_approval` of sacm/core/tenancy_service.py
  abbrev pub require_approval_row : Actor → Option Approval → Exec Store Approval
  require_approval_row actor none = raise approval_not_found
  require_approval_row actor (some a) = do run ← tenancy.require_run a.run_id actor; pure a

  abbrev pub decided_approval : Bool → Actor → String → Approval → Approval
  decided_approval approve actor reason a = record a {
    status = if approve then ApprovalStatus.approved else ApprovalStatus.rejected;
    decided_by = some actor;
    decision_reason = some reason;
    decided_at = some env.now;
  }

  abbrev pub decide_on : Bool → Actor → String → Approval → Exec Store Approval
  decide_on approve actor reason a s =
      if is_over env a.expires_at
      then (err approval_expired, put_approval (expired_approval env a) s)
      else if not (is_pending a.status)
      then (err already_decided, s)
      else (
        ok (decided_approval approve actor reason a),
        put_approval (decided_approval approve actor reason a) s,
      )

  -- `decide`; the audit comes after the commit.
  unfoldable pub decide : Key → Bool → Actor → String → Exec Store Approval
  decide approval_id approve actor reason = do
    a ← (λ s. require_approval_row actor (get approval_key approval_id s.approvals) s)
    b ← decide_on approve actor reason a
    tenancy.audit actor "approval.decide"
    pure b
