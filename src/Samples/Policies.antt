-- ===== src/Samples/Policies.antt =====
-- The theorems on the policies at concrete plans and approvals.
use sacm_agent_runtime.Base.{
  Error, Key, [], any, err, every, false, get, none, ok, refl, run_not_found, some, true, ◌∷◌, ◌≡◌,
}
use sacm_agent_runtime.PolicyService.Plans.{
  PlanStep, critical, default_pack, deployment, deployment_execute, evaluate_plan_local,
  gate_candidates, high, other_kind, same_gate, security_sensitive, strict_pack,
}
use sacm_agent_runtime.PolicyService.Gates.{
  evaluate_plan_local_contract, is_ascending, strict_covers_default,
}
use sacm_agent_runtime.PolicyService.Gateway.{
  TenancyOperations, decide, decided_approval, require_allowed,
}
use sacm_agent_runtime.Model.{Approval, ApprovalStatus, RunStatus, Store, person, run_key}
use sacm_agent_runtime.PolicyService.Actions.{Policies, document, evaluate}
use sacm_agent_runtime.PolicyService.Approvals.{find_approval, pending_or_approved}
use sacm_agent_runtime.PolicyService.Authorization.{IsGranted, require_allowed_grants}
use sacm_agent_runtime.PolicyService.Decisions.{IsDecided, decide_contract, decide_once}
use sacm_agent_runtime.Samples.{later_env, run_with, sample_env, sample_store}

abbrev deploying : PlanStep
deploying = record {
  id = 3;
  kind = other_kind;
  required_tools = deployment_execute ∷ [];
  risk_tags = deployment ∷ security_sensitive ∷ [];
}

evaluate_plan_local_contract_example :
    let d = evaluate_plan_local strict_pack critical (deploying ∷ []) in
    (d.allow ≡ false)
    × (d.requires_approval ≡ true)
    × (d.approval_gates ≡ gate_candidates strict_pack critical (deploying ∷ []))
    × (is_ascending 0 d.approval_gates ≡ true)
    × (d.requires_security_review ≡ true)
evaluate_plan_local_contract_example =
    evaluate_plan_local_contract strict_pack critical (deploying ∷ [])

strict_covers_default_example :
    let d = evaluate_plan_local default_pack high (deploying ∷ []) in
    let e = evaluate_plan_local strict_pack high (deploying ∷ []) in
    (d.requires_approval ≡ true → e.requires_approval ≡ true)
    × (every (λ g. any (same_gate g) e.approval_gates) d.approval_gates ≡ true)
    × (e.allow ≡ true → d.allow ≡ true)
strict_covers_default_example = strict_covers_default high (deploying ∷ [])

-- everyone may act on a run that exists
abbrev open_tenancy : TenancyOperations
open_tenancy = record {
  require_run = λ k actor s.
      (elim (get run_key k s.runs) [ none ↦ err run_not_found | some run ↦ ok run ], s);
  audit = λ actor text s. (ok tt, s);
  require_run-approvals = λ k actor s. refl;
  audit-approvals = λ actor text s. refl;
}

abbrev approval_with : ApprovalStatus → Approval
approval_with status = record {
  id = 70;
  organization_id = none;
  project_id = none;
  run_id = 1;
  action = "deploy";
  resource = "plan";
  resource_digest = some 60;
  status = status;
  requested_at = 900;
  expires_at = some 1100;
  decided_at = none;
  decided_by = none;
  decision_reason = none;
}

abbrev approval_store : ApprovalStatus → Store
approval_store status = record (sample_store (run_with RunStatus.planning ∷ []) [] []) {
  approvals = approval_with status ∷ [];
}

abbrev careful : Policies
careful = record {
  opa = some (λ action resource run_id. document true "checked" true);
  fail_closed = true;
  is_denied_action = λ _. false;
  needs_approval_action = λ _. false;
}

require_allowed_grants_example :
    let d = evaluate careful "deploy" "plan" (some 1) in
    (d.allowed ≡ true)
    × (d.requires_approval ≡ true
        → (k : Key) × (some 1 ≡ some k)
          × ((a : Approval) × IsGranted sample_env
                (approval_with ApprovalStatus.approved ∷ [])
                k
                "deploy"
                "plan"
                a))
unfolding require_allowed pending_or_approved find_approval evaluate
require_allowed_grants_example =
    require_allowed_grants open_tenancy sample_env "deploy" "plan" careful (some 1)
      (some (person 80)) false (approval_store ApprovalStatus.approved) (refl, tt) refl

abbrev decided_sample : Approval
decided_sample =
    decided_approval open_tenancy sample_env true (person 80) "fine"
      (approval_with ApprovalStatus.pending)

decide_contract_example :
    IsDecided open_tenancy sample_env 70 true
      (person 80)
      "fine"
      decided_sample
      (approval_store ApprovalStatus.pending)
      (decide open_tenancy sample_env 70 true
        (person 80)
        "fine"
        (approval_store ApprovalStatus.pending)).1
unfolding decide
decide_contract_example =
    decide_contract open_tenancy sample_env 70 true (person 80) "fine" decided_sample
      (approval_store ApprovalStatus.pending) refl

decide_once_example :
    (x : Error) × ((decide open_tenancy later_env 70 false
        (person 81)
        "no"
        (decide open_tenancy sample_env 70 true
          (person 80)
          "fine"
          (approval_store ApprovalStatus.pending)).1).0
      ≡ err x)
unfolding decide
decide_once_example =
    decide_once open_tenancy sample_env 70 true (person 80) "fine" decided_sample
      (approval_store ApprovalStatus.pending) later_env false (person 81) "no" refl
