-- ===== src/PolicyService/Actions.antt =====
-- `evaluate` of sacm/core/policy_service.py: a tool action, decided locally or by OPA.
use sacm_agent_runtime.Base.{Bool, Key, Option, String, false, if◌then◌else◌, none, not, some, true}

pub record PolicyDecision : Type 0 where
  pub allowed : Bool
  pub reason : String
  pub requires_approval : Bool

-- `result` of OPA's answer, where there is one
pub data OpaAnswer : Type 0 where
  unreachable : OpaAnswer
  yes_or_no : Bool → OpaAnswer
  document : (allow : Bool) (reason : String) (requires_approval : Bool) → OpaAnswer
  another_value : OpaAnswer

-- The environment of the policies: the answer of OPA if there is an URL, whether a failure is
-- closed, and the two lists of actions.
pub record Policies : Type 0 where
  pub opa : Option (String → String → Option Key → OpaAnswer)
  pub fail_closed : Bool
  pub is_denied_action : String → Bool
  pub needs_approval_action : String → Bool

module _ (policies : Policies) where
  -- `_evaluate_local`
  abbrev pub evaluate_local : String → PolicyDecision
  evaluate_local action =
      if policies.is_denied_action action
      then record { allowed = false; reason = "denied by local policy"; requires_approval = false }
      else record {
        allowed = true;
        reason = "Allowed by local policy.";
        requires_approval = policies.needs_approval_action action;
      }

  -- `_evaluate_opa`
  abbrev pub evaluate_opa : OpaAnswer → PolicyDecision
  evaluate_opa unreachable = record {
    allowed = not policies.fail_closed;
    reason = "OPA unavailable";
    requires_approval = false;
  }
  evaluate_opa (yes_or_no b) = record {
    allowed = b;
    reason = "OPA policy decision.";
    requires_approval = false;
  }
  evaluate_opa (document allow reason requires_approval) = record {
    allowed = allow;
    reason = reason;
    requires_approval = requires_approval;
  }
  evaluate_opa another_value = record {
    allowed = false;
    reason = "OPA returned an invalid policy decision.";
    requires_approval = false;
  }

  -- `evaluate`
  unfoldable pub evaluate : String → String → Option Key → PolicyDecision
  evaluate action resource run_id = elim policies.opa [
    | none ↦ evaluate_local action
    | some ask ↦ evaluate_opa (ask action resource run_id)
  ]
