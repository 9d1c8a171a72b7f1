-- ===== src/PolicyService/Plans.antt =====
-- `evaluate_execution_plan` of sacm/core/policy_service.py. The words that the code compares are
-- constructors, and any other word is `other`; the reason that goes with each rule is left out.
use sacm_agent_runtime.Base.{
  Bool, Key, List, Option, Result, String, [], any, err, false, if◌then◌else◌,
  invalid_policy_decision, map, none, not, ok, select, some, true, unknown_policy_pack, ℕ, ◌&&◌,
  ◌++◌, ◌==◌, ◌∷◌,
}

pub data PolicyPack : Type 0 where
  default_pack strict_pack : PolicyPack

pub data RiskLevel : Type 0 where
  medium high critical other_level : RiskLevel

pub data Tool : Type 0 where
  deployment_execute repository_admin schema_migrate secrets_resolve workspace_execute : Tool
  other_tool : String → Tool

pub data RiskTag : Type 0 where
  deployment schema security_sensitive : RiskTag
  other_tag : String → RiskTag

pub data StepKind : Type 0 where
  security_review other_kind : StepKind

pub record PlanStep : Type 0 where
  pub id : Key
  pub kind : StepKind
  pub required_tools : List Tool
  pub risk_tags : List RiskTag

pub data RuleId : Type 0 where
  security_review_required privileged_tools_rule deployment_work schema_work : RuleId
  security_sensitive_work strict_critical_deployment opa_fail_closed : RuleId
  pack_application_risk : PolicyPack → RuleId

pub data Effect : Type 0 where
  review approve deny : Effect

pub record MatchedRule : Type 0 where
  pub rule_id : RuleId
  pub effect : Effect
  pub step_ids : List Key

pub data GateType : Type 0 where
  application_risk privileged_tools deployment_gate schema_change security_sensitive_gate : GateType

-- the action that a gate holds up
pub data GateAction : Type 0 where
  execution_start tools_privileged deploy migrate security_change : GateAction

pub record ApprovalGate : Type 0 where
  pub gate_type : GateType
  pub action : GateAction
  pub step_ids : List Key

pub record PlanDecision : Type 0 where
  pub pack : PolicyPack
  pub allow : Bool
  pub requires_approval : Bool
  pub requires_security_review : Bool
  pub matched_rules : List MatchedRule
  pub approval_gates : List ApprovalGate
  pub denials : List String

abbrev pub is_strict : PolicyPack → Bool
is_strict strict_pack = true
is_strict default_pack = false

abbrev pub is_critical : RiskLevel → Bool
is_critical critical = true
is_critical _ = false

-- `risk_threshold[pack]`
abbrev pub over_threshold : PolicyPack → RiskLevel → Bool
over_threshold default_pack high = true
over_threshold default_pack critical = true
over_threshold default_pack _ = false
over_threshold strict_pack other_level = false
over_threshold strict_pack _ = true

abbrev pub is_privileged : Tool → Bool
is_privileged (other_tool _) = false
is_privileged _ = true

abbrev pub is_deployment : RiskTag → Bool
is_deployment deployment = true
is_deployment _ = false

abbrev pub is_schema : RiskTag → Bool
is_schema schema = true
is_schema _ = false

abbrev pub is_security_sensitive : RiskTag → Bool
is_security_sensitive security_sensitive = true
is_security_sensitive _ = false

abbrev pub is_review : StepKind → Bool
is_review security_review = true
is_review other_kind = false

abbrev pub tagged : (RiskTag → Bool) → PlanStep → Bool
tagged tag step = any tag step.risk_tags

abbrev pub needs_privilege : PlanStep → Bool
needs_privilege step = any is_privileged step.required_tools

abbrev pub ids : List PlanStep → List Key
ids steps = map (λ x. x.id) steps

abbrev pub none_of : {A : Type 0} → List A → Bool
none_of [] = true
none_of (x ∷ xs) = false

abbrev pub when : {A : Type 0} → Bool → A → List A
when true x = x ∷ []
when false x = []

abbrev pub gate_of : GateType → GateAction → List PlanStep → ApprovalGate
gate_of gate_type action steps = record {
  gate_type = gate_type;
  action = action;
  step_ids = ids steps;
}

module _ (pack : PolicyPack) (level : RiskLevel) (steps : List PlanStep) where
  abbrev pub privileged_steps : List PlanStep
  privileged_steps = select needs_privilege steps

  abbrev pub tagged_steps : (RiskTag → Bool) → List PlanStep
  tagged_steps tag = select (tagged tag) steps

  -- `gate_candidates`, in the order of the code
  unfoldable pub gate_candidates : List ApprovalGate
  gate_candidates =
      when (over_threshold pack level) (gate_of application_risk execution_start steps)
      ++ when (not (none_of privileged_steps))
          (gate_of privileged_tools tools_privileged privileged_steps)
      ++ when (not (none_of (tagged_steps is_deployment)))
          (gate_of deployment_gate deploy (tagged_steps is_deployment))
      ++ when (not (none_of (tagged_steps is_schema)))
          (gate_of schema_change migrate (tagged_steps is_schema))
      ++ when (not (none_of (tagged_steps is_security_sensitive)) && is_strict pack)
          (gate_of security_sensitive_gate security_change (tagged_steps is_security_sensitive))

abbrev pub gate_number : GateType → ℕ
gate_number application_risk = 0
gate_number privileged_tools = 1
gate_number deployment_gate = 2
gate_number schema_change = 3
gate_number security_sensitive_gate = 4

abbrev pub action_number : GateAction → ℕ
action_number execution_start = 0
action_number tools_privileged = 1
action_number deploy = 2
action_number migrate = 3
action_number security_change = 4

abbrev pub same_gate : ApprovalGate → ApprovalGate → Bool
same_gate g h =
    (gate_number g.gate_type == gate_number h.gate_type)
    && (action_number g.action == action_number h.action)

-- the loop that keeps the first gate of each type and action
unfoldable pub unseen : List ApprovalGate → List ApprovalGate → List ApprovalGate
unseen seen [] = []
unseen seen (g ∷ gs) =
    let skipped = unseen seen gs in
    let kept = g ∷ unseen (g ∷ seen) gs in if any (same_gate g) seen then skipped else kept

-- what OPA answers to the request for a plan
pub data OpaPlanAnswer : Type 0 where
  http_error not_an_object : OpaPlanAnswer
  answered : PlanDecision → OpaPlanAnswer

module _ (pack : PolicyPack) (level : RiskLevel) (steps : List PlanStep) where
  abbrev rule : RuleId → Effect → List PlanStep → MatchedRule
  rule rule_id effect affected = record {
    rule_id = rule_id;
    effect = effect;
    step_ids = ids affected;
  }

  abbrev some_tagged : (RiskTag → Bool) → Bool
  some_tagged tag = not (none_of (tagged_steps pack level steps tag))

  abbrev is_denied : Bool
  is_denied = is_strict pack && (is_critical level && any (tagged is_deployment) steps)

  abbrev matched_rules : List MatchedRule
  matched_rules =
      rule security_review_required review (select (λ x. is_review x.kind) steps)
      ∷ (when (over_threshold pack level) (rule (pack_application_risk pack) approve steps)
          ++ when (not (none_of (privileged_steps pack level steps)))
              (rule privileged_tools_rule approve (privileged_steps pack level steps))
          ++ when (some_tagged is_deployment)
              (rule deployment_work approve (tagged_steps pack level steps is_deployment))
          ++ when (some_tagged is_schema)
              (rule schema_work approve (tagged_steps pack level steps is_schema))
          ++ when (some_tagged is_security_sensitive) (
              rule security_sensitive_work review
                (tagged_steps pack level steps is_security_sensitive))
          ++ when is_denied
              (rule strict_critical_deployment deny (tagged_steps pack level steps is_deployment)))

  abbrev denials : List String
  denials =
      when is_denied "Strict policy denies critical-risk deployment plans until risk is reduced."

  -- `_evaluate_execution_plan_local`
  unfoldable pub evaluate_plan_local : PlanDecision
  unfolding gate_candidates unseen
  evaluate_plan_local =
      let gates = unseen [] (gate_candidates pack level steps) in
      record {
        pack = pack;
        allow = none_of denials;
        requires_approval = not (none_of gates);
        requires_security_review = true;
        matched_rules = matched_rules;
        approval_gates = gates;
        denials = denials;
      }

  -- `_evaluate_execution_plan_opa`
  abbrev pub evaluate_plan_opa : OpaPlanAnswer → Result PlanDecision
  evaluate_plan_opa http_error = ok (record {
    pack = pack;
    allow = false;
    requires_approval = false;
    requires_security_review = true;
    matched_rules = rule opa_fail_closed deny [] ∷ [];
    approval_gates = [];
    denials = "OPA execution policy evaluation failed closed." ∷ [];
  })
  evaluate_plan_opa not_an_object = err invalid_policy_decision
  evaluate_plan_opa (answered decision) = ok (record decision { pack = pack })

  abbrev pub evaluate_plan_by : Option OpaPlanAnswer → Result PlanDecision
  evaluate_plan_by none = ok evaluate_plan_local
  evaluate_plan_by (some answer) = evaluate_plan_opa answer

-- `evaluate_execution_plan`; there is no pack for an unknown word, and no answer without an URL.
unfoldable pub evaluate_execution_plan :
    Option OpaPlanAnswer → Option PolicyPack → RiskLevel → List PlanStep → Result PlanDecision
unfolding evaluate_plan_local
evaluate_execution_plan answer none level steps = err unknown_policy_pack
evaluate_execution_plan answer (some pack) level steps = evaluate_plan_by pack level steps answer
