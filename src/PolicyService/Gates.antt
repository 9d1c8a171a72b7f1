-- ===== src/PolicyService/Gates.antt =====
-- What the local policy decides of an execution plan.
use sacm_agent_runtime.Base.{
  Bool, List, [], any, ap, arith, every, false, leb, ltb, not, refl, select, true, ℕ, ◌&&◌, ◌++◌,
  ◌+◌, ◌||◌, ◌∙◌, ◌∷◌, ◌≡◌, ◌≤◌,
}
use sacm_agent_runtime.PolicyService.Plans.{
  ApprovalGate, PlanStep, PolicyPack, RiskLevel, application_risk, critical, default_pack, deploy,
  deployment_gate, evaluate_plan_local, execution_start, gate_candidates, gate_number, gate_of,
  high, is_critical, is_deployment, is_schema, is_security_sensitive, is_strict, medium, migrate,
  needs_privilege, none_of, other_level, over_threshold, privileged_steps, privileged_tools,
  same_gate, schema_change, security_change, security_sensitive_gate, strict_pack, tagged,
  tagged_steps, tools_privileged, unseen, when,
}

abbrev number : ApprovalGate → ℕ
number g = gate_number g.gate_type

-- The gates are of different types, in the order of the types.
abbrev pub is_ascending : ℕ → List ApprovalGate → Bool
is_ascending low [] = true
is_ascending low (g ∷ gs) = leb low (number g) && is_ascending (number g + 1) gs

is_ascending-weaken :
    (low bound : ℕ) (gs : List ApprovalGate)
    → low ≤ bound
    → is_ascending bound gs ≡ true
    → is_ascending low gs ≡ true
is_ascending-weaken low bound [] l h = refl
is_ascending-weaken low bound (g ∷ gs) l h = ground arith

is_ascending-when :
    (b : Bool) (g : ApprovalGate) (low : ℕ) (gs : List ApprovalGate)
    → low ≤ number g
    → is_ascending (number g + 1) gs ≡ true
    → is_ascending low (when b g ++ gs) ≡ true
is_ascending-when true g low gs l h = ground arith
is_ascending-when false g low gs l h = is_ascending-weaken low (number g + 1) gs (omega arith) h

below_is_new :
    (g : ApprovalGate) (low : ℕ) (seen : List ApprovalGate)
    → every (λ h. ltb (number h) low) seen ≡ true
    → low ≤ number g
    → any (same_gate g) seen ≡ false
below_is_new g low [] h l = refl
below_is_new g low (k ∷ seen) h l = ground (arith, below_is_new g low seen)

every-raise :
    (low bound : ℕ) (seen : List ApprovalGate)
    → low ≤ bound
    → every (λ h. ltb (number h) low) seen ≡ true
    → every (λ h. ltb (number h) bound) seen ≡ true
every-raise low bound [] l h = refl
every-raise low bound (k ∷ seen) l h = ground (arith, every-raise low bound seen)

unseen-ascending :
    (low : ℕ) (seen gs : List ApprovalGate)
    → every (λ h. ltb (number h) low) seen ≡ true
    → is_ascending low gs ≡ true
    → unseen seen gs ≡ gs
unfolding unseen
unseen-ascending low seen [] h a = refl
unseen-ascending low seen (g ∷ gs) h a =
    let new = below_is_new g low seen h (ground arith) in
    let more = every-raise low (number g + 1) seen (ground arith) h in
    rw new (
      ap (λ x. g ∷ x) (unseen-ascending (number g + 1) (g ∷ seen) gs (ground arith) (ground arith)))

none_of-select : {A : Type 0} (p : A → Bool) (xs : List A) → none_of (select p xs) ≡ not (any p xs)
none_of-select p [] = refl
none_of-select p (x ∷ xs) = ground (arith, none_of-select p xs)

-- the gates of the conditions that hold, with the steps that each is about
module _ (us ps ds ss qs : List PlanStep) where
  abbrev gate_list : Bool → Bool → Bool → Bool → Bool → List ApprovalGate
  gate_list a b c d e =
      when a (gate_of application_risk execution_start us)
      ++ when b (gate_of privileged_tools tools_privileged ps)
      ++ when c (gate_of deployment_gate deploy ds)
      ++ when d (gate_of schema_change migrate ss)
      ++ when e (gate_of security_sensitive_gate security_change qs)

  gate_list-IsAscending : (a b c d e : Bool) → is_ascending 0 (gate_list a b c d e) ≡ true
  gate_list-IsAscending a b c d e = ground arith

  gate_list-covers :
      (a a' b c d e e' : Bool)
      → (a ≡ true → a' ≡ true)
      → (e ≡ true → e' ≡ true)
      → every (λ g. any (same_gate g) (gate_list a' b c d e')) (gate_list a b c d e) ≡ true
  gate_list-covers a a' b c d e e' h k = ground arith

  gate_list-none_of :
      (a b c d e : Bool) → not (none_of (gate_list a b c d e)) ≡ (a || (b || (c || (d || e))))
  gate_list-none_of a b c d e = ground arith

module _ (pack : PolicyPack) (level : RiskLevel) (steps : List PlanStep) where
  gate_candidates-IsAscending : is_ascending 0 (gate_candidates pack level steps) ≡ true
  unfolding gate_candidates
  gate_candidates-IsAscending =
      gate_list-IsAscending steps (privileged_steps pack level steps)
        (tagged_steps pack level steps is_deployment) (tagged_steps pack level steps is_schema)
        (tagged_steps pack level steps is_security_sensitive) _ _ _ _ _

  -- some condition for an approval
  abbrev pub needs_approval : Bool
  needs_approval =
      over_threshold pack level
      || (any needs_privilege steps
          || (any (tagged is_deployment) steps
              || (any (tagged is_schema) steps
                  || (any (tagged is_security_sensitive) steps && is_strict pack))))

  not-none_of-select : (p : PlanStep → Bool) → not (none_of (select p steps)) ≡ any p steps
  not-none_of-select p = ground (arith, none_of-select p steps)

  gates_of_plan : not (none_of (gate_candidates pack level steps)) ≡ needs_approval
  unfolding gate_candidates
  gates_of_plan =
      gate_list-none_of steps (privileged_steps pack level steps)
        (tagged_steps pack level steps is_deployment) (tagged_steps pack level steps is_schema)
        (tagged_steps pack level steps is_security_sensitive) _ _ _ _ _
      ∙ rw
          (
            not-none_of-select needs_privilege,
            not-none_of-select (tagged is_deployment),
            not-none_of-select (tagged is_schema),
            not-none_of-select (tagged is_security_sensitive),
          )
          refl

  -- Without OPA a plan is allowed unless the pack is strict, the risk is critical and some step is
  -- a deployment. An approval is required if and only if the risk is over the pack's threshold, or
  -- some step needs a privileged tool, is a deployment or changes a schema, or, in the strict
  -- pack, is security-sensitive. The gates are of different types, and none of the candidates is
  -- left out as a repetition. A security review is always required.
  pub evaluate_plan_local_contract :
      let d = evaluate_plan_local pack level steps in
      (d.allow ≡ not (is_strict pack && (is_critical level && any (tagged is_deployment) steps)))
      × (d.requires_approval ≡ needs_approval)
      × (d.approval_gates ≡ gate_candidates pack level steps)
      × (is_ascending 0 d.approval_gates ≡ true)
      × (d.requires_security_review ≡ true)
  unfolding evaluate_plan_local
  evaluate_plan_local_contract =
      let kept =
        unseen-ascending 0 [] (gate_candidates pack level steps) refl gate_candidates-IsAscending in
      (ground arith, rw kept gates_of_plan, kept, rw kept gate_candidates-IsAscending, refl)

strict_threshold :
    (level : RiskLevel)
    → over_threshold default_pack level ≡ true
    → over_threshold strict_pack level ≡ true
strict_threshold medium h = refl
strict_threshold high h = refl
strict_threshold critical h = refl
strict_threshold other_level h = cc

candidates_covered :
    (level : RiskLevel) (steps : List PlanStep)
    → every
        (λ g. any (same_gate g) (gate_candidates strict_pack level steps))
        (gate_candidates default_pack level steps)
      ≡ true
unfolding gate_candidates
candidates_covered level steps =
    gate_list-covers steps (privileged_steps default_pack level steps)
      (tagged_steps default_pack level steps is_deployment)
      (tagged_steps default_pack level steps is_schema)
      (tagged_steps default_pack level steps is_security_sensitive) _ _ _ _ _ _ _
      (strict_threshold level) (λ h. ground arith)

-- Whatever the risk and the steps, what needs an approval under the default pack needs one under
-- the strict pack, with a gate of the same type and action for each gate of the default pack, and
-- what is allowed under the strict pack is allowed under the default pack.
pub strict_covers_default :
    (level : RiskLevel) (steps : List PlanStep)
    → let d = evaluate_plan_local default_pack level steps in
      let e = evaluate_plan_local strict_pack level steps in
      (d.requires_approval ≡ true → e.requires_approval ≡ true)
      × (every (λ g. any (same_gate g) e.approval_gates) d.approval_gates ≡ true)
      × (e.allow ≡ true → d.allow ≡ true)
strict_covers_default level steps =
    let (free, need, gates, _, _) = evaluate_plan_local_contract default_pack level steps in
    let (_, strict_need, strict_gates, _, _) =
      evaluate_plan_local_contract strict_pack level steps in
    (
      ground (arith, strict_threshold level),
      rw (gates, strict_gates) (candidates_covered level steps),
      λ _. free,
    )
