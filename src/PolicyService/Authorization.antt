-- ===== src/PolicyService/Authorization.antt =====
-- What the gateway lets through, and how an approval is decided.
use mathlib.Core.Path.{subst}
use sacm_agent_runtime.Base.{
  All, All-select, Bool, Bool-cases, IsFound, IsKeyed, IsKeyed-AllFound, Key, List, Option,
  Option-cases, Result, String, [], and_then, and_then-eq-ok, ap, approval_required, arith, err,
  false, get, get-key, inl, inr, leb, none, ok, permission_denied, pure, refl, run_not_found,
  select, some, sym, true, ◌==◌, ◌>>◌, ◌||◌, ◌∙◌, ◌∷◌, ◌≡◌,
}
use sacm_agent_runtime.Model.{Actor, Approval, ApprovalStatus, Env, Run, Store, run_key}
use sacm_agent_runtime.PolicyService.Approvals.{
  approval_key, digest_of, expired_approval, find_approval, insert_newest, is_approved, is_over,
  is_pending, new_approval, newest_first, of_action, pending_or_approved, put_approval,
  reuse_or_ask,
}
use sacm_agent_runtime.PolicyService.Actions.{Policies, PolicyDecision, evaluate}
use sacm_agent_runtime.PolicyService.Gateway.{
  TenancyOperations, apply_decision, approved_or_raise, audit_decision, check_access,
  require_allowed, require_approved,
}

module _ (P : Approval → Type 0) where
  All-insert_newest :
      (x : Approval) (xs : List Approval) → P x → All P xs → All P (insert_newest x xs)
  All-insert_newest x [] h k = (h, tt)
  All-insert_newest x (y ∷ ys) h k = elim (Bool-cases (leb y.requested_at x.requested_at)) [
    | inl e ↦ rw e (h, k)
    | inr e ↦ rw e (k.0, All-insert_newest x ys h k.1)
  ]

  All-newest_first : (xs : List Approval) → All P xs → All P (newest_first xs)
  All-newest_first [] h = tt
  All-newest_first (x ∷ xs) h = All-insert_newest x (newest_first xs) h.0 (All-newest_first xs h.1)

  module _ (env : Env) (digest : Key) where
    -- what is found was among the approvals, is bound to the resource and is not over
    find_approval-found :
        (xs : List Approval) (s : Store) (a : Approval)
        → (find_approval env digest xs s).0 ≡ some a
        → All P xs
        → P a × ((digest_of env a == digest) ≡ true) × (is_over env a.expires_at ≡ false)
    unfolding find_approval
    find_approval-found [] s a e h = cc
    find_approval-found (x ∷ xs) s a e h = elim (Bool-cases (digest_of env x == digest)) [
      | inr d ↦ find_approval-found xs s a (rw d at e) h.1
      | inl d ↦ elim (Bool-cases (is_over env x.expires_at)) [
        | inr o ↦ let same_row : x ≡ a = cc (rw (d, o) at e) in rw⁻¹ same_row (h.0, d, o)
        | inl o ↦ elim (Bool-cases (is_pending x.status || is_approved x.status)) [
          | inl p ↦
              find_approval-found xs (put_approval (expired_approval env x) s) a (rw (d, o, p) at e)
                h.1
          | inr p ↦ find_approval-found xs s a (rw (d, o, p) at e) h.1
        ]
      ]
    ]

-- The approval of the action on the resource for the run, which is a row, APPROVED and not over.
pub record IsGranted (env : Env) (rows : List Approval) (run_id : Key) (action resource : String)
    (a : Approval) : Type 0 where
  pub row : get approval_key a.id rows ≡ some a
  pub own_action : of_action env run_id action a ≡ true
  pub digest : (digest_of env a == env.resource_digest resource) ≡ true
  pub approved : is_approved a.status ≡ true
  pub valid : is_over env a.expires_at ≡ false

module _ (env : Env) (action resource : String) where
  reuse_or_ask-approved :
      (run : Run) (o : Option Approval × Store) (a : Approval)
      → (reuse_or_ask env run action resource o).0 ≡ ok a
      → is_approved a.status ≡ true
      → o.0 ≡ some a
  reuse_or_ask-approved run (some b, s) a e h = let same_row : b ≡ a = cc in ap some same_row
  reuse_or_ask-approved run (none, s) a e h =
      let same_row : new_approval env run action resource ≡ a = cc in
      let status : a.status ≡ ApprovalStatus.pending =
        ap (λ (x : Approval). x.status) (sym same_row) in
      ground arith

  pending_or_approved-IsGranted :
      (run_id : Key) (s : Store) (a : Approval)
      → (pending_or_approved env run_id action resource s).0 ≡ ok a
      → is_approved a.status ≡ true
      → IsKeyed approval_key s.approvals
      → IsGranted env s.approvals run_id action resource a
  unfolding pending_or_approved
  pending_or_approved-IsGranted run_id s a e h u = elim (Option-cases (get run_key run_id s.runs)) [
    | inl f ↦ let missing : err run_not_found ≡ ok a = rw f at e in cc
    | inr (run, f) ↦
        let own : run.id ≡ run_id = get-key run_key run_id s.runs run f in
        let rows = select (of_action env run.id action) s.approvals in
        let search = find_approval env (env.resource_digest resource) (newest_first rows) s in
        let hit : search.0 ≡ some a = reuse_or_ask-approved run search a (rw f at e) h in
        let P = λ (x : Approval).
          IsFound approval_key s.approvals x × (of_action env run.id action x ≡ true) in
        let ((row, own_action), digest, valid) =
          find_approval-found P env (env.resource_digest resource) (newest_first rows) s a hit (
            All-newest_first P rows (
              All-select (IsFound approval_key s.approvals) (of_action env run.id action)
                s.approvals (IsKeyed-AllFound approval_key s.approvals u))) in
        record {
          row = row;
          own_action = rw own at own_action;
          digest = digest;
          approved = h;
          valid = valid;
        }
  ]

pub and_then-pure :
    {A B : Type 0} (b : B) (r : Result A × Store) → (and_then (λ _. pure b) r).1 ≡ r.1
and_then-pure b (ok a, s) = refl
and_then-pure b (err x, s) = refl

module _ (tenancy : TenancyOperations) (env : Env) (action resource : String) where
  check_access-approvals :
      (run_id : Option Key) (actor : Option Actor) (trusted_internal : Bool) (s : Store)
      → (check_access tenancy env run_id actor trusted_internal s).1.approvals ≡ s.approvals
  check_access-approvals none actor trusted_internal s = refl
  check_access-approvals (some k) (some actor) trusted_internal s =
      ap (λ (x : Store). x.approvals) (and_then-pure tt (tenancy.require_run k actor s))
      ∙ tenancy.require_run-approvals k actor s
  check_access-approvals (some k) none trusted_internal s = ground arith

  audit_decision-approvals :
      (run_id : Option Key) (actor : Option Actor) (s : Store)
      → (audit_decision tenancy env run_id actor action s).1.approvals ≡ s.approvals
  audit_decision-approvals none actor s = refl
  audit_decision-approvals (some k) (some actor) s = tenancy.audit-approvals actor action s
  audit_decision-approvals (some k) none s = refl

  -- the approval that a decision asks for
  abbrev NeedsGrant : PolicyDecision → List Approval → Option Key → Type 0
  NeedsGrant d rows run_id =
      d.requires_approval ≡ true
      → (k : Key) × (run_id ≡ some k) × ((a : Approval) × IsGranted env rows k action resource a)

  require_approved-IsGranted :
      (run_id : Option Key) (s : Store)
      → IsKeyed approval_key s.approvals
      → (require_approved tenancy env run_id action resource s).0 ≡ ok tt
      → (k : Key) × (run_id ≡ some k)
        × ((a : Approval) × IsGranted env s.approvals k action resource a)
  require_approved-IsGranted none s u e = cc
  require_approved-IsGranted (some k) s u e =
      let (a, hit, rest) =
        and_then-eq-ok (approved_or_raise tenancy env) (pending_or_approved env k action resource s)
          e in
      elim (Bool-cases (is_approved a.status)) [
        | inl h ↦ (k, refl, (a, pending_or_approved-IsGranted env action resource k s a hit h u))
        | inr h ↦ let refused : err approval_required ≡ ok tt = rw h at rest in cc
      ]

  apply_decision-NeedsGrant :
      (d : PolicyDecision) (run_id : Option Key) (s : Store)
      → IsKeyed approval_key s.approvals
      → (apply_decision tenancy env d run_id action resource s).0 ≡ ok tt
      → (d.allowed ≡ true) × NeedsGrant d s.approvals run_id
  apply_decision-NeedsGrant d run_id s u e = elim (Bool-cases d.allowed) [
    | inr h ↦ let refused : err permission_denied ≡ ok tt = rw h at e in cc
    | inl h ↦ (h, λ r. require_approved-IsGranted run_id s u (rw (h, r) at e))
  ]

  -- If the ids of the approvals are unique and `require_allowed` returns, then the policies allow
  -- the action on the resource; and if they require an approval, then the call names a run, and
  -- before the call there was an approval in the database for that run and that action, bound to
  -- the digest of that resource, which was APPROVED and is not over.
  pub require_allowed_grants :
      (policies : Policies) (run_id : Option Key) (actor : Option Actor) (trusted_internal : Bool)
      (s : Store)
      → IsKeyed approval_key s.approvals
      → (require_allowed tenancy env policies action resource run_id actor trusted_internal s).0
        ≡ ok tt
      → let d = evaluate policies action resource run_id in
        (d.allowed ≡ true)
        × (d.requires_approval ≡ true
            → (k : Key) × (run_id ≡ some k)
              × ((a : Approval) × IsGranted env s.approvals k action resource a))
  unfolding require_allowed
  require_allowed_grants policies run_id actor trusted_internal s u e =
      let d = evaluate policies action resource run_id in
      let checked = check_access tenancy env run_id actor trusted_internal s in
      let audited = audit_decision tenancy env run_id actor action checked.1 in
      let same_rows : audited.1.approvals ≡ s.approvals =
        audit_decision-approvals run_id actor checked.1
        ∙ check_access-approvals run_id actor trusted_internal s in
      let (_, _, after_check) =
        and_then-eq-ok
          (λ _.
            audit_decision tenancy env run_id actor action
            >> apply_decision tenancy env d run_id action resource)
          checked e in
      let (_, _, after_audit) =
        and_then-eq-ok (λ _. apply_decision tenancy env d run_id action resource) audited
          after_check in
      let (allowed, granted) =
        apply_decision-NeedsGrant d run_id audited.1
          (subst (IsKeyed approval_key) (sym same_rows) u) after_audit in
      (allowed, subst (λ rows. NeedsGrant d rows run_id) same_rows granted)
