-- ===== src/PolicyService/Decisions.antt =====
-- How an approval is decided, and that it is decided once.
use mathlib.Core.Path.{subst}
use sacm_agent_runtime.Base.{
  ==-refl, Bool, Bool-cases, Error, Key, List, Option, Result, Result-cases, String,
  already_decided, and_then, and_then-eq-ok, and_then_assoc, ap, approval_expired, arith, err,
  false, get, get-key, get-put, if◌then◌else◌, inl, inr, none, ok, pure, refl, some, sym, true,
  update, ◌==◌, ◌>>◌, ◌∙◌, ◌≡◌,
}
use sacm_agent_runtime.Model.{Actor, Approval, ApprovalStatus, Env, Store}
use sacm_agent_runtime.PolicyService.Approvals.{approval_key, is_over, is_pending}
use sacm_agent_runtime.PolicyService.Gateway.{
  TenancyOperations, decide, decide_on, decided_approval, require_approval_row,
}
use sacm_agent_runtime.PolicyService.Authorization.{and_then-pure}

-- The approval as a decision leaves it.
pub record HasDecision (env : Env) (approve : Bool) (actor : Actor) (reason : String)
    (a b : Approval) : Type 0 where
  pub status : b.status ≡ (if approve then ApprovalStatus.approved else ApprovalStatus.rejected)
  pub decided_by : b.decided_by ≡ some actor
  pub decision_reason : b.decision_reason ≡ some reason
  pub decided_at : b.decided_at ≡ some env.now
  pub others : b ≡ record a {
    status = b.status;
    decided_by = b.decided_by;
    decision_reason = b.decision_reason;
    decided_at = b.decided_at;
  }

module _ (tenancy : TenancyOperations) (env : Env) where
  decided_approval-HasDecision :
      (approve : Bool) (actor : Actor) (reason : String) (a : Approval)
      → HasDecision env approve actor reason a (decided_approval tenancy env approve actor reason a)
  decided_approval-HasDecision approve actor reason a = record {
    status = refl;
    decided_by = refl;
    decision_reason = refl;
    decided_at = refl;
    others = refl;
  }

  -- what a decision has made of its approval
  abbrev pub IsDecided : Key → Bool → Actor → String → Approval → Store → Store → Type 0
  IsDecided approval_id approve actor reason b s s' =
      (a : Approval) × (get approval_key approval_id s.approvals ≡ some a)
      × (is_pending a.status ≡ true)
      × (is_over env a.expires_at ≡ false)
      × HasDecision env approve actor reason a b
      × (get approval_key approval_id s'.approvals ≡ some b)

  written_row :
      (k : Key) (rows : List Approval) (a b : Approval)
      → get approval_key k rows ≡ some a
      → b.id ≡ a.id
      → get approval_key k (update (λ x. x.id == b.id) (λ _. b) rows) ≡ some b
  written_row k rows a b f same_id =
      let own : b.id ≡ k = same_id ∙ get-key approval_key k rows a f in
      get-put approval_key b k rows ∙ rw (f, own, ==-refl k) refl

  row_of_approval :
      (actor : Actor) (o : Option Approval) (s : Store) (a : Approval)
      → (require_approval_row tenancy env actor o s).0 ≡ ok a
      → (o ≡ some a) × ((require_approval_row tenancy env actor o s).1.approvals ≡ s.approvals)
  row_of_approval actor none s a e = cc
  row_of_approval actor (some x) s a e =
      let checked = tenancy.require_run x.run_id actor s in
      let (run, _, same_row) = and_then-eq-ok (λ _. pure x) checked e in
      let own : x ≡ a = cc in
      (
        ap some own,
        ap (λ (y : Store). y.approvals) (and_then-pure x checked)
            ∙ tenancy.require_run-approvals x.run_id actor s,
      )

  -- the audit that follows the commit
  audited :
      (actor : Actor) (r : Result Approval × Store) (b : Approval)
      → (and_then (λ c. tenancy.audit actor "approval.decide" >> pure c) r).0 ≡ ok b
      → (r.0 ≡ ok b)
        × ((and_then (λ c. tenancy.audit actor "approval.decide" >> pure c) r).1.approvals
            ≡ r.1.approvals)
  audited actor (err x, s) b e = cc
  audited actor (ok c, s) b e =
      let written = tenancy.audit actor "approval.decide" s in
      let (_, _, same_row) = and_then-eq-ok (λ _. pure c) written e in
      let own : c ≡ b = cc in
      (
        ap ok own,
        ap (λ (y : Store). y.approvals) (and_then-pure c written)
            ∙ tenancy.audit-approvals actor "approval.decide" s,
      )

  decided_row :
      (approve : Bool) (actor : Actor) (reason : String) (r : Result Approval × Store)
      (b : Approval)
      → (and_then (decide_on tenancy env approve actor reason) r).0 ≡ ok b
      → (a : Approval) × (r.0 ≡ ok a)
        × (is_pending a.status ≡ true)
        × (is_over env a.expires_at ≡ false)
        × (b ≡ decided_approval tenancy env approve actor reason a)
        × ((and_then (decide_on tenancy env approve actor reason) r).1.approvals
            ≡ update (λ x. x.id == b.id) (λ _. b) r.1.approvals)
  decided_row approve actor reason (err x, s) b e = cc
  decided_row approve actor reason (ok a, s) b e = elim (Bool-cases (is_over env a.expires_at)) [
    | inl o ↦ let refused : err approval_expired ≡ ok b = rw o at e in cc
    | inr o ↦ elim (Bool-cases (is_pending a.status)) [
      | inr p ↦ let refused : err already_decided ≡ ok b = rw (o, p) at e in cc
      | inl p ↦
          let same_row : decided_approval tenancy env approve actor reason a ≡ b =
            cc (rw (o, p) at e) in
          (
            a,
            refl,
            p,
            o,
            sym same_row,
            rw (o, p)
                (ap (λ (y : Approval). update (λ x. x.id == y.id) (λ _. y) s.approvals) same_row),
          )
    ]
  ]

  -- If `decide` returns, then before the call the approval was PENDING and not over, and after it
  -- the row, which is returned, is APPROVED or REJECTED as was asked, by the actor, with the
  -- reason and the time, and is otherwise as it was.
  pub decide_contract :
      (approval_id : Key) (approve : Bool) (actor : Actor) (reason : String) (b : Approval)
      (s : Store)
      → (decide tenancy env approval_id approve actor reason s).0 ≡ ok b
      → IsDecided approval_id approve actor reason b s
          (decide tenancy env approval_id approve actor reason s).1
  unfolding decide
  decide_contract approval_id approve actor reason b s e =
      let found =
        require_approval_row tenancy env actor (get approval_key approval_id s.approvals) s in
      let settled = and_then (decide_on tenancy env approve actor reason) found in
      let grouped =
        and_then_assoc (decide_on tenancy env approve actor reason)
          (λ c. tenancy.audit actor "approval.decide" >> pure c) found in
      let (written, rows_kept) = audited actor settled b (ap (λ r. r.0) (sym grouped) ∙ e) in
      let (a, hit, pending_row, valid, same_row, rows) =
        decided_row approve actor reason found b written in
      let (row, same_rows) =
        row_of_approval actor (get approval_key approval_id s.approvals) s a hit in
      let left = ap (λ r. r.1.approvals) grouped ∙ rows_kept ∙ rows in
      (
        a,
        row,
        pending_row,
        valid,
        subst (HasDecision env approve actor reason a) (sym same_row)
            (decided_approval-HasDecision approve actor reason a),
        rw (left, same_rows)
            (written_row approval_id s.approvals a b row (ap (λ (x : Approval). x.id) same_row)),
      )

decided_is_not_pending :
    (env : Env) (approve : Bool) (actor : Actor) (reason : String) (a b : Approval)
    → HasDecision env approve actor reason a b
    → is_pending b.status ≡ false
decided_is_not_pending env approve actor reason a b made = rw made.status (ground arith)

-- An approval is decided once: if `decide` has returned, then until the next change it raises for
-- the same approval, whoever calls it, at whatever clock and with whatever decision.
pub decide_once :
    (tenancy : TenancyOperations) (env : Env) (approval_id : Key) (approve : Bool) (actor : Actor)
    (reason : String) (b : Approval) (s : Store) (later : Env) (approve' : Bool) (actor' : Actor)
    (reason' : String)
    → (decide tenancy env approval_id approve actor reason s).0 ≡ ok b
    → (x : Error) × ((decide tenancy later approval_id approve' actor' reason'
          (decide tenancy env approval_id approve actor reason s).1).0
        ≡ err x)
decide_once tenancy env approval_id approve actor reason b s later approve' actor' reason' e =
    let (a, _, _, _, made, row) =
      decide_contract tenancy env approval_id approve actor reason b s e in
    let s' : Store = (decide tenancy env approval_id approve actor reason s).1 in
    elim (Result-cases (decide tenancy later approval_id approve' actor' reason' s').0) [
      | inr r ↦ r
      | inl (c, f) ↦
          let (a', row', waiting, _, _, _) =
            decide_contract tenancy later approval_id approve' actor' reason' c s' f in
          let same_row : b ≡ a' = cc in
          let open_row : is_pending b.status ≡ true = rw same_row waiting in
          let closed : is_pending b.status ≡ false =
            decided_is_not_pending env approve actor reason a b made in
          cc
    ]
