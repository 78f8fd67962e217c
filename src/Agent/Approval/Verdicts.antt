-- ===== src/Agent/Approval/Verdicts.antt =====
-- What `ApprovalService.decide` of agent/application/hitl.py does with a stored approval when no other
-- process writes.
use ragflow_agent.Base.{
  ℕ, ◌≡◌, ◌≤◌, ◌<◌, refl, sym, subst, ◌∙◌, [], ◌∷◌, ltb, eq_iff, inl, inr, String, Bool, true,
  false, not, ◌&&◌, ◌||◌, some, arith, Result, ok, err, overlaps, is_empty, ◌==◌, Bool-cases,
}
use ragflow_agent.Agent.Errors.{AgentRaised, tool_error}
use ragflow_agent.Agent.Tools.{ToolAuthorizationContext}
use ragflow_agent.Agent.Approval.Requests.{
  ApprovalRequest, ApprovalStatus, approval_required, approved, expired, Store, find,
  compare_and_set,
}
use ragflow_agent.Agent.Approval.Rows.{find-has_key, find-compare_and_set}
use ragflow_agent.Agent.Approval.{
  ApprovalDecision, approve, reject, cancel, is_open, decided_status, decided, decide,
  expire_if_needed, with_status,
}

-- The caller has a role that the approval requires; only then may it approve or reject.
abbrev pub holds_role : ToolAuthorizationContext → ApprovalRequest → Bool
holds_role context item = overlaps context.roles item.required_roles

-- Who may take a decision.
abbrev pub may_decide : ToolAuthorizationContext → ApprovalRequest → ApprovalDecision → Bool
may_decide context item cancel = context.actor_id == item.user_id || holds_role context item
may_decide context item approve = not (is_empty item.required_roles) && holds_role context item
may_decide context item reject = not (is_empty item.required_roles) && holds_role context item

decided_status-may :
    (item : ApprovalRequest) (context : ToolAuthorizationContext) (d : ApprovalDecision)
    → may_decide context item d ≡ false
    → decided_status item context d ≡ err (tool_error "approval_forbidden")
unfolding decided_status
decided_status-may item context approve h = ground arith
decided_status-may item context reject h = ground arith
decided_status-may item context cancel h = ground arith

-- The status that a decision gives.
abbrev pub verdict : ApprovalDecision → ApprovalStatus
verdict approve = approved
verdict reject = ApprovalStatus.rejected
verdict cancel = ApprovalStatus.cancelled

decided_status-verdict :
    (item : ApprovalRequest) (context : ToolAuthorizationContext) (d : ApprovalDecision)
    → may_decide context item d ≡ true
    → decided_status item context d ≡ ok (verdict d)
unfolding decided_status
decided_status-verdict item context approve h = ground arith
decided_status-verdict item context reject h = ground arith
decided_status-verdict item context cancel h = ground arith

-- A row that was read is written over.
compare_and_set-found :
    (t a : String) (item u : ApprovalRequest) (store : Store)
    → find t a store ≡ some item
    → u.tenant_id ≡ item.tenant_id
    → u.approval_id ≡ item.approval_id
    → (compare_and_set item.revision u store).0 ≡ true
unfolding find compare_and_set
compare_and_set-found t a item u [] f p q = absurd (ground arith)
compare_and_set-found t a item u (x ∷ rows) f p q =
    let k = find-has_key t a (x ∷ rows) item f in
    ground (
      arith,
      compare_and_set-found t a item u rows,
      eq_iff x.tenant_id t,
      eq_iff x.approval_id a,
      eq_iff x.tenant_id u.tenant_id,
      eq_iff x.approval_id u.approval_id,
    )

-- It is read back under the key that was asked for.
find-written :
    (t a : String) (item u : ApprovalRequest) (store : Store)
    → find t a store ≡ some item
    → u.tenant_id ≡ item.tenant_id
    → u.approval_id ≡ item.approval_id
    → find t a (compare_and_set item.revision u store).1 ≡ some u
find-written t a item u store f p q =
    let (k, l) = find-has_key t a store item f in
    subst (λ x. find x a (compare_and_set item.revision u store).1 ≡ some u) (p ∙ k)
      (subst (λ x. find u.tenant_id x (compare_and_set item.revision u store).1 ≡ some u) (q ∙ l)
        (find-compare_and_set item.revision u store (compare_and_set-found t a item u store f p q)))

-- What a decision about a stored approval leaves in the store and answers.
pub data Decides (context : ToolAuthorizationContext) (d : ApprovalDecision) (now now' : ℕ)
    (t a : String) (store : Store) (item : ApprovalRequest)
    : Result AgentRaised ApprovalRequest × Store → Type 0 where
  taken :
      {s : Store}
      → item.status ≡ approval_required
      → now < item.expires_at
      → may_decide context item d ≡ true
      → find t a s ≡ some (decided item (verdict d) context.actor_id now')
      → Decides context d now now' t a store item
          (ok (decided item (verdict d) context.actor_id now'), s)
  forbidden :
      item.status ≡ approval_required
      → now < item.expires_at
      → may_decide context item d ≡ false
      → Decides context d now now' t a store item (err (tool_error "approval_forbidden"), store)
  lapsed :
      {s : Store}
      → item.status ≡ approval_required
      → item.expires_at ≤ now
      → find t a s ≡ some (with_status item expired)
      → Decides context d now now' t a store item (ok (with_status item expired), s)
  closed :
      (item.status ≡ approval_required → ⊥)
      → Decides context d now now' t a store item (ok item, store)

is_open_iff : (s : ApprovalStatus) → is_open s ≡ true → s ≡ approval_required
is_open_iff approval_required h = refl
is_open_iff s h = cc

not_open : (s : ApprovalStatus) → is_open s ≡ false → s ≡ approval_required → ⊥
not_open s h e = ground arith

-- A decision about a stored approval, when no other process writes: an open one that has not expired is
-- decided if the caller may, the new row is stored and returned; else it is refused and nothing changes.
-- An open one that has expired is stored and returned as expired, and one that is not open is returned
-- as it is. An approval or a rejection may be taken by a caller with one of the required roles, a
-- cancellation also by the requester.
pub decide-Decides :
    (approval_id : String) (context : ToolAuthorizationContext) (d : ApprovalDecision)
    (now now' : ℕ) (store : Store) (item : ApprovalRequest)
    → find context.tenant_id approval_id store ≡ some item
    → Decides context d now now' context.tenant_id approval_id store item
        (decide approval_id context d now now' store)
unfolding decide expire_if_needed
decide-Decides a context d now now' store item f =
    let t = context.tenant_id in
    elim (Bool-cases (is_open item.status)) [
      | inr o ↦
          subst (Decides context d now now' t a store item) (sym (ground arith))
            (Decides.closed (not_open item.status o))
      | inl o ↦ elim (Bool-cases (ltb now item.expires_at)) [
        | inr e ↦
            let stale = with_status item expired in
            subst (Decides context d now now' t a store item) (sym (ground arith)) (
              Decides.lapsed {s = (compare_and_set item.revision stale store).1}
                (is_open_iff item.status o) (ground arith)
                (find-written t a item stale store f refl refl))
        | inl e ↦ elim (Bool-cases (may_decide context item d)) [
          | inr m ↦
              subst (Decides context d now now' t a store item)
                (sym (ground (arith, decided_status-may item context d m)))
                (Decides.forbidden (is_open_iff item.status o) (ground arith) m)
          | inl m ↦
              let u = decided item (verdict d) context.actor_id now' in
              subst (Decides context d now now' t a store item)
                (sym (
                  ground (
                    arith,
                    decided_status-verdict item context d m,
                    compare_and_set-found t a item u store f refl refl,
                  )))
                (Decides.taken {s = (compare_and_set item.revision u store).1}
                  (is_open_iff item.status o) (ground arith) m
                  (find-written t a item u store f refl refl))
        ]
      ]
    ]
