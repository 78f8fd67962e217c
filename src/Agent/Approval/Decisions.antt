-- ===== src/Agent/Approval/Decisions.antt =====
-- What `ApprovalService.resume` of agent/application/hitl.py does with a stored approval when no other
-- process writes: how often a decision can run the tool.
use ragflow_agent.Base.{
  ℕ, ◌≡◌, ◌≢◌, refl, inl, inr, String, Bool, true, false, none, some, arith, Result, ok, err,
  Option-cases, Bool-cases,
}
use ragflow_agent.Base.Dict.{Dict}
use ragflow_agent.Agent.Errors.{AgentRaised}
use ragflow_agent.Agent.Platform.{Platform}
use ragflow_agent.Agent.Budget.{BudgetLedger}
use ragflow_agent.Agent.Tools.{
  ToolAuthorizationContext, ToolInvocation, ToolRegistration, ToolPolicyDecision, ToolService,
  Attempt, Executed, authorize, execute, ToolExecutionOutcome,
}
use ragflow_agent.Agent.Approval.Requests.{
  ApprovalRequest, Store, find, compare_and_set, executing, failed,
}
use ragflow_agent.Agent.Approval.Rows.{find-has_key, find-compare_and_set, compare_and_set-lost}
use ragflow_agent.Agent.Approval.{
  is_approved, expire_if_needed, resume, with_status, with_result, settle, permitted,
}

expire_if_needed-find :
    (t a : String) (item : ApprovalRequest) (now : ℕ) (store : Store)
    → find t a store ≡ some item
    → is_approved (expire_if_needed item now store).0.status ≡ true
    → (expire_if_needed item now store ≡ (item, store)) × (is_approved item.status ≡ true)
unfolding expire_if_needed
expire_if_needed-find t a item now store f h = ground arith

-- The approval is there and approved.
pub stands_approved : String → String → Store → Bool
unfolding find
stands_approved t a store = elim (find t a store) [ none ↦ false | some r ↦ is_approved r.status ]

read_back :
    (t a : String) (u : ApprovalRequest) (store : Store)
    → u.tenant_id ≡ t
    → u.approval_id ≡ a
    → is_approved u.status ≡ false
    → find u.tenant_id u.approval_id store ≡ some u
    → stands_approved t a store ≡ false
unfolding stands_approved
read_back t a u store p q n f = ground arith

-- A second write over a row that is not approved leaves none that is.
rewritten :
    (t a : String) (n : ℕ) (u v : ApprovalRequest) (store : Store)
    → u.tenant_id ≡ t
    → u.approval_id ≡ a
    → v.tenant_id ≡ t
    → v.approval_id ≡ a
    → is_approved u.status ≡ false
    → is_approved v.status ≡ false
    → find u.tenant_id u.approval_id store ≡ some u
    → stands_approved t a (compare_and_set n v store).1 ≡ false
rewritten t a n u v store p q p' q' h h' f = elim (Bool-cases (compare_and_set n v store).0) [
  | inl e ↦ read_back t a v _ p' q' h' (find-compare_and_set n v store e)
  | inr e ↦ rw (compare_and_set-lost n v store e) (read_back t a u store p q h f)
]

module _ (P : Platform) {N : Type 0} where
  settle-stands_approved :
      (t a : String) (r : Result AgentRaised ToolExecutionOutcome) (u : ApprovalRequest)
      (e : Executed N) (store : Store)
      → u.tenant_id ≡ t
      → u.approval_id ≡ a
      → is_approved u.status ≡ false
      → find u.tenant_id u.approval_id store ≡ some u
      → stands_approved t a (settle P r u e store).store ≡ false
  settle-stands_approved t a (err x) u e store p q h f =
      rewritten t a u.revision u (with_status u failed) store p q p q h refl f
  settle-stands_approved t a (ok o) u e store p q h f =
      elim (Bool-cases (compare_and_set u.revision (with_result u o.summary) store).0) [
        | inl c ↦
            ground
              (arith, rewritten t a u.revision u (with_result u o.summary) store p q p q h refl f)
        | inr c ↦
            ground
              (arith, rewritten t a u.revision u (with_result u o.summary) store p q p q h refl f)
      ]

  permitted-stands_approved :
      (r : Result AgentRaised (ToolRegistration × ToolPolicyDecision)) (t a : String)
      (item : ApprovalRequest) (e : Executed N) (store : Store) (service : ToolService)
      (ledger : BudgetLedger N)
      → item.tenant_id ≡ t
      → item.approval_id ≡ a
      → (permitted P r item t a e store service ledger).calls ≢ 0
      → stands_approved t a (permitted P r item t a e store service ledger).store ≡ false
  permitted-stands_approved (err x) t a item e store service ledger p q h = absurd (h refl)
  permitted-stands_approved (ok (registration, d)) t a item e store service ledger p q h =
      let u = with_status item executing in
      elim (Bool-cases (compare_and_set item.revision u store).0) [
        | inl c ↦ ground (
          arith,
          settle-stands_approved t a e.result u e (compare_and_set item.revision u store).1 p q refl
              (find-compare_and_set item.revision u store c),
        )
        | inr c ↦ absurd (ground arith)
      ]

  not_approved_calls :
      (registry : Dict ToolRegistration) (world : ℕ → Attempt) (approval_id : String)
      (i : ToolInvocation) (context : ToolAuthorizationContext) (now : ℕ) (store : Store)
      (service : ToolService) (ledger : BudgetLedger N)
      → stands_approved context.tenant_id approval_id store ≡ false
      → (resume P registry world approval_id i context now store service ledger).calls ≡ 0
  unfolding resume stands_approved expire_if_needed
  not_approved_calls registry world approval_id i context now store service ledger h = ground arith

  resume-stands_approved :
      (registry : Dict ToolRegistration) (world : ℕ → Attempt) (approval_id : String)
      (i : ToolInvocation) (context : ToolAuthorizationContext) (now : ℕ) (store : Store)
      (service : ToolService) (ledger : BudgetLedger N)
      → (resume P registry world approval_id i context now store service ledger).calls ≢ 0
      → stands_approved context.tenant_id approval_id
          (resume P registry world approval_id i context now store service ledger).store
        ≡ false
  unfolding resume expire_if_needed
  resume-stands_approved registry world approval_id i context now store service ledger h =
      elim (Option-cases (find context.tenant_id approval_id store)) [
        | inl p ↦ absurd (ground arith)
        | inr (item, p) ↦
            let k = find-has_key context.tenant_id approval_id store item p in
            let e = execute P registry world i context true service ledger in
            ground (
              arith,
              permitted-stands_approved (authorize P registry i context) context.tenant_id
                  approval_id item e store service ledger k.0 k.1,
            )
      ]

  -- An approval is good for one execution: after a resume that called the tool's handler, whether it
  -- succeeded or raised, any resume of that approval in its tenant, with whatever call, context,
  -- registry, clock, memory and budget, calls no handler.
  pub resume_once :
      (registry registry' : Dict ToolRegistration) (world world' : ℕ → Attempt)
      (approval_id : String) (i i' : ToolInvocation) (context context' : ToolAuthorizationContext)
      (now now' : ℕ) (store : Store) (service service' : ToolService)
      (ledger ledger' : BudgetLedger N)
      → context'.tenant_id ≡ context.tenant_id
      → let first = resume P registry world approval_id i context now store service ledger in
        first.calls ≢ 0
        → (resume P registry' world' approval_id i' context' now' first.store service'
            ledger').calls
          ≡ 0
  resume_once registry registry' world world' approval_id i i' context context' now now' store
        service service' ledger ledger' t h =
      not_approved_calls registry' world' approval_id i' context' now' _ service' ledger' (
        rw t
          (resume-stands_approved registry world approval_id i context now store service ledger h))
