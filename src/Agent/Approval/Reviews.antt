-- ===== src/Agent/Approval/Reviews.antt =====
-- The expiry and the decision of approvals in agent/application/hitl.py.
use ragflow_agent.Base.{
  ℕ, ◌+◌, String, Bool, true, false, not, ◌&&◌, ◌||◌, none, some, ltb, ◌==◌, overlaps, is_empty,
  if◌then◌else◌, Result, ok, err,
}
use ragflow_agent.Agent.Errors.{AgentRaised, tool_error}
use ragflow_agent.Agent.Tools.{ToolAuthorizationContext, ToolCallSummary}
use ragflow_agent.Agent.Approval.Requests.{
  ApprovalStatus, ApprovalRequest, Store, find, compare_and_set, approval_required, approved,
  rejected, expired, cancelled, succeeded,
}

pub data ApprovalDecision : Type 0 where
  approve reject cancel : ApprovalDecision

abbrev pub is_open : ApprovalStatus → Bool
is_open approval_required = true
is_open _ = false

abbrev pub is_approved : ApprovalStatus → Bool
is_approved approved = true
is_approved _ = false

abbrev pub is_succeeded : ApprovalStatus → Bool
is_succeeded succeeded = true
is_succeeded _ = false

abbrev pub with_status : ApprovalRequest → ApprovalStatus → ApprovalRequest
with_status item status = record item { status = status; revision = item.revision + 1 }

abbrev pub with_result : ApprovalRequest → ToolCallSummary → ApprovalRequest
with_result item summary = record item {
  status = succeeded;
  result_summary = some summary;
  revision = item.revision + 1;
}

abbrev pub is_expired : ApprovalRequest → ℕ → Bool
is_expired item now = is_open item.status && not (ltb now item.expires_at)

-- `_expire_if_needed`: the item to go on with, and the store. A lost race is not noticed here.
unfoldable pub expire_if_needed : ApprovalRequest → ℕ → Store → ApprovalRequest × Store
unfolding compare_and_set
expire_if_needed item now store =
    let stale = with_status item expired in
    if is_expired item now
    then (stale, (compare_and_set item.revision stale store).1)
    else (item, store)

-- `_require`.
abbrev pub require : String → String → Store → Result AgentRaised ApprovalRequest
require tenant_id approval_id store = elim (find tenant_id approval_id store) [
  | none ↦ err (tool_error "approval_not_found")
  | some item ↦ ok item
]

-- Who may decide: the requester or a required role may cancel, only a required role may approve or
-- reject.
unfoldable pub decided_status :
    ApprovalRequest
    → ToolAuthorizationContext
    → ApprovalDecision
    → Result AgentRaised ApprovalStatus
decided_status item context cancel =
    if not (context.actor_id == item.user_id) && not (overlaps context.roles item.required_roles)
    then err (tool_error "approval_forbidden")
    else ok cancelled
decided_status item context approve =
    if is_empty item.required_roles || not (overlaps context.roles item.required_roles)
    then err (tool_error "approval_forbidden")
    else ok approved
decided_status item context reject =
    if is_empty item.required_roles || not (overlaps context.roles item.required_roles)
    then err (tool_error "approval_forbidden")
    else ok rejected

abbrev pub decided : ApprovalRequest → ApprovalStatus → String → ℕ → ApprovalRequest
decided item status actor now = record item {
  status = status;
  decided_by = some actor;
  decided_at = some now;
  revision = item.revision + 1;
}

abbrev after_write :
    Bool × Store → ApprovalRequest → String → String → Result AgentRaised ApprovalRequest × Store
after_write (true, store) updated tenant_id approval_id = (ok updated, store)
after_write (false, store) updated tenant_id approval_id =
    (require tenant_id approval_id store, store)

abbrev write_decision :
    Result AgentRaised ApprovalStatus
    → ApprovalRequest
    → ToolAuthorizationContext
    → String
    → ℕ
    → Store
    → Result AgentRaised ApprovalRequest × Store
write_decision (err e) item context approval_id now store = (err e, store)
write_decision (ok status) item context approval_id now store =
    let updated = decided item status context.actor_id now in
    after_write (compare_and_set item.revision updated store) updated context.tenant_id approval_id

abbrev decide_current :
    ApprovalRequest × Store
    → ToolAuthorizationContext
    → ApprovalDecision
    → String
    → ℕ
    → Result AgentRaised ApprovalRequest × Store
decide_current (item, store) context decision approval_id now =
    if not (is_open item.status)
    then (ok item, store)
    else write_decision (decided_status item context decision) item context approval_id now store

abbrev decide_found :
    Result AgentRaised ApprovalRequest
    → ToolAuthorizationContext
    → ApprovalDecision
    → String
    → ℕ
    → ℕ
    → Store
    → Result AgentRaised ApprovalRequest × Store
decide_found (err e) context decision approval_id now now' store = (err e, store)
decide_found (ok item) context decision approval_id now now' store =
    decide_current (expire_if_needed item now store) context decision approval_id now'

-- `ApprovalService.decide`; `now` is the clock at the expiry test and `now'` at the decision.
unfoldable pub decide :
    String
    → ToolAuthorizationContext
    → ApprovalDecision
    → ℕ
    → ℕ
    → Store
    → Result AgentRaised ApprovalRequest × Store
unfolding find compare_and_set expire_if_needed decided_status
decide approval_id context decision now now' store =
    decide_found (require context.tenant_id approval_id store) context decision approval_id now now'
      store

-- `ApprovalService.get_current`.
unfoldable pub get_current :
    String → String → ℕ → Store → Result AgentRaised ApprovalRequest × Store
unfolding find expire_if_needed
get_current approval_id tenant_id now store = elim (require tenant_id approval_id store) [
  | err e ↦ (err e, store)
  | ok item ↦ (ok (expire_if_needed item now store).0, (expire_if_needed item now store).1)
]
