-- ===== src/Agent/Approval/Requests.antt =====
-- `ApprovalRequest` of agent/domain/agentic.py and its store, `SqlAlchemyApprovalRepository` of
-- agent/infrastructure/database/repositories.py: rows under the primary key (tenant, approval).
use ragflow_agent.Base.{
  ℕ, String, Bool, true, false, ◌&&◌, Option, none, some, List, [], ◌∷◌, ◌++◌, nat_eq, ◌==◌,
  is_none, if◌then◌else◌, Result, ok, err,
}
use ragflow_agent.Agent.Errors.{AgentRaised, failure}
use ragflow_agent.Agent.Tools.{ToolCallSummary}

pub data ApprovalStatus : Type 0 where
  approval_required approved rejected expired cancelled executing succeeded failed : ApprovalStatus

pub record ApprovalRequest : Type 0 where
  pub approval_id : String
  pub run_id : String
  pub thread_id : String
  pub tool_call_id : String
  pub tool_name : String
  pub tool_version : String
  pub argument_digest : String
  pub tenant_id : String
  pub user_id : String
  pub reason : String
  pub required_roles : List String
  pub created_at : ℕ
  pub expires_at : ℕ
  pub idempotency_key : String
  pub status : ApprovalStatus
  pub decided_by : Option String
  pub decided_at : Option ℕ
  pub result_summary : Option ToolCallSummary
  pub revision : ℕ

abbrev pub Store : Type 0
Store = List ApprovalRequest

abbrev pub has_key : String → String → ApprovalRequest → Bool
has_key tenant_id approval_id r = r.tenant_id == tenant_id && r.approval_id == approval_id

-- `get`.
unfoldable pub find : String → String → Store → Option ApprovalRequest
find tenant_id approval_id [] = none
find tenant_id approval_id (r ∷ rows) =
    if has_key tenant_id approval_id r then some r else find tenant_id approval_id rows

-- `get_by_idempotency_key`.
unfoldable pub find_by_idempotency_key : String → String → Store → Option ApprovalRequest
find_by_idempotency_key tenant_id key [] = none
find_by_idempotency_key tenant_id key (r ∷ rows) =
    if r.tenant_id == tenant_id && r.idempotency_key == key
    then some r
    else find_by_idempotency_key tenant_id key rows

-- `save`: an insert, which the primary key and the unique index on (tenant, idempotency key) of
-- agent/infrastructure/database/models.py refuse for a row that is there.
unfoldable pub save : ApprovalRequest → Store → Result AgentRaised Store
unfolding find find_by_idempotency_key
save request rows =
    if is_none (find request.tenant_id request.approval_id rows)
      && is_none (find_by_idempotency_key request.tenant_id request.idempotency_key rows)
    then ok (rows ++ request ∷ [])
    else err failure

-- `compare_and_set`: whether one row was updated, and the rows after it.
unfoldable pub compare_and_set : ℕ → ApprovalRequest → Store → Bool × Store
compare_and_set expected request [] = (false, [])
compare_and_set expected request (r ∷ rows) =
    let (changed, rest) = compare_and_set expected request rows in
    if has_key request.tenant_id request.approval_id r
    then (if nat_eq r.revision expected then (true, request ∷ rows) else (false, r ∷ rows))
    else (changed, r ∷ rest)
