-- ===== src/Agent/Approval.antt =====
-- agent/application/hitl.py: approvals of tool calls by people, their decision, their expiry and the
-- execution of an approved call. Clock readings and fresh identifiers are arguments.
pub mod Requests
pub mod Reviews
pub mod Rows
pub mod Concurrency
pub mod Decisions
pub mod Verdicts
pub use Requests.*
unfoldable pub use Reviews.*
use ragflow_agent.Base.{
  ℕ, ◌+◌, String, Bool, true, false, not, ◌&&◌, ◌||◌, Option, none, some, List, [], ltb, ◌==◌,
  overlaps, elem, is_empty, is_none, if◌then◌else◌, Result, ok, err, ◌>>=◌, ◌>>◌, raise_if, map_ok,
}
use mathlib.Core.Option
use ragflow_agent.Base.Dict.{Dict}
use ragflow_agent.Agent.Errors.{AgentRaised, tool_error}
use ragflow_agent.Agent.Platform.{Platform}
use ragflow_agent.Agent.Budget.{BudgetLedger}
use ragflow_agent.Agent.Tools.{
  ToolAuthorizationContext, ToolInvocation, ToolRegistration, ToolPolicyDecision, ToolCallSummary,
  ToolExecutionOutcome, OutcomeStatus, ToolService, Attempt, Executed, argument_digest, authorize,
  execute, is_deny,
}

-- The idempotency key of a request, before its digest.
abbrev request_key :
    Platform
    → ToolAuthorizationContext
    → String
    → ToolInvocation
    → (String → String → String → String → String)
    → String
request_key P context run_id i join =
    P.sha256 (join context.tenant_id run_id i.tool_call_id (argument_digest P i))

-- `ApprovalService.request`. `join` writes the four parts with colons between them.
unfoldable pub request :
    Platform
    → (String → String → String → String → String)
    → String
    → String
    → ToolInvocation
    → ToolAuthorizationContext
    → String
    → List String
    → ℕ
    → ℕ
    → String
    → Store
    → Result AgentRaised (ApprovalRequest × Store)
unfolding find_by_idempotency_key save
request P join run_id thread_id i context reason required_roles now ttl new_id store =
    let key = request_key P context run_id i join in
    let item : ApprovalRequest = record {
      approval_id = new_id;
      run_id = run_id;
      thread_id = thread_id;
      tool_call_id = i.tool_call_id;
      tool_name = i.tool_name;
      tool_version = i.tool_version;
      argument_digest = argument_digest P i;
      tenant_id = context.tenant_id;
      user_id = context.actor_id;
      reason = reason;
      required_roles = required_roles;
      created_at = now;
      expires_at = now + ttl;
      idempotency_key = key;
      status = approval_required;
      decided_by = none;
      decided_at = none;
      result_summary = none;
      revision = 0;
    } in
    elim (find_by_idempotency_key context.tenant_id key store) [
      | some existing ↦ ok (existing, store)
      | none ↦ map_ok (λ store'. (item, store')) (save item store)
    ]

-- What a resume returns, the store, the service and the ledger after it, and how often it ran the
-- handler.
pub record Resumed (N : Type 0) : Type 0 where
  pub result : Result AgentRaised ToolExecutionOutcome
  pub store : Store
  pub service : ToolService
  pub ledger : BudgetLedger N
  pub calls : ℕ

-- `f"approval_{item.status.value}"`.
abbrev status_error : ApprovalStatus → AgentRaised
status_error approval_required = tool_error "approval_approval_required"
status_error approved = tool_error "approval_approved"
status_error rejected = tool_error "approval_rejected"
status_error expired = tool_error "approval_expired"
status_error cancelled = tool_error "approval_cancelled"
status_error executing = tool_error "approval_executing"
status_error succeeded = tool_error "approval_succeeded"
status_error failed = tool_error "approval_failed"

-- An outcome that repeats a stored summary.
abbrev pub stored_outcome : ToolCallSummary → ToolExecutionOutcome
stored_outcome summary = record {
  status = OutcomeStatus.success;
  summary = summary;
  output = none;
  approval_reason = none;
  required_roles = [];
  injection_detected = false;
}

-- The outcome that is stored, if the approval has succeeded with one.
abbrev pub stored_result : ApprovalRequest → Option ToolExecutionOutcome
stored_result item =
    if is_succeeded item.status then Option.map stored_outcome item.result_summary else none

module _ (P : Platform) where
  -- The approval is for this call.
  abbrev pub is_same_call : ApprovalRequest → ToolInvocation → Bool
  is_same_call item i =
      item.tool_call_id == i.tool_call_id
      && item.tool_name == i.tool_name
      && item.tool_version == i.tool_version
      && item.argument_digest == argument_digest P i

  module _ {N : Type 0} where
    abbrev halted :
        Result AgentRaised ToolExecutionOutcome → Store → ToolService → BudgetLedger N → Resumed N
    halted r store service ledger = record {
      result = r;
      store = store;
      service = service;
      ledger = ledger;
      calls = 0;
    }

    abbrev persisted : Bool × Store → ToolExecutionOutcome → Executed N → Resumed N
    persisted (true, store) outcome e = record {
      result = ok outcome;
      store = store;
      service = e.service;
      ledger = e.ledger;
      calls = e.calls;
    }
    persisted (false, store) outcome e = record {
      result = err (tool_error "approval_result_conflict");
      store = store;
      service = e.service;
      ledger = e.ledger;
      calls = e.calls;
    }

    -- After the execution: its outcome is written, or its failure.
    abbrev pub settle :
        Result AgentRaised ToolExecutionOutcome → ApprovalRequest → Executed N → Store → Resumed N
    settle (err x) executing_item e store = record {
      result = err x;
      store = (compare_and_set executing_item.revision (with_status executing_item failed) store).1;
      service = e.service;
      ledger = e.ledger;
      calls = e.calls;
    }
    settle (ok outcome) executing_item e store =
        persisted
          (compare_and_set executing_item.revision (with_result executing_item outcome.summary)
            store)
          outcome e

    abbrev lost_claim :
        Result AgentRaised ApprovalRequest → Store → ToolService → BudgetLedger N → Resumed N
    lost_claim (err e) store service ledger = halted (err e) store service ledger
    lost_claim (ok current) store service ledger = elim (stored_result current) [
      | some outcome ↦ halted (ok outcome) store service ledger
      | none ↦ halted (err (tool_error "approval_execution_conflict")) store service ledger
    ]

    abbrev pub claimed :
        Bool × Store
        → ApprovalRequest
        → String
        → String
        → Executed N
        → ToolService
        → BudgetLedger N
        → Resumed N
    claimed (false, store) executing_item tenant_id approval_id e service ledger =
        lost_claim (require tenant_id approval_id store) store service ledger
    claimed (true, store) executing_item tenant_id approval_id e service ledger =
        settle e.result executing_item e store

    abbrev pub permitted :
        Result AgentRaised (ToolRegistration × ToolPolicyDecision)
        → ApprovalRequest
        → String
        → String
        → Executed N
        → Store
        → ToolService
        → BudgetLedger N
        → Resumed N
    permitted (err x) item tenant_id approval_id e store service ledger =
        halted (err x) store service ledger
    permitted (ok (registration, d)) item tenant_id approval_id e store service ledger =
        let executing_item = with_status item executing in
        if is_deny d.action
        then halted (err (tool_error "approval_policy_changed")) store service ledger
        else claimed (compare_and_set item.revision executing_item store) executing_item tenant_id
            approval_id e service ledger

    abbrev resume_current :
        ApprovalRequest × Store
        → Dict ToolRegistration
        → (ℕ → Attempt)
        → ToolInvocation
        → ToolAuthorizationContext
        → String
        → ToolService
        → BudgetLedger N
        → Resumed N
    resume_current (item, store) registry world i context approval_id service ledger =
        let go =
          if not (is_approved item.status)
          then halted (err (status_error item.status)) store service ledger
          else permitted (authorize P registry i context) item context.tenant_id approval_id
              (execute P registry world i context true service ledger) store service ledger in
        if not (is_same_call item i)
        then halted (err (tool_error "approval_call_changed")) store service ledger
        else elim (stored_result item) [
          | some outcome ↦ halted (ok outcome) store service ledger
          | none ↦ go
        ]

    -- `ApprovalService.resume`, with no other writer between its steps.
    unfoldable pub resume :
        Dict ToolRegistration
        → (ℕ → Attempt)
        → String
        → ToolInvocation
        → ToolAuthorizationContext
        → ℕ
        → Store
        → ToolService
        → BudgetLedger N
        → Resumed N
    unfolding find compare_and_set expire_if_needed
    resume registry world approval_id i context now store service ledger =
        elim (require context.tenant_id approval_id store) [
          | err e ↦ halted (err e) store service ledger
          | ok item ↦
              resume_current (expire_if_needed item now store) registry world i context approval_id
                service ledger
        ]
