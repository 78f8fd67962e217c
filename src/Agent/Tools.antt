-- ===== src/Agent/Tools.antt =====
-- agent/application/tool_policy.py: the policy, the registry and the execution of one tool call, with
-- the tool contracts of agent/domain/agentic.py. The handler is outside: `world n` is how its call
-- number n within one execution ends, a timeout included.
pub mod Contracts
pub mod PolicyEngine
pub mod Attempts
pub mod Policy
pub mod Execution
pub mod Replay
pub use Contracts.*
unfoldable pub use PolicyEngine.*
unfoldable pub use Attempts.*
use ragflow_agent.Base.{
  ℕ, zero, suc, ◌+◌, String, Bool, true, false, not, ◌||◌, ◌&&◌, Option, none, some, List, [], ◌∷◌,
  ltb, ◌==◌, elem, overlaps, is_empty, is_none, if◌then◌else◌, Result, Check, ok, err, ◌>>=◌, ◌>>◌,
  raise_if, FloatOps,
}
use ragflow_agent.Base.Dict
use ragflow_agent.Base.Dict.{Key, Dict}
use ragflow_agent.Agent.Errors.{AgentRaised, tool_error, invalid, failure, timed_out}
use ragflow_agent.Agent.Platform.{Platform}
use ragflow_agent.Agent.Values.{Value, null, obj, Fields}
use ragflow_agent.Agent.Schema.{validate, redact, reject_secret_arguments}
use ragflow_agent.Agent.Budget.{BudgetLedger, consume_tool}

module _ (P : Platform) where
  abbrev completed_key : ToolAuthorizationContext → ToolInvocation → Key
  completed_key context i = context.tenant_id ∷ context.actor_id ∷ i.tool_call_id ∷ []

  abbrev signature : ToolAuthorizationContext → ToolInvocation → Key
  signature context i =
      context.tenant_id ∷ context.actor_id ∷ i.tool_name ∷ i.tool_version ∷ argument_digest P i ∷ []

  -- `summary`, with the status that the branch gives it.
  abbrev pub summary_of :
      ToolInvocation → CallStatus → Option String → Option String → ToolCallSummary
  summary_of i status output_digest code = record {
    tool_call_id = i.tool_call_id;
    tool_name = i.tool_name;
    tool_version = i.tool_version;
    argument_digest = argument_digest P i;
    status = status;
    output_digest = output_digest;
    error_code = code;
    retrieval_trace_id = none;
  }

  abbrev as_reused : ToolExecutionOutcome → String → ToolExecutionOutcome
  as_reused o call_id = record o {
    summary = record o.summary { tool_call_id = call_id; status = reused };
  }

  abbrev needing_approval : ToolInvocation → ToolPolicyDecision → ToolExecutionOutcome
  needing_approval i d = record {
    status = OutcomeStatus.approval_required;
    summary = summary_of i CallStatus.approval_required none none;
    output = none;
    approval_reason = some d.reason;
    required_roles = d.required_roles;
    injection_detected = false;
  }

  abbrev failed_outcome : ToolInvocation → String → ToolExecutionOutcome
  failed_outcome i code = record {
    status = OutcomeStatus.failed;
    summary = summary_of i CallStatus.failed none (some code);
    output = none;
    approval_reason = none;
    required_roles = [];
    injection_detected = false;
  }

  abbrev pub success_outcome : ToolInvocation → Value → ToolExecutionOutcome
  success_outcome i safe_output =
      let serialized = P.dumps safe_output in
      record {
        status = OutcomeStatus.success;
        summary = summary_of i CallStatus.success (some (P.sha256 serialized)) none;
        output = some safe_output;
        approval_reason = none;
        required_roles = [];
        injection_detected = P.contains_prompt_injection serialized;
      }

  -- `resolve`, `reject_secret_arguments`, `_validate_json_schema` and `evaluate`, as both
  -- `authorize` and `execute` begin.
  unfoldable pub authorize :
      Dict ToolRegistration
      → ToolInvocation
      → ToolAuthorizationContext
      → Result AgentRaised (ToolRegistration × ToolPolicyDecision)
  unfolding resolve
  authorize registry i context = do
    registration ← resolve registry i.tool_name i.tool_version
    reject_secret_arguments P (obj i.arguments)
    validate (obj i.arguments) registration.input_schema
    ok (registration, evaluate registration context i.business_scope)

  -- The checks of an output before it is returned.
  abbrev safe : ToolRegistration → Value → Result AgentRaised Value
  safe registration raw =
      let safe_output = redact P registration.sensitive_fields raw in
      do
        validate safe_output registration.output_schema
        raise_if (ltb registration.max_output_bytes (P.byte_length (P.dumps safe_output)))
            (tool_error "agent_tool_output_too_large")
        ok safe_output

  module _ {N : Type 0} where
    abbrev unchanged :
        Result AgentRaised ToolExecutionOutcome → ToolService → BudgetLedger N → Executed N
    unchanged r service ledger = record {
      result = r;
      service = service;
      ledger = ledger;
      calls = 0;
    }

    abbrev finish :
        ToolInvocation
        → ToolAuthorizationContext
        → ToolService
        → BudgetLedger N
        → ℕ
        → Result AgentRaised Value
        → Executed N
    finish i context service ledger calls (err e) = record {
      result = err e;
      service = service;
      ledger = ledger;
      calls = calls;
    }
    finish i context service ledger calls (ok safe_output) =
        let outcome = success_outcome i safe_output in
        record {
          result = ok outcome;
          service = record {
            completed = Dict.put service.completed (completed_key context i) outcome;
            successful_signatures =
                Dict.put service.successful_signatures (signature context i) outcome;
          };
          ledger = ledger;
          calls = calls;
        }

    -- What follows the retry loop.
    abbrev after_loop :
        ToolInvocation
        → ToolAuthorizationContext
        → ToolService
        → ToolRegistration
        → BudgetLedger N
        → ℕ
        → Result AgentRaised RawResult
        → Executed N
    after_loop i context service registration ledger calls (err e) = record {
      result = err e;
      service = service;
      ledger = ledger;
      calls = calls;
    }
    after_loop i context service registration ledger calls (ok (error_code code)) =
        let failed = failed_outcome i code in
        record {
          result = ok failed;
          service = record service {
            completed = Dict.put service.completed (completed_key context i) failed;
          };
          ledger = ledger;
          calls = calls;
        }
    after_loop i context service registration ledger calls (ok (output raw)) =
        finish i context service ledger calls (safe registration raw)

    abbrev looped :
        ToolInvocation
        → ToolAuthorizationContext
        → ToolService
        → ToolRegistration
        → Looped N
        → Executed N
    looped i context service registration l =
        after_loop i context service registration l.ledger l.calls l.raw

    -- The call proper: no earlier outcome was found.
    unfoldable pub invoke :
        (ℕ → Attempt)
        → ToolInvocation
        → ToolAuthorizationContext
        → ToolRegistration
        → ToolPolicyDecision
        → Bool
        → ToolService
        → BudgetLedger N
        → Executed N
    invoke world i context registration d approved service ledger =
        let run =
          looped i context service registration
            (attempts world registration.max_retries 0 ledger) in
        if is_require_approval d.action && not approved
        then unchanged (ok (needing_approval i d)) service ledger
        else run

    -- The outcome that the same arguments had before.
    abbrev from_signature :
        Option ToolExecutionOutcome
        → ToolInvocation
        → ToolAuthorizationContext
        → ToolService
        → BudgetLedger N
        → Executed N
        → Executed N
    from_signature none i context service ledger next = next
    from_signature (some successful) i context service ledger next =
        let reused = as_reused successful i.tool_call_id in
        unchanged (ok reused)
          (record service {
            completed = Dict.put service.completed (completed_key context i) reused;
          })
          ledger

    abbrev from_completed :
        Option ToolExecutionOutcome
        → ToolInvocation
        → ToolService
        → BudgetLedger N
        → Executed N
        → Executed N
    from_completed none i service ledger next = next
    from_completed (some existing) i service ledger next =
        if existing.summary.argument_digest == argument_digest P i
        then unchanged (ok existing) service ledger
        else unchanged (err (tool_error "agent_tool_call_collision")) service ledger

    -- `execute` once the call is resolved and checked.
    unfoldable pub decide :
        (ℕ → Attempt)
        → ToolInvocation
        → ToolAuthorizationContext
        → ToolRegistration
        → ToolPolicyDecision
        → Bool
        → ToolService
        → BudgetLedger N
        → Executed N
    decide world i context registration d approved service ledger =
        let next =
          from_signature (Dict.get service.successful_signatures (signature context i)) i context
            service ledger (invoke world i context registration d approved service ledger) in
        if is_deny d.action
        then unchanged (err (tool_error "agent_tool_forbidden")) service ledger
        else from_completed (Dict.get service.completed (completed_key context i)) i service ledger
            next

    abbrev authorized :
        Result AgentRaised (ToolRegistration × ToolPolicyDecision)
        → (ToolRegistration → ToolPolicyDecision → Executed N)
        → ToolService
        → BudgetLedger N
        → Executed N
    authorized (err e) next service ledger = unchanged (err e) service ledger
    authorized (ok (registration, d)) next service ledger = next registration d

    -- `SecureToolExecutionService.execute`.
    unfoldable pub execute :
        Dict ToolRegistration
        → (ℕ → Attempt)
        → ToolInvocation
        → ToolAuthorizationContext
        → Bool
        → ToolService
        → BudgetLedger N
        → Executed N
    execute registry world i context approved service ledger =
        authorized (authorize registry i context)
          (λ registration d. decide world i context registration d approved service ledger) service
          ledger
