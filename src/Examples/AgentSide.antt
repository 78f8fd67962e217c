-- ===== src/Examples/AgentSide.antt =====
-- Tests of the budget, the policy, the schemas, the tool execution and the evidence policy.
use ragflow_agent.Base.{
  ℕ, ◌+◌, ◌≤◌, ◌<◌, ◌≡◌, refl, ◌⊎◌, ◌↔◌, true, false, none, some, List, [], ◌∷◌, pos, arith, ok,
}
use ragflow_agent.Agent.Values.{Value, text, obj, nil, cons, end, field}
use ragflow_agent.Agent.Budget
use ragflow_agent.Agent.Budget.{
  BudgetLedger, CostStatus, can_finalize, record_model_usage, is_exceeded,
}
use ragflow_agent.Agent.Budget.Limits.{
  Call, tool, model_call, runtime, run, WithinLimits, Grows, granted_tools, run-WithinLimits,
  granted_tools-le,
}
use ragflow_agent.Agent.Budget.Cost.{reserve_suffices}
use ragflow_agent.Base.Dict
use ragflow_agent.Agent.Schema.{validate, redact, reject_secret_arguments}
use ragflow_agent.Agent.Schema.Redaction.{IsRedacted, IsFree, redact-IsRedacted, reject_iff}
use ragflow_agent.Agent.Schema.Conformance.{Conforms, validate-Conforms}
use ragflow_agent.Agent.Tools.{
  ToolPolicyAction, ToolExecutionOutcome, Executed, authorize, decide, invoke, attempts,
  needs_approval, evaluate, execute, resolve, success_outcome, Attempt,
}
use ragflow_agent.Agent.Tools.Execution.{Spends, execute_calls}
use ragflow_agent.Agent.Tools.Policy.{IsAdmitted, evaluate_iff}
use ragflow_agent.Agent.Tools.Replay.{IsService, execute-replay, execute-IsService}
use ragflow_agent.Agent.Evidence.{
  EvidenceItem, QueryPlan, SourceKind, evaluate as evaluate_evidence,
}
use ragflow_agent.Agent.Evidence.Sufficiency.{IsSupported, evaluate-IsSupported}
use ragflow_agent.Examples.Fixtures.{
  floats, platform, ledger, search_tool, registry, context, invocation, arguments, object_schema,
  service, world,
}

abbrev ledger-WithinLimits : WithinLimits ledger
ledger-WithinLimits = record {
  iterations = omega arith;
  model_calls = omega arith;
  retrievals = omega arith;
  tools = omega arith;
}

abbrev calls : List (Call ℕ)
calls = tool ∷ tool ∷ tool ∷ model_call ∷ runtime 7 ∷ []

run-WithinLimits_example :
    WithinLimits (run floats calls ledger) × Grows ledger (run floats calls ledger)
run-WithinLimits_example = run-WithinLimits floats calls ledger ledger-WithinLimits

granted_tools-le_example :
    granted_tools floats calls ledger + ledger.usage.tool_attempts ≤ ledger.limits.max_tool_attempts
granted_tools-le_example = granted_tools-le floats calls ledger ledger-WithinLimits

reserve_suffices_example :
    (record_model_usage floats (pos 1000) (pos 500) none (some CostStatus.unknown) ledger).0 ≡ ok tt
unfolding can_finalize
reserve_suffices_example =
    reserve_suffices floats 1000 500 none (some CostStatus.unknown) ledger refl tt tt (omega arith)
      refl (omega arith)

evaluate_iff_example :
    ((evaluate search_tool context none).action ≡ ToolPolicyAction.allow
      ↔ IsAdmitted search_tool context none × (needs_approval search_tool ≡ false))
    × ((evaluate search_tool context none).action ≡ ToolPolicyAction.require_approval
        ↔ IsAdmitted search_tool context none × (needs_approval search_tool ≡ true))
    × ((evaluate search_tool context none).action ≡ ToolPolicyAction.deny
        ↔ ¬ IsAdmitted search_tool context none)
evaluate_iff_example = evaluate_iff search_tool context none

abbrev secret : Value
secret = obj (field "token" (text "abc") (field "note" (text "hello") end))

redact-IsRedacted_example :
    IsRedacted platform ("token" ∷ []) (redact platform ("token" ∷ []) secret)
redact-IsRedacted_example = redact-IsRedacted platform ("token" ∷ []) secret

reject_iff_example : (reject_secret_arguments platform secret ≡ ok tt) ↔ IsFree platform secret
reject_iff_example = reject_iff platform secret

validate-Conforms_example :
    Conforms arguments
      (field "q" (obj (field "type" (text "string") end)) end)
      (cons (text "q") nil)
      false
unfolding validate
validate-Conforms_example =
    validate-Conforms object_schema arguments
      (field "q" (obj (field "type" (text "string") end)) end) (cons (text "q") nil) refl refl refl
      refl

abbrev executed : Executed ℕ
executed = execute platform registry world invocation context false service ledger

execute_calls_example :
    Spends ledger executed.ledger executed.calls 2
    × (0 < executed.calls
        → ((evaluate search_tool context none).action ≡ ToolPolicyAction.allow)
          ⊎ (((evaluate search_tool context none).action ≡ ToolPolicyAction.require_approval)
              × (false ≡ true)))
unfolding resolve Dict.get Dict.same_key
execute_calls_example =
    execute_calls platform registry world invocation context false service ledger search_tool refl

service-IsService : IsService platform service
unfolding Dict.get
service-IsService = record { digests = λ c i o h. absurd (ground arith) }

execute-IsService_example : IsService platform executed.service
execute-IsService_example =
    execute-IsService platform invocation context registry world false service ledger
      service-IsService

abbrev answer : ToolExecutionOutcome
answer = success_outcome platform invocation (text "found")

executed-answer : executed.result ≡ ok answer
unfolding execute authorize resolve validate redact reject_secret_arguments evaluate Dict.get
    Dict.same_key decide invoke attempts Budget.consume_tool
executed-answer = refl

execute-replay_example :
    execute platform registry
      (λ n. Attempt.raised_other)
      invocation
      context
      true
      executed.service
      ledger
    ≡ record { result = ok answer; service = executed.service; ledger = ledger; calls = 0 }
execute-replay_example =
    execute-replay platform invocation context registry world (λ n. Attempt.raised_other) false true
      service ledger ledger answer service-IsService (ground arith) executed-answer

abbrev item : EvidenceItem
item = record {
  evidence_id = "e1";
  step_id = "s1";
  source_kind = SourceKind.sql;
  tenant_id = "t1";
  knowledge_base_id = none;
  excerpt = "cats purr";
  normalized_score = 5;
  citation = none;
  authorized = true;
  active_version = true;
  injection_detected = false;
  fact_key = some "sound";
  stance = some "purr";
}

abbrev plan : QueryPlan
plan = record {
  is_simple = true;
  steps =
      record {
        step_id = "s1";
        question = "what do cats do";
        critical = true;
        depends_on = [];
        preferred_tool = "sql";
        tool_version = "1";
        tool_arguments = end;
      }
      ∷ [];
}

evaluate-IsSupported_example : IsSupported platform 3 "t1" plan (item ∷ [])
unfolding evaluate_evidence
evaluate-IsSupported_example = evaluate-IsSupported platform 3 "t1" plan (item ∷ []) refl
