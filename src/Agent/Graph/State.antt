-- ===== src/Agent/Graph/State.antt =====
-- The state of an agentic run, `AgenticState` of agent/domain/agentic.py, with the replies that the
-- graph reads: a direct answer and the output of the knowledge tool.
use ragflow_agent.Base.{ℕ, String, Bool, Option, List}
use ragflow_agent.Agent.Budget.{BudgetLimits, BudgetUsage, BudgetLedger}
use ragflow_agent.Agent.Tools.{
  ToolInvocation, ToolCallSummary, ToolAuthorizationContext, ToolService,
}
use ragflow_agent.Agent.Approval.{ApprovalStatus, Store}
use ragflow_agent.Agent.Evidence.{QueryPlan, EvidenceItem, AgentEvidenceCitation, KnowledgeCitation}

pub data AgenticRunStatus : Type 0 where
  completed partial_evidence no_evidence conflicting_evidence approval_required rejected cancelled
        budget_exhausted failed :
      AgenticRunStatus

pub record AgenticAuthorizationSnapshot : Type 0 where
  pub tenant_id : String
  pub user_id : String
  pub request_id : String
  pub roles : List String
  pub knowledge_base_ids : List String

pub data Route : Type 0 where
  direct_rag agent : Route

pub record AgenticState (N : Type 0) : Type 0 where
  pub run_id : String
  pub thread_id : String
  pub request_id : String
  pub authorization : AgenticAuthorizationSnapshot
  pub question : String
  pub route : Route
  pub plan : Option QueryPlan
  pub current_step : ℕ
  pub iteration : ℕ
  pub evidence : List EvidenceItem
  pub citations : List AgentEvidenceCitation
  pub retrieval_trace_ids : List String
  pub model_provider_ids : List String
  pub tool_calls : List ToolCallSummary
  pub pending_tool_invocation : Option ToolInvocation
  pub approval_id : Option String
  pub hitl_status : Option ApprovalStatus
  pub memory_consent : Bool
  pub budget_limits : BudgetLimits N
  pub budget_usage : BudgetUsage N
  pub final_status : Option AgenticRunStatus
  pub final_answer : Option String
  pub stop_reason : Option String

-- `DirectRagAnswer`.
pub record DirectRagAnswer : Type 0 where
  pub answer : String
  pub citations : List KnowledgeCitation
  pub trace_id : String
  pub input_tokens : ℕ
  pub output_tokens : ℕ

-- `KnowledgeEvidence` and `KnowledgeBaseToolOutput` of agent/tools/knowledge_base.py. The citation is
-- the one copied into the agent's contract, which has the same fields.
pub record KnowledgeEvidence : Type 0 where
  pub chunk_id : String
  pub document_id : String
  pub document_version_id : String
  pub knowledge_base_id : String
  pub excerpt : String
  pub normalized_rank_score : ℕ
  pub citation : KnowledgeCitation

pub record KnowledgeBaseToolOutput : Type 0 where
  pub evidence : List KnowledgeEvidence
  pub retrieval_trace_id : String

-- A run and what it shares with others: the tool service and the approvals.
pub record World (N : Type 0) : Type 0 where
  pub state : AgenticState N
  pub service : ToolService
  pub approvals : Store

module _ {N : Type 0} where
  -- `BudgetLedger(state.budget_limits, state.budget_usage)`.
  abbrev pub ledger_of : AgenticState N → BudgetLedger N
  ledger_of s = record { limits = s.budget_limits; usage = s.budget_usage }

  -- `_context`. Its fields have to be filled: a run with an empty request id, for which it raises, is
  -- out of the model.
  abbrev pub context_of : AgenticState N → ToolAuthorizationContext
  context_of s = record {
    tenant_id = s.authorization.tenant_id;
    actor_id = s.authorization.user_id;
    request_id = s.request_id;
    roles = s.authorization.roles;
  }
