-- ===== src/Agent/Tools/Contracts.antt =====
-- The tool contracts of agent/domain/agentic.py and the policy decision of
-- agent/application/tool_policy.py.
use ragflow_agent.Base.{
  ℕ, String, Bool, true, false, not, ◌&&◌, Option, List, is_empty, Check, ◌>>◌, raise_if,
}
use ragflow_agent.Agent.Errors.{AgentRaised, invalid}
use ragflow_agent.Agent.Platform.{Platform}
use ragflow_agent.Agent.Values.{Value, Fields}

pub data ToolEffect : Type 0 where
  read_only side_effecting : ToolEffect

pub data ToolRiskLevel : Type 0 where
  low medium high critical : ToolRiskLevel

pub data ToolPolicyAction : Type 0 where
  allow require_approval deny : ToolPolicyAction

pub record ToolPolicyDecision : Type 0 where
  pub action : ToolPolicyAction
  pub reason : String
  pub required_roles : List String

pub record ToolAuthorizationContext : Type 0 where
  pub tenant_id : String
  pub actor_id : String
  pub request_id : String
  pub roles : List String

pub record ToolRegistration : Type 0 where
  pub tool_name : String
  pub version : String
  pub description : String
  pub input_schema : Fields
  pub output_schema : Fields
  pub effect : ToolEffect
  pub risk_level : ToolRiskLevel
  pub allowed_tenant_ids : List String
  pub allowed_roles : List String
  pub approval_roles : List String
  pub allowed_business_scopes : List String
  pub timeout_seconds : ℕ
  pub max_retries : ℕ
  pub max_output_bytes : ℕ
  pub idempotent : Bool
  pub requires_hitl : Bool
  pub sensitive_fields : List String

abbrev pub has_side_effects : ToolEffect → Bool
has_side_effects side_effecting = true
has_side_effects read_only = false

-- `risk_level in {HIGH, CRITICAL}`.
abbrev pub is_high_risk : ToolRiskLevel → Bool
is_high_risk high = true
is_high_risk critical = true
is_high_risk _ = false

-- `ToolRegistration.approval_roles_are_explicit`.
unfoldable pub validate_registration : ToolRegistration → Check AgentRaised
validate_registration r = do
  raise_if (r.requires_hitl && is_empty r.approval_roles) invalid
  raise_if (has_side_effects r.effect && not r.idempotent) invalid

pub record ToolInvocation : Type 0 where
  pub tool_call_id : String
  pub tool_name : String
  pub tool_version : String
  pub arguments : Fields
  pub business_scope : Option String

-- `ToolInvocation.argument_digest`.
abbrev pub argument_digest : Platform → ToolInvocation → String
argument_digest P i = P.sha256 (P.dumps_arguments i.arguments)

-- The values of the field `status` of a summary.
pub data CallStatus : Type 0 where
  approval_required success failed reused : CallStatus

pub record ToolCallSummary : Type 0 where
  pub tool_call_id : String
  pub tool_name : String
  pub tool_version : String
  pub argument_digest : String
  pub status : CallStatus
  pub output_digest : Option String
  pub error_code : Option String
  pub retrieval_trace_id : Option String

pub data OutcomeStatus : Type 0 where
  success approval_required failed : OutcomeStatus

pub record ToolExecutionOutcome : Type 0 where
  pub status : OutcomeStatus
  pub summary : ToolCallSummary
  pub output : Option Value
  pub approval_reason : Option String
  pub required_roles : List String
  pub injection_detected : Bool
