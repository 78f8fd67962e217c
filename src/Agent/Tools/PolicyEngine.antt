-- ===== src/Agent/Tools/PolicyEngine.antt =====
-- The policy and the registry of agent/application/tool_policy.py.
use ragflow_agent.Base.{
  String, Bool, true, false, not, ◌||◌, ◌&&◌, Option, none, some, List, [], ◌∷◌, elem, overlaps,
  is_empty, is_none, if◌then◌else◌, Result, ok, err,
}
use ragflow_agent.Base.Dict
use ragflow_agent.Base.Dict.{Key, Dict}
use ragflow_agent.Agent.Errors.{AgentRaised, tool_error, invalid}
use ragflow_agent.Agent.Tools.Contracts.{
  ToolRegistration, ToolAuthorizationContext, ToolPolicyAction, ToolPolicyDecision, allow, deny,
  require_approval, has_side_effects, is_high_risk,
}

-- `business_scope not in set(allowed)`.
abbrev pub scope_in : Option String → List String → Bool
scope_in none allowed = false
scope_in (some scope) allowed = elem scope allowed

abbrev pub needs_approval : ToolRegistration → Bool
needs_approval r = r.requires_hitl || has_side_effects r.effect || is_high_risk r.risk_level

abbrev decision : ToolPolicyAction → String → List String → ToolPolicyDecision
decision action reason roles = record { action = action; reason = reason; required_roles = roles }

-- `ToolPolicyEngine.evaluate`.
unfoldable pub evaluate :
    ToolRegistration → ToolAuthorizationContext → Option String → ToolPolicyDecision
evaluate registration context business_scope =
    if not (is_empty registration.allowed_tenant_ids)
      && not (elem context.tenant_id registration.allowed_tenant_ids)
    then decision deny "tenant_not_allowed" []
    else if not (is_empty registration.allowed_roles)
        && not (overlaps context.roles registration.allowed_roles)
    then decision deny "role_not_allowed" []
    else if not (is_empty registration.allowed_business_scopes)
        && not (scope_in business_scope registration.allowed_business_scopes)
    then decision deny "business_scope_not_allowed" []
    else if needs_approval registration
    then decision require_approval "high_risk_or_side_effecting" registration.approval_roles
    else decision allow "registered_read_only_tool" []

abbrev pub is_deny : ToolPolicyAction → Bool
is_deny deny = true
is_deny _ = false

abbrev pub is_require_approval : ToolPolicyAction → Bool
is_require_approval require_approval = true
is_require_approval _ = false

-- `SecureToolRegistry`: the handlers by exact name and version. Of a handler only its registration
-- is kept here.
abbrev pub registration_key : ToolRegistration → Key
registration_key r = r.tool_name ∷ r.version ∷ []

-- `SecureToolRegistry.__init__`.
unfoldable pub register :
    Dict ToolRegistration → List ToolRegistration → Result AgentRaised (Dict ToolRegistration)
register handlers [] = ok handlers
register handlers (r ∷ rest) =
    let others = register (Dict.put handlers (registration_key r) r) rest in
    if is_none (Dict.get handlers (registration_key r)) then others else err invalid

-- `SecureToolRegistry.resolve`.
unfoldable pub resolve :
    Dict ToolRegistration → String → String → Result AgentRaised ToolRegistration
resolve handlers name version = elim (Dict.get handlers (name ∷ version ∷ [])) [
  | none ↦ err (tool_error "agent_tool_unknown")
  | some r ↦ ok r
]
