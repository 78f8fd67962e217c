-- ===== src/Agent/Planning.antt =====
-- `QueryPlan` of agent/domain/agentic.py with its validators, and the check of the structured planner
-- of agent/application/planning.py.
use ragflow_agent.Base.{
  String, Bool, false, not, ◌&&◌, ◌||◌, List, [], ◌∷◌, ltb, nat_eq, length, elem, ◌==◌, Result,
  Check, ok, ◌>>=◌, ◌>>◌, raise_if,
}
use ragflow_agent.Agent.Errors.{AgentRaised, invalid}
use ragflow_agent.Agent.Evidence.{PlanStep, QueryPlan}

-- The bounds of the fields of `PlanStep`.
abbrev is_blank_step : PlanStep → Bool
is_blank_step s = s.step_id == "" || s.question == ""

-- `any(parent not in seen for parent in step.depends_on)`.
abbrev pub some_outside : List String → List String → Bool
some_outside [] seen = false
some_outside (p ∷ ps) seen = not (elem p seen) || some_outside ps seen

-- The loop of `QueryPlan.dependencies_reference_earlier_steps`.
unfoldable pub validate_steps : List String → List PlanStep → Check AgentRaised
validate_steps seen [] = ok tt
validate_steps seen (s ∷ ss) = do
  raise_if (elem s.step_id seen) invalid
  raise_if (some_outside s.depends_on seen) invalid
  validate_steps (s.step_id ∷ seen) ss

abbrev pub any_blank : List PlanStep → Bool
any_blank [] = false
any_blank (s ∷ ss) = is_blank_step s || any_blank ss

-- `QueryPlan.model_validate` on what has the fields of a plan.
unfoldable pub validate_plan : QueryPlan → Result AgentRaised QueryPlan
unfolding validate_steps
validate_plan plan = do
  raise_if (any_blank plan.steps) invalid
  raise_if (ltb (length plan.steps) 1 || ltb 8 (length plan.steps)) invalid
  validate_steps [] plan.steps
  raise_if (plan.is_simple && not (nat_eq (length plan.steps) 1)) invalid
  ok plan

abbrev pub any_outside : List String → List PlanStep → Bool
any_outside allowed [] = false
any_outside allowed (s ∷ ss) = not (elem s.preferred_tool allowed) || any_outside allowed ss

-- `LangChainStructuredQueryPlanner.plan` after the reply of the model.
unfoldable pub structured_plan : List String → QueryPlan → Result AgentRaised QueryPlan
unfolding validate_plan
structured_plan allowed reply = do
  plan ← validate_plan reply
  raise_if (any_outside allowed plan.steps) invalid
  ok plan
