-- ===== src/Agent/Graph/Nodes.antt =====
-- The nodes `route`, `direct_rag` and `execute_step` of agent/graphs/agentic_rag.py. The checkpoint gives a
-- state back as it was written. What is outside one visit of a node (the planner's reply, the direct
-- answer with the ledger that it leaves, the handler, the clock, a new identifier) is its `Turn`.
use Prim.Native.Nat.{◌/◌}
use Prim.Native.String.{count}
use ragflow_agent.Base.{
  ℕ, ◌+◌, max, pos, String, Bool, false, not, ◌&&◌, ◌||◌, Option, none, some, List, [], ◌∷◌, ◌++◌,
  get_elem?, is_empty, ◌==◌, if◌then◌else◌, Result, Check, ok, err, ◌>>=◌, FloatOps, map_ok, map,
}
use ragflow_agent.Base.Texts.{concat, show}
use ragflow_agent.Agent.Errors.{AgentRaised, exhausted, invalid}
use ragflow_agent.Agent.Values.{text, int, arr, Items, nil, cons, end, field}
use ragflow_agent.Agent.Budget.{
  BudgetLedger, BudgetUsage, begin_model_call, consume_iteration, consume_retrieval, can_finalize,
  record_model_usage, resolve_cost, then_run,
}
use ragflow_agent.Agent.Tools.{
  ToolInvocation, ToolExecutionOutcome, OutcomeStatus, Attempt, Executed, execute,
}
use ragflow_agent.Agent.Approval.{ApprovalStatus, ApprovalRequest, Store, request}
use ragflow_agent.Agent.Evidence.{QueryPlan, PlanStep, filled}
use ragflow_agent.Agent.Planning.{validate_plan}
use ragflow_agent.Agent.Graph.State.{
  AgenticState, AgenticRunStatus, completed, no_evidence, approval_required, budget_exhausted,
  failed, direct_rag, agent, DirectRagAnswer, World, ledger_of, context_of,
}
use ragflow_agent.Agent.Graph.Evaluation.{Setting, stopped, is_sufficient, decision_on}
use ragflow_agent.Agent.Graph.ToolEvidence.{knowledge_citation_of, apply_tool_outcome}

pub record Turn (N : Type 0) : Type 0 where
  pub plan_reply : Result AgentRaised QueryPlan
  pub answer_reply : BudgetLedger N → Result AgentRaised DirectRagAnswer × BudgetLedger N
  pub world : ℕ → Attempt
  pub now : ℕ
  pub resumed_at : ℕ
  pub new_id : String

-- `_estimated_tokens`, by the length of the text.
abbrev pub estimated_tokens : ℕ → ℕ
estimated_tokens n = max 1 ((n + 3) / 4)

abbrev pub colons : String → String → String → String → String
colons a b c d = concat (a ∷ ":" ∷ b ∷ ":" ∷ c ∷ ":" ∷ d ∷ [])

abbrev pub or_default : Option String → String → String
or_default o d = elim (filled o) [ none ↦ d | some s ↦ s ]

abbrev texts : List String → Items
texts [] = nil
texts (s ∷ ss) = cons (text s) (texts ss)

module _ (F : FloatOps) where
  -- `_record_model_usage`: without both rates the cost is unknown.
  abbrev record_usage : ℕ → ℕ → BudgetLedger F.Float → Check AgentRaised × BudgetLedger F.Float
  record_usage input generated ledger =
      let resolved = resolve_cost F ledger.limits input generated none none in
      record_model_usage F (pos input) (pos generated) resolved.1 (some resolved.0) ledger

  module _ (G : Setting) (t : Turn F.Float) where
    -- The `try` of `route`: the plan, or what was raised, and the ledger then.
    abbrev model_call : BudgetLedger F.Float → Check AgentRaised × BudgetLedger F.Float
    model_call ledger = if G.uses_model then begin_model_call ledger else (ok tt, ledger)

    abbrev accounted :
        String
        → QueryPlan
        → BudgetLedger F.Float
        → Result AgentRaised QueryPlan × BudgetLedger F.Float
    accounted question plan ledger =
        let usage =
          record_usage (estimated_tokens (count question)) (estimated_tokens (G.json_length plan))
            ledger in
        if G.uses_model then (map_ok (λ _. plan) usage.0, usage.1) else (ok plan, ledger)

    abbrev planned :
        String
        → Check AgentRaised × BudgetLedger F.Float
        → Result AgentRaised QueryPlan × BudgetLedger F.Float
    planned question (err e, ledger) = (err e, ledger)
    planned question (ok _, ledger) = elim (t.plan_reply >>= validate_plan) [
      | err e ↦ (err e, ledger)
      | ok plan ↦ accounted question plan ledger
    ]

    abbrev routed :
        AgenticState F.Float
        → Result AgentRaised QueryPlan × BudgetLedger F.Float
        → AgenticState F.Float
    routed s (ok plan, ledger) = record s {
      plan = some plan;
      route = if plan.is_simple then direct_rag else agent;
      budget_usage = ledger.usage;
    }
    routed s (err (exhausted d), ledger) =
        stopped s ledger.usage budget_exhausted "planning_budget_exhausted"
    routed s (err e, ledger) = stopped s ledger.usage failed "planning_failed"

    -- `route`.
    unfoldable pub route_node : World F.Float → World F.Float
    unfolding begin_model_call record_model_usage validate_plan
    route_node w = record w {
      state = routed w.state (planned w.state.question (model_call (ledger_of w.state)));
    }

    abbrev with_answer :
        AgenticState F.Float
        → BudgetUsage F.Float
        → DirectRagAnswer
        → AgenticRunStatus
        → String
        → AgenticState F.Float
    with_answer s usage a status reason = record s {
      budget_usage = usage;
      citations = map knowledge_citation_of a.citations;
      retrieval_trace_ids = a.trace_id ∷ [];
      final_answer = some (G.platform.redact_secret_like_text a.answer);
      final_status = some status;
      stop_reason = some reason;
    }

    abbrev direct_raised :
        AgenticState F.Float
        → Option DirectRagAnswer
        → AgentRaised
        → BudgetLedger F.Float
        → AgenticState F.Float
    direct_raised s (some a) (exhausted d) ledger =
        if not (is_empty a.citations) && can_finalize ledger
        then with_answer s ledger.usage a completed "budget_exhausted_after_sufficient_evidence"
        else stopped s ledger.usage budget_exhausted "model_budget_exhausted"
    direct_raised s none (exhausted d) ledger =
        stopped s ledger.usage budget_exhausted "model_budget_exhausted"
    direct_raised s answer e ledger = stopped s ledger.usage failed "direct_rag_failed"

    abbrev direct_done :
        AgenticState F.Float
        → DirectRagAnswer
        → Check AgentRaised × BudgetLedger F.Float
        → AgenticState F.Float
    direct_done s a (ok _, ledger) =
        with_answer s ledger.usage a (if is_empty a.citations then no_evidence else completed)
          "direct_rag_completed"
    direct_done s a (err e, ledger) = direct_raised s (some a) e ledger

    abbrev direct_answered :
        AgenticState F.Float
        → Result AgentRaised DirectRagAnswer × BudgetLedger F.Float
        → AgenticState F.Float
    direct_answered s (err e, ledger) = direct_raised s none e ledger
    direct_answered s (ok a, ledger) = direct_done s a (
        if is_empty a.citations
        then (ok tt, ledger)
        else record_usage a.input_tokens a.output_tokens ledger)

    abbrev direct_started :
        AgenticState F.Float → Check AgentRaised × BudgetLedger F.Float → AgenticState F.Float
    direct_started s (err e, ledger) = direct_raised s none e ledger
    direct_started s (ok _, ledger) = direct_answered s (t.answer_reply ledger)

    -- `direct_rag`.
    unfoldable pub direct_rag_node : World F.Float → World F.Float
    unfolding consume_retrieval record_model_usage can_finalize
    direct_rag_node w = record w {
      state = direct_started w.state (consume_retrieval (ledger_of w.state));
    }

    -- The handlers of `execute_step`.
    abbrev pub step_raised :
        AgenticState F.Float → QueryPlan → AgentRaised → BudgetLedger F.Float → AgenticState F.Float
    step_raised s plan (exhausted d) ledger =
        if is_sufficient (decision_on F G s plan).status && can_finalize ledger
        then stopped s ledger.usage completed "budget_exhausted_after_sufficient_evidence"
        else stopped s ledger.usage budget_exhausted "budget_exhausted"
    step_raised s plan e ledger = stopped s ledger.usage failed "tool_failure"

    abbrev is_retrieval : PlanStep → Bool
    is_retrieval step = step.preferred_tool == "knowledge_base"

    -- The budget that a step takes before its call.
    abbrev pub pay_step : PlanStep → BudgetLedger F.Float → Check AgentRaised × BudgetLedger F.Float
    pay_step step ledger =
        then_run F (consume_iteration (pos 1) ledger)
          (λ l. if is_retrieval step then consume_retrieval l else (ok tt, l))

    abbrev pub invocation_of : AgenticState F.Float → PlanStep → ToolInvocation
    invocation_of s step = record {
      tool_call_id =
          concat (s.run_id ∷ ":" ∷ step.step_id ∷ ":" ∷ show s.budget_usage.retrieval_rounds ∷ []);
      tool_name = step.preferred_tool;
      tool_version = step.tool_version;
      arguments =
          if is_retrieval step
          then field "query" (text step.question) (
              field "knowledge_base_ids" (arr (texts s.authorization.knowledge_base_ids))
                (field "top_k" (int (pos 20)) (field "top_n" (int (pos 5)) end)))
          else step.tool_arguments;
      business_scope = none;
    }

    abbrev pub awaiting :
        World F.Float
        → ToolInvocation
        → BudgetUsage F.Float
        → ApprovalRequest × Store
        → World F.Float
    awaiting w i usage (item, store) = record w {
      state = record w.state {
        pending_tool_invocation = some i;
        approval_id = some item.approval_id;
        hitl_status = some ApprovalStatus.approval_required;
        budget_usage = usage;
        final_status = some approval_required;
        stop_reason = some "approval_required";
      };
      approvals = store;
    }

    abbrev call_failed :
        AgenticState F.Float → ToolExecutionOutcome → BudgetUsage F.Float → AgenticState F.Float
    call_failed s o usage =
        stopped
          (record s { tool_calls = s.tool_calls ++ o.summary ∷ []; iteration = s.iteration + 1 })
          usage failed (or_default o.summary.error_code "tool_failure")

    -- What follows the call, by the status of its outcome.
    abbrev pub after_call :
        OutcomeStatus
        → World F.Float
        → PlanStep
        → ToolInvocation
        → ToolExecutionOutcome
        → BudgetLedger F.Float
        → Result AgentRaised (World F.Float)
    after_call OutcomeStatus.approval_required w step i o ledger =
        map_ok (awaiting w i ledger.usage) (
          request G.platform colons w.state.run_id w.state.thread_id i (context_of w.state)
            (or_default o.approval_reason "Tool approval required") o.required_roles t.now
            G.approval_ttl t.new_id w.approvals)
    after_call OutcomeStatus.failed w step i o ledger =
        ok (record w { state = call_failed w.state o ledger.usage })
    after_call OutcomeStatus.success w step i o ledger =
        map_ok (λ s. record w { state = s })
          (apply_tool_outcome G.platform G.readers w.state step.step_id o ledger)

    abbrev pub called :
        World F.Float
        → QueryPlan
        → PlanStep
        → ToolInvocation
        → Result AgentRaised ToolExecutionOutcome
        → BudgetLedger F.Float
        → Result AgentRaised (World F.Float)
    called w plan step i (err e) ledger =
        ok (record w { state = step_raised w.state plan e ledger })
    called w plan step i (ok o) ledger = after_call o.status w step i o ledger

    abbrev pub executed :
        World F.Float
        → QueryPlan
        → PlanStep
        → ToolInvocation
        → Executed F.Float
        → Result AgentRaised (World F.Float)
    executed w plan step i e =
        called (record w { service = e.service }) plan step i e.result e.ledger

    abbrev pub paid :
        World F.Float
        → QueryPlan
        → PlanStep
        → Check AgentRaised × BudgetLedger F.Float
        → Result AgentRaised (World F.Float)
    paid w plan step (err e, ledger) = ok (record w { state = step_raised w.state plan e ledger })
    paid w plan step (ok _, ledger) =
        let i = invocation_of w.state step in
        if step.preferred_tool == "" || step.tool_version == ""
        then ok (record w { state = step_raised w.state plan invalid ledger })
        else executed w plan step i
            (execute G.platform G.registry t.world i (context_of w.state) false w.service ledger)

    -- A step of the plan, or no step where the plan is done.
    unfoldable pub execute_at :
        World F.Float → QueryPlan → Option PlanStep → Result AgentRaised (World F.Float)
    unfolding consume_iteration consume_retrieval can_finalize show request
    execute_at w plan none = ok w
    execute_at w plan (some step) = paid w plan step (pay_step step (ledger_of w.state))

    -- `execute_step`.
    unfoldable pub execute_step_node : World F.Float → Result AgentRaised (World F.Float)
    unfolding execute_at
    execute_step_node w = elim w.state.plan [
      | none ↦ err invalid
      | some plan ↦ execute_at w plan (get_elem? plan.steps w.state.current_step)
    ]
