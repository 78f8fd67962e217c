-- ===== src/Agent/Graph/Await.antt =====
-- `await_approval` of agent/graphs/agentic_rag.py in two parts: up to its interrupt, where the run is
-- left to people, and from there on once it is resumed.
use ragflow_agent.Base.{
  String, Option, none, some, is_none, ◌||◌, Result, Check, ok, err, ◌>>=◌, raise_if, FloatOps,
  get_elem?,
}
use ragflow_agent.Agent.Errors.{AgentRaised, invalid, failure}
use ragflow_agent.Agent.Tools.{ToolInvocation, ToolExecutionOutcome}
use ragflow_agent.Agent.Approval.{
  ApprovalStatus, ApprovalRequest, Store, Resumed, get_current, resume,
}
use ragflow_agent.Agent.Graph.State.{
  AgenticState, AgenticRunStatus, rejected, cancelled, failed, World, ledger_of, context_of,
}
use ragflow_agent.Agent.Graph.ToolEvidence.{apply_tool_outcome}
use ragflow_agent.Agent.Graph.Nodes.{Turn}
use ragflow_agent.Agent.Graph.Evaluation.{Setting, stopped}

-- Up to `interrupt`.
unfoldable pub park : {N : Type 0} → World N → Check AgentRaised
park w = raise_if (is_none w.state.approval_id || is_none w.state.pending_tool_invocation) invalid

-- What a closed approval means for the run.
abbrev pub closing : ApprovalStatus → Option (AgenticRunStatus × String)
closing ApprovalStatus.rejected = some (rejected, "approval_rejected")
closing ApprovalStatus.expired = some (rejected, "approval_expired")
closing ApprovalStatus.cancelled = some (cancelled, "approval_cancelled")
closing _ = none

-- `state.plan.steps[state.current_step].step_id if state.plan else "tool"`.
abbrev pub current_step_id : {N : Type 0} → AgenticState N → Result AgentRaised String
current_step_id s = elim s.plan [
  | none ↦ ok "tool"
  | some plan ↦ elim (get_elem? plan.steps s.current_step) [
    | none ↦ err failure
    | some step ↦ ok step.step_id
  ]
]

module _ (F : FloatOps) (G : Setting) (t : Turn F.Float) where
  abbrev closed : World F.Float → ApprovalStatus → AgenticRunStatus × String → World F.Float
  closed w status (mapped, reason) = record w {
    state = record w.state {
      hitl_status = some status;
      final_status = some mapped;
      stop_reason = some reason;
    };
  }

  abbrev cleared : AgenticState F.Float → AgenticState F.Float
  cleared s = record s {
    pending_tool_invocation = none;
    hitl_status = some ApprovalStatus.succeeded;
    final_status = none;
    stop_reason = none;
  }

  abbrev resumed :
      World F.Float
      → Result AgentRaised ToolExecutionOutcome
      → Resumed F.Float
      → Result AgentRaised (World F.Float)
  resumed w (err e) r = ok (record w {
    state = stopped w.state r.ledger.usage failed "approval_resume_failed";
    service = r.service;
    approvals = r.store;
  })
  resumed w (ok outcome) r = do
    step_id ← current_step_id w.state
    s ← apply_tool_outcome G.platform G.readers w.state step_id outcome r.ledger
    ok (record w { state = cleared s; service = r.service; approvals = r.store })

  abbrev pub after_resume : World F.Float → Resumed F.Float → Result AgentRaised (World F.Float)
  after_resume w r = resumed w r.result r

  abbrev pub with_current :
      World F.Float
      → String
      → ToolInvocation
      → Result AgentRaised ApprovalRequest × Store
      → Result AgentRaised (World F.Float)
  with_current w approval_id i (err e, store) = err e
  with_current w approval_id i (ok item, store) = elim (closing item.status) [
    | some end ↦ ok (closed (record w { approvals = store }) item.status end)
    | none ↦ after_resume w (
        resume G.platform G.registry t.world approval_id i (context_of w.state) t.resumed_at store
          w.service (ledger_of w.state))
  ]

  -- From the interrupt on.
  unfoldable pub await_approval_node : World F.Float → Result AgentRaised (World F.Float)
  unfolding get_current
  await_approval_node w = elim w.state.approval_id [
    | none ↦ err invalid
    | some approval_id ↦ elim w.state.pending_tool_invocation [
      | none ↦ err invalid
      | some i ↦
          with_current w approval_id i
            (get_current approval_id w.state.authorization.tenant_id t.now w.approvals)
    ]
  ]
