-- ===== src/Agent/Graph/Evaluation.antt =====
-- The nodes `evaluate` and `finalize` of agent/graphs/agentic_rag.py, and what the nodes share.
use ragflow_agent.Base.{
  ℕ, String, Bool, true, false, ◌&&◌, Option, none, some, List, [], ◌∷◌, ltb, length, if◌then◌else◌,
  Result, ok, err, FloatOps,
}
use ragflow_agent.Base.Dict.{Dict}
use ragflow_agent.Base.Texts.{concat, join}
use ragflow_agent.Agent.Errors.{AgentRaised, invalid}
use ragflow_agent.Agent.Platform.{Platform}
use ragflow_agent.Agent.Budget.{BudgetUsage}
use ragflow_agent.Agent.Tools.{ToolRegistration, ToolCallSummary, reused}
use ragflow_agent.Agent.Evidence.{
  QueryPlan, EvidenceItem, EvidenceDecision, EvidenceStatus, AgentEvidenceCitation,
  evaluate as evaluate_evidence,
}
use ragflow_agent.Agent.Graph.State.{
  AgenticState, AgenticRunStatus, completed, partial_evidence, no_evidence, conflicting_evidence,
  budget_exhausted, World,
}
use ragflow_agent.Agent.Graph.ToolEvidence.{Readers}

-- What stays the same over a run: the parts of `AgenticRagNodes` and the time to live of approvals.
-- `json_length` is the length of a plan's JSON.
pub record Setting : Type 0 where
  pub platform : Platform
  pub readers : Readers
  pub registry : Dict ToolRegistration
  pub minimum_score : ℕ
  pub uses_model : Bool
  pub json_length : QueryPlan → ℕ
  pub approval_ttl : ℕ

abbrev pub stopped :
    {N : Type 0} → AgenticState N → BudgetUsage N → AgenticRunStatus → String → AgenticState N
stopped s usage status reason = record s {
  budget_usage = usage;
  final_status = some status;
  stop_reason = some reason;
}

abbrev pub is_sufficient : EvidenceStatus → Bool
is_sufficient EvidenceStatus.sufficient = true
is_sufficient _ = false

-- `decision.status` as a status of the run, and whether more retrieval may help.
abbrev pub status_of : EvidenceStatus → AgenticRunStatus
status_of EvidenceStatus.sufficient = completed
status_of EvidenceStatus.partial_evidence = partial_evidence
status_of EvidenceStatus.no_evidence = no_evidence
status_of EvidenceStatus.conflicting_evidence = conflicting_evidence

abbrev pub is_incomplete : EvidenceStatus → Bool
is_incomplete EvidenceStatus.partial_evidence = true
is_incomplete EvidenceStatus.no_evidence = true
is_incomplete _ = false

-- `not tool_calls or tool_calls[-1].status != "reused"`.
abbrev pub last_is_new : List ToolCallSummary → Bool
last_is_new [] = true
last_is_new (c ∷ []) = elim c.status [ reused ↦ false | _ ↦ true ]
last_is_new (c ∷ d ∷ cs) = last_is_new (d ∷ cs)

-- The citations of the items that have one, and the lines of the answer.
abbrev pub citations_of : List EvidenceItem → List AgentEvidenceCitation
citations_of [] = []
citations_of (i ∷ is) =
    let rest = citations_of is in elim i.citation [ none ↦ rest | some c ↦ c ∷ rest ]

abbrev pub answer_lines : List EvidenceItem → List String
answer_lines [] = []
answer_lines (i ∷ is) =
    let rest = answer_lines is in
    elim i.citation [
      | none ↦ rest
      | some c ↦ concat ("[" ∷ c.citation_id ∷ "] " ∷ i.excerpt ∷ []) ∷ rest
    ]

module _ (F : FloatOps) (G : Setting) where
  abbrev pub decision_on : AgenticState F.Float → QueryPlan → EvidenceDecision
  decision_on s plan =
      evaluate_evidence G.platform G.minimum_score s.authorization.tenant_id plan s.evidence

  abbrev pub can_retry : AgenticState F.Float → EvidenceStatus → Bool
  can_retry s status =
      is_incomplete status
      && ltb s.budget_usage.retrieval_rounds s.budget_limits.max_retrieval_rounds
      && last_is_new s.tool_calls

  abbrev pub evaluated : AgenticState F.Float → QueryPlan → EvidenceDecision → AgenticState F.Float
  evaluated s plan d =
      if can_retry s d.status
      then record s {
        final_status = none;
        stop_reason = some "additional_retrieval";
        current_step = 0;
      }
      else record s {
        final_status = some (status_of d.status);
        stop_reason = some d.reason;
        current_step = length plan.steps;
      }

  -- `evaluate`.
  unfoldable pub evaluate_node : World F.Float → Result AgentRaised (World F.Float)
  evaluate_node w = elim w.state.plan [
    | none ↦ err invalid
    | some plan ↦ ok (record w { state = evaluated w.state plan (decision_on w.state plan) })
  ]

  abbrev pub final_text : AgenticRunStatus → AgenticState F.Float → Option String
  final_text completed s = some (join "\n" (answer_lines s.evidence))
  final_text partial_evidence s =
      some (concat ("仅获得部分证据:\n" ∷ join "\n" (answer_lines s.evidence) ∷ []))
  final_text conflicting_evidence s = some "检索到尚未解决的冲突证据, 无法给出单一确定结论。"
  final_text no_evidence s = some "未检索到足够的授权证据。"
  final_text budget_exhausted s = some "运行预算已耗尽, 且没有足够证据完成回答。"
  final_text _ s = s.final_answer

  -- `finalize`.
  unfoldable pub finalize_node : World F.Float → Result AgentRaised (World F.Float)
  finalize_node w = elim w.state.final_status [
    | none ↦ err invalid
    | some status ↦ ok (record w {
      state = record w.state {
        citations = citations_of w.state.evidence;
        final_answer = final_text status w.state;
      };
    })
  ]
