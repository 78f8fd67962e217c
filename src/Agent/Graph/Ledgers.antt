-- ===== src/Agent/Graph/Ledgers.antt =====
-- What the visits of agent/graphs/agentic_rag.py do to the plan, the limits and the iterations.
use ragflow_agent.Base.{
  ℕ, zero, suc, ◌+◌, ◌≤◌, ◌<◌, ◌≡◌, refl, ap, ◌⊎◌, inl, inr, Bool, true, false, not, ◌||◌, ◌==◌,
  is_none, Option, List, [], ◌∷◌, String, get_elem?, length, ltb, arith, Result, Check, map_ok, ok,
  err, FloatOps, Bool-cases, Option-cases, Result-cases,
}
use ragflow_agent.Base.Dict.{Dict}
use ragflow_agent.Agent.Errors.{AgentRaised, exhausted, invalid, agent_iterations}
use ragflow_agent.Agent.Platform.{Platform}
use ragflow_agent.Agent.Budget.{BudgetLedger, consume_iteration, consume_retrieval}
use ragflow_agent.Agent.Tools.{
  ToolRegistration, ToolInvocation, ToolAuthorizationContext, ToolService, Attempt, Executed,
  execute, ToolExecutionOutcome, OutcomeStatus, authorize, resolve,
}
use ragflow_agent.Agent.Tools.Execution.{execute_calls}
use ragflow_agent.Agent.Approval.{ApprovalRequest, Resumed, resume, get_current, Store, request}
use ragflow_agent.Agent.Evidence.{QueryPlan, PlanStep, EvidenceItem}
use ragflow_agent.Agent.Graph.State.{AgenticState, World, ledger_of, context_of}
use ragflow_agent.Agent.Graph.ToolEvidence.{Readers, apply_tool_outcome, applied, items_of}
use ragflow_agent.Agent.Graph.Evaluation.{Setting}
use ragflow_agent.Agent.Graph.Nodes.{
  Turn, step_raised, after_call, called, paid, awaiting, executed, invocation_of, colons,
  or_default, pay_step,
}
use ragflow_agent.Agent.Graph.Await.{
  await_approval_node, after_resume, with_current, current_step_id,
}
use ragflow_agent.Agent.Graph.Runs.{after}

-- Executing or resuming a call takes no iteration.
module _ (P : Platform) {N : Type 0} (registry : Dict ToolRegistration) (world : ℕ → Attempt)
    (i : ToolInvocation) (c : ToolAuthorizationContext) (service : ToolService)
    (ledger : BudgetLedger N) where
  abbrev Keeps : BudgetLedger N → Type 0
  Keeps after = after.usage.agent_iterations ≡ ledger.usage.agent_iterations

  execute-Keeps :
      (approved : Bool) → Keeps (execute P registry world i c approved service ledger).ledger
  unfolding execute authorize
  execute-Keeps approved = elim (Result-cases (resolve registry i.tool_name i.tool_version)) [
    | inl (r, p) ↦
        ap (λ l. l.usage.agent_iterations)
          (execute_calls P registry world i c approved service ledger r p).0.only_tools
    | inr (e, p) ↦ rw p refl
  ]

  resume-Keeps :
      (approval_id : String) (now : ℕ) (store : Store)
      → Keeps (resume P registry world approval_id i c now store service ledger).ledger
  unfolding resume
  resume-Keeps approval_id now store = ground (arith, execute-Keeps true)

pub get_elem?-ltb :
    {A : Type 0} (xs : List A) (n : ℕ) → is_none (get_elem? xs n) ≡ not (ltb n (length xs))
get_elem?-ltb [] n = ground arith
get_elem?-ltb (x ∷ xs) zero = ground arith
get_elem?-ltb (x ∷ xs) (suc n) = ground (arith, get_elem?-ltb xs n)

-- An outcome that is applied leaves the plan, the limits and the status, and stores the ledger.
module _ (P : Platform) (R : Readers) {N : Type 0} (s s' : AgenticState N) (step_id : String)
    (o : ToolExecutionOutcome) (ledger : BudgetLedger N) where
  abbrev IsApplied : Type 0
  IsApplied =
      (s'.plan ≡ s.plan)
      × (s'.budget_limits ≡ s.budget_limits)
      × (s'.budget_usage ≡ ledger.usage)
      × (s'.final_status ≡ s.final_status)

  items-IsApplied :
      (r : Result AgentRaised (List EvidenceItem × Option String))
      → map_ok (applied P R s step_id o ledger) r ≡ ok s'
      → IsApplied
  items-IsApplied (ok (items, trace)) h = ground arith
  items-IsApplied (err e) h = cc

  apply-IsApplied : apply_tool_outcome P R s step_id o ledger ≡ ok s' → IsApplied
  unfolding apply_tool_outcome
  apply-IsApplied h = items-IsApplied (items_of P R s step_id o) h

module _ (F : FloatOps) (G : Setting) (t : Turn F.Float) where
  -- The same plan and limits, and no iteration more.
  abbrev pub IsSame : World F.Float → World F.Float → Type 0
  IsSame w w' =
      (w'.state.plan ≡ w.state.plan)
      × (w'.state.budget_limits ≡ w.state.budget_limits)
      × (w'.state.budget_usage.agent_iterations ≡ w.state.budget_usage.agent_iterations)

  after_resume-IsSame :
      (w w' : World F.Float) (r : Resumed F.Float)
      → r.ledger.usage.agent_iterations ≡ w.state.budget_usage.agent_iterations
      → after_resume F G t w r ≡ ok w'
      → IsSame w w'
  after_resume-IsSame w w' r e h = elim (Result-cases r.result) [
    | inr (x, p) ↦ ground arith
    | inl (o, p) ↦ elim (Result-cases (current_step_id w.state)) [
      | inr (x, q) ↦ ground arith
      | inl (step_id, q) ↦
          elim (Result-cases (apply_tool_outcome G.platform G.readers w.state step_id o r.ledger)) [
            | inr (x, u) ↦ ground arith
            | inl (s', u) ↦
                ground (arith, apply-IsApplied G.platform G.readers w.state s' step_id o r.ledger u)
          ]
    ]
  ]

  with_current-IsSame :
      (w w' : World F.Float) (approval_id : String) (i : ToolInvocation)
      (x : Result AgentRaised ApprovalRequest × Store)
      → with_current F G t w approval_id i x ≡ ok w'
      → IsSame w w'
  with_current-IsSame w w' approval_id i (err e, store) h = cc
  with_current-IsSame w w' approval_id i (ok item, store) h = ground (
    arith,
    after_resume-IsSame w w' (
        resume G.platform G.registry t.world approval_id i (context_of w.state) t.resumed_at store
          w.service (ledger_of w.state)),
    resume-Keeps G.platform G.registry t.world i (context_of w.state) w.service (ledger_of w.state)
        approval_id t.resumed_at store,
  )

  pub await-IsSame : (w w' : World F.Float) → await_approval_node F G t w ≡ ok w' → IsSame w w'
  unfolding await_approval_node
  await-IsSame w w' h = elim (Option-cases w.state.approval_id) [
    | inl p ↦ ground arith
    | inr (approval_id, p) ↦ elim (Option-cases w.state.pending_tool_invocation) [
      | inl q ↦ ground arith
      | inr (i, q) ↦
          with_current-IsSame w w' approval_id i
            (get_current approval_id w.state.authorization.tenant_id t.now w.approvals)
            (ground arith)
    ]
  ]

  -- A step stores the ledger that its call leaves.
  abbrev pub Stores : BudgetLedger F.Float → World F.Float → World F.Float → Type 0
  Stores l w w' =
      (w'.state.plan ≡ w.state.plan)
      × (w'.state.budget_limits ≡ w.state.budget_limits)
      × (w'.state.budget_usage ≡ l.usage)

  pub step_raised-Stores :
      (w : World F.Float) (plan : QueryPlan) (e : AgentRaised) (l : BudgetLedger F.Float)
      → Stores l w (record w { state = step_raised F G t w.state plan e l })
  step_raised-Stores w plan e l = ground arith

  awaiting-Stores :
      (w w' : World F.Float) (i : ToolInvocation) (l : BudgetLedger F.Float)
      (r : Result AgentRaised (ApprovalRequest × Store))
      → map_ok (awaiting F G t w i l.usage) r ≡ ok w'
      → Stores l w w'
  awaiting-Stores w w' i l (ok (item, store)) h = ground arith
  awaiting-Stores w w' i l (err e) h = cc

  after_call-Stores :
      (status : OutcomeStatus) (w w' : World F.Float) (step : PlanStep) (i : ToolInvocation)
      (o : ToolExecutionOutcome) (l : BudgetLedger F.Float)
      → after_call F G t status w step i o l ≡ ok w'
      → Stores l w w'
  after_call-Stores OutcomeStatus.approval_required w w' step i o l h =
      awaiting-Stores w w' i l
        (request G.platform colons w.state.run_id w.state.thread_id i (context_of w.state)
          (or_default o.approval_reason "Tool approval required") o.required_roles t.now
          G.approval_ttl t.new_id w.approvals)
        h
  after_call-Stores OutcomeStatus.failed w w' step i o l h = ground arith
  after_call-Stores OutcomeStatus.success w w' step i o l h =
      elim (Result-cases (apply_tool_outcome G.platform G.readers w.state step.step_id o l)) [
        | inr (x, u) ↦ ground arith
        | inl (s', u) ↦
            ground (arith, apply-IsApplied G.platform G.readers w.state s' step.step_id o l u)
      ]

  called-Stores :
      (w w' : World F.Float) (plan : QueryPlan) (step : PlanStep) (i : ToolInvocation)
      (r : Result AgentRaised ToolExecutionOutcome) (l : BudgetLedger F.Float)
      → called F G t w plan step i r l ≡ ok w'
      → Stores l w w'
  called-Stores w w' plan step i (err e) l h = ground (arith, step_raised-Stores w plan e l)
  called-Stores w w' plan step i (ok o) l h = after_call-Stores o.status w w' step i o l h

  abbrev pub Pays : BudgetLedger F.Float → World F.Float → World F.Float → Type 0
  Pays l w w' =
      (w'.state.plan ≡ w.state.plan)
      × (w'.state.budget_limits ≡ w.state.budget_limits)
      × (w'.state.budget_usage.agent_iterations ≡ l.usage.agent_iterations)

  executed-Stores :
      (w w' : World F.Float) (plan : QueryPlan) (step : PlanStep) (i : ToolInvocation)
      (l : BudgetLedger F.Float) (e : Executed F.Float)
      → e.ledger.usage.agent_iterations ≡ l.usage.agent_iterations
      → executed F G t w plan step i e ≡ ok w'
      → Pays l w w'
  executed-Stores w w' plan step i l e k h =
      ground
        (arith, called-Stores (record w { service = e.service }) w' plan step i e.result e.ledger)

  pub paid-Stores :
      (w w' : World F.Float) (plan : QueryPlan) (step : PlanStep)
      (x : Check AgentRaised × BudgetLedger F.Float)
      → paid F G t w plan step x ≡ ok w'
      → Pays x.1 w w'
  paid-Stores w w' plan step (err e, l) h = ground (arith, step_raised-Stores w plan e l)
  paid-Stores w w' plan step (ok u, l) h =
      elim (Bool-cases (step.preferred_tool == "" || step.tool_version == "")) [
        | inl b ↦ ground (arith, step_raised-Stores w plan invalid l)
        | inr b ↦
            executed-Stores w w' plan step (invocation_of F G t w.state step) l
              (execute G.platform G.registry t.world (invocation_of F G t w.state step)
                (context_of w.state) false w.service l)
              (execute-Keeps G.platform G.registry t.world (invocation_of F G t w.state step)
                (context_of w.state) w.service l false)
              (ground arith)
      ]

  pub pay_step-cases :
      (step : PlanStep) (l : BudgetLedger F.Float)
      → ((l.limits.max_agent_iterations ≤ l.usage.agent_iterations)
          × (pay_step F G t step l ≡ (err (exhausted agent_iterations), l)))
        ⊎ ((l.usage.agent_iterations < l.limits.max_agent_iterations)
            × ((pay_step F G t step l).1.usage.agent_iterations ≡ l.usage.agent_iterations + 1))
  unfolding consume_iteration consume_retrieval
  pay_step-cases step l = ground arith
