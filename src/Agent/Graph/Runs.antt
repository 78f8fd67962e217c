-- ===== src/Agent/Graph/Runs.antt =====
-- The edges of agent/graphs/agentic_rag.py and its runs. A run visits nodes until the graph ends,
-- until it waits for an approval or until a node raises; on fuel, one unit for each visit. LangGraph
-- bounds the visits by its recursion limit, which is outside.
use ragflow_agent.Base.{
  ℕ, zero, suc, ◌+◌, Bool, false, none, some, ltb, length, if◌then◌else◌, Result, ok, err, FloatOps,
}
use ragflow_agent.Agent.Errors.{AgentRaised}
use ragflow_agent.Agent.Graph.State.{
  AgenticState, failed, budget_exhausted, approval_required, Route, World,
}
use ragflow_agent.Agent.Graph.Nodes.{Turn, route_node, direct_rag_node, execute_step_node}
use ragflow_agent.Agent.Graph.Evaluation.{Setting, evaluate_node, finalize_node}
use ragflow_agent.Agent.Graph.Await.{park, await_approval_node}

pub data Node : Type 0 where
  route direct_rag execute_step await_approval evaluate finalize : Node

-- Where an edge leads.
pub data Edge : Type 0 where
  to : Node → Edge
  finish : Edge

abbrev pub is_pending : {N : Type 0} → AgenticState N → Bool
is_pending s = elim s.plan [ none ↦ false | some plan ↦ ltb s.current_step (length plan.steps) ]

abbrev pub continued : {N : Type 0} → AgenticState N → Edge
continued s = if is_pending s then to execute_step else to evaluate

-- `_after_execute`.
unfoldable pub after_execute : {N : Type 0} → AgenticState N → Edge
after_execute s = elim s.final_status [
  | some approval_required ↦ to await_approval
  | some failed ↦ to finalize
  | some budget_exhausted ↦ to finalize
  | some _ ↦ continued s
  | none ↦ continued s
]

abbrev by_route : Route → Edge
by_route Route.direct_rag = to direct_rag
by_route Route.agent = to execute_step

-- `_after_route`.
unfoldable pub after_route : {N : Type 0} → AgenticState N → Edge
after_route s = elim s.final_status [ none ↦ by_route s.route | some _ ↦ to finalize ]

-- `_after_approval`, and the edge of `evaluate`.
unfoldable pub unless_final : {N : Type 0} → AgenticState N → Edge
unless_final s = elim s.final_status [ none ↦ to execute_step | some _ ↦ to finalize ]

-- The edges of `build_agentic_rag_graph`.
unfoldable pub after : {N : Type 0} → Node → AgenticState N → Edge
unfolding after_route after_execute unless_final
after route s = after_route s
after direct_rag s = finish
after execute_step s = after_execute s
after await_approval s = unless_final s
after evaluate s = unless_final s
after finalize s = finish

pub data Ended (N : Type 0) : Type 0 where
  finished : World N → Ended N
  suspended : World N → Ended N
  raised : AgentRaised → Ended N
  unfinished : Node → World N → Ended N

-- Along an edge: the graph ends, waits for an approval or goes on.
abbrev pub proceed : {N : Type 0} → Edge → World N → (Node → Ended N) → Ended N
proceed finish w next = finished w
proceed (to await_approval) w next = elim (park w) [ ok _ ↦ suspended w | err e ↦ raised e ]
proceed (to node) w next = next node

-- After a visit of a node.
unfoldable pub advance :
    {N : Type 0} → Node → Result AgentRaised (World N) → (Node → World N → Ended N) → Ended N
unfolding after park
advance node (err e) next = raised e
advance node (ok w) next = proceed (after node w.state) w (λ m. next m w)

module _ (F : FloatOps) (G : Setting) where
  -- One visit.
  unfoldable pub visit : Turn F.Float → Node → World F.Float → Result AgentRaised (World F.Float)
  unfolding route_node direct_rag_node execute_step_node await_approval_node evaluate_node
      finalize_node
  visit t route w = ok (route_node F G t w)
  visit t direct_rag w = ok (direct_rag_node F G t w)
  visit t execute_step w = execute_step_node F G t w
  visit t await_approval w = await_approval_node F G t w
  visit t evaluate w = evaluate_node F G w
  visit t finalize w = finalize_node F G w

  -- `visit` number n has the turn `turns n`.
  unfoldable pub run : ℕ → (ℕ → Turn F.Float) → ℕ → Node → World F.Float → Ended F.Float
  unfolding visit advance
  run zero turns n node w = unfinished node w
  run (suc fuel) turns n node w =
      advance node (visit (turns n) node w) (λ next v. run fuel turns (n + 1) next v)
