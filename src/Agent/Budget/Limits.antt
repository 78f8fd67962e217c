-- ===== src/Agent/Budget/Limits.antt =====
-- The counters of agent/application/budgets.py against their limits, over any sequence of calls.
use ragflow_agent.Base.{ℕ, ◌+◌, ◌≤◌, ◌≡◌, ℤ, Option, List, [], ◌∷◌, arith, Check, ok, FloatOps}
use ragflow_agent.Agent.Errors.{AgentRaised}
use ragflow_agent.Agent.Budget.{
  BudgetLedger, CostStatus, Step, consume_iteration, begin_model_call, consume_retrieval,
  consume_tool, record_model_usage, consume_model, add_active_runtime,
}

-- The calls that a run makes on its ledger.
pub data Call (N : Type 0) : Type 0 where
  iteration : ℤ → Call N
  model_call : Call N
  model_usage : ℤ → ℤ → Option N → Option CostStatus → Call N
  model : ℤ → ℤ → Option N → CostStatus → Call N
  retrieval : Call N
  tool : Call N
  runtime : N → Call N

-- The four counters that are tested before they are raised.
pub record WithinLimits {N : Type 0} (l : BudgetLedger N) : Type 0 where
  pub iterations : l.usage.agent_iterations ≤ l.limits.max_agent_iterations
  pub model_calls : l.usage.model_calls ≤ l.limits.max_model_calls
  pub retrievals : l.usage.retrieval_rounds ≤ l.limits.max_retrieval_rounds
  pub tools : l.usage.tool_attempts ≤ l.limits.max_tool_attempts

-- What a call keeps: the limits themselves, and every counter.
pub record Grows {N : Type 0} (a b : BudgetLedger N) : Type 0 where
  pub limits : b.limits ≡ a.limits
  pub iterations : a.usage.agent_iterations ≤ b.usage.agent_iterations
  pub model_calls : a.usage.model_calls ≤ b.usage.model_calls
  pub retrievals : a.usage.retrieval_rounds ≤ b.usage.retrieval_rounds
  pub tools : a.usage.tool_attempts ≤ b.usage.tool_attempts
  pub tokens : a.usage.total_tokens ≤ b.usage.total_tokens
  pub generated : a.usage.generated_tokens ≤ b.usage.generated_tokens

module _ (F : FloatOps) where
  pub perform : Call F.Float → Step F.Float
  perform (iteration count) = consume_iteration count
  perform model_call = begin_model_call
  perform (model_usage input generated cost status) =
      record_model_usage F input generated cost status
  perform (model input generated cost status) = consume_model F input generated cost status
  perform retrieval = consume_retrieval
  perform tool = consume_tool
  perform (runtime seconds) = add_active_runtime F seconds

  -- A run goes on after a call that raised, from the ledger which that call left.
  pub run : List (Call F.Float) → BudgetLedger F.Float → BudgetLedger F.Float
  run [] l = l
  run (c ∷ cs) l = run cs (perform c l).1

  perform-keeps :
      (c : Call F.Float) (l : BudgetLedger F.Float)
      → WithinLimits l
      → WithinLimits (perform c l).1 × Grows l (perform c l).1
  unfolding perform consume_iteration begin_model_call consume_retrieval consume_tool
      record_model_usage consume_model add_active_runtime
  perform-keeps (iteration count) l h = ground arith
  perform-keeps model_call l h = ground arith
  perform-keeps (model_usage input generated cost status) l h = ground arith
  perform-keeps (model input generated cost status) l h = ground arith
  perform-keeps retrieval l h = ground arith
  perform-keeps tool l h = ground arith
  perform-keeps (runtime seconds) l h = ground arith

  Grows-trans : {a b c : BudgetLedger F.Float} → Grows a b → Grows b c → Grows a c
  Grows-trans p q = ground arith

  -- Over any sequence of calls, raising ones included, from a ledger within its limits: iterations,
  -- model calls, retrieval rounds and tool attempts never pass their limits, the limits never
  -- change, and no counter of calls or tokens ever falls.
  pub run-WithinLimits :
      (cs : List (Call F.Float)) (l : BudgetLedger F.Float)
      → WithinLimits l
      → WithinLimits (run cs l) × Grows l (run cs l)
  unfolding run
  run-WithinLimits [] l h = (h, ground arith)
  run-WithinLimits (c ∷ cs) l h =
      let first = perform-keeps c l h in
      let rest = run-WithinLimits cs (perform c l).1 first.0 in (rest.0, Grows-trans first.1 rest.1)

  abbrev granted : Call F.Float → Check AgentRaised → ℕ → ℕ
  granted tool (ok _) n = n + 1
  granted _ _ n = n

  -- How many of the tool attempts that a run asks for are granted.
  pub granted_tools : List (Call F.Float) → BudgetLedger F.Float → ℕ
  granted_tools [] l = 0
  granted_tools (c ∷ cs) l = let (r, l') = perform c l in granted c r (granted_tools cs l')

  perform_tools :
      (c : Call F.Float) (l : BudgetLedger F.Float) (n : ℕ)
      → granted c (perform c l).0 n + l.usage.tool_attempts
        ≡ (perform c l).1.usage.tool_attempts + n
  unfolding perform consume_iteration begin_model_call consume_retrieval consume_tool
      record_model_usage consume_model add_active_runtime
  perform_tools (iteration count) l n = ground arith
  perform_tools model_call l n = ground arith
  perform_tools (model_usage input generated cost status) l n = ground arith
  perform_tools (model input generated cost status) l n = ground arith
  perform_tools retrieval l n = ground arith
  perform_tools tool l n = ground arith
  perform_tools (runtime seconds) l n = ground arith

  granted-run :
      (cs : List (Call F.Float)) (l : BudgetLedger F.Float)
      → granted_tools cs l + l.usage.tool_attempts ≡ (run cs l).usage.tool_attempts
  unfolding run granted_tools
  granted-run [] l = omega arith
  granted-run (c ∷ cs) l =
      omega (
        arith,
        granted-run cs (perform c l).1,
        perform_tools c l (granted_tools cs (perform c l).1),
      )

  -- However often a run asks, it is granted no more tool attempts than its ledger has left.
  pub granted_tools-le :
      (cs : List (Call F.Float)) (l : BudgetLedger F.Float)
      → WithinLimits l
      → granted_tools cs l + l.usage.tool_attempts ≤ l.limits.max_tool_attempts
  granted_tools-le cs l h = ground (arith, granted-run cs l, run-WithinLimits cs l h)
