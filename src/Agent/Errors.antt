-- ===== src/Agent/Errors.antt =====
-- What a call of the agent layer raises: agent/domain/errors.py, `AgentBudgetExceeded` of
-- agent/application/budgets.py, and every other exception as one case.
use Prim.Native.String.{String}

pub data BudgetDimension : Type 0 where
  agent_iterations model_calls retrieval_rounds tool_attempts total_tokens generated_tokens
        active_runtime known_cost :
      BudgetDimension

pub data AgentRaised : Type 0 where
  exhausted : BudgetDimension → AgentRaised  -- AgentBudgetExceeded
  tool_error : String → AgentRaised  -- AgentToolError, by error_code
  policy_error : String → AgentRaised  -- MemoryPolicyError, by error_code
  invalid : AgentRaised  -- ValueError
  timed_out : AgentRaised  -- TimeoutError
  failure : AgentRaised  -- any other exception of a provider or a handler
