-- ===== src/Agent/Tools/Attempts.antt =====
-- The retry loop of `execute` of agent/application/tool_policy.py, and what an execution reads and
-- leaves.
use ragflow_agent.Base.{ℕ, zero, suc, ◌+◌, String, Option, none, some, Result, Check, ok, err}
use ragflow_agent.Base.Dict.{Dict}
use ragflow_agent.Agent.Errors.{AgentRaised, tool_error}
use ragflow_agent.Agent.Values.{Value}
use ragflow_agent.Agent.Budget.{BudgetLedger, consume_tool}
use ragflow_agent.Agent.Tools.Contracts.{ToolExecutionOutcome}

-- How one call of a handler ends.
pub data Attempt : Type 0 where
  returned : Value → Attempt
  raised_tool_error : String → Attempt
  raised_timeout : Attempt
  raised_other : Attempt

-- The service's memory of earlier calls.
pub record ToolService : Type 0 where
  pub completed : Dict ToolExecutionOutcome
  pub successful_signatures : Dict ToolExecutionOutcome

-- The result of an execution, the service and the ledger after it, and how often the handler ran.
pub record Executed (N : Type 0) : Type 0 where
  pub result : Result AgentRaised ToolExecutionOutcome
  pub service : ToolService
  pub ledger : BudgetLedger N
  pub calls : ℕ

-- What the retry loop leaves: the raw output or the error code of the last attempt.
pub data RawResult : Type 0 where
  output : Value → RawResult
  error_code : String → RawResult

pub record Looped (N : Type 0) : Type 0 where
  pub raw : Result AgentRaised RawResult
  pub ledger : BudgetLedger N
  pub calls : ℕ

module _ {N : Type 0} (world : ℕ → Attempt) where
  abbrev stopped : Result AgentRaised RawResult → BudgetLedger N → ℕ → Looped N
  stopped raw ledger calls = record { raw = raw; ledger = ledger; calls = calls }

  -- One attempt after its unit of budget was granted; `again` is what follows a failure, none after
  -- the last attempt.
  abbrev after_attempt : Attempt → BudgetLedger N → ℕ → Option (Looped N) → Looped N
  after_attempt (returned v) ledger calls again = stopped (ok (output v)) ledger calls
  after_attempt (raised_tool_error code) ledger calls again =
      stopped (err (tool_error code)) ledger calls
  after_attempt raised_timeout ledger calls (some next) = next
  after_attempt raised_other ledger calls (some next) = next
  after_attempt raised_timeout ledger calls none =
      stopped (ok (error_code "agent_tool_timeout")) ledger calls
  after_attempt raised_other ledger calls none =
      stopped (ok (error_code "agent_tool_failed")) ledger calls

  abbrev granted :
      Check AgentRaised × BudgetLedger N
      → BudgetLedger N
      → ℕ
      → (BudgetLedger N → Looped N)
      → Looped N
  granted (ok _, ledger') ledger calls next = next ledger'
  granted (err e, ledger') ledger calls next = stopped (err e) ledger' calls

  -- `for attempt in range(max_retries + 1)`, by recursion on the retries left; `calls` counts the
  -- calls of the handler so far and is the number of the next.
  unfoldable pub attempts : ℕ → ℕ → BudgetLedger N → Looped N
  unfolding consume_tool
  attempts zero calls ledger =
      granted (consume_tool ledger) ledger calls
        (λ l. after_attempt (world calls) l (calls + 1) none)
  attempts (suc left) calls ledger =
      granted (consume_tool ledger) ledger calls
        (λ l. after_attempt (world calls) l (calls + 1) (some (attempts left (calls + 1) l)))
