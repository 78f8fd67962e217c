-- ===== src/Agent/Tools/Execution.antt =====
-- How often `SecureToolExecutionService.execute` of agent/application/tool_policy.py runs a handler,
-- under which decision, and what that costs.
use ragflow_agent.Base.{ℕ, zero, suc, ◌+◌, ◌-◌, ◌≤◌, ◌<◌, ◌≡◌, ◌⊎◌, Bool, true, false, arith, ok}
use ragflow_agent.Base.Dict.{Dict}
use ragflow_agent.Agent.Platform.{Platform}
use ragflow_agent.Agent.Budget.{BudgetLedger}
use ragflow_agent.Agent.Tools.{
  allow, require_approval, ToolRegistration, ToolAuthorizationContext, ToolInvocation,
  ToolPolicyDecision, evaluate, Attempt, attempts, authorize, invoke, decide, execute, ToolService,
  Executed, Looped, resolve, after_loop,
}

-- The ledger after `n` more tool attempts and nothing else.
abbrev pub spent : {N : Type 0} → BudgetLedger N → ℕ → BudgetLedger N
spent l n = record l { usage = record l.usage { tool_attempts = l.usage.tool_attempts + n } }

-- What a loop or an execution has used: one tool attempt for each call of the handler, nothing else,
-- and never more than the limit allows.
pub record Spends {N : Type 0} (before after : BudgetLedger N) (calls bound : ℕ) : Type 0 where
  pub only_tools : after ≡ spent before calls
  pub bounded : calls ≤ bound
  pub in_budget :
      before.usage.tool_attempts ≤ before.limits.max_tool_attempts
      → after.usage.tool_attempts ≤ before.limits.max_tool_attempts

abbrev LoopSpends : {N : Type 0} → ℕ → ℕ → BudgetLedger N → Looped N → Type 0
LoopSpends left calls before l =
    (calls ≤ l.calls) × Spends before l.ledger (l.calls - calls) (suc left)

module _ {N : Type 0} (world : ℕ → Attempt) where
  attempts_last :
      (calls : ℕ) (ledger : BudgetLedger N)
      → LoopSpends 0 calls ledger (attempts world 0 calls ledger)
  unfolding attempts
  attempts_last calls ledger = ground arith

  attempts_more :
      (left calls : ℕ) (ledger : BudgetLedger N)
      → LoopSpends left
          (calls + 1)
          (spent ledger 1)
          (attempts world left (calls + 1) (spent ledger 1))
      → LoopSpends (suc left) calls ledger (attempts world (suc left) calls ledger)
  unfolding attempts
  attempts_more left calls ledger h = ground arith

  attempts-Spends :
      (left calls : ℕ) (ledger : BudgetLedger N)
      → LoopSpends left calls ledger (attempts world left calls ledger)
  attempts-Spends zero calls ledger = attempts_last calls ledger
  attempts-Spends (suc left) calls ledger =
      attempts_more left calls ledger (attempts-Spends left (calls + 1) (spent ledger 1))

module _ (P : Platform) {N : Type 0} where
  module _ (world : ℕ → Attempt) (i : ToolInvocation) (c : ToolAuthorizationContext)
      (r : ToolRegistration) (d : ToolPolicyDecision) (approved : Bool) (service : ToolService)
      (ledger : BudgetLedger N) where
    abbrev looped_calls : Looped N
    looped_calls = attempts world r.max_retries 0 ledger

    Spends-none : Spends ledger ledger 0 (r.max_retries + 1)
    Spends-none = ground arith

    after_loop-calls :
        (l : Looped N)
        → ((after_loop P i c service r l.ledger l.calls l.raw).calls ≡ l.calls)
          × ((after_loop P i c service r l.ledger l.calls l.raw).ledger ≡ l.ledger)
    after_loop-calls l = ground arith

    -- A call of the handler was allowed by the policy, or approved where it requires an approval.
    abbrev Licensed : ℕ → Type 0
    Licensed calls =
        0 < calls → (d.action ≡ allow) ⊎ ((d.action ≡ require_approval) × (approved ≡ true))

    abbrev IsPaid : Executed N → Type 0
    IsPaid e = Spends ledger e.ledger e.calls (r.max_retries + 1)

    invoke-IsPaid : IsPaid (invoke P world i c r d approved service ledger)
    unfolding invoke
    invoke-IsPaid =
        ground (arith, attempts-Spends world r.max_retries 0 ledger, after_loop-calls looped_calls)

    invoke_unlicensed :
        d.action ≡ require_approval
        → approved ≡ false
        → (invoke P world i c r d approved service ledger).calls ≡ 0
    unfolding invoke
    invoke_unlicensed h k = ground arith

    decide_calls :
        IsPaid (decide P world i c r d approved service ledger)
        × Licensed (decide P world i c r d approved service ledger).calls
    unfolding decide
    decide_calls = ground (arith, invoke-IsPaid, invoke_unlicensed)

  -- One execution of a resolved tool calls its handler at most once more than its retries, spends one
  -- tool attempt of the budget for each call and nothing else, stays within the limit if it was, and
  -- calls the handler only if the policy allows it, or requires an approval and there is one.
  pub execute_calls :
      (registry : Dict ToolRegistration) (world : ℕ → Attempt) (i : ToolInvocation)
      (c : ToolAuthorizationContext) (approved : Bool) (service : ToolService)
      (ledger : BudgetLedger N) (r : ToolRegistration)
      → resolve registry i.tool_name i.tool_version ≡ ok r
      → let e = execute P registry world i c approved service ledger in
        let action = (evaluate r c i.business_scope).action in
        Spends ledger e.ledger e.calls (r.max_retries + 1)
        × (0 < e.calls → (action ≡ allow) ⊎ ((action ≡ require_approval) × (approved ≡ true)))
  unfolding execute authorize
  execute_calls registry world i c approved service ledger r h = ground (
    arith,
    Spends-none world i c r (evaluate r c i.business_scope) approved service ledger,
    decide_calls world i c r (evaluate r c i.business_scope) approved service ledger,
  )
