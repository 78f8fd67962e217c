-- ===== src/Agent/Budget.antt =====
-- agent/application/budgets.py, with `BudgetLimits`, `BudgetUsage` and `CostStatus` of
-- agent/domain/agentic.py. A method returns its outcome and the ledger that it leaves, also where it
-- raises. Seconds and dollars are floats of the parameter.
pub mod Limits
pub mod Cost
use ragflow_agent.Base.{
  ℕ, zero, ◌+◌, ◌-◌, ℤ, pos_part, is_negative, Bool, true, false, not, ◌&&◌, ◌||◌, Option, none,
  some, ltb, leb, nat_eq, is_none, same_bool, if◌then◌else◌, Check, ok, err, ◌>>=◌, ◌>>◌, raise_if,
  FloatOps,
}
use ragflow_agent.Agent.Errors.{
  BudgetDimension, agent_iterations, model_calls, retrieval_rounds, tool_attempts, total_tokens,
  generated_tokens, active_runtime, known_cost, AgentRaised, exhausted, invalid,
}

pub data CostStatus : Type 0 where
  known unknown local : CostStatus

pub record BudgetLimits (N : Type 0) : Type 0 where
  pub max_agent_iterations : ℕ
  pub max_model_calls : ℕ
  pub max_retrieval_rounds : ℕ
  pub max_tool_attempts : ℕ
  pub max_total_tokens : ℕ
  pub max_generated_tokens : ℕ
  pub finalization_token_reserve : ℕ
  pub max_active_runtime_seconds : N
  pub max_known_cost_usd : N
  pub model_input_cost_per_million_tokens_usd : Option N
  pub model_output_cost_per_million_tokens_usd : Option N

pub record BudgetUsage (N : Type 0) : Type 0 where
  pub agent_iterations : ℕ
  pub model_calls : ℕ
  pub retrieval_rounds : ℕ
  pub tool_attempts : ℕ
  pub total_tokens : ℕ
  pub generated_tokens : ℕ
  pub active_runtime_seconds : N
  pub known_cost_usd : N
  pub cost_status : CostStatus

pub record BudgetLedger (N : Type 0) : Type 0 where
  pub limits : BudgetLimits N
  pub usage : BudgetUsage N

-- The outcome of a method and the ledger after it.
abbrev pub Step : Type 0 → Type 0
Step N = BudgetLedger N → Check AgentRaised × BudgetLedger N

-- `_merge_cost_status`.
unfoldable pub merge_cost_status : CostStatus → CostStatus → ℕ → CostStatus
merge_cost_status current incoming zero = incoming
merge_cost_status unknown incoming _ = unknown
merge_cost_status _ unknown _ = unknown
merge_cost_status known _ _ = known
merge_cost_status _ known _ = known
merge_cost_status local local _ = local

module _ {N : Type 0} where
  -- `consume_iteration`, for any integer count.
  unfoldable pub consume_iteration : ℤ → Step N
  consume_iteration count ledger =
      let u = ledger.usage in
      let updated = u.agent_iterations + pos_part count in
      if ltb (pos_part count) 1
      then (err invalid, ledger)
      else if ltb ledger.limits.max_agent_iterations updated
      then (err (exhausted agent_iterations), ledger)
      else (ok tt, record ledger { usage = record u { agent_iterations = updated } })

  unfoldable pub begin_model_call : Step N
  begin_model_call ledger =
      let u = ledger.usage in
      let updated = u.model_calls + 1 in
      if ltb ledger.limits.max_model_calls updated
      then (err (exhausted model_calls), ledger)
      else (ok tt, record ledger { usage = record u { model_calls = updated } })

  unfoldable pub consume_retrieval : Step N
  consume_retrieval ledger =
      let u = ledger.usage in
      let updated = u.retrieval_rounds + 1 in
      if ltb ledger.limits.max_retrieval_rounds updated
      then (err (exhausted retrieval_rounds), ledger)
      else (ok tt, record ledger { usage = record u { retrieval_rounds = updated } })

  unfoldable pub consume_tool : Step N
  consume_tool ledger =
      let u = ledger.usage in
      let updated = u.tool_attempts + 1 in
      if ltb ledger.limits.max_tool_attempts updated
      then (err (exhausted tool_attempts), ledger)
      else (ok tt, record ledger { usage = record u { tool_attempts = updated } })

  unfoldable pub can_finalize : BudgetLedger N → Bool
  can_finalize ledger =
      leb (ledger.usage.total_tokens + ledger.limits.finalization_token_reserve)
        ledger.limits.max_total_tokens
      && leb (ledger.usage.generated_tokens + ledger.limits.finalization_token_reserve)
          ledger.limits.max_generated_tokens

module _ (F : FloatOps) where
  -- `x > y` on floats.
  abbrev above : F.Float → F.Float → Bool
  above x y = not (F.leb x y)

  -- The table of `_enforce`.
  abbrev pub is_exceeded : BudgetDimension → BudgetLedger F.Float → Bool
  is_exceeded agent_iterations l = ltb l.limits.max_agent_iterations l.usage.agent_iterations
  is_exceeded model_calls l = ltb l.limits.max_model_calls l.usage.model_calls
  is_exceeded retrieval_rounds l = ltb l.limits.max_retrieval_rounds l.usage.retrieval_rounds
  is_exceeded tool_attempts l = ltb l.limits.max_tool_attempts l.usage.tool_attempts
  is_exceeded total_tokens l = ltb l.limits.max_total_tokens l.usage.total_tokens
  is_exceeded generated_tokens l = ltb l.limits.max_generated_tokens l.usage.generated_tokens
  is_exceeded active_runtime l =
      above l.usage.active_runtime_seconds l.limits.max_active_runtime_seconds
  is_exceeded known_cost l = above l.usage.known_cost_usd l.limits.max_known_cost_usd

  -- `_enforce`.
  abbrev pub enforce : BudgetDimension → BudgetLedger F.Float → Check AgentRaised
  enforce d l = raise_if (is_exceeded d l) (exhausted d)

  -- `cost_usd is not None and cost_usd < 0`.
  abbrev is_negative_cost : Option F.Float → Bool
  is_negative_cost none = false
  is_negative_cost (some c) = not (F.leb F.zero c)

  -- `(input_tokens * input_rate + generated_tokens * output_rate) / 1_000_000`.
  abbrev token_cost : ℕ → ℕ → F.Float → F.Float → F.Float
  token_cost input generated input_rate output_rate =
      F.div (F.add (F.mul (F.of_ℕ input) input_rate) (F.mul (F.of_ℕ generated) output_rate))
        (F.of_ℕ 1000000)

  -- `resolved_status` and `resolved_cost` where no status is given.
  abbrev by_rates :
      ℕ → ℕ → Option F.Float → Option F.Float → Option F.Float → CostStatus × Option F.Float
  by_rates input generated (some i) (some o) cost = (known, some (token_cost input generated i o))
  by_rates input generated _ _ cost = (unknown, cost)

  abbrev pub resolve_cost :
      BudgetLimits F.Float
      → ℕ
      → ℕ
      → Option F.Float
      → Option CostStatus
      → CostStatus × Option F.Float
  resolve_cost limits input generated cost (some status) = (status, cost)
  resolve_cost limits input generated cost none =
      by_rates input generated limits.model_input_cost_per_million_tokens_usd
        limits.model_output_cost_per_million_tokens_usd cost

  -- `known_cost_usd` after the call; `resolved_cost or 0` is zero for None.
  abbrev pub add_known_cost : F.Float → CostStatus × Option F.Float → F.Float
  add_known_cost total (known, some c) = F.add total c
  add_known_cost total (known, none) = F.add total F.zero
  add_known_cost total _ = total

  -- The usage that `record_model_usage` stores before it enforces the limits.
  abbrev pub recorded :
      BudgetLedger F.Float → ℕ → ℕ → CostStatus × Option F.Float → BudgetUsage F.Float
  recorded ledger input generated resolved =
      let u = ledger.usage in
      record u {
        total_tokens = u.total_tokens + input + generated;
        generated_tokens = u.generated_tokens + generated;
        known_cost_usd = add_known_cost u.known_cost_usd resolved;
        cost_status = merge_cost_status u.cost_status resolved.0 (u.model_calls - 1);
      }

  unfoldable pub record_model_usage : ℤ → ℤ → Option F.Float → Option CostStatus → Step F.Float
  record_model_usage input_tokens generated_tokens' cost_usd cost_status ledger =
      let input = pos_part input_tokens in
      let generated = pos_part generated_tokens' in
      let resolved = resolve_cost ledger.limits input generated cost_usd cost_status in
      let after = record ledger { usage = recorded ledger input generated resolved } in
      if is_negative input_tokens || is_negative generated_tokens'
      then (err invalid, ledger)
      else if is_negative_cost cost_usd
      then (err invalid, ledger)
      else if ltb ledger.usage.model_calls 1
      then (err invalid, ledger)
      else (
        (do enforce total_tokens after; enforce generated_tokens after; enforce known_cost after),
        after,
      )

  -- What follows a method of the same ledger, unless that raises.
  abbrev pub then_run :
      Check AgentRaised × BudgetLedger F.Float
      → Step F.Float
      → Check AgentRaised × BudgetLedger F.Float
  then_run (ok _, ledger) next = next ledger
  then_run (err e, ledger) next = (err e, ledger)

  unfoldable pub consume_model : ℤ → ℤ → Option F.Float → CostStatus → Step F.Float
  unfolding begin_model_call record_model_usage
  consume_model input generated cost status ledger =
      then_run (begin_model_call ledger) (record_model_usage input generated cost (some status))

  unfoldable pub add_active_runtime : F.Float → Step F.Float
  add_active_runtime seconds ledger =
      let u = ledger.usage in
      let after = record ledger {
        usage = record u { active_runtime_seconds = F.add u.active_runtime_seconds seconds };
      } in
      if not (F.leb F.zero seconds)
      then (err invalid, ledger)
      else (enforce active_runtime after, after)
