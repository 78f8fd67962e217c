-- ===== src/Agent/Budget/Cost.antt =====
-- The token reserve of agent/application/budgets.py, and the aggregate of the cost statuses.
use ragflow_agent.Base.{
  ℕ, suc, ◌+◌, ◌≤◌, ◌<◌, ◌≡◌, refl, ◌⊎◌, inl, inr, pos, Bool, true, false, Option, none, some, List,
  [], ◌∷◌, arith, ok, FloatOps, if◌then◌else◌, ◌||◌,
}
use ragflow_agent.Agent.Budget.{
  BudgetLedger, CostStatus, known, unknown, local, can_finalize, record_model_usage, BudgetLimits,
  add_known_cost, merge_cost_status, resolve_cost,
}

module _ (F : FloatOps) where
  abbrev pub Acceptable : Option F.Float → Type 0
  Acceptable none = Unit
  Acceptable (some c) = F.leb F.zero c ≡ true

  -- The status says that the cost is unknown or local, or there is none and a rate is missing.
  abbrev pub IsUnpriced : BudgetLimits F.Float → Option CostStatus → Type 0
  IsUnpriced limits (some known) = ⊥
  IsUnpriced limits (some unknown) = Unit
  IsUnpriced limits (some local) = Unit
  IsUnpriced limits none =
      (limits.model_input_cost_per_million_tokens_usd ≡ none)
      ⊎ (limits.model_output_cost_per_million_tokens_usd ≡ none)

  Unpriced-resolve_cost :
      (l : BudgetLedger F.Float) (input generated : ℕ) (cost : Option F.Float)
      (status : Option CostStatus)
      → IsUnpriced l.limits status
      → add_known_cost F l.usage.known_cost_usd
          (resolve_cost F l.limits input generated cost status)
        ≡ l.usage.known_cost_usd
  Unpriced-resolve_cost l input generated cost (some known) h = absurd h
  Unpriced-resolve_cost l input generated cost (some unknown) h = refl
  Unpriced-resolve_cost l input generated cost (some local) h = refl
  Unpriced-resolve_cost l input generated cost none (inl h) = rw h refl
  Unpriced-resolve_cost l input generated cost none (inr h) = ground arith

  -- If the ledger can finalize, a model call that stays within the reserve, with any cost that is not
  -- negative and a status that is unknown or local, or with no status where a rate is missing, does not
  -- exhaust the budget, if the known cost did not pass its limit before and a call was begun.
  pub reserve_suffices :
      (input generated : ℕ) (cost : Option F.Float) (status : Option CostStatus)
      (l : BudgetLedger F.Float)
      → can_finalize l ≡ true
      → Acceptable cost
      → IsUnpriced l.limits status
      → 0 < l.usage.model_calls
      → F.leb l.usage.known_cost_usd l.limits.max_known_cost_usd ≡ true
      → input + generated ≤ l.limits.finalization_token_reserve
      → (record_model_usage F (pos input) (pos generated) cost status l).0 ≡ ok tt
  unfolding record_model_usage can_finalize
  reserve_suffices input generated cost status l h a n b c r =
      let same = Unpriced-resolve_cost l input generated cost status n in ground arith

-- The aggregate status over the calls of a run, in order; the first call has no calls before it.
pub merged_from : CostStatus → ℕ → List CostStatus → CostStatus
merged_from current calls [] = current
merged_from current calls (s ∷ rest) =
    merged_from (merge_cost_status current s calls) (suc calls) rest

abbrev is_unknown : CostStatus → Bool
is_unknown unknown = true
is_unknown _ = false

abbrev is_known : CostStatus → Bool
is_known known = true
is_known _ = false

abbrev any_unknown : List CostStatus → Bool
any_unknown [] = false
any_unknown (s ∷ rest) = is_unknown s || any_unknown rest

abbrev any_known : List CostStatus → Bool
any_known [] = false
any_known (s ∷ rest) = is_known s || any_known rest

-- What the aggregate promises, without the order of the calls.
abbrev pub overall : List CostStatus → CostStatus
overall statuses =
    if any_unknown statuses then unknown else if any_known statuses then known else local

merged_from-overall :
    (current : CostStatus) (calls : ℕ) (rest : List CostStatus)
    → merged_from current (suc calls) rest ≡ overall (current ∷ rest)
unfolding merged_from merge_cost_status
merged_from-overall known calls [] = refl
merged_from-overall unknown calls [] = refl
merged_from-overall local calls [] = refl
merged_from-overall current calls (s ∷ rest) =
    ground (arith, merged_from-overall (merge_cost_status current s (suc calls)) (suc calls) rest)

-- Merged call by call from any initial status, the aggregate is unknown if the cost of some call is
-- unknown, else known if that of some call is known, else local.
pub merged-overall :
    (initial s : CostStatus) (rest : List CostStatus)
    → merged_from initial 0 (s ∷ rest) ≡ overall (s ∷ rest)
unfolding merged_from merge_cost_status
merged-overall initial s rest = merged_from-overall s 0 rest
