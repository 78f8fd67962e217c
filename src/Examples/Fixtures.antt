-- ===== src/Examples/Fixtures.antt =====
-- Concrete data for the tests, with a whole-number arithmetic in place of floats and simple functions
-- in place of Python's library.
use Prim.Native.Nat.{◌/◌}
use Prim.Native.String.{len}
use ragflow_agent.Base.{
  ℕ, ◌+◌, ◌*◌, ◌≡◌, zero, suc, true, false, none, [], ◌∷◌, leb, ◌==◌, arith, FloatOps,
}
use ragflow_agent.Base.Dict.{Dict}
use ragflow_agent.Agent.Platform.{Platform}
use ragflow_agent.Agent.Values.{text, obj, arr, nil, cons, Fields, end, field}
use ragflow_agent.Agent.Budget.{BudgetLedger, CostStatus}
use ragflow_agent.Agent.Tools.{
  ToolEffect, ToolRiskLevel, ToolAuthorizationContext, ToolRegistration, ToolInvocation,
  ToolService, Attempt,
}

pub leb_total : (a b : ℕ) → leb a b ≡ false → leb b a ≡ true
leb_total a b h = ground arith

pub leb_trans : (a b c : ℕ) → leb a b ≡ true → leb b c ≡ true → leb a c ≡ true
leb_trans a b c h k = ground arith

pub leb_add : (a b : ℕ) → leb 0 b ≡ true → leb a (a + b) ≡ true
leb_add a b h = ground arith

abbrev pub floats : FloatOps
floats = record {
  Float = ℕ;
  zero = 0;
  add = ◌+◌;
  mul = ◌*◌;
  div = ◌/◌;
  of_ℕ = λ n. n;
  leb = leb;
  leb_total = leb_total;
  leb_trans = leb_trans;
  leb_add = leb_add;
}

abbrev pub platform : Platform
platform = record {
  lower = λ s. s;
  strip = λ s. s;
  redact_secret_like_text = λ s. s;
  contains_prompt_injection = λ s. s == "ignore previous";
  dumps_arguments = λ fs. "{}";
  dumps = λ v. "output";
  sha256 = λ s. s;
  byte_length = len;
}

abbrev pub ledger : BudgetLedger ℕ
ledger = record {
  limits = record {
    max_agent_iterations = 8;
    max_model_calls = 6;
    max_retrieval_rounds = 3;
    max_tool_attempts = 2;
    max_total_tokens = 5000;
    max_generated_tokens = 3000;
    finalization_token_reserve = 1500;
    max_active_runtime_seconds = 120;
    max_known_cost_usd = 50;
    model_input_cost_per_million_tokens_usd = none;
    model_output_cost_per_million_tokens_usd = none;
  };
  usage = record {
    agent_iterations = 0;
    model_calls = 1;
    retrieval_rounds = 0;
    tool_attempts = 0;
    total_tokens = 0;
    generated_tokens = 0;
    active_runtime_seconds = 0;
    known_cost_usd = 0;
    cost_status = CostStatus.known;
  };
}

abbrev pub object_schema : Fields
object_schema = field "type" (text "object") (
    field "properties" (obj (field "q" (obj (field "type" (text "string") end)) end))
      (field "required" (arr (cons (text "q") nil)) end))

abbrev pub any_text : Fields
any_text = field "type" (text "string") end

abbrev pub search_tool : ToolRegistration
search_tool = record {
  tool_name = "search";
  version = "1";
  description = "search";
  input_schema = object_schema;
  output_schema = any_text;
  effect = ToolEffect.read_only;
  risk_level = ToolRiskLevel.low;
  allowed_tenant_ids = "t1" ∷ [];
  allowed_roles = [];
  approval_roles = "lead" ∷ [];
  allowed_business_scopes = [];
  timeout_seconds = 5;
  max_retries = 1;
  max_output_bytes = 100;
  idempotent = true;
  requires_hitl = false;
  sensitive_fields = [];
}

abbrev pub registry : Dict ToolRegistration
registry = ("search" ∷ "1" ∷ [], search_tool) ∷ []

abbrev pub context : ToolAuthorizationContext
context = record { tenant_id = "t1"; actor_id = "ann"; request_id = "r1"; roles = "user" ∷ [] }

abbrev pub arguments : Fields
arguments = field "q" (text "cats") end

abbrev pub invocation : ToolInvocation
invocation = record {
  tool_call_id = "call";
  tool_name = "search";
  tool_version = "1";
  arguments = arguments;
  business_scope = none;
}

abbrev pub service : ToolService
service = record { completed = []; successful_signatures = [] }

-- A handler that times out once and then answers.
abbrev pub world : ℕ → Attempt
world zero = Attempt.raised_timeout
world (suc n) = Attempt.returned (text "found")
