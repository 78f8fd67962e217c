-- ===== src/Agent/Platform.antt =====
-- What the agent layer takes from Python's library (json, hashlib, str) and from its two regular
-- expressions, `_SECRET_VALUE` of agent/application/sensitive.py and `_PROMPT_INJECTION_PATTERNS` of
-- agent/application/evidence.py.
use ragflow_agent.Base.{ℕ, String, Bool}
use ragflow_agent.Agent.Values.{Value, Fields}

pub record Platform : Type 0 where
  pub lower : String → String  -- str.lower
  pub strip : String → String  -- str.strip
  pub redact_secret_like_text : String → String
  pub contains_prompt_injection : String → Bool
  pub dumps_arguments : Fields → String  -- json.dumps(arguments, sort_keys=True, ...)
  pub dumps : Value → String  -- json.dumps(output, sort_keys=True, default=str, ...)
  pub sha256 : String → String
  pub byte_length : String → ℕ  -- len(text.encode("utf-8"))
