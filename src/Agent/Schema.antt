-- ===== src/Agent/Schema.antt =====
-- `_validate_json_schema` and `_redact` of agent/application/tool_policy.py, and
-- `reject_secret_arguments` of agent/application/sensitive.py.
pub mod Redaction
pub mod Conformance
use ragflow_agent.Base.{
  String, Bool, true, false, not, ◌||◌, ◌&&◌, Option, none, some, List, [], ◌∷◌, map, ◌==◌, elem,
  if◌then◌else◌, Result, Check, ok, err, ◌>>=◌, ◌>>◌, raise_if,
}
use ragflow_agent.Agent.Errors.{AgentRaised, tool_error, invalid, failure}
use ragflow_agent.Agent.Platform.{Platform}
use ragflow_agent.Agent.Values.{
  Value, null, bool, int, float, text, arr, obj, Items, nil, cons, Fields, end, field, get, has,
}

abbrev pub tool_schema : AgentRaised
tool_schema = tool_error "tool_schema"

-- `name not in value` for one required name; a list or a dict is not hashable.
abbrev is_missing : Value → Fields → Result AgentRaised Bool
is_missing (text name) fs = ok (not (has name fs))
is_missing (arr _) fs = err failure
is_missing (obj _) fs = err failure
is_missing _ fs = ok true

-- Whether the list of missing names is not empty.
unfoldable pub any_missing : Items → Fields → Result AgentRaised Bool
any_missing nil fs = ok false
any_missing (cons name rest) fs = do
  first ← is_missing name fs
  others ← any_missing rest fs
  ok (first || others)

-- `set(value) - set(properties)` is not empty.
abbrev pub any_extra : Fields → Fields → Bool
any_extra end properties = false
any_extra (field k v fs) properties = not (has k properties) || any_extra fs properties

-- `schema.get("properties", {})` with its check.
abbrev pub properties_of : Option Value → Result AgentRaised Fields
properties_of none = ok end
properties_of (some (obj fs)) = ok fs
properties_of (some _) = err invalid

-- `schema.get("required", [])` with its check.
abbrev pub required_of : Option Value → Result AgentRaised Items
required_of none = ok nil
required_of (some (arr xs)) = ok xs
required_of (some _) = err invalid

-- `schema.get("additionalProperties") is False`.
abbrev pub is_closed : Option Value → Bool
is_closed (some (bool false)) = true
is_closed _ = false

abbrev is_text : Value → Bool
is_text (text _) = true
is_text _ = false

abbrev is_integer : Value → Bool
is_integer (int _) = true
is_integer _ = false

abbrev is_number : Value → Bool
is_number (int _) = true
is_number (float _) = true
is_number _ = false

abbrev is_boolean : Value → Bool
is_boolean (bool _) = true
is_boolean _ = false

abbrev is_array : Value → Bool
is_array (arr _) = true
is_array _ = false

-- The table `checks`, at the type that the schema names; a type that it does not have is no check.
abbrev passes : Option Value → Value → Bool
passes (some (text t)) v =
    if t == "string"
    then is_text v
    else if t == "integer"
    then is_integer v
    else if t == "number"
    then is_number v
    else if t == "boolean"
    then is_boolean v
    else if t == "array"
    then is_array v
    else true
passes _ v = true

-- `expected_type == "object"`.
abbrev expects_object : Option Value → Bool
expects_object (some (text t)) = t == "object"
expects_object _ = false

abbrev check_plain : Fields → Value → Check AgentRaised
check_plain schema v = raise_if (not (passes (get "type" schema) v)) tool_schema

abbrev pub is_no_schema : Fields → Bool
is_no_schema end = true
is_no_schema (field _ _ _) = false

-- The checks of an object before its fields are visited; the properties are handed on.
unfoldable pub check_object : Fields → Fields → Result AgentRaised Fields
unfolding any_missing
check_object schema fs = do
  properties ← properties_of (get "properties" schema)
  required ← required_of (get "required" schema)
  missing ← any_missing required fs
  raise_if missing tool_schema
  raise_if (is_closed (get "additionalProperties" schema) && any_extra fs properties) tool_schema
  ok properties

abbrev against : Option Value → (Fields → Check AgentRaised) → Check AgentRaised
against (some (obj schema)) check = check schema
against _ check = ok tt

-- A value that is no dict.
abbrev validate_plain : Value → Fields → Check AgentRaised
validate_plain v schema =
    if is_no_schema schema
    then ok tt
    else if expects_object (get "type" schema)
    then err tool_schema
    else check_plain schema v

unfoldable mutual
  unfolding check_object

  pub validate : Value → Fields → Check AgentRaised
  validate (obj fs) schema =
      let nested = check_object schema fs >>= validate_fields fs in
      if is_no_schema schema
      then ok tt
      else if expects_object (get "type" schema)
      then nested
      else check_plain schema (obj fs)
  validate null schema = validate_plain null schema
  validate (bool b) schema = validate_plain (bool b) schema
  validate (int n) schema = validate_plain (int n) schema
  validate (float x) schema = validate_plain (float x) schema
  validate (text t) schema = validate_plain (text t) schema
  validate (arr xs) schema = validate_plain (arr xs) schema

  pub validate_fields : Fields → Fields → Check AgentRaised
  validate_fields end properties = ok tt
  validate_fields (field k v fs) properties =
      against (get k properties) (validate v) >> validate_fields fs properties

module _ (P : Platform) where
  -- `{name.lower() for name in sensitive_fields}` has the lowered key.
  abbrev pub is_sensitive : List String → String → Bool
  is_sensitive names key = elem (P.lower key) (map P.lower names)

  unfoldable mutual
    -- `_redact`.
    pub redact : List String → Value → Value
    redact names (obj fs) = obj (redact_fields names fs)
    redact names (arr xs) = arr (redact_items names xs)
    redact names (text t) = text (P.redact_secret_like_text t)
    redact names null = null
    redact names (bool b) = bool b
    redact names (int n) = int n
    redact names (float x) = float x

    pub redact_items : List String → Items → Items
    redact_items names nil = nil
    redact_items names (cons v xs) = cons (redact names v) (redact_items names xs)

    pub redact_fields : List String → Fields → Fields
    redact_fields names end = end
    redact_fields names (field k v fs) =
        let redacted = redact names v in
        field k (if is_sensitive names k then text "[REDACTED]" else redacted)
          (redact_fields names fs)

  -- `str(key).strip().lower() in _SECRET_KEYS`.
  abbrev pub is_secret_key : String → Bool
  is_secret_key key = elem (P.lower (P.strip key)) (
      "password" ∷ "passwd" ∷ "api_key" ∷ "apikey" ∷ "access_token" ∷ "authorization"
      ∷ "private_key" ∷ [])

  abbrev pub secret_argument : AgentRaised
  secret_argument = tool_error "tool_secret_argument"

  unfoldable mutual
    -- `reject_secret_arguments`.
    pub reject_secret_arguments : Value → Check AgentRaised
    reject_secret_arguments (obj fs) = reject_fields fs
    reject_secret_arguments (arr xs) = reject_items xs
    reject_secret_arguments (text t) =
        raise_if (not (P.redact_secret_like_text t == t)) secret_argument
    reject_secret_arguments null = ok tt
    reject_secret_arguments (bool b) = ok tt
    reject_secret_arguments (int n) = ok tt
    reject_secret_arguments (float x) = ok tt

    pub reject_items : Items → Check AgentRaised
    reject_items nil = ok tt
    reject_items (cons v xs) = reject_secret_arguments v >> reject_items xs

    pub reject_fields : Fields → Check AgentRaised
    reject_fields end = ok tt
    reject_fields (field k v fs) = do
      raise_if (is_secret_key k) secret_argument
      reject_secret_arguments v
      reject_fields fs
