-- ===== src/Agent/Schema/Conformance.antt =====
-- What `_validate_json_schema` of agent/application/tool_policy.py ensures of an accepted object.
use ragflow_agent.Base.{◌≡◌, refl, Bool, true, false, some, arith, ok, ◌>>=◌, sym, ◌∙◌}
use ragflow_agent.Agent.Values.{
  Value, null, bool, int, float, text, arr, obj, Items, nil, cons, Fields, end, field, get, has,
}
use ragflow_agent.Agent.Schema.{
  any_missing, any_extra, is_closed, is_no_schema, check_object, validate, validate_fields,
}

-- Every name that the list requires is a key of the object.
abbrev pub Provides : Fields → Items → Type 0
Provides fs nil = Unit
Provides fs (cons (text name) rest) = (has name fs ≡ true) × Provides fs rest
Provides fs (cons _ rest) = ⊥

-- Every key of the object is one of the properties.
abbrev pub Within : Fields → Fields → Type 0
Within properties end = Unit
Within properties (field k v fs) = (has k properties ≡ true) × Within properties fs

-- Every field with a schema of its own satisfies it.
abbrev pub FieldsValid : Fields → Fields → Type 0
FieldsValid properties end = Unit
FieldsValid properties (field k v fs) =
    ((child : Fields) → get k properties ≡ some (obj child) → validate v child ≡ ok tt)
    × FieldsValid properties fs

any_missing-Provides : (xs : Items) (fs : Fields) → any_missing xs fs ≡ ok false → Provides fs xs
unfolding any_missing
any_missing-Provides nil fs h = tt
any_missing-Provides (cons (text name) rest) fs h = ground (arith, any_missing-Provides rest fs)
any_missing-Provides (cons null rest) fs h = absurd (ground arith)
any_missing-Provides (cons (bool b) rest) fs h = absurd (ground arith)
any_missing-Provides (cons (int n) rest) fs h = absurd (ground arith)
any_missing-Provides (cons (float x) rest) fs h = absurd (ground arith)
any_missing-Provides (cons (arr x) rest) fs h = absurd (ground arith)
any_missing-Provides (cons (obj x) rest) fs h = absurd (ground arith)

any_extra-Within : (fs properties : Fields) → any_extra fs properties ≡ false → Within properties fs
any_extra-Within end properties h = tt
any_extra-Within (field k v fs) properties h = ground (arith, any_extra-Within fs properties)

validate_fields-FieldsValid :
    (fs properties : Fields) → validate_fields fs properties ≡ ok tt → FieldsValid properties fs
unfolding validate_fields
validate_fields-FieldsValid end properties h = tt
validate_fields-FieldsValid (field k v fs) properties h =
    ((λ child e. ground arith), ground (arith, validate_fields-FieldsValid fs properties))

pub record Conforms (fs : Fields) (properties : Fields) (required : Items) (closed : Bool)
    : Type 0 where
  pub provides : Provides fs required
  pub within : closed ≡ true → Within properties fs
  pub fields_valid : FieldsValid properties fs

check_object-Conforms :
    (schema fs properties : Fields) (required : Items)
    → get "properties" schema ≡ some (obj properties)
    → get "required" schema ≡ some (arr required)
    → (check_object schema fs >>= validate_fields fs) ≡ ok tt
    → Conforms fs properties required (is_closed (get "additionalProperties" schema))
unfolding check_object
check_object-Conforms schema fs properties required p r h = ground (
  arith,
  any_missing-Provides required fs,
  any_extra-Within fs properties,
  validate_fields-FieldsValid fs properties,
)

validate_nested :
    (schema fs : Fields)
    → is_no_schema schema ≡ false
    → get "type" schema ≡ some (text "object")
    → validate (obj fs) schema ≡ (check_object schema fs >>= validate_fields fs)
unfolding validate
validate_nested schema fs e t = rw (e, t) refl

has_type : (schema : Fields) (v : Value) → get "type" schema ≡ some v → is_no_schema schema ≡ false
has_type end v t = cc
has_type (field a b c) v t = refl

-- For a schema of type object with properties and required names: an accepted object has every
-- required name, has no other fields than the properties where further ones are ruled out, and each
-- of its fields satisfies the schema which the properties give for it.
pub validate-Conforms :
    (schema fs properties : Fields) (required : Items)
    → get "type" schema ≡ some (text "object")
    → get "properties" schema ≡ some (obj properties)
    → get "required" schema ≡ some (arr required)
    → validate (obj fs) schema ≡ ok tt
    → Conforms fs properties required (is_closed (get "additionalProperties" schema))
validate-Conforms schema fs properties required t p r h =
    check_object-Conforms schema fs properties required p r
      (sym (validate_nested schema fs (has_type schema (text "object") t) t) ∙ h)
