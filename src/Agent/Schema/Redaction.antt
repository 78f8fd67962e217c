-- ===== src/Agent/Schema/Redaction.antt =====
-- What `_redact` of agent/application/tool_policy.py removes and what `reject_secret_arguments` of
-- agent/application/sensitive.py lets through, at every depth of a value.
use ragflow_agent.Base.{
  String, ◌≡◌, refl, ◌↔◌, true, false, List, arith, ok, Bool-cases, inl, inr, if◌then◌else◌, eq_iff,
}
use ragflow_agent.Agent.Platform.{Platform}
use ragflow_agent.Agent.Values.{
  Value, null, bool, int, float, text, arr, obj, Items, nil, cons, Fields, end, field,
}
use ragflow_agent.Agent.Schema.{
  is_sensitive, redact, redact_items, redact_fields, is_secret_key, reject_secret_arguments,
  reject_items, reject_fields,
}

module _ (P : Platform) (names : List String) where
  abbrev mutual
    -- Sensitive fields hold the mark and nothing else, and every other text went through the
    -- redaction of secrets.
    pub IsRedacted : Value → Type 0
    IsRedacted (obj fs) = AreRedacted fs
    IsRedacted (arr xs) = EachRedacted xs
    IsRedacted (text t) = (source : String) × (t ≡ P.redact_secret_like_text source)
    IsRedacted null = Unit
    IsRedacted (bool b) = Unit
    IsRedacted (int n) = Unit
    IsRedacted (float x) = Unit

    pub EachRedacted : Items → Type 0
    EachRedacted nil = Unit
    EachRedacted (cons v xs) = IsRedacted v × EachRedacted xs

    pub AreRedacted : Fields → Type 0
    AreRedacted end = Unit
    AreRedacted (field k v fs) =
        (is_sensitive P names k ≡ true → v ≡ text "[REDACTED]")
        × (is_sensitive P names k ≡ false → IsRedacted v)
        × AreRedacted fs

  field_case :
      (k : String) (v : Value)
      → IsRedacted v
      → (is_sensitive P names k ≡ true
          → (if is_sensitive P names k then text "[REDACTED]" else v) ≡ text "[REDACTED]")
        × (is_sensitive P names k ≡ false
            → IsRedacted (if is_sensitive P names k then text "[REDACTED]" else v))
  field_case k v h = elim (Bool-cases (is_sensitive P names k)) [
    | inl p ↦ rw p ((λ _. refl), (λ e. cc))
    | inr p ↦ rw p ((λ e. cc), (λ _. h))
  ]

  mutual
    unfolding redact

    redacts : (v : Value) → IsRedacted (redact P names v)
    redacts (obj fs) = redacts_fields fs
    redacts (arr xs) = redacts_items xs
    redacts (text t) = (t, refl)
    redacts null = tt
    redacts (bool b) = tt
    redacts (int n) = tt
    redacts (float x) = tt

    redacts_items : (xs : Items) → EachRedacted (redact_items P names xs)
    redacts_items nil = tt
    redacts_items (cons v xs) = (redacts v, redacts_items xs)

    redacts_fields : (fs : Fields) → AreRedacted (redact_fields P names fs)
    redacts_fields end = tt
    redacts_fields (field k v fs) = (
      (field_case k (redact P names v) (redacts v)).0,
      (field_case k (redact P names v) (redacts v)).1,
      redacts_fields fs,
    )

  -- In a redacted value, at every depth: a field whose lowered name is among the lowered sensitive
  -- names holds exactly the mark, and every text outside such fields is the image of one under
  -- `redact_secret_like_text`.
  pub redact-IsRedacted : (v : Value) → IsRedacted (redact P names v)
  redact-IsRedacted v = redacts v

module _ (P : Platform) where
  abbrev mutual
    -- No key is a secret's and no text holds a secret, at every depth.
    pub IsFree : Value → Type 0
    IsFree (obj fs) = AreFree fs
    IsFree (arr xs) = EachFree xs
    IsFree (text t) = P.redact_secret_like_text t ≡ t
    IsFree null = Unit
    IsFree (bool b) = Unit
    IsFree (int n) = Unit
    IsFree (float x) = Unit

    pub EachFree : Items → Type 0
    EachFree nil = Unit
    EachFree (cons v xs) = IsFree v × EachFree xs

    pub AreFree : Fields → Type 0
    AreFree end = Unit
    AreFree (field k v fs) = (is_secret_key P k ≡ false) × IsFree v × AreFree fs

  mutual
    unfolding reject_secret_arguments

    accepted : (v : Value) → (reject_secret_arguments P v ≡ ok tt) ↔ IsFree v
    accepted (obj fs) = accepted_fields fs
    accepted (arr xs) = accepted_items xs
    accepted (text t) = ground (arith, eq_iff (P.redact_secret_like_text t) t)
    accepted null = ground arith
    accepted (bool b) = ground arith
    accepted (int n) = ground arith
    accepted (float x) = ground arith

    accepted_items : (xs : Items) → (reject_items P xs ≡ ok tt) ↔ EachFree xs
    accepted_items nil = ground arith
    accepted_items (cons v xs) = ground (arith, accepted v, accepted_items xs)

    accepted_fields : (fs : Fields) → (reject_fields P fs ≡ ok tt) ↔ AreFree fs
    accepted_fields end = ground arith
    accepted_fields (field k v fs) = ground (arith, accepted v, accepted_fields fs)

  -- Arguments are accepted exactly if, at every depth, no key names a secret and no text is changed
  -- by the redaction of secrets.
  pub reject_iff : (v : Value) → (reject_secret_arguments P v ≡ ok tt) ↔ IsFree v
  reject_iff v = accepted v
