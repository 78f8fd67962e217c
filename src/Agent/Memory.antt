-- ===== src/Agent/Memory.antt =====
-- agent/application/memory.py: long-term memories, which a user consents to, with their rows in
-- agent/infrastructure/database/repositories.py. The pattern `_FORBIDDEN_MEMORY` and the time to live
-- are parameters; clock readings and new identifiers are arguments.
pub mod Consent
use Prim.Native.String.{count}
use ragflow_agent.Base.{
  ℕ, ◌+◌, ◌≤◌, String, Bool, true, false, not, ◌&&◌, ◌||◌, Option, none, some, List, [], ◌∷◌, ◌++◌,
  ltb, leb, ◌==◌, is_none, if◌then◌else◌, Result, ok, err,
}
use ragflow_agent.Base.Dict
use ragflow_agent.Base.Dict.{Dict}
use ragflow_agent.Agent.Errors.{AgentRaised, policy_error, failure}
use ragflow_agent.Agent.Platform.{Platform}
use ragflow_agent.Agent.Tools.{ToolAuthorizationContext}

pub record MemoryConsent : Type 0 where
  pub tenant_id : String
  pub user_id : String
  pub enabled : Bool
  pub consent_version : Option String
  pub consented_at : Option ℕ
  pub revoked_at : Option ℕ

pub record LongTermMemory : Type 0 where
  pub memory_id : String
  pub tenant_id : String
  pub user_id : String
  pub content : String
  pub source : String
  pub consent_version : String
  pub consented_at : ℕ
  pub created_at : ℕ
  pub expires_at : ℕ
  pub deleted_at : Option ℕ

-- The two tables.
pub record MemoryStore : Type 0 where
  pub consents : Dict MemoryConsent
  pub memories : List LongTermMemory

abbrev pub is_owned : String → String → LongTermMemory → Bool
is_owned tenant_id user_id m = m.tenant_id == tenant_id && m.user_id == user_id

-- The rows that a `delete` with this condition leaves.
unfoldable pub keep_unless : (LongTermMemory → Bool) → List LongTermMemory → List LongTermMemory
keep_unless gone [] = []
keep_unless gone (m ∷ ms) = let rest = keep_unless gone ms in if gone m then rest else m ∷ rest

abbrev pub save_consent : MemoryConsent → MemoryStore → MemoryStore
save_consent c s = record s { consents = Dict.put s.consents (c.tenant_id ∷ c.user_id ∷ []) c }

abbrev pub get_consent : String → String → MemoryStore → Option MemoryConsent
get_consent tenant_id user_id s = Dict.get s.consents (tenant_id ∷ user_id ∷ [])

-- Whether the primary key is taken.
unfoldable pub has_memory : String → String → String → List LongTermMemory → Bool
has_memory tenant_id user_id memory_id [] = false
has_memory tenant_id user_id memory_id (m ∷ ms) =
    is_owned tenant_id user_id m && m.memory_id == memory_id
    || has_memory tenant_id user_id memory_id ms

unfoldable pub save_memory : LongTermMemory → MemoryStore → Result AgentRaised MemoryStore
unfolding has_memory
save_memory m s =
    if has_memory m.tenant_id m.user_id m.memory_id s.memories
    then err failure
    else ok (record s { memories = m ∷ s.memories })

abbrev pub delete_user_memories : String → String → MemoryStore → MemoryStore
delete_user_memories tenant_id user_id s = record s {
  memories = keep_unless (is_owned tenant_id user_id) s.memories;
}

abbrev pub is_enabled : Option MemoryConsent → Bool
is_enabled none = false
is_enabled (some c) = c.enabled

abbrev given : {A : Type 0} → Bool → A → Option A
given true a = some a
given false a = none

-- `LongTermMemoryService.set_consent`.
unfoldable pub set_consent :
    ToolAuthorizationContext → Bool → String → ℕ → MemoryStore → MemoryConsent × MemoryStore
unfolding Dict.put keep_unless
set_consent context enabled consent_version now s =
    let consent : MemoryConsent = record {
      tenant_id = context.tenant_id;
      user_id = context.actor_id;
      enabled = enabled;
      consent_version = given enabled consent_version;
      consented_at = given enabled now;
      revoked_at = given (not enabled) now;
    } in
    let saved = save_consent consent s in
    (
      consent,
      if enabled then saved else delete_user_memories context.tenant_id context.actor_id saved,
    )

abbrev text_or : Option String → String → String
text_or none d = d
text_or (some s) d = if s == "" then d else s

abbrev time_or : Option ℕ → ℕ → ℕ
time_or none d = d
time_or (some t) d = t

module _ (P : Platform) (is_forbidden : String → Bool) (ttl : ℕ) where
  abbrev memory_of :
      ToolAuthorizationContext → MemoryConsent → String → String → ℕ → String → LongTermMemory
  memory_of context consent normalized source now new_id = record {
    memory_id = new_id;
    tenant_id = context.tenant_id;
    user_id = context.actor_id;
    content = normalized;
    source = source;
    consent_version = text_or consent.consent_version "unknown";
    consented_at = time_or consent.consented_at now;
    created_at = now;
    expires_at = now + ttl;
    deleted_at = none;
  }

  -- The content that may be stored.
  abbrev pub is_storable : String → Bool
  is_storable normalized =
      not (normalized == "") && leb (count normalized) 2000 && not (is_forbidden normalized)

  abbrev remember_consented :
      Option MemoryConsent
      → ToolAuthorizationContext
      → String
      → String
      → Bool
      → ℕ
      → String
      → MemoryStore
      → Result AgentRaised MemoryStore
  remember_consented none context normalized source explicit now new_id s =
      err (policy_error "memory_consent_required")
  remember_consented (some consent) context normalized source explicit now new_id s =
      if not explicit || not consent.enabled
      then err (policy_error "memory_consent_required")
      else if normalized == "" || ltb 2000 (count normalized)
      then err (policy_error "memory_content_invalid")
      else if is_forbidden normalized
      then err (policy_error "memory_sensitive_content")
      else save_memory (memory_of context consent normalized source now new_id) s

  -- `LongTermMemoryService.remember`, for the store that it leaves.
  unfoldable pub remember :
      ToolAuthorizationContext
      → String
      → String
      → Bool
      → ℕ
      → String
      → MemoryStore
      → Result AgentRaised MemoryStore
  unfolding Dict.get save_memory
  remember context content source explicit_user_request now new_id s =
      remember_consented (get_consent context.tenant_id context.actor_id s) context
        (P.strip content) source explicit_user_request now new_id s

abbrev is_active : ℕ → LongTermMemory → Bool
is_active now m = is_none m.deleted_at && ltb now m.expires_at

-- The rows that the two conditions of `list_memories` and `list_active` leave out.
abbrev pub is_hidden : ToolAuthorizationContext → ℕ → LongTermMemory → Bool
is_hidden context now m =
    not (is_owned context.tenant_id context.actor_id m) || not (is_active now m)

-- `LongTermMemoryService.list_active`: the active rows of the user, if the consent stands.
unfoldable pub list_active : ToolAuthorizationContext → ℕ → MemoryStore → List LongTermMemory
unfolding Dict.get keep_unless
list_active context now s =
    if is_enabled (get_consent context.tenant_id context.actor_id s)
    then keep_unless (is_hidden context now) s.memories
    else []

-- `LongTermMemoryService.delete`, for the store that it leaves.
unfoldable pub delete : ToolAuthorizationContext → String → MemoryStore → MemoryStore
unfolding keep_unless
delete context memory_id s = record s {
  memories =
      keep_unless (λ m. is_owned context.tenant_id context.actor_id m && m.memory_id == memory_id)
        s.memories;
}

-- `LongTermMemoryService.cleanup_expired`, for the store that it leaves.
unfoldable pub cleanup_expired : ℕ → MemoryStore → MemoryStore
unfolding keep_unless
cleanup_expired now s = record s { memories = keep_unless (λ m. leb m.expires_at now) s.memories }
