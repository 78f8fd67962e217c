-- ===== src/Agent/Memory/Consent.antt =====
-- The stored memories of agent/application/memory.py over any sequence of its calls, and those shown.
use ragflow_agent.Base.{
  ℕ, ◌≡◌, ◌<◌, refl, subst, if◌then◌else◌, String, Bool, true, false, some, List, [], ◌∷◌, arith,
  Result, ok, err, In, inl, inr, ◌⊎◌, Bool-cases, Option-cases, Result-cases, eq_iff,
}
use ragflow_agent.Base.Dict
use ragflow_agent.Base.Dict.{Dict, get-put}
use ragflow_agent.Agent.Errors.{AgentRaised}
use ragflow_agent.Agent.Platform.{Platform}
use ragflow_agent.Agent.Tools.{ToolAuthorizationContext}
use ragflow_agent.Agent.Memory.{
  MemoryConsent, LongTermMemory, MemoryStore, is_owned, keep_unless, get_consent, is_enabled,
  memory_of, is_hidden, is_storable, set_consent, remember, delete, cleanup_expired, list_active,
  save_memory,
}

-- The calls that change the store.
pub data Request : Type 0 where
  consent : ToolAuthorizationContext → Bool → String → ℕ → Request
  store_memory : ToolAuthorizationContext → String → String → Bool → ℕ → String → Request
  erase : ToolAuthorizationContext → String → Request
  cleanup : ℕ → Request

kept_or_later :
    (b : Bool) (x m : LongTermMemory) (rest : List LongTermMemory)
    → In m (if b then rest else x ∷ rest)
    → ((x ≡ m) × (b ≡ false)) ⊎ In m rest
kept_or_later true x m rest h = inr h
kept_or_later false x m rest (inl e) = inl (e, refl)
kept_or_later false x m rest (inr i) = inr i

In-keep_unless :
    (gone : LongTermMemory → Bool) (ms : List LongTermMemory) (m : LongTermMemory)
    → In m (keep_unless gone ms)
    → In m ms × (gone m ≡ false)
unfolding keep_unless
In-keep_unless gone [] m h = absurd h
In-keep_unless gone (x ∷ ms) m h = elim (kept_or_later (gone x) x m (keep_unless gone ms) h) [
  | inl (e, p) ↦ (inl e, subst (λ y. gone y ≡ false) e p)
  | inr i ↦ let (j, p) = In-keep_unless gone ms m i in (inr j, p)
]

module _ (P : Platform) (is_forbidden : String → Bool) (ttl : ℕ) where
  pub after : MemoryStore → Result AgentRaised MemoryStore → MemoryStore
  after s (ok s') = s'
  after s (err e) = s

  pub serve : Request → MemoryStore → MemoryStore
  unfolding after
  serve (consent context enabled version now) s = (set_consent context enabled version now s).1
  serve (store_memory context content source explicit now new_id) s =
      after s (remember P is_forbidden ttl context content source explicit now new_id s)
  serve (erase context memory_id) s = delete context memory_id s
  serve (cleanup now) s = cleanup_expired now s

  pub serve_all : List Request → MemoryStore → MemoryStore
  unfolding serve
  serve_all [] s = s
  serve_all (r ∷ rs) s = serve_all rs (serve r s)

  -- A stored memory: its owner's consent is enabled, and its content may be stored.
  pub record IsConsented (s : MemoryStore) (m : LongTermMemory) : Type 0 where
    pub enabled : is_enabled (get_consent m.tenant_id m.user_id s) ≡ true
    pub storable : is_storable P is_forbidden ttl m.content ≡ true

  abbrev pub AllConsented : MemoryStore → Type 0
  AllConsented s = (m : LongTermMemory) → In m s.memories → IsConsented s m

  erased-AllConsented :
      (gone : LongTermMemory → Bool) (s : MemoryStore)
      → AllConsented s
      → AllConsented (record s { memories = keep_unless gone s.memories })
  erased-AllConsented gone s h m i =
      let c = h m (In-keep_unless gone s.memories m i).0 in
      record { enabled = c.enabled; storable = c.storable }

  consent-AllConsented :
      (context : ToolAuthorizationContext) (enabled : Bool) (version : String) (now : ℕ)
      (s : MemoryStore)
      → AllConsented s
      → AllConsented (set_consent context enabled version now s).1
  unfolding set_consent Dict.get Dict.put Dict.same_key
  consent-AllConsented context true version now s h m i = record {
    enabled = ground (arith, (h m i).enabled);
    storable = (h m i).storable;
  }
  consent-AllConsented context false version now s h m i =
      let k = In-keep_unless (is_owned context.tenant_id context.actor_id) s.memories m i in
      record {
        enabled = ground (
          arith,
          (h m k.0).enabled,
          k.1,
          eq_iff context.tenant_id m.tenant_id,
          eq_iff m.tenant_id context.tenant_id,
          eq_iff context.actor_id m.user_id,
          eq_iff m.user_id context.actor_id,
        );
        storable = (h m k.0).storable;
      }

  remember_inversion :
      (context : ToolAuthorizationContext) (content source : String) (explicit : Bool) (now : ℕ)
      (new_id : String) (s s' : MemoryStore) (c : MemoryConsent)
      → get_consent context.tenant_id context.actor_id s ≡ some c
      → remember P is_forbidden ttl context content source explicit now new_id s ≡ ok s'
      → (s'.memories
          ≡ memory_of P is_forbidden ttl context c (P.strip content) source now new_id ∷ s.memories)
        × (s'.consents ≡ s.consents)
        × (c.enabled ≡ true)
        × (is_storable P is_forbidden ttl (P.strip content) ≡ true)
  unfolding remember save_memory
  remember_inversion context content source explicit now new_id s s' c p h = ground arith

  remember-AllConsented :
      (context : ToolAuthorizationContext) (content source : String) (explicit : Bool) (now : ℕ)
      (new_id : String) (s s' : MemoryStore)
      → AllConsented s
      → remember P is_forbidden ttl context content source explicit now new_id s ≡ ok s'
      → AllConsented s'
  unfolding remember
  remember-AllConsented context content source explicit now new_id s s' h r m i =
      elim (Option-cases (get_consent context.tenant_id context.actor_id s)) [
        | inl p ↦ absurd (ground arith)
        | inr (c, p) ↦
            let q = remember_inversion context content source explicit now new_id s s' c p r in
            elim (subst (λ ms. In m ms) q.0 i) [
              | inl e ↦
                  subst (IsConsented s') e
                    (record { enabled = ground (arith, q.1, q.2, p); storable = q.3 })
              | inr j ↦
                  let k = h m j in
                  record { enabled = ground (arith, k.enabled, q.1); storable = k.storable }
            ]
      ]

  serve-AllConsented : (r : Request) (s : MemoryStore) → AllConsented s → AllConsented (serve r s)
  unfolding serve delete cleanup_expired
  serve-AllConsented (consent context enabled version now) s h =
      consent-AllConsented context enabled version now s h
  serve-AllConsented (store_memory context content source explicit now new_id) s h =
      elim (Result-cases
        (remember P is_forbidden ttl context content source explicit now new_id s)) [
          | inl (s', p) ↦
              rw p (remember-AllConsented context content source explicit now new_id s s' h p)
          | inr (e, p) ↦ rw p h
        ]
  serve-AllConsented (erase context memory_id) s h = erased-AllConsented _ s h
  serve-AllConsented (cleanup now) s h = erased-AllConsented _ s h

  -- Whatever consents, revocations, memories, erasures and cleanups are asked for, in any order, by
  -- any users: every memory that is stored belongs to a user whose consent is enabled, and its content
  -- is not empty, has at most 2000 characters and holds nothing forbidden, if that was so at first.
  pub serve_all-AllConsented :
      (rs : List Request) (s : MemoryStore) → AllConsented s → AllConsented (serve_all rs s)
  unfolding serve_all
  serve_all-AllConsented [] s h = h
  serve_all-AllConsented (r ∷ rs) s h =
      serve_all-AllConsented rs (serve r s) (serve-AllConsented r s h)

-- What a user is shown, at any time and from any store: only memories that are stored, are the user's
-- own and have not expired; and none at all unless the user's consent is enabled.
pub list_active_lem :
    (context : ToolAuthorizationContext) (now : ℕ) (s : MemoryStore) (m : LongTermMemory)
    → In m (list_active context now s)
    → In m s.memories
      × (m.tenant_id ≡ context.tenant_id)
      × (m.user_id ≡ context.actor_id)
      × (now < m.expires_at)
      × (is_enabled (get_consent context.tenant_id context.actor_id s) ≡ true)
unfolding list_active
list_active_lem context now s m i =
    elim (Bool-cases (is_enabled (get_consent context.tenant_id context.actor_id s))) [
      | inl p ↦
          let k = In-keep_unless (is_hidden context now) s.memories m (
            subst (λ b. In m (if b then keep_unless (is_hidden context now) s.memories else [])) p
              i) in
          (
            k.0,
            ground (arith, k.1, eq_iff m.tenant_id context.tenant_id),
            ground (arith, k.1, eq_iff m.user_id context.actor_id),
            ground (arith, k.1),
            p,
          )
      | inr p ↦
          absurd (
            subst (λ b. In m (if b then keep_unless (is_hidden context now) s.memories else [])) p
              i)
    ]
