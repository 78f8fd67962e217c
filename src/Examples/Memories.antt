-- ===== src/Examples/Memories.antt =====
-- Tests of the memories.
use ragflow_agent.Base.{◌≡◌, ◌<◌, refl, true, false, none, List, [], ◌∷◌, In, inl, ◌==◌}
use ragflow_agent.Base.Dict
use ragflow_agent.Agent.Memory.{
  LongTermMemory, MemoryStore, set_consent, list_active, get_consent, is_enabled, keep_unless,
}
use ragflow_agent.Agent.Memory.Consent.{
  Request, consent, store_memory, AllConsented, serve_all, serve_all-AllConsented, list_active_lem,
}
use ragflow_agent.Examples.Fixtures.{platform, context}

abbrev empty_store : MemoryStore
empty_store = record { consents = []; memories = [] }

abbrev requests : List Request
requests =
    consent context true "v1" 3
    ∷ store_memory context "likes cats" "chat" true 4 "m1"
    ∷ consent context false "v1" 5
    ∷ []

empty_store-AllConsented : AllConsented platform (λ s. s == "key") 90 empty_store
empty_store-AllConsented = λ m i. absurd i

serve_all-AllConsented_example :
    AllConsented platform
      (λ s. s == "key")
      90
      (serve_all platform (λ s. s == "key") 90 requests empty_store)
serve_all-AllConsented_example =
    serve_all-AllConsented platform (λ s. s == "key") 90 requests empty_store
      empty_store-AllConsented

abbrev remembered : LongTermMemory
remembered = record {
  memory_id = "m1";
  tenant_id = "t1";
  user_id = "ann";
  content = "likes cats";
  source = "chat";
  consent_version = "v1";
  consented_at = 3;
  created_at = 4;
  expires_at = 94;
  deleted_at = none;
}

abbrev consented_store : MemoryStore
consented_store = record {
  consents = (set_consent context true "v1" 3 empty_store).1.consents;
  memories = remembered ∷ [];
}

list_active_lem_example :
    In remembered consented_store.memories
    × (remembered.tenant_id ≡ context.tenant_id)
    × (remembered.user_id ≡ context.actor_id)
    × (50 < remembered.expires_at)
    × (is_enabled (get_consent "t1" "ann" consented_store) ≡ true)
unfolding list_active set_consent Dict.get Dict.put Dict.same_key keep_unless
list_active_lem_example = list_active_lem context 50 consented_store remembered (inl refl)
