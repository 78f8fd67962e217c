-- ===== src/Knowledge/Advanced/Routing.antt =====
-- knowledge/advanced/routing: the feature flags, the check of index manifests and the retriever that
-- merges optional candidates into a base result, with the capabilities and manifests of
-- knowledge/advanced/domain.py. What a provider answers for a knowledge base is an argument, none
-- where it raises.
pub mod Scope
pub mod Order
use ragflow_agent.Base.{
  ℕ, String, Bool, true, false, not, ◌&&◌, ◌||◌, Option, none, some, List, [], ◌∷◌, nat_eq, elem,
  take, ◌==◌, if◌then◌else◌, FloatOps,
}
use ragflow_agent.Knowledge.Authorization.{AuthorizationContext}
use ragflow_agent.Knowledge.Query.Candidates.{RetrievalCandidate, RetrievalQuery}
use ragflow_agent.Knowledge.Query.Rerank.{subset}

pub data AdvancedCapability : Type 0 where
  keywords questions summaries toc parent_child multimodal graphrag raptor temporal :
      AdvancedCapability

pub record AdvancedIndexManifest : Type 0 where
  pub schema_version : ℕ
  pub capability : AdvancedCapability
  pub tenant_id : String
  pub knowledge_base_id : String
  pub build_version : String
  pub document_version_ids : List String
  pub created_at : ℕ
  pub content_hash : String
  pub complete : Bool

-- The settings that `AdvancedFeatureFlags` keeps.
pub record AdvancedFeatureFlags : Type 0 where
  pub keywords_enabled : Bool
  pub questions_enabled : Bool
  pub summaries_enabled : Bool
  pub toc_enabled : Bool
  pub parent_child_enabled : Bool
  pub multimodal_enabled : Bool
  pub graphrag_enabled : Bool
  pub raptor_enabled : Bool
  pub temporal_enabled : Bool

-- `enabled`.
abbrev pub enabled : AdvancedFeatureFlags → AdvancedCapability → Bool
enabled f keywords = f.keywords_enabled
enabled f questions = f.questions_enabled
enabled f summaries = f.summaries_enabled
enabled f toc = f.toc_enabled
enabled f parent_child = f.parent_child_enabled
enabled f multimodal = f.multimodal_enabled
enabled f graphrag = f.graphrag_enabled
enabled f raptor = f.raptor_enabled
enabled f temporal = f.temporal_enabled

abbrev pub only_enabled : AdvancedFeatureFlags → List AdvancedCapability → List AdvancedCapability
only_enabled f [] = []
only_enabled f (c ∷ cs) = let rest = only_enabled f cs in if enabled f c then c ∷ rest else rest

-- `enabled_capabilities`, in the order of the dict.
abbrev pub enabled_capabilities : AdvancedFeatureFlags → List AdvancedCapability
enabled_capabilities f = only_enabled f (
    keywords ∷ questions ∷ summaries ∷ toc ∷ parent_child ∷ multimodal ∷ graphrag ∷ raptor
    ∷ temporal ∷ [])

abbrev number_of : AdvancedCapability → ℕ
number_of keywords = 0
number_of questions = 1
number_of summaries = 2
number_of toc = 3
number_of parent_child = 4
number_of multimodal = 5
number_of graphrag = 6
number_of raptor = 7
number_of temporal = 8

abbrev same_capability : AdvancedCapability → AdvancedCapability → Bool
same_capability a b = nat_eq (number_of a) (number_of b)

pub record CompatibilityDecision : Type 0 where
  pub usable : Bool
  pub fallback_reason : Option String

abbrev fallback : String → CompatibilityDecision
fallback reason = record { usable = false; fallback_reason = some reason }

-- `check_manifest`; ADVANCED_SCHEMA_VERSION is 1.
unfoldable pub check_manifest :
    Option AdvancedIndexManifest
    → AdvancedCapability
    → String
    → String
    → List String
    → CompatibilityDecision
check_manifest none capability tenant_id knowledge_base_id active = fallback "index_missing"
check_manifest (some m) capability tenant_id knowledge_base_id active =
    if not (nat_eq m.schema_version 1)
    then fallback "schema_incompatible"
    else if not m.complete
    then fallback "index_incomplete"
    else if not (same_capability m.capability capability)
    then fallback "capability_mismatch"
    else if not (m.tenant_id == tenant_id) || not (m.knowledge_base_id == knowledge_base_id)
    then fallback "scope_mismatch"
    else if not (subset m.document_version_ids active)
    then fallback "stale_document_version"
    else record { usable = true; fallback_reason = none }

-- The parts of an `AdvancedRetriever`. A provider answers for a context, a query and the knowledge
-- base for which it is called.
pub record AdvancedRetriever (N : Type 0) : Type 0 where
  pub flags : AdvancedFeatureFlags
  pub has_provider : AdvancedCapability → Bool
  pub answer : AdvancedCapability → String → Option (List (RetrievalCandidate N))
  pub manifests : String → String → AdvancedCapability → Option AdvancedIndexManifest
  pub active_document_versions : String → String → List String

module _ (F : FloatOps) where
  abbrev pub Merged : Type 0
  Merged = List (RetrievalCandidate F.Float)

  -- `merged.get(id)`.
  abbrev pub prior : String → Merged → Option (RetrievalCandidate F.Float)
  prior id [] = none
  prior id (c ∷ cs) = if c.chunk_id == id then some c else prior id cs

  -- `merged[candidate.chunk_id] = candidate`: a key that is there keeps its place.
  unfoldable pub assign : RetrievalCandidate F.Float → Merged → Merged
  assign c [] = c ∷ []
  assign c (d ∷ ds) =
      let rest = assign c ds in if d.chunk_id == c.chunk_id then c ∷ ds else d ∷ rest

  -- The dict comprehension over the base result.
  unfoldable pub by_id : Merged → List (RetrievalCandidate F.Float) → Merged
  unfolding assign
  by_id merged [] = merged
  by_id merged (c ∷ cs) = by_id (assign c merged) cs

  abbrev pub is_better : RetrievalCandidate F.Float → Option (RetrievalCandidate F.Float) → Bool
  is_better c none = true
  is_better c (some p) = not (F.leb c.score.final_score p.score.final_score)

  -- `item.score.final_score`, in descending order; `sorted` keeps the order of equals.
  unfoldable pub insert : RetrievalCandidate F.Float → Merged → Merged
  insert c [] = c ∷ []
  insert c (d ∷ ds) =
      let rest = insert c ds in
      if F.leb d.score.final_score c.score.final_score then c ∷ d ∷ ds else d ∷ rest

  unfoldable pub sorted : Merged → Merged
  unfolding insert
  sorted [] = []
  sorted (c ∷ cs) = insert c (sorted cs)

  module _ (r : AdvancedRetriever F.Float) (context : AuthorizationContext) where
    abbrev pub active_of : String → List String
    active_of kb = r.active_document_versions context.tenant_id kb

    abbrev pub is_in_scope : String → RetrievalCandidate F.Float → Bool
    is_in_scope kb c =
        c.tenant_id == context.tenant_id
        && c.knowledge_base_id == kb
        && elem c.document_version_id (active_of kb)

    -- The loop over the candidates of a provider.
    unfoldable pub merge : String → List (RetrievalCandidate F.Float) → Merged → Merged
    unfolding assign
    merge kb [] merged = merged
    merge kb (c ∷ cs) merged = merge kb cs (
        if is_in_scope kb c && is_better c (prior c.chunk_id merged)
        then assign c merged
        else merged)

    abbrev pub is_usable : AdvancedCapability → String → Bool
    is_usable capability kb =
        (check_manifest (r.manifests context.tenant_id kb capability) capability context.tenant_id
          kb (active_of kb)).usable

    abbrev pub merge_answer : String → Option (List (RetrievalCandidate F.Float)) → Merged → Merged
    merge_answer kb none merged = merged
    merge_answer kb (some cs) merged = merge kb cs merged

    -- The loop over the knowledge bases of the query.
    unfoldable pub over_knowledge_bases : AdvancedCapability → List String → Merged → Merged
    unfolding check_manifest merge
    over_knowledge_bases capability [] merged = merged
    over_knowledge_bases capability (kb ∷ kbs) merged = over_knowledge_bases capability kbs (
        if is_usable capability kb then merge_answer kb (r.answer capability kb) merged else merged)

    -- The loop over the enabled capabilities.
    unfoldable pub over_capabilities : List AdvancedCapability → List String → Merged → Merged
    unfolding over_knowledge_bases
    over_capabilities [] kbs merged = merged
    over_capabilities (c ∷ cs) kbs merged =
        over_capabilities cs kbs
          (if r.has_provider c then over_knowledge_bases c kbs merged else merged)

    -- `retrieve`, after the base result: its candidates.
    unfoldable pub retrieve : RetrievalQuery F.Float → List (RetrievalCandidate F.Float) → Merged
    unfolding by_id over_capabilities sorted
    retrieve query base = take query.top_n (
        sorted (
          over_capabilities (enabled_capabilities r.flags) query.knowledge_base_ids
            (by_id [] base)))
