-- ===== src/Examples/Chunks.antt =====
-- Tests of the chunker and of the optional retrieval.
use ragflow_agent.Base.{
  ℕ, ◌≤◌, ◌≡◌, refl, ◌⊎◌, In, String, true, false, none, some, List, [], ◌∷◌, length, All, arith,
  all_distinct, ok,
}
use ragflow_agent.Knowledge.Authorization.{AuthorizationContext}
use ragflow_agent.Knowledge.Query.Candidates.{RetrievalCandidate, RetrievalQuery, chunk_ids}
use ragflow_agent.Knowledge.Chunking.{
  BlockKind, ParsedBlock, ParsedDocument, ChunkRecord, TextLibrary, GeneralChunker, new_chunker,
  windows, chunk, limit_of,
}
use ragflow_agent.Knowledge.Chunking.Windows.{rejoined, IsWindow, windows_rejoin}
use ragflow_agent.Knowledge.Chunking.Records.{IsNumbered, IsChunk, chunk-IsNumbered}
use ragflow_agent.Knowledge.Advanced.Routing.{
  AdvancedCapability, AdvancedIndexManifest, AdvancedRetriever, retrieve,
}
use ragflow_agent.Knowledge.Advanced.Routing.Scope.{IsVetted, retrieve-IsAdmitted}
use ragflow_agent.Knowledge.Advanced.Routing.Order.{IsDescending, retrieve-IsRanked}
use ragflow_agent.Examples.Fixtures.{floats}

abbrev seven : List ℕ
seven = 1 ∷ 2 ∷ 3 ∷ 4 ∷ 5 ∷ 6 ∷ 7 ∷ []

windows_rejoin_example :
    (ws : List (ℕ × ℕ)) × (windows 8 3 1 7 0 ≡ some ws)
    × (rejoined 1 seven ws ≡ seven)
    × All (IsWindow 3 7) ws
windows_rejoin_example = windows_rejoin 3 1 (omega arith) seven

abbrev library : TextLibrary
library = record {
  strip = λ s. s;
  sha256 = λ s. s;
  find_tokens = λ s.
      record { start = 0; end = 1 }
      ∷ record { start = 2; end = 3 }
      ∷ record { start = 4; end = 5 }
      ∷ [];
}

abbrev block : ParsedBlock
block = record {
  id = "b1";
  kind = BlockKind.text;
  order = 0;
  content = "a b c";
  page_number = none;
  bounding_box = none;
  heading_path = [];
}

abbrev document : ParsedDocument
document = record {
  id = "parsed";
  tenant_id = "t1";
  knowledge_base_id = "kb";
  document_id = "d1";
  document_version_id = "v1";
  parser_name = "p";
  parser_version = "1";
  blocks = block ∷ block ∷ [];
}

abbrev caller : AuthorizationContext
caller = record { tenant_id = "t1"; actor_id = "ann"; request_id = "r1"; roles = [] }

abbrev chunker : GeneralChunker
chunker = record { max_tokens = 2; overlap_tokens = 1 }

abbrev chunks : List ChunkRecord
chunks = elim (chunk library "|" document chunker caller none) [ ok cs ↦ cs | _ ↦ [] ]

chunker_lem : new_chunker 2 1 ≡ ok chunker
unfolding new_chunker
chunker_lem = refl

chunks_lem : chunk library "|" document chunker caller none ≡ ok chunks
unfolding chunk
chunks_lem = refl

chunk-IsNumbered_example :
    (caller.tenant_id ≡ document.tenant_id)
    × IsNumbered 0 chunks
    × All (IsChunk library document (limit_of chunker none)) chunks
chunk-IsNumbered_example =
    chunk-IsNumbered library "|" document 2 1 chunker caller none chunks chunker_lem chunks_lem

abbrev candidate : String → ℕ → RetrievalCandidate ℕ
candidate id score = record {
  tenant_id = "t1";
  knowledge_base_id = "kb";
  document_id = "d1";
  document_version_id = "v1";
  chunk_id = id;
  content = "text";
  score = record {
    final_score = score;
    full_text_score = none;
    vector_score = none;
    fusion_score = none;
    rerank_score = none;
    full_text_rank = none;
    vector_rank = none;
    fusion_rank = none;
    rerank_rank = none;
    final_rank = none;
  };
  citation = record {
    schema_version = 2;
    tenant_id = "t1";
    knowledge_base_id = "kb";
    document_id = "d1";
    document_version_id = "v1";
    chunk_id = id;
    quote = "text";
    page_number = none;
    bounding_box = none;
    source_uri = none;
    media_kind = none;
    time_start_seconds = none;
    time_end_seconds = none;
    observed_at = none;
  };
}

abbrev manifest : AdvancedIndexManifest
manifest = record {
  schema_version = 1;
  capability = AdvancedCapability.graphrag;
  tenant_id = "t1";
  knowledge_base_id = "kb";
  build_version = "1";
  document_version_ids = "v1" ∷ [];
  created_at = 0;
  content_hash = "h";
  complete = true;
}

abbrev retriever : AdvancedRetriever ℕ
retriever = record {
  flags = record {
    keywords_enabled = false;
    questions_enabled = false;
    summaries_enabled = false;
    toc_enabled = false;
    parent_child_enabled = false;
    multimodal_enabled = false;
    graphrag_enabled = true;
    raptor_enabled = false;
    temporal_enabled = false;
  };
  has_provider = λ c. true;
  answer = λ c kb. some (candidate "c2" 9 ∷ candidate "c1" 1 ∷ []);
  manifests = λ t kb c. some manifest;
  active_document_versions = λ t kb. "v1" ∷ [];
}

abbrev question : RetrievalQuery ℕ
question = record {
  schema_version = 2;
  tenant_id = "t1";
  text = "cats?";
  knowledge_base_ids = "kb" ∷ [];
  top_k = 10;
  top_n = 2;
  filters = [];
  filter_expression = none;
  inferred_filter_expression = none;
  index_version_ids = [];
  history = [];
  target_languages = [];
  trace_id = "tr";
  request_id = none;
}

abbrev base : List (RetrievalCandidate ℕ)
base = candidate "c1" 5 ∷ candidate "c3" 3 ∷ []

-- The better candidate of the index comes first.
retrieve_lem :
    retrieve floats retriever caller question base ≡ candidate "c2" 9 ∷ candidate "c1" 5 ∷ []
unfolding retrieve
retrieve_lem = refl

retrieve-IsAdmitted_example :
    All
      (λ c. In c base ⊎ IsVetted floats retriever caller ("kb" ∷ []) c)
      (retrieve floats retriever caller question base)
retrieve-IsAdmitted_example = retrieve-IsAdmitted floats retriever caller question base

retrieve-IsRanked_example :
    (length (retrieve floats retriever caller question base) ≤ 2)
    × IsDescending floats (retrieve floats retriever caller question base)
    × (all_distinct (chunk_ids (retrieve floats retriever caller question base)) ≡ true)
retrieve-IsRanked_example = retrieve-IsRanked floats retriever caller question base
