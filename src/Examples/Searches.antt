-- ===== src/Examples/Searches.antt =====
-- Tests of the retrieval stages.
use ragflow_agent.Base.{ℕ, ◌≤◌, none, some, List, [], ◌∷◌, String, arith, length, All}
use ragflow_agent.Knowledge.Query.Candidates.{
  ScoreBreakdown, Citation, RetrievalCandidate, RetrievalQuery,
}
use ragflow_agent.Knowledge.Query.Clean.{clean_candidates}
use ragflow_agent.Knowledge.Query.Clean.Selection.{IsSelection, clean_candidates-IsSelection}
use ragflow_agent.Knowledge.Query.Fallback.{fallback_attempts}
use ragflow_agent.Knowledge.Query.Fallback.Steps.{IsFallback, fallback_attempts-IsFallback}
use ragflow_agent.Knowledge.Query.Fusion.{reciprocal_rank_fusion}
use ragflow_agent.Knowledge.Query.Fusion.Ranking.{IsFusion, reciprocal_rank_fusion-IsFusion}
use ragflow_agent.Knowledge.Query.Rerank.{RerankReply, reranked}
use ragflow_agent.Examples.Fixtures.{floats}

abbrev score : ℕ → ScoreBreakdown ℕ
score n = record {
  final_score = n;
  full_text_score = some n;
  vector_score = none;
  fusion_score = none;
  rerank_score = none;
  full_text_rank = none;
  vector_rank = none;
  fusion_rank = none;
  rerank_rank = none;
  final_rank = none;
}

abbrev citation : String → String → Citation ℕ
citation document chunk = record {
  schema_version = 2;
  tenant_id = "t1";
  knowledge_base_id = "kb";
  document_id = document;
  document_version_id = "v1";
  chunk_id = chunk;
  quote = "q";
  page_number = none;
  bounding_box = none;
  source_uri = none;
  media_kind = none;
  time_start_seconds = none;
  time_end_seconds = none;
  observed_at = none;
}

abbrev candidate : String → String → ℕ → RetrievalCandidate ℕ
candidate document chunk n = record {
  tenant_id = "t1";
  knowledge_base_id = "kb";
  document_id = document;
  document_version_id = "v1";
  chunk_id = chunk;
  content = "text";
  score = score n;
  citation = citation document chunk;
}

abbrev first : List (RetrievalCandidate ℕ)
first =
    candidate "d1" "a" 9 ∷ candidate "d1" "b" 7 ∷ candidate "d1" "a" 6 ∷ candidate "d2" "c" 1 ∷ []

abbrev second : List (RetrievalCandidate ℕ)
second = candidate "d2" "c" 8 ∷ candidate "d1" "b" 2 ∷ []

clean_candidates-IsSelection_example :
    IsSelection floats 2 1 3 (clean_candidates floats 2 1 3 first).kept
clean_candidates-IsSelection_example = clean_candidates-IsSelection floats 2 1 3 first (omega arith)

reciprocal_rank_fusion-IsFusion_example :
    IsFusion floats first second (reciprocal_rank_fusion floats first second 60)
reciprocal_rank_fusion-IsFusion_example = reciprocal_rank_fusion-IsFusion floats first second 60

abbrev reply : RerankReply ℕ
reply = reranked (candidate "d1" "b" 2 ∷ candidate "d2" "c" 8 ∷ [])

abbrev query : RetrievalQuery ℕ
query = record {
  schema_version = 2;
  tenant_id = "t1";
  text = "cats";
  knowledge_base_ids = "kb" ∷ [];
  top_k = 100;
  top_n = 10;
  filters = [];
  filter_expression = none;
  inferred_filter_expression = none;
  index_version_ids = [];
  history = [];
  target_languages = [];
  trace_id = "tr";
  request_id = none;
}

fallback_attempts-IsFallback_example :
    All (IsFallback floats query 3) (fallback_attempts floats query 7 3 4 3)
    × (length (fallback_attempts floats query 7 3 4 3) ≤ 3)
    × (length (fallback_attempts floats query 7 3 4 3) ≤ 4)
fallback_attempts-IsFallback_example =
    fallback_attempts-IsFallback floats query 7 3 4 3 (omega arith) (omega arith) (omega arith)
