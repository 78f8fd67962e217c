-- ===== src/Knowledge/Query/Candidates.antt =====
-- The candidates and queries of knowledge/domain/retrieval.py, over a type of floats.
use ragflow_agent.Base.{ℕ, ◌≡◌, String, Bool, Option, some, List, [], ◌∷◌, suc}

pub record ScoreBreakdown (N : Type 0) : Type 0 where
  pub final_score : N
  pub full_text_score : Option N
  pub vector_score : Option N
  pub fusion_score : Option N
  pub rerank_score : Option N
  pub full_text_rank : Option ℕ
  pub vector_rank : Option ℕ
  pub fusion_rank : Option ℕ
  pub rerank_rank : Option ℕ
  pub final_rank : Option ℕ

pub data CoordinateSpace : Type 0 where
  page_points pixels normalized : CoordinateSpace

pub record BoundingBox (N : Type 0) : Type 0 where
  pub x0 : N
  pub y0 : N
  pub x1 : N
  pub y1 : N
  pub coordinate_space : CoordinateSpace

pub record Citation (N : Type 0) : Type 0 where
  pub schema_version : ℕ
  pub tenant_id : String
  pub knowledge_base_id : String
  pub document_id : String
  pub document_version_id : String
  pub chunk_id : String
  pub quote : String
  pub page_number : Option ℕ
  pub bounding_box : Option (BoundingBox N)
  pub source_uri : Option String
  pub media_kind : Option String
  pub time_start_seconds : Option N
  pub time_end_seconds : Option N
  pub observed_at : Option ℕ

pub record RetrievalCandidate (N : Type 0) : Type 0 where
  pub tenant_id : String
  pub knowledge_base_id : String
  pub document_id : String
  pub document_version_id : String
  pub chunk_id : String
  pub content : String
  pub score : ScoreBreakdown N
  pub citation : Citation N

module _ {N : Type 0} where
  abbrev pub chunk_ids : List (RetrievalCandidate N) → List String
  chunk_ids [] = []
  chunk_ids (c ∷ cs) = c.chunk_id ∷ chunk_ids cs

  -- The ranks that a field holds count up from n.
  abbrev pub CountsFrom :
      (RetrievalCandidate N → Option ℕ) → ℕ → List (RetrievalCandidate N) → Type 0
  CountsFrom rank n [] = Unit
  CountsFrom rank n (c ∷ cs) = (rank c ≡ some n) × CountsFrom rank (suc n) cs

pub data FilterScalar (N : Type 0) : Type 0 where
  text : String → FilterScalar N
  number : N → FilterScalar N
  flag : Bool → FilterScalar N

pub data MetadataField : Type 0 where
  document_id document_version_id media_type language created_at heading_path contains_table
        contains_image chunk_strategy_id :
      MetadataField

pub data FilterOperator : Type 0 where
  equals is_in greater_than_or_equal less_than_or_equal : FilterOperator

pub data FilterValue (N : Type 0) : Type 0 where
  scalar : FilterScalar N → FilterValue N
  collection : List (FilterScalar N) → FilterValue N

pub record MetadataFilter (N : Type 0) : Type 0 where
  pub field : MetadataField
  pub operator : FilterOperator
  pub value : FilterValue N

pub data FilterGroupOperator : Type 0 where
  all_of any_of none_of : FilterGroupOperator

mutual
  pub data MetadataFilterGroup (N : Type 0) : Type 0 where
    group : FilterGroupOperator → FilterItems N → MetadataFilterGroup N

  pub data FilterItems (N : Type 0) : Type 0 where
    no_items : FilterItems N
    filter_item : MetadataFilter N → FilterItems N → FilterItems N
    group_item : MetadataFilterGroup N → FilterItems N → FilterItems N

pub record RetrievalQuery (N : Type 0) : Type 0 where
  pub schema_version : ℕ
  pub tenant_id : String
  pub text : String
  pub knowledge_base_ids : List String
  pub top_k : ℕ
  pub top_n : ℕ
  pub filters : List (MetadataFilter N)
  pub filter_expression : Option (MetadataFilterGroup N)
  pub inferred_filter_expression : Option (MetadataFilterGroup N)
  pub index_version_ids : List String
  pub history : List String
  pub target_languages : List String
  pub trace_id : String
  pub request_id : Option String
