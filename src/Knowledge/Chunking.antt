-- ===== src/Knowledge/Chunking.antt =====
-- The general chunker, knowledge/infrastructure/chunking/general.py, with the blocks, documents and
-- chunks of knowledge/domain/chunk.py that it reads and writes. Python's `str.strip` and `sha256`
-- and the matches of the token pattern are a parameter. Of a block, its table, its image and its
-- confidence are left out, of a document its source and its warnings: the chunker does not read them.
-- Coordinates are their 64 bits, since they are only copied.
pub mod Windows
pub mod Records
use ragflow_agent.Base.{
  ℕ, zero, suc, ◌+◌, ◌-◌, min, String, Bool, true, false, not, ◌&&◌, ◌||◌, Option, none, some, List,
  [], ◌∷◌, ◌++◌, ltb, leb, nat_eq, length, get_elem?, is_empty, ◌==◌, if◌then◌else◌, Result, Check,
  ok, err, ◌>>=◌, ◌>>◌, raise_if, all_distinct,
}
use mathlib.Core.Option
use ragflow_agent.Base.Texts.{concat, join, clip, show}
use ragflow_agent.Knowledge.Errors.{Raised, forbidden, invalid}
use ragflow_agent.Knowledge.Query.Candidates.{BoundingBox}
use ragflow_agent.Knowledge.Authorization.{AuthorizationContext}

pub data BlockKind : Type 0 where
  heading text list table image code : BlockKind

pub record ParsedBlock : Type 0 where
  pub id : String
  pub kind : BlockKind
  pub order : ℕ
  pub content : String  -- the field `text`
  pub page_number : Option ℕ
  pub bounding_box : Option (BoundingBox ℕ)
  pub heading_path : List String

pub record ParsedDocument : Type 0 where
  pub id : String
  pub tenant_id : String
  pub knowledge_base_id : String
  pub document_id : String
  pub document_version_id : String
  pub parser_name : String
  pub parser_version : String
  pub blocks : List ParsedBlock

pub record ChunkMetadata : Type 0 where
  pub heading_path : List String
  pub page_start : Option ℕ
  pub page_end : Option ℕ
  pub source_order_start : Option ℕ
  pub source_order_end : Option ℕ
  pub block_kinds : List BlockKind
  pub bounding_box : Option (BoundingBox ℕ)
  pub contains_table : Bool
  pub contains_image : Bool
  pub parser_name : Option String
  pub parser_version : Option String
  pub chunk_strategy_id : Option String
  pub chunk_strategy_version : Option String

pub record ChunkRecord : Type 0 where
  pub id : String
  pub tenant_id : String
  pub knowledge_base_id : String
  pub document_id : String
  pub document_version_id : String
  pub parsed_document_id : String
  pub sequence : ℕ
  pub content : String
  pub source_block_ids : List String
  pub token_count : Option ℕ
  pub metadata : ChunkMetadata

-- Where a token starts and ends in its text.
pub record Span : Type 0 where
  pub start : ℕ
  pub end : ℕ

pub record TextLibrary : Type 0 where
  pub strip : String → String
  pub sha256 : String → String
  pub find_tokens : String → List Span

-- `GeneralChunker` and its `__init__`.
pub record GeneralChunker : Type 0 where
  pub max_tokens : ℕ
  pub overlap_tokens : ℕ

unfoldable pub new_chunker : ℕ → ℕ → Result Raised GeneralChunker
new_chunker max_tokens overlap_tokens = do
  raise_if (ltb max_tokens 1 || leb max_tokens overlap_tokens) invalid
  ok (record { max_tokens = max_tokens; overlap_tokens = overlap_tokens })

-- The pairs `start`, `end` of the loop of `_split` over `count` tokens, on fuel.
unfoldable pub windows : ℕ → ℕ → ℕ → ℕ → ℕ → Option (List (ℕ × ℕ))
windows zero limit overlap count start = none
windows (suc fuel) limit overlap count start =
    let end = min (start + limit) count in
    let rest = windows fuel limit overlap count (end - overlap) in
    if not (ltb start count)
    then some []
    else if nat_eq end count
    then some ((start, end) ∷ [])
    else Option.map (λ ws. (start, end) ∷ ws) rest

-- `request.max_tokens or self._max_tokens`.
abbrev pub limit_of : GeneralChunker → Option ℕ → ℕ
limit_of g none = g.max_tokens
limit_of g (some zero) = g.max_tokens
limit_of g (some (suc n)) = suc n

-- `text[a:b]`, by code points.
abbrev pub skip : ℕ → String → String
skip zero s = s
skip (suc n) String.[] = ""
skip (suc n) (String.◌∷◌ c s) = skip n s

abbrev pub slice : ℕ → ℕ → String → String
slice a b s = clip (b - a) (skip a s)

module _ (T : TextLibrary) where
  -- `text[matches[start].start():matches[end - 1].end()].strip()`.
  abbrev pub window_text : String → List Span → ℕ → ℕ → String
  window_text s spans a b = elim (get_elem? spans a) [
    | none ↦ ""
    | some first ↦ elim (get_elem? spans (b - 1)) [
      | none ↦ ""
      | some last ↦ T.strip (slice first.start last.end s)
    ]
  ]

  unfoldable pub outputs : String → List Span → List (ℕ × ℕ) → List (String × ℕ)
  unfolding clip
  outputs s spans [] = []
  outputs s spans ((a, b) ∷ ws) =
      let rest = outputs s spans ws in
      if window_text s spans a b == "" then rest else (window_text s spans a b, b - a) ∷ rest

  -- `_split`: one unit of fuel for each token and one more.
  unfoldable pub split : String → ℕ → ℕ → Option (List (String × ℕ))
  unfolding windows outputs
  split s limit overlap =
      let spans = T.find_tokens s in
      Option.map (outputs s spans) (windows (suc (length spans)) limit overlap (length spans) 0)

  -- `derive_chunk_id`; the separator is U+001F.
  unfoldable pub derive_chunk_id :
      String → String → String → ℕ → List String → String → Result Raised String
  unfolding show clip
  derive_chunk_id separator tenant_id document_version_id sequence source_block_ids content = do
    raise_if
        (T.strip tenant_id == ""
          || T.strip document_version_id == ""
          || is_empty source_block_ids
          || T.strip content == "")
        invalid
    ok (
        concat (
          "chk_"
          ∷ clip 32 (
              T.sha256 (
                join separator (
                  "sha256-v1"
                  ∷ T.strip tenant_id
                  ∷ T.strip document_version_id
                  ∷ show sequence
                  ∷ join "," source_block_ids
                  ∷ T.sha256 content
                  ∷ [])))
          ∷ []))

  abbrev is_table : BlockKind → Bool
  is_table table = true
  is_table _ = false

  abbrev is_image : BlockKind → Bool
  is_image image = true
  is_image _ = false

  -- `_metadata`.
  abbrev pub metadata_of : ParsedDocument → ParsedBlock → ChunkMetadata
  metadata_of d b = record {
    heading_path = b.heading_path;
    page_start = b.page_number;
    page_end = b.page_number;
    source_order_start = some b.order;
    source_order_end = some b.order;
    block_kinds = b.kind ∷ [];
    bounding_box = b.bounding_box;
    contains_table = is_table b.kind;
    contains_image = is_image b.kind;
    parser_name = some d.parser_name;
    parser_version = some d.parser_version;
    chunk_strategy_id = some "general";
    chunk_strategy_version = some "1";
  }

  module _ (separator : String) (d : ParsedDocument) where
    abbrev pub chunk_of : ParsedBlock → ℕ → String → ℕ → String → ChunkRecord
    chunk_of b sequence content token_count id = record {
      id = id;
      tenant_id = d.tenant_id;
      knowledge_base_id = d.knowledge_base_id;
      document_id = d.document_id;
      document_version_id = d.document_version_id;
      parsed_document_id = d.id;
      sequence = sequence;
      content = content;
      source_block_ids = b.id ∷ [];
      token_count = some token_count;
      metadata = metadata_of d b;
    }

    -- The inner loop: `chunks` grows by one record for each output of `_split`.
    unfoldable pub chunk_block :
        ParsedBlock → List (String × ℕ) → List ChunkRecord → Result Raised (List ChunkRecord)
    unfolding derive_chunk_id
    chunk_block b [] chunks = ok chunks
    chunk_block b ((content, token_count) ∷ rest) chunks = do
      id ←
          derive_chunk_id separator d.tenant_id d.document_version_id (length chunks) (b.id ∷ [])
            content
      chunk_block b rest (chunks ++ chunk_of b (length chunks) content token_count id ∷ [])

    -- The outer loop. The fuel of `_split` always suffices; `invalid` stands for its end.
    unfoldable pub chunk_blocks :
        ℕ → ℕ → List ParsedBlock → List ChunkRecord → Result Raised (List ChunkRecord)
    unfolding split chunk_block
    chunk_blocks limit overlap [] chunks = ok chunks
    chunk_blocks limit overlap (b ∷ bs) chunks = elim (split b.content limit overlap) [
      | none ↦ err invalid
      | some pieces ↦ do
        chunks' ← chunk_block b pieces chunks
        chunk_blocks limit overlap bs chunks'
    ]

    -- `chunk`.
    unfoldable pub chunk :
        GeneralChunker → AuthorizationContext → Option ℕ → Result Raised (List ChunkRecord)
    unfolding chunk_blocks
    chunk g context max_tokens = do
      raise_if (not (context.tenant_id == d.tenant_id)) (forbidden "tenant_mismatch")
      let limit = limit_of g max_tokens
      chunk_blocks limit (min g.overlap_tokens (limit - 1)) d.blocks []
