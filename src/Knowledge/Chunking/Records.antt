-- ===== src/Knowledge/Chunking/Records.antt =====
-- The records of knowledge/infrastructure/chunking/general.py.
use ragflow_agent.Base.{
  ℕ, zero, suc, ◌+◌, ◌-◌, ◌≤◌, ◌<◌, min, ◌≡◌, refl, inl, inr, String, false, Option, none, some,
  List, [], ◌∷◌, ◌++◌, length, get_elem?, All, All-append, In, In-All, Option-cases, arith, ◌==◌,
  eq_iff, ok, Result-cases, Bool-cases,
}
use ragflow_agent.Knowledge.Authorization.{AuthorizationContext}
use ragflow_agent.Knowledge.Chunking.{
  TextLibrary, Span, ParsedDocument, ParsedBlock, ChunkRecord, GeneralChunker, new_chunker, outputs,
  window_text, slice, split, derive_chunk_id, chunk_of, chunk_block, chunk_blocks, limit_of, chunk,
}
use ragflow_agent.Knowledge.Chunking.Windows.{IsWindow, windows_rejoin}

-- The sequence numbers count on from `n`.
abbrev pub IsNumbered : ℕ → List ChunkRecord → Type 0
IsNumbered n [] = Unit
IsNumbered n (c ∷ cs) = (c.sequence ≡ n) × IsNumbered (suc n) cs

IsNumbered-append :
    (n : ℕ) (cs : List ChunkRecord) (c : ChunkRecord)
    → IsNumbered n cs
    → c.sequence ≡ n + length cs
    → IsNumbered n (cs ++ c ∷ [])
IsNumbered-append n [] c h e = (omega arith, tt)
IsNumbered-append n (d ∷ cs) c (p, h) e = (p, IsNumbered-append (suc n) cs c h (omega arith))

not_blank : (s : String) → s ≡ "" → (s == "") ≡ false → ⊥
not_blank s e n = ground (arith, eq_iff s "")

module _ (T : TextLibrary) where
  -- The text that runs from the start of one token of a source text to the end of another, stripped,
  -- with at most `limit` tokens from the one to the other.
  pub record IsExcerpt (source : String) (limit : ℕ) (content : String) (count : ℕ) : Type 0 where
    pub first : ℕ
    pub last : ℕ
    pub first_token : Span
    pub last_token : Span
    pub starts : get_elem? (T.find_tokens source) first ≡ some first_token
    pub ends : get_elem? (T.find_tokens source) last ≡ some last_token
    pub content_is : content ≡ T.strip (slice first_token.start last_token.end source)
    pub count_is : last + 1 ≡ first + count
    pub bounded : (0 < count) × (count ≤ limit)

  -- A piece of a text within the limit.
  abbrev IsPiece : String → ℕ → String × ℕ → Type 0
  IsPiece source limit (s, n) = ((s == "") ≡ false) × IsExcerpt source limit s n

  -- A record of the document, with a text that is an excerpt of one of its blocks.
  pub record IsChunk (d : ParsedDocument) (limit : ℕ) (c : ChunkRecord) : Type 0 where
    pub of_tenant : c.tenant_id ≡ d.tenant_id
    pub of_version : c.document_version_id ≡ d.document_version_id
    pub has_text : (c.content == "") ≡ false
    pub block : ParsedBlock
    pub of_document : In block d.blocks
    pub of_block : c.source_block_ids ≡ block.id ∷ []
    pub count : ℕ
    pub counted : c.token_count ≡ some count
    pub is_excerpt : IsExcerpt block.content limit c.content count

  -- A window whose text is not empty gives an excerpt.
  window-IsExcerpt :
      (s : String) (limit a b : ℕ)
      → IsWindow limit (length (T.find_tokens s)) (a, b)
      → (window_text T s (T.find_tokens s) a b == "") ≡ false
      → IsExcerpt s limit (window_text T s (T.find_tokens s) a b) (b - a)
  window-IsExcerpt s limit a b (h, k, l) n = elim (Option-cases (get_elem? (T.find_tokens s) a)) [
    | inl p ↦
        absurd (not_blank (window_text T s (T.find_tokens s) a b) (rw (p, window_text) refl) n)
    | inr (x, p) ↦ elim (Option-cases (get_elem? (T.find_tokens s) (b - 1))) [
      | inl q ↦
          absurd (not_blank (window_text T s (T.find_tokens s) a b) (rw (p, q, window_text) refl) n)
      | inr (y, q) ↦ record {
        first = a;
        last = b - 1;
        first_token = x;
        last_token = y;
        starts = p;
        ends = q;
        content_is = rw (p, q, window_text) refl;
        count_is = omega (arith, h);
        bounded = (omega (arith, h), omega (arith, l));
      }
    ]
  ]

  outputs-IsPiece :
      (s : String) (limit : ℕ) (ws : List (ℕ × ℕ))
      → All (IsWindow limit (length (T.find_tokens s))) ws
      → All (IsPiece s limit) (outputs T s (T.find_tokens s) ws)
  unfolding outputs
  outputs-IsPiece s limit [] h = tt
  outputs-IsPiece s limit ((a, b) ∷ ws) (h, hs) =
      let rest = outputs-IsPiece s limit ws hs in
      elim (Bool-cases (window_text T s (T.find_tokens s) a b == "")) [
        | inl e ↦ rw e rest
        | inr e ↦ rw e ((e, window-IsExcerpt s limit a b h e), rest)
      ]

  -- `_split` has enough fuel.
  split-IsPiece :
      (s : String) (limit overlap : ℕ)
      → overlap < limit
      → (ps : List (String × ℕ)) × (split T s limit overlap ≡ some ps) × All (IsPiece s limit) ps
  unfolding split
  split-IsPiece s limit overlap small =
      let spans = T.find_tokens s in
      let (ws, p, q, r) = windows_rejoin limit overlap small spans in
      (outputs T s spans ws, rw p refl, outputs-IsPiece s limit ws r)

  module _ (separator : String) (d : ParsedDocument) (limit : ℕ) where
    abbrev IsChunked : List ChunkRecord → Type 0
    IsChunked cs = IsNumbered 0 cs × All (IsChunk d limit) cs

    chunk_block-IsChunked :
        (b : ParsedBlock) (ps : List (String × ℕ)) (cs out : List ChunkRecord)
        → In b d.blocks
        → All (IsPiece b.content limit) ps
        → IsChunked cs
        → chunk_block T separator d b ps cs ≡ ok out
        → IsChunked out
    unfolding chunk_block
    chunk_block-IsChunked b [] cs out i h k e = ground arith
    chunk_block-IsChunked b ((s, n) ∷ ps) cs out i (h, hs) (k, ks) e =
        elim (Result-cases (
          derive_chunk_id T separator d.tenant_id d.document_version_id (length cs) (b.id ∷ [])
            s)) [
              | inr (x, p) ↦ ground arith
              | inl (id, p) ↦
                  let c = chunk_of T separator d b (length cs) s n id in
                  chunk_block-IsChunked b ps (cs ++ c ∷ []) out i hs
                    (
                      IsNumbered-append 0 cs c k (omega arith),
                      All-append (IsChunk d limit) cs (c ∷ []) ks (
                        record {
                          of_tenant = refl;
                          of_version = refl;
                          has_text = h.0;
                          block = b;
                          of_document = i;
                          of_block = refl;
                          count = n;
                          counted = refl;
                          is_excerpt = h.1;
                        },
                        tt,
                      ),
                    )
                    (ground arith)
            ]

    chunk_blocks-IsChunked :
        (overlap : ℕ) (bs : List ParsedBlock) (cs out : List ChunkRecord)
        → overlap < limit
        → All (λ b. In b d.blocks) bs
        → IsChunked cs
        → chunk_blocks T separator d limit overlap bs cs ≡ ok out
        → IsChunked out
    unfolding chunk_blocks
    chunk_blocks-IsChunked overlap [] cs out o i k e = ground arith
    chunk_blocks-IsChunked overlap (b ∷ bs) cs out o (i, is) k e =
        let (ps, p, h) = split-IsPiece b.content limit overlap o in
        elim (Result-cases (chunk_block T separator d b ps cs)) [
          | inr (x, q) ↦ ground arith
          | inl (cs', q) ↦
              chunk_blocks-IsChunked overlap bs cs' out o is
                (chunk_block-IsChunked b ps cs cs' i h k q) (ground arith)
        ]

  limit_small :
      (m o : ℕ) (g : GeneralChunker) (max_tokens : Option ℕ)
      → new_chunker m o ≡ ok g
      → min g.overlap_tokens (limit_of g max_tokens - 1) < limit_of g max_tokens
  unfolding new_chunker
  limit_small m o g none h = ground arith
  limit_small m o g (some zero) h = ground arith
  limit_small m o g (some (suc n)) h = omega arith

  -- The chunks of a chunker that its constructor let pass are numbered from 0 on. Each belongs to the
  -- tenant and the version of the document and has a text that is not empty: the stripped text from
  -- the start of one token of a block of the document to the end of another, with as many tokens as
  -- the chunk says, and at most as many as the request or else the chunker allows.
  pub chunk-IsNumbered :
      (separator : String) (d : ParsedDocument) (m o : ℕ) (g : GeneralChunker)
      (context : AuthorizationContext) (max_tokens : Option ℕ) (cs : List ChunkRecord)
      → new_chunker m o ≡ ok g
      → chunk T separator d g context max_tokens ≡ ok cs
      → (context.tenant_id ≡ d.tenant_id)
        × IsNumbered 0 cs
        × All (IsChunk d (limit_of g max_tokens)) cs
  unfolding chunk
  chunk-IsNumbered separator d m o g context max_tokens cs h e =
      let limit = limit_of g max_tokens in
      let small : min g.overlap_tokens (limit - 1) < limit = limit_small m o g max_tokens h in
      elim (Bool-cases (context.tenant_id == d.tenant_id)) [
        | inr p ↦ ground arith
        | inl p ↦
            let (k, ks) =
              chunk_blocks-IsChunked separator d limit (min g.overlap_tokens (limit - 1)) d.blocks
                [] cs small (In-All (λ b. In b d.blocks) d.blocks (λ b i. i)) (tt, tt)
                (ground arith) in
            ((eq_iff context.tenant_id d.tenant_id).0 p, k, ks)
      ]
