-- ===== src/Knowledge/Query/Clean.antt =====
-- knowledge/application/query/clean.py: the final selection of candidates.
pub mod Selection
use ragflow_agent.Base.{
  ℕ, ◌+◌, String, Bool, true, false, not, Option, none, some, List, [], ◌∷◌, ◌++◌, leb, elem,
  length, if◌then◌else◌, FloatOps,
}
use ragflow_agent.Base.Dict
use ragflow_agent.Base.Dict.{Dict}
use ragflow_agent.Knowledge.Query.Candidates.{RetrievalCandidate, ScoreBreakdown}

-- The local variables of the loop; the first two are its result.
pub record Cleaning (N : Type 0) : Type 0 where
  pub kept : List (RetrievalCandidate N)
  pub excluded : List (RetrievalCandidate N × String)
  pub document_counts : Dict ℕ
  pub seen : List String

-- `document_counts.get(document_id, 0)`.
unfoldable pub count_of : Dict ℕ → String → ℕ
unfolding Dict.get
count_of counts d = elim (Dict.get counts (d ∷ [])) [ none ↦ 0 | some n ↦ n ]

module _ {N : Type 0} where
  abbrev pub with_final_rank : RetrievalCandidate N → ℕ → RetrievalCandidate N
  with_final_rank c n =
      let score = c.score in record c { score = record score { final_rank = some n } }

  abbrev exclude : Cleaning N → RetrievalCandidate N → String → Cleaning N
  exclude s c reason = record s { excluded = s.excluded ++ (c, reason) ∷ [] }

module _ (F : FloatOps) where
  -- `a < b` for finite floats.
  abbrev pub below : F.Float → F.Float → Bool
  below a b = not (F.leb b a)

  module _ (threshold : F.Float) (per_document_limit final_top_k : ℕ) where
    abbrev pub keep : Cleaning F.Float → RetrievalCandidate F.Float → Cleaning F.Float
    keep s c =
        let count = count_of s.document_counts c.document_id in
        record s {
          document_counts = Dict.put s.document_counts (c.document_id ∷ []) (count + 1);
          kept = s.kept ++ with_final_rank c (length s.kept + 1) ∷ [];
        }

    -- One turn of the loop: the variables after it, and whether the loop breaks.
    unfoldable pub visit : RetrievalCandidate F.Float → Cleaning F.Float → Cleaning F.Float × Bool
    unfolding count_of Dict.put
    visit c s =
        let marked = record s { seen = c.chunk_id ∷ s.seen } in
        let kept = keep marked c in
        if elem c.chunk_id s.seen
        then (exclude s c "duplicate_chunk", false)
        else if below c.score.final_score threshold
        then (exclude marked c "below_threshold", false)
        else if leb per_document_limit (count_of s.document_counts c.document_id)
        then (exclude marked c "per_document_limit", false)
        else (kept, leb final_top_k (length kept.kept))

    unfoldable pub clean_loop :
        List (RetrievalCandidate F.Float) → Cleaning F.Float → Cleaning F.Float
    clean_loop [] s = s
    clean_loop (c ∷ cs) s =
        let (next, stop) = visit c s in let rest = clean_loop cs next in if stop then next else rest

    abbrev pub start : Cleaning F.Float
    start = record { kept = []; excluded = []; document_counts = []; seen = [] }

    abbrev pub clean_candidates : List (RetrievalCandidate F.Float) → Cleaning F.Float
    clean_candidates candidates = clean_loop candidates start
