-- ===== src/Knowledge/Query/Rerank.antt =====
-- knowledge/application/query/rerank.py: the reranker's answer, or the order that was there. The
-- reranker itself is an argument: what it answers within its time, or how it fails.
pub mod Identity
use Prim.Native.String.{◌++◌}
use ragflow_agent.Base.{
  ℕ, suc, String, Bool, true, false, not, ◌&&◌, ◌||◌, Option, none, some, List, [], ◌∷◌, elem,
  length, nat_eq, if◌then◌else◌,
}
use ragflow_agent.Knowledge.Query.Candidates.{RetrievalCandidate, ScoreBreakdown, chunk_ids}

pub record RerankOutcome (N : Type 0) : Type 0 where
  pub candidates : List (RetrievalCandidate N)
  pub applied : Bool
  pub fallback_reason : Option String

-- What awaiting the reranker ends with; an error has the name of its type.
pub data RerankReply (N : Type 0) : Type 0 where
  reranked : List (RetrievalCandidate N) → RerankReply N
  timeout : RerankReply N
  error : String → RerankReply N

-- `set(xs) <= set(ys)`.
abbrev pub subset : List String → List String → Bool
subset [] ys = true
subset (x ∷ xs) ys = elem x ys && subset xs ys

-- `set(xs) == set(ys)`.
abbrev pub same_set : List String → List String → Bool
same_set xs ys = subset xs ys && subset ys xs

module _ {N : Type 0} where
  abbrev final_score : RetrievalCandidate N → N
  final_score c = elim c.score.rerank_score [ some x ↦ x | none ↦ c.score.final_score ]

  abbrev pub with_rerank_rank : RetrievalCandidate N → ℕ → RetrievalCandidate N
  with_rerank_rank c n =
      let score = c.score in
      record c { score = record score { rerank_rank = some n; final_score = final_score c } }

  unfoldable pub normalized : ℕ → List (RetrievalCandidate N) → List (RetrievalCandidate N)
  normalized n [] = []
  normalized n (c ∷ cs) = with_rerank_rank c n ∷ normalized (suc n) cs

  abbrev kept : List (RetrievalCandidate N) → String → RerankOutcome N
  kept candidates reason = record {
    candidates = candidates;
    applied = false;
    fallback_reason = some reason;
  }

  abbrev pub changed_identity : List (RetrievalCandidate N) → List (RetrievalCandidate N) → Bool
  changed_identity candidates answer =
      not (same_set (chunk_ids candidates) (chunk_ids answer))
      || not (nat_eq (length answer) (length candidates))

  unfoldable pub rerank_with_fallback :
      List (RetrievalCandidate N) → RerankReply N → RerankOutcome N
  unfolding normalized
  rerank_with_fallback [] reply = record {
    candidates = [];
    applied = false;
    fallback_reason = none;
  }
  rerank_with_fallback (c ∷ cs) (reranked answer) =
      if changed_identity (c ∷ cs) answer
      then kept (c ∷ cs) "reranker_error:ValueError"
      else record { candidates = normalized 1 answer; applied = true; fallback_reason = none }
  rerank_with_fallback (c ∷ cs) timeout = kept (c ∷ cs) "reranker_timeout"
  rerank_with_fallback (c ∷ cs) (error name) = kept (c ∷ cs) ("reranker_error:" ++ name)
