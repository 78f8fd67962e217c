-- ===== src/Knowledge/Query/Rerank/Identity.antt =====
-- Which candidates leave the reranking of knowledge/application/query/rerank.py.
use ragflow_agent.Base.{
  ℕ, ◌≡◌, String, true, false, Option, none, List, elem, length, is_empty, some, All,
}
use ragflow_agent.Knowledge.Query.Candidates.{RetrievalCandidate, chunk_ids, CountsFrom}
use ragflow_agent.Knowledge.Query.Rerank.{RerankOutcome, RerankReply, reranked}

-- The same texts, whatever their order and number.
abbrev pub Same : List String → List String → Type 0
Same xs ys = (x : String) → elem x xs ≡ elem x ys

module _ {N : Type 0} where
  abbrev pub rerank_rank : RetrievalCandidate N → Option ℕ
  rerank_rank c = c.score.rerank_rank

  -- The final score is that of the reranker, where it gave one.
  abbrev pub IsRescored : RetrievalCandidate N → Type 0
  IsRescored c = elim c.score.rerank_score [ none ↦ Unit | some x ↦ c.score.final_score ≡ x ]

  -- The candidates in the order of an answer, with the ranks 1, 2, 3 and so on.
  pub record IsAnswerOrder (answer out : List (RetrievalCandidate N)) : Type 0 where
    pub order : chunk_ids out ≡ chunk_ids answer
    pub ranks : CountsFrom rerank_rank 1 out
    pub scores : All IsRescored out

  -- An answer that gives every chunk once more, and nothing else.
  abbrev pub IsComplete : List (RetrievalCandidate N) → List (RetrievalCandidate N) → Type 0
  IsComplete cs answer = Same (chunk_ids cs) (chunk_ids answer) × (length answer ≡ length cs)

  -- The outcome for a list of candidates and what the reranker answers.
  pub record IsReordering (cs : List (RetrievalCandidate N)) (reply : RerankReply N)
      (o : RerankOutcome N) : Type 0 where
    pub size : length (chunk_ids o.candidates) ≡ length (chunk_ids cs)
    pub chunks : (x : String) → elem x (chunk_ids o.candidates) ≡ elem x (chunk_ids cs)
    pub kept : o.applied ≡ false → o.candidates ≡ cs
    pub reordered :
        o.applied ≡ true
        → (answer : List (RetrievalCandidate N)) × (reply ≡ reranked answer)
          × IsAnswerOrder answer o.candidates
    pub applies :
        (answer : List (RetrievalCandidate N))
        → is_empty cs ≡ false
        → reply ≡ reranked answer
        → IsComplete cs answer
        → o.applied ≡ true
