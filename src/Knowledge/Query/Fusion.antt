-- ===== src/Knowledge/Query/Fusion.antt =====
-- knowledge/application/query/fusion.py: reciprocal rank fusion of two channels.
pub mod Entries
pub mod Ranking
use Prim.Native.Nat.{Ordering}
use Prim.Native.String.{compare}
use ragflow_agent.Base.{
  ℕ, suc, ◌+◌, String, Bool, true, false, not, ◌&&◌, ◌||◌, Option, none, some, List, [], ◌∷◌, elem,
  if◌then◌else◌, FloatOps, ◌==◌,
}
use ragflow_agent.Knowledge.Query.Candidates.{RetrievalCandidate, ScoreBreakdown}

pub data Channel : Type 0 where
  full_text vector : Channel

pub record FusionEntry (N : Type 0) : Type 0 where
  pub candidate : RetrievalCandidate N
  pub rrf : N
  pub full_text_rank : Option ℕ
  pub full_text_score : Option N
  pub vector_rank : Option ℕ
  pub vector_score : Option N

module _ {N : Type 0} where
  -- `_FusionEntry(candidate=candidate)` with the default of `rrf`.
  abbrev pub new_entry : N → RetrievalCandidate N → FusionEntry N
  new_entry zero candidate = record {
    candidate = candidate;
    rrf = zero;
    full_text_rank = none;
    full_text_score = none;
    vector_rank = none;
    vector_score = none;
  }

  -- The entry's key in the dict.
  abbrev pub entry_id : FusionEntry N → String
  entry_id e = e.candidate.chunk_id

  abbrev pub entry_ids : List (FusionEntry N) → List String
  entry_ids [] = []
  entry_ids (e ∷ es) = entry_id e ∷ entry_ids es

module _ (F : FloatOps) (k : ℕ) where
  -- What a candidate of a channel adds to its entry.
  abbrev pub counted :
      Channel → ℕ → RetrievalCandidate F.Float → FusionEntry F.Float → FusionEntry F.Float
  counted full_text rank c e = record e {
    rrf = F.add e.rrf (F.div (F.of_ℕ 1) (F.of_ℕ (k + rank)));
    full_text_rank = some rank;
    full_text_score = c.score.full_text_score;
  }
  counted vector rank c e = record e {
    rrf = F.add e.rrf (F.div (F.of_ℕ 1) (F.of_ℕ (k + rank)));
    vector_rank = some rank;
    vector_score = c.score.vector_score;
  }

  -- `entries`, a dict in the order of insertion: its entry for the chunk, made if it is missing.
  unfoldable pub add_candidate :
      Channel
      → ℕ
      → RetrievalCandidate F.Float
      → List (FusionEntry F.Float)
      → List (FusionEntry F.Float)
  add_candidate channel rank c [] = counted channel rank c (new_entry F.zero c) ∷ []
  add_candidate channel rank c (e ∷ es) =
      let rest = add_candidate channel rank c es in
      if entry_id e == c.chunk_id then counted channel rank c e ∷ es else e ∷ rest

  unfoldable pub add_channel :
      Channel
      → ℕ
      → List (RetrievalCandidate F.Float)
      → List (FusionEntry F.Float)
      → List (FusionEntry F.Float)
  add_channel channel rank [] es = es
  add_channel channel rank (c ∷ cs) es =
      add_channel channel (suc rank) cs (add_candidate channel rank c es)

-- `a <= b` for texts, by code points.
abbrev pub text_leb : String → String → Bool
text_leb a b = elim (compare a b) [ Ordering.gt ↦ false | _ ↦ true ]

module _ (F : FloatOps) where
  -- The order of `sorted` by `(-rrf, chunk_id)`: whether `a` may stand before `b`.
  abbrev pub precedes : FusionEntry F.Float → FusionEntry F.Float → Bool
  precedes a b =
      F.leb b.rrf a.rrf && (not (F.leb a.rrf b.rrf) || text_leb (entry_id a) (entry_id b))

  unfoldable pub insert :
      FusionEntry F.Float → List (FusionEntry F.Float) → List (FusionEntry F.Float)
  insert e [] = e ∷ []
  insert e (x ∷ xs) = let rest = insert e xs in if precedes e x then e ∷ x ∷ xs else x ∷ rest

  -- `sorted`, which keeps the order of equals.
  unfoldable pub sorted : List (FusionEntry F.Float) → List (FusionEntry F.Float)
  sorted [] = []
  sorted (e ∷ es) = insert e (sorted es)

  abbrev pub fused : ℕ → FusionEntry F.Float → RetrievalCandidate F.Float
  fused rank e =
      let score = e.candidate.score in
      let candidate = e.candidate in
      record candidate {
        score = record score {
          final_score = e.rrf;
          full_text_score = e.full_text_score;
          vector_score = e.vector_score;
          fusion_score = some e.rrf;
          full_text_rank = e.full_text_rank;
          vector_rank = e.vector_rank;
          fusion_rank = some rank;
        };
      }

  unfoldable pub ranked : ℕ → List (FusionEntry F.Float) → List (RetrievalCandidate F.Float)
  ranked n [] = []
  ranked n (e ∷ es) = fused n e ∷ ranked (suc n) es

  abbrev pub entries :
      List (RetrievalCandidate F.Float)
      → List (RetrievalCandidate F.Float)
      → ℕ
      → List (FusionEntry F.Float)
  entries full vec k = add_channel F k vector 1 vec (add_channel F k full_text 1 full [])

  unfoldable pub reciprocal_rank_fusion :
      List (RetrievalCandidate F.Float)
      → List (RetrievalCandidate F.Float)
      → ℕ
      → List (RetrievalCandidate F.Float)
  unfolding add_channel sorted ranked
  reciprocal_rank_fusion full vec k = ranked 1 (sorted (entries full vec k))
