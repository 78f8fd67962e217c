-- ===== src/Knowledge/Query/Fusion/Ranking.antt =====
-- The order and the ranks that `reciprocal_rank_fusion` of knowledge/application/query/fusion.py gives.
use ragflow_agent.Base.{
  ℕ, suc, ◌≡◌, refl, ap, ◌∙◌, String, true, false, ◌||◌, Option, List, [], ◌∷◌, arith, elem,
  all_distinct, FloatOps, ◌==◌, eq_iff, Bool-cases, inl, inr, All,
}
use ragflow_agent.Knowledge.Query.Candidates.{RetrievalCandidate, chunk_ids, CountsFrom}
use ragflow_agent.Knowledge.Query.Fusion.{
  FusionEntry, entry_id, entry_ids, precedes, insert, sorted, ranked, entries,
  reciprocal_rank_fusion, full_text, vector,
}
use ragflow_agent.Knowledge.Query.Fusion.Entries.{elem-add_channel, all_distinct-add_channel}

module _ (F : FloatOps) where
  elem-insert :
      (x : String) (e : FusionEntry F.Float) (es : List (FusionEntry F.Float))
      → elem x (entry_ids (insert F e es)) ≡ ((entry_id e == x) || elem x (entry_ids es))
  unfolding insert
  elem-insert x e [] = refl
  elem-insert x e (y ∷ es) = ground (arith, elem-insert x e es)

  all_distinct-insert :
      (e : FusionEntry F.Float) (es : List (FusionEntry F.Float))
      → all_distinct (entry_ids es) ≡ true
      → elem (entry_id e) (entry_ids es) ≡ false
      → all_distinct (entry_ids (insert F e es)) ≡ true
  unfolding insert
  all_distinct-insert e [] h n = refl
  all_distinct-insert e (y ∷ es) h n = ground (
    arith,
    all_distinct-insert e es,
    elem-insert (entry_id y) e es,
    eq_iff (entry_id e) (entry_id y),
    eq_iff (entry_id y) (entry_id e),
  )

  elem-sorted :
      (x : String) (es : List (FusionEntry F.Float))
      → elem x (entry_ids (sorted F es)) ≡ elem x (entry_ids es)
  unfolding sorted
  elem-sorted x [] = refl
  elem-sorted x (e ∷ es) = ground (arith, elem-insert x e (sorted F es), elem-sorted x es)

  all_distinct-sorted :
      (es : List (FusionEntry F.Float))
      → all_distinct (entry_ids es) ≡ true
      → all_distinct (entry_ids (sorted F es)) ≡ true
  unfolding sorted
  all_distinct-sorted [] h = refl
  all_distinct-sorted (e ∷ es) h = ground (
    arith,
    all_distinct-insert e (sorted F es),
    all_distinct-sorted es,
    elem-sorted (entry_id e) es,
  )

  chunk_ids-ranked :
      (n : ℕ) (es : List (FusionEntry F.Float)) → chunk_ids (ranked F n es) ≡ entry_ids es
  unfolding ranked
  chunk_ids-ranked n [] = refl
  chunk_ids-ranked n (e ∷ es) = ap (entry_id e ∷◌) (chunk_ids-ranked (suc n) es)

  -- Every candidate scores at least as high as those after it.
  abbrev pub Descending : List (RetrievalCandidate F.Float) → Type 0
  Descending [] = Unit
  Descending (c ∷ cs) =
      All (λ d. F.leb d.score.final_score c.score.final_score ≡ true) cs × Descending cs

  abbrev Below : F.Float → List (FusionEntry F.Float) → Type 0
  Below s es = All (λ d. F.leb d.rrf s ≡ true) es

  abbrev Sorted : List (FusionEntry F.Float) → Type 0
  Sorted [] = Unit
  Sorted (e ∷ es) = Below e.rrf es × Sorted es

  Below-trans :
      (s t : F.Float) (es : List (FusionEntry F.Float)) → F.leb s t ≡ true → Below s es → Below t es
  Below-trans s t [] h b = tt
  Below-trans s t (e ∷ es) h b = (F.leb_trans e.rrf s t b.0 h, Below-trans s t es h b.1)

  Below-insert :
      (s : F.Float) (e : FusionEntry F.Float) (es : List (FusionEntry F.Float))
      → F.leb e.rrf s ≡ true
      → Below s es
      → Below s (insert F e es)
  unfolding insert
  Below-insert s e [] h b = (h, tt)
  Below-insert s e (x ∷ es) h b = elim (Bool-cases (precedes F e x)) [
    | inl p ↦ rw p (h, b)
    | inr p ↦ rw p (b.0, Below-insert s e es h b.1)
  ]

  follows_leb : (e x : FusionEntry F.Float) → precedes F e x ≡ false → F.leb e.rrf x.rrf ≡ true
  follows_leb e x h = ground (arith, F.leb_total x.rrf e.rrf)

  precedes_leb : (e x : FusionEntry F.Float) → precedes F e x ≡ true → F.leb x.rrf e.rrf ≡ true
  precedes_leb e x h = ground arith

  Sorted-insert :
      (e : FusionEntry F.Float) (es : List (FusionEntry F.Float))
      → Sorted es
      → Sorted (insert F e es)
  unfolding insert
  Sorted-insert e [] h = (tt, tt)
  Sorted-insert e (x ∷ es) h = elim (Bool-cases (precedes F e x)) [
    | inl p ↦
        let le : F.leb x.rrf e.rrf ≡ true = precedes_leb e x p in
        rw p ((le, Below-trans x.rrf e.rrf es le h.0), h)
    | inr p ↦ rw p (Below-insert x.rrf e es (follows_leb e x p) h.0, Sorted-insert e es h.1)
  ]

  Sorted-sorted : (es : List (FusionEntry F.Float)) → Sorted (sorted F es)
  unfolding sorted
  Sorted-sorted [] = tt
  Sorted-sorted (e ∷ es) = Sorted-insert e (sorted F es) (Sorted-sorted es)

  Below-ranked :
      (s : F.Float) (n : ℕ) (es : List (FusionEntry F.Float))
      → Below s es
      → All (λ d. F.leb d.score.final_score s ≡ true) (ranked F n es)
  unfolding ranked
  Below-ranked s n [] b = tt
  Below-ranked s n (e ∷ es) b = (b.0, Below-ranked s (suc n) es b.1)

  Descending-ranked :
      (n : ℕ) (es : List (FusionEntry F.Float)) → Sorted es → Descending (ranked F n es)
  unfolding ranked
  Descending-ranked n [] h = tt
  Descending-ranked n (e ∷ es) h =
      (Below-ranked e.rrf (suc n) es h.0, Descending-ranked (suc n) es h.1)

  abbrev pub fusion_rank : RetrievalCandidate F.Float → Option ℕ
  fusion_rank c = c.score.fusion_rank

  CountsFrom-ranked :
      (n : ℕ) (es : List (FusionEntry F.Float)) → CountsFrom fusion_rank n (ranked F n es)
  unfolding ranked
  CountsFrom-ranked n [] = tt
  CountsFrom-ranked n (e ∷ es) = (refl, CountsFrom-ranked (suc n) es)

  -- The fusion of two channels: every chunk of either once and no other, in falling order of the
  -- fused score, ranked from 1.
  pub record IsFusion (full vec result : List (RetrievalCandidate F.Float)) : Type 0 where
    pub chunks :
        (x : String)
        → elem x (chunk_ids result) ≡ (elem x (chunk_ids full) || elem x (chunk_ids vec))
    pub distinct : all_distinct (chunk_ids result) ≡ true
    pub descending : Descending result
    pub counted : CountsFrom fusion_rank 1 result

  -- Fusing two channels, which may repeat chunks and share them, gives every chunk of either channel
  -- exactly once and no other, in falling order of its fused score, with the fusion ranks 1, 2, 3 and
  -- so on.
  pub reciprocal_rank_fusion-IsFusion :
      (full vec : List (RetrievalCandidate F.Float)) (k : ℕ)
      → IsFusion full vec (reciprocal_rank_fusion F full vec k)
  unfolding reciprocal_rank_fusion
  reciprocal_rank_fusion-IsFusion full vec k =
      let es = entries F full vec k in
      let ids = chunk_ids-ranked 1 (sorted F es) in
      record {
        chunks = λ x.
            ap (elem x) ids
            ∙ elem-sorted x es
            ∙ elem-add_channel F k x vector 1 vec _
            ∙ ap (◌|| elem x (chunk_ids vec)) (elem-add_channel F k x full_text 1 full []);
        distinct =
            ap all_distinct ids
            ∙ all_distinct-sorted es (
                all_distinct-add_channel F k vector 1 vec _
                  (all_distinct-add_channel F k full_text 1 full [] refl));
        descending = Descending-ranked 1 (sorted F es) (Sorted-sorted es);
        counted = CountsFrom-ranked 1 (sorted F es);
      }
