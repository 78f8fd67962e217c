-- ===== src/Knowledge/Query/Fallback/Steps.antt =====
-- What the steps of knowledge/application/query/fallback.py keep of the query.
use ragflow_agent.Base.{
  ℕ, zero, suc, ap, ◌+◌, ◌*◌, ◌≤◌, ◌<◌, ◌≡◌, refl, true, List, [], ◌∷◌, arith, length, take,
  FloatOps, All,
}
use ragflow_agent.Knowledge.Query.Candidates.{RetrievalQuery}
use ragflow_agent.Knowledge.Query.Fallback.{
  RetrievalAttempt, Definition, smaller, larger, definitions, numbered, fallback_attempts,
}

suc_mul : (k m : ℕ) → k * suc m ≡ k * m + k
suc_mul k m = omega arith

le_mul : (n k m : ℕ) → n ≤ k → n ≤ k * suc m
le_mul n k m h = omega (arith, suc_mul k m)

module _ (F : FloatOps) where
  -- What a fallback step may change in a query: `top_k`, up to 10000 and never below `top_n`, and
  -- the filter that was inferred, which it may drop.
  pub record Relaxes (query relaxed : RetrievalQuery F.Float) : Type 0 where
    pub scope :
        (relaxed.tenant_id ≡ query.tenant_id)
        × (relaxed.knowledge_base_ids ≡ query.knowledge_base_ids)
        × (relaxed.index_version_ids ≡ query.index_version_ids)
    pub filters :
        (relaxed.filters ≡ query.filters) × (relaxed.filter_expression ≡ query.filter_expression)
    pub words : (relaxed.text ≡ query.text) × (relaxed.top_n ≡ query.top_n)
    pub bounded : relaxed.top_k ≤ 10000
    pub enough : query.top_n ≤ relaxed.top_k

  -- A step keeps the query's scope and is no stricter than the floor.
  abbrev pub IsFallback : RetrievalQuery F.Float → F.Float → RetrievalAttempt F.Float → Type 0
  IsFallback query threshold_floor a =
      Relaxes query a.query × (F.leb threshold_floor a.threshold ≡ true)

  numbered-IsFallback :
      (query : RetrievalQuery F.Float) (threshold_floor : F.Float) (n : ℕ)
      (ds : List (Definition F))
      → query.top_n ≤ 10000
      → All
          (λ d.
            (d.top_k ≤ 10000)
            × (query.top_n ≤ d.top_k)
            × (F.leb threshold_floor d.threshold ≡ true))
          ds
      → All (IsFallback query threshold_floor) (numbered F query n ds)
  unfolding numbered
  numbered-IsFallback query f n [] b h = tt
  numbered-IsFallback query f n (d ∷ ds) b h = (
    (
      record {
        scope = (refl, refl, refl);
        filters = (refl, refl);
        words = (refl, refl);
        bounded = h.0.0;
        enough = h.0.1;
      },
      h.0.2,
    ),
    numbered-IsFallback query f (suc n) ds b h.1,
  )

  All-take : {A : Type 0} (P : A → Type 0) (n : ℕ) (xs : List A) → All P xs → All P (take n xs)
  All-take P zero xs h = tt
  All-take P (suc n) [] h = tt
  All-take P (suc n) (x ∷ xs) h = (h.0, All-take P n xs h.1)

  leb_refl : (a : F.Float) → F.leb a a ≡ true
  leb_refl a = ground (arith, F.leb_total a a)

  larger-leb : (a b : F.Float) → F.leb a (larger F a b) ≡ true
  larger-leb a b = ground (arith, F.leb_total b a, leb_refl a)

  length-numbered :
      (query : RetrievalQuery F.Float) (n : ℕ) (ds : List (Definition F))
      → length (numbered F query n ds) ≡ length ds
  unfolding numbered
  length-numbered query n [] = refl
  length-numbered query n (d ∷ ds) = ap suc (length-numbered query (suc n) ds)

  length-take-le :
      {A : Type 0} (n : ℕ) (xs : List A)
      → (length (take n xs) ≤ length xs) × (length (take n xs) ≤ n)
  length-take-le zero xs = omega arith
  length-take-le (suc n) [] = omega arith
  length-take-le (suc n) (x ∷ xs) = omega (arith, length-take-le n xs)

  smaller-bounds :
      (n k m : ℕ)
      → n ≤ k
      → n ≤ 10000
      → 0 < m
      → (smaller 10000 (k * m) ≤ 10000) × (n ≤ smaller 10000 (k * m))
  smaller-bounds n k zero h b p = absurd (omega arith)
  smaller-bounds n k (suc m) h b p = (ground arith, ground (arith, le_mul n k m h))

  -- For a query whose `top_n` is within its `top_k` and 10000, and a positive multiplier: the
  -- fallback makes at most `maximum_attempts` steps and at most four, and every step keeps the
  -- tenant, the knowledge bases, the index versions and the user's filters as they are, asks for
  -- enough candidates and at most 10000, and goes no lower than the threshold's floor.
  pub fallback_attempts-IsFallback :
      (query : RetrievalQuery F.Float) (normal_threshold threshold_floor : F.Float)
      (candidate_multiplier maximum_attempts : ℕ)
      → query.top_n ≤ query.top_k
      → query.top_n ≤ 10000
      → 0 < candidate_multiplier
      → let steps =
          fallback_attempts F query normal_threshold threshold_floor candidate_multiplier
            maximum_attempts in
        All (IsFallback query threshold_floor) steps
        × (length steps ≤ maximum_attempts)
        × (length steps ≤ 4)
  unfolding fallback_attempts
  fallback_attempts-IsFallback query normal f m maximum n b p =
      let lowered = larger F f (F.div (F.add normal f) (F.of_ℕ 2)) in
      let top_k = smaller 10000 (query.top_k * m) in
      let ds = definitions F top_k lowered f in
      let h = smaller-bounds query.top_n query.top_k m n b p in
      let l4 = length-take-le maximum ds in
      let size = length-numbered query 1 (take maximum ds) in
      let l = larger-leb f (F.div (F.add normal f) (F.of_ℕ 2)) in
      let r = leb_refl f in
      (
        numbered-IsFallback query f 1 (take maximum ds) b (
            All-take _ maximum ds
              ((h.0, h.1, l), ((h.0, h.1, r), ((h.0, h.1, r), ((h.0, h.1, r), tt))))),
        omega (arith, size, l4),
        omega (arith, size, l4),
      )
