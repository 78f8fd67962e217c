-- ===== src/Knowledge/Advanced/Routing/Order.antt =====
-- The order and the keys of the result of knowledge/advanced/routing/retriever.py.
use ragflow_agent.Base.{
  ℕ, zero, suc, ◌≤◌, ◌≡◌, refl, String, true, false, ◌&&◌, ◌||◌, List, [], ◌∷◌, if◌then◌else◌, elem,
  all_distinct, take, length, length-take, arith, ◌==◌, eq_iff, FloatOps, Option, some, none,
}
use ragflow_agent.Knowledge.Authorization.{AuthorizationContext}
use ragflow_agent.Knowledge.Query.Candidates.{RetrievalCandidate, RetrievalQuery, chunk_ids}
use ragflow_agent.Knowledge.Advanced.Routing.{
  AdvancedCapability, AdvancedRetriever, enabled_capabilities, Merged, assign, by_id, insert,
  sorted, is_in_scope, is_better, prior, merge, is_usable, merge_answer, over_knowledge_bases,
  over_capabilities, retrieve,
}

module _ (F : FloatOps) where
  abbrev score : RetrievalCandidate F.Float → F.Float
  score c = c.score.final_score

  -- No candidate stands behind one with a lower score.
  abbrev pub IsDescending : Merged F → Type 0
  IsDescending [] = Unit
  IsDescending (c ∷ []) = Unit
  IsDescending (c ∷ d ∷ cs) = (F.leb (score d) (score c) ≡ true) × IsDescending (d ∷ cs)

  insert-IsDescending :
      (c : RetrievalCandidate F.Float) (m : Merged F) → IsDescending m → IsDescending (insert F c m)
  unfolding insert
  insert-IsDescending c [] h = tt
  insert-IsDescending c (d ∷ []) h = ground (arith, F.leb_total (score d) (score c))
  insert-IsDescending c (d ∷ e ∷ ds) h =
      ground (arith, F.leb_total (score d) (score c), insert-IsDescending c (e ∷ ds))

  sorted-IsDescending : (m : Merged F) → IsDescending (sorted F m)
  unfolding sorted
  sorted-IsDescending [] = tt
  sorted-IsDescending (c ∷ cs) = insert-IsDescending c (sorted F cs) (sorted-IsDescending cs)

  take-IsDescending : (n : ℕ) (m : Merged F) → IsDescending m → IsDescending (take n m)
  take-IsDescending zero m h = tt
  take-IsDescending (suc n) [] h = tt
  take-IsDescending (suc zero) (c ∷ cs) h = tt
  take-IsDescending (suc (suc n)) (c ∷ []) h = tt
  take-IsDescending (suc (suc n)) (c ∷ d ∷ cs) (p, h) = (p, take-IsDescending (suc n) (d ∷ cs) h)

  abbrev IsKeyed : Merged F → Type 0
  IsKeyed m = all_distinct (chunk_ids m) ≡ true

  elem-assign :
      (x : String) (c : RetrievalCandidate F.Float) (m : Merged F)
      → elem x (chunk_ids (assign F c m)) ≡ (elem x (chunk_ids m) || c.chunk_id == x)
  unfolding assign
  elem-assign x c [] = ground arith
  elem-assign x c (d ∷ ds) =
      ground (arith, elem-assign x c ds, eq_iff d.chunk_id c.chunk_id, eq_iff d.chunk_id x)

  assign-IsKeyed :
      (c : RetrievalCandidate F.Float) (m : Merged F) → IsKeyed m → IsKeyed (assign F c m)
  unfolding assign
  assign-IsKeyed c [] h = ground arith
  assign-IsKeyed c (d ∷ ds) h = ground (
    arith,
    assign-IsKeyed c ds,
    elem-assign d.chunk_id c ds,
    eq_iff d.chunk_id c.chunk_id,
    eq_iff c.chunk_id d.chunk_id,
  )

  by_id-IsKeyed :
      (m : Merged F) (cs : List (RetrievalCandidate F.Float)) → IsKeyed m → IsKeyed (by_id F m cs)
  unfolding by_id
  by_id-IsKeyed m [] h = h
  by_id-IsKeyed m (c ∷ cs) h = by_id-IsKeyed (assign F c m) cs (assign-IsKeyed c m h)

  elem-insert :
      (x : String) (c : RetrievalCandidate F.Float) (m : Merged F)
      → elem x (chunk_ids (insert F c m)) ≡ (c.chunk_id == x || elem x (chunk_ids m))
  unfolding insert
  elem-insert x c [] = ground arith
  elem-insert x c (d ∷ ds) = ground (arith, elem-insert x c ds)

  insert-IsKeyed :
      (c : RetrievalCandidate F.Float) (m : Merged F)
      → elem c.chunk_id (chunk_ids m) ≡ false
      → IsKeyed m
      → IsKeyed (insert F c m)
  unfolding insert
  insert-IsKeyed c [] e h = ground arith
  insert-IsKeyed c (d ∷ ds) e h = ground (
    arith,
    insert-IsKeyed c ds,
    elem-insert d.chunk_id c ds,
    eq_iff d.chunk_id c.chunk_id,
    eq_iff c.chunk_id d.chunk_id,
  )

  elem-sorted : (x : String) (m : Merged F) → elem x (chunk_ids (sorted F m)) ≡ elem x (chunk_ids m)
  unfolding sorted
  elem-sorted x [] = refl
  elem-sorted x (c ∷ cs) = ground (arith, elem-insert x c (sorted F cs), elem-sorted x cs)

  sorted-IsKeyed : (m : Merged F) → IsKeyed m → IsKeyed (sorted F m)
  unfolding sorted
  sorted-IsKeyed [] h = h
  sorted-IsKeyed (c ∷ cs) h =
      insert-IsKeyed c (sorted F cs) (ground (arith, elem-sorted c.chunk_id cs))
        (sorted-IsKeyed cs (ground arith))

  elem-take :
      (x : String) (n : ℕ) (m : Merged F)
      → elem x (chunk_ids m) ≡ false
      → elem x (chunk_ids (take n m)) ≡ false
  elem-take x zero m h = refl
  elem-take x (suc n) [] h = refl
  elem-take x (suc n) (c ∷ cs) h = ground (arith, elem-take x n cs)

  take-IsKeyed : (n : ℕ) (m : Merged F) → IsKeyed m → IsKeyed (take n m)
  take-IsKeyed zero m h = refl
  take-IsKeyed (suc n) [] h = refl
  take-IsKeyed (suc n) (c ∷ cs) h = ground (arith, take-IsKeyed n cs, elem-take c.chunk_id n cs)

  module _ (r : AdvancedRetriever F.Float) (context : AuthorizationContext) where
    merge-IsKeyed :
        (kb : String) (cs : List (RetrievalCandidate F.Float)) (m : Merged F)
        → IsKeyed m
        → IsKeyed (merge F r context kb cs m)
    unfolding merge
    merge-IsKeyed kb [] m h = h
    merge-IsKeyed kb (c ∷ cs) m h =
        merge-IsKeyed kb cs
          (if is_in_scope F r context kb c && is_better F c (prior F c.chunk_id m)
            then assign F c m
            else m)
          (ground (arith, assign-IsKeyed c m))

    merge_answer-IsKeyed :
        (kb : String) (a : Option (List (RetrievalCandidate F.Float))) (m : Merged F)
        → IsKeyed m
        → IsKeyed (merge_answer F r context kb a m)
    merge_answer-IsKeyed kb none m h = h
    merge_answer-IsKeyed kb (some cs) m h = merge-IsKeyed kb cs m h

    over_knowledge_bases-IsKeyed :
        (capability : AdvancedCapability) (ks : List String) (m : Merged F)
        → IsKeyed m
        → IsKeyed (over_knowledge_bases F r context capability ks m)
    unfolding over_knowledge_bases
    over_knowledge_bases-IsKeyed capability [] m h = h
    over_knowledge_bases-IsKeyed capability (k ∷ ks) m h =
        over_knowledge_bases-IsKeyed capability ks
          (if is_usable F r context capability k
            then merge_answer F r context k (r.answer capability k) m
            else m)
          (ground (arith, merge_answer-IsKeyed k (r.answer capability k) m))

    over_capabilities-IsKeyed :
        (cs : List AdvancedCapability) (ks : List String) (m : Merged F)
        → IsKeyed m
        → IsKeyed (over_capabilities F r context cs ks m)
    unfolding over_capabilities
    over_capabilities-IsKeyed [] ks m h = h
    over_capabilities-IsKeyed (c ∷ cs) ks m h =
        over_capabilities-IsKeyed cs ks
          (if r.has_provider c then over_knowledge_bases F r context c ks m else m)
          (ground (arith, over_knowledge_bases-IsKeyed c ks m))

    -- The result has at most `top_n` candidates, in descending order of their final scores, and no
    -- two of the same chunk.
    pub retrieve-IsRanked :
        (query : RetrievalQuery F.Float) (base : List (RetrievalCandidate F.Float))
        → let result = retrieve F r context query base in
          (length result ≤ query.top_n)
          × IsDescending result
          × (all_distinct (chunk_ids result) ≡ true)
    unfolding retrieve
    retrieve-IsRanked query base =
        let all =
          over_capabilities F r context (enabled_capabilities r.flags) query.knowledge_base_ids
            (by_id F [] base) in
        (
          omega (arith, length-take query.top_n (sorted F all)),
          take-IsDescending query.top_n (sorted F all) (sorted-IsDescending all),
          take-IsKeyed query.top_n (sorted F all) (
              sorted-IsKeyed all (
                over_capabilities-IsKeyed (enabled_capabilities r.flags) query.knowledge_base_ids
                  (by_id F [] base) (by_id-IsKeyed [] base refl))),
        )
