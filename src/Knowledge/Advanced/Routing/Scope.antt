-- ===== src/Knowledge/Advanced/Routing/Scope.antt =====
-- Where the candidates of knowledge/advanced/routing/retriever.py come from.
use ragflow_agent.Base.{
  ℕ, zero, suc, ◌≡◌, refl, ◌⊎◌, inl, inr, String, true, Option, none, some, List, [], ◌∷◌, ◌&&◌,
  if◌then◌else◌, elem_iff, In, In-All, take, All, arith, ◌==◌, eq_iff, FloatOps, Bool-cases,
}
use ragflow_agent.Knowledge.Authorization.{AuthorizationContext}
use ragflow_agent.Knowledge.Query.Candidates.{RetrievalCandidate, RetrievalQuery}
use ragflow_agent.Knowledge.Advanced.Routing.{
  AdvancedCapability, AdvancedRetriever, AdvancedFeatureFlags, keywords, questions, summaries, toc,
  parent_child, multimodal, graphrag, raptor, temporal, is_better, prior, enabled, only_enabled,
  enabled_capabilities, Merged, assign, by_id, insert, sorted, active_of, is_in_scope, merge,
  is_usable, merge_answer, over_knowledge_bases, over_capabilities, retrieve,
}

module _ (F : FloatOps) (Q : RetrievalCandidate F.Float → Type 0) where
  assign-All :
      (c : RetrievalCandidate F.Float) (m : Merged F) → Q c → All Q m → All Q (assign F c m)
  unfolding assign
  assign-All c [] q h = (q, tt)
  assign-All c (d ∷ ds) q (p, h) = elim (Bool-cases (d.chunk_id == c.chunk_id)) [
    | inl e ↦ rw e (q, h)
    | inr e ↦ rw e (p, assign-All c ds q h)
  ]

  by_id-All :
      (m : Merged F) (cs : List (RetrievalCandidate F.Float))
      → All Q m
      → All Q cs
      → All Q (by_id F m cs)
  unfolding by_id
  by_id-All m [] h k = h
  by_id-All m (c ∷ cs) h (q, k) = by_id-All (assign F c m) cs (assign-All c m q h) k

  insert-All :
      (c : RetrievalCandidate F.Float) (m : Merged F) → Q c → All Q m → All Q (insert F c m)
  unfolding insert
  insert-All c [] q h = (q, tt)
  insert-All c (d ∷ ds) q (p, h) =
      elim (Bool-cases (F.leb d.score.final_score c.score.final_score)) [
        | inl e ↦ rw e (q, (p, h))
        | inr e ↦ rw e (p, insert-All c ds q h)
      ]

  sorted-All : (m : Merged F) → All Q m → All Q (sorted F m)
  unfolding sorted
  sorted-All [] h = tt
  sorted-All (c ∷ cs) (q, h) = insert-All c (sorted F cs) q (sorted-All cs h)

  take-All : (n : ℕ) (m : Merged F) → All Q m → All Q (take n m)
  take-All zero m h = tt
  take-All (suc n) [] h = tt
  take-All (suc n) (c ∷ cs) (q, h) = (q, take-All n cs h)

module _ (F : FloatOps) (r : AdvancedRetriever F.Float) (context : AuthorizationContext)
    (kbs : List String) where
  -- A candidate that the provider of an enabled capability answers for a knowledge base of the query
  -- in which its index is usable, in the tenant of the caller and of an active version.
  pub record IsVetted (c : RetrievalCandidate F.Float) : Type 0 where
    pub capability : AdvancedCapability
    pub is_enabled : enabled r.flags capability ≡ true
    pub is_provided : r.has_provider capability ≡ true
    pub answers : List (RetrievalCandidate F.Float)
    pub answered : r.answer capability c.knowledge_base_id ≡ some answers
    pub is_answer : In c answers
    pub is_queried : In c.knowledge_base_id kbs
    pub has_index : is_usable F r context capability c.knowledge_base_id ≡ true
    pub of_tenant : c.tenant_id ≡ context.tenant_id
    pub of_version : In c.document_version_id (active_of F r context c.knowledge_base_id)

  abbrev IsAdmitted : List (RetrievalCandidate F.Float) → RetrievalCandidate F.Float → Type 0
  IsAdmitted base c = In c base ⊎ IsVetted c

  module _ (base : List (RetrievalCandidate F.Float)) (capability : AdvancedCapability)
      (on : enabled r.flags capability ≡ true) (provided : r.has_provider capability ≡ true) where
    abbrev Admits : Merged F → Type 0
    Admits m = All (IsAdmitted base) m

    vetted :
        (kb : String) (answers : List (RetrievalCandidate F.Float)) (c : RetrievalCandidate F.Float)
        → In kb kbs
        → is_usable F r context capability kb ≡ true
        → r.answer capability kb ≡ some answers
        → In c answers
        → is_in_scope F r context kb c ≡ true
        → IsVetted c
    vetted kb answers c i u a m s =
        let same : c.knowledge_base_id ≡ kb = ground (arith, eq_iff c.knowledge_base_id kb) in
        record {
          capability = capability;
          is_enabled = on;
          is_provided = provided;
          answers = answers;
          answered = rw same a;
          is_answer = m;
          is_queried = rw same i;
          has_index = rw same u;
          of_tenant = ground (arith, eq_iff c.tenant_id context.tenant_id);
          of_version =
              rw same
                ((elem_iff c.document_version_id (active_of F r context kb)).0 (ground arith));
        }

    -- What the loop over the candidates does with one of them.
    abbrev merged : String → RetrievalCandidate F.Float → Merged F → Merged F
    merged kb c m =
        if is_in_scope F r context kb c && is_better F c (prior F c.chunk_id m)
        then assign F c m
        else m

    merged-Admits :
        (kb : String) (answers : List (RetrievalCandidate F.Float)) (c : RetrievalCandidate F.Float)
        (m : Merged F)
        → In kb kbs
        → is_usable F r context capability kb ≡ true
        → r.answer capability kb ≡ some answers
        → In c answers
        → Admits m
        → Admits (merged kb c m)
    merged-Admits kb answers c m i u a k h =
        elim (Bool-cases (is_in_scope F r context kb c && is_better F c (prior F c.chunk_id m))) [
          | inr e ↦ rw e h
          | inl e ↦ rw e (
              assign-All F (IsAdmitted base) c m (inr (vetted kb answers c i u a k (ground arith)))
                h)
        ]

    merge-Admits :
        (kb : String) (answers cs : List (RetrievalCandidate F.Float)) (m : Merged F)
        → In kb kbs
        → is_usable F r context capability kb ≡ true
        → r.answer capability kb ≡ some answers
        → All (λ c. In c answers) cs
        → Admits m
        → Admits (merge F r context kb cs m)
    unfolding merge
    merge-Admits kb answers [] m i u a k h = h
    merge-Admits kb answers (c ∷ cs) m i u a (k, ks) h =
        merge-Admits kb answers cs (merged kb c m) i u a ks (merged-Admits kb answers c m i u a k h)

    merge_answer-Admits :
        (kb : String) (a : Option (List (RetrievalCandidate F.Float))) (m : Merged F)
        → r.answer capability kb ≡ a
        → In kb kbs
        → is_usable F r context capability kb ≡ true
        → Admits m
        → Admits (merge_answer F r context kb a m)
    merge_answer-Admits kb none m a i u h = h
    merge_answer-Admits kb (some cs) m a i u h =
        merge-Admits kb cs cs m i u a (In-All (λ c. In c cs) cs (λ c k. k)) h

    answer-Admits :
        (kb : String) (a : Option (List (RetrievalCandidate F.Float))) (m : Merged F)
        → r.answer capability kb ≡ a
        → In kb kbs
        → Admits m
        → Admits
            (if is_usable F r context capability kb then merge_answer F r context kb a m else m)
    answer-Admits kb a m e i h = elim (Bool-cases (is_usable F r context capability kb)) [
      | inr u ↦ rw u h
      | inl u ↦ rw u (merge_answer-Admits kb a m e i u h)
    ]

    over_knowledge_bases-Admits :
        (ks : List String) (m : Merged F)
        → All (λ k. In k kbs) ks
        → Admits m
        → Admits (over_knowledge_bases F r context capability ks m)
    unfolding over_knowledge_bases
    over_knowledge_bases-Admits [] m i h = h
    over_knowledge_bases-Admits (k ∷ ks) m (i, is) h =
        over_knowledge_bases-Admits ks
          (if is_usable F r context capability k
            then merge_answer F r context k (r.answer capability k) m
            else m)
          is (answer-Admits k (r.answer capability k) m refl i h)

  module _ (base : List (RetrievalCandidate F.Float)) where
    over_capabilities-Admits :
        (cs : List AdvancedCapability) (m : Merged F)
        → All (λ c. enabled r.flags c ≡ true) cs
        → All (IsAdmitted base) m
        → All (IsAdmitted base) (over_capabilities F r context cs kbs m)
    unfolding over_capabilities
    over_capabilities-Admits [] m e h = h
    over_capabilities-Admits (c ∷ cs) m (e, es) h =
        over_capabilities-Admits cs
          (if r.has_provider c then over_knowledge_bases F r context c kbs m else m) es
          (elim (Bool-cases (r.has_provider c)) [
            | inl p ↦ rw p (
                over_knowledge_bases-Admits base c e p kbs m (In-All (λ k. In k kbs) kbs (λ k i. i))
                  h)
            | inr p ↦ rw p h
          ])

only_enabled-All :
    (f : AdvancedFeatureFlags) (cs : List AdvancedCapability)
    → All (λ c. enabled f c ≡ true) (only_enabled f cs)
only_enabled-All f [] = tt
only_enabled-All f (c ∷ cs) = elim (Bool-cases (enabled f c)) [
  | inl e ↦ rw e (e, only_enabled-All f cs)
  | inr e ↦ rw e (only_enabled-All f cs)
]

-- Every candidate of the result is one of the base result, or one that the provider of an enabled
-- capability answers for a knowledge base of the query in which the index of that capability is
-- usable, and is then in the caller's tenant, in that knowledge base and of an active version.
pub retrieve-IsAdmitted :
    (F : FloatOps) (r : AdvancedRetriever F.Float) (context : AuthorizationContext)
    (query : RetrievalQuery F.Float) (base : List (RetrievalCandidate F.Float))
    → All
        (λ c. In c base ⊎ IsVetted F r context query.knowledge_base_ids c)
        (retrieve F r context query base)
unfolding retrieve
retrieve-IsAdmitted F r context query base =
    let kbs = query.knowledge_base_ids in
    let Q = IsAdmitted F r context kbs base in
    let cs = enabled_capabilities r.flags in
    let start = by_id F [] base in
    let all = over_capabilities F r context cs kbs start in
    take-All F Q query.top_n (sorted F all) (
      sorted-All F Q all (
        over_capabilities-Admits F r context kbs base cs start
          (only_enabled-All r.flags (
            keywords ∷ questions ∷ summaries ∷ toc ∷ parent_child ∷ multimodal ∷ graphrag ∷ raptor
            ∷ temporal ∷ []))
          (by_id-All F Q [] base tt (In-All Q base (λ c i. inl i)))))
