-- ===== src/Agent/Evidence/Sufficiency.antt =====
-- What `EvidenceSufficiencyPolicy.evaluate` of agent/application/evidence.py means by sufficient.
use ragflow_agent.Base.{
  ◌≤◌, is_none, ℕ, ◌≡◌, ◌≢◌, refl, ap, ◌∙◌, subst, String, true, false, ◌&&◌, ◌||◌, Option, none,
  some, List, [], ◌∷◌, arith, ltb, length, elem, is_empty, ◌==◌, eq_iff, if◌then◌else◌, In,
  elem_iff, ◌⊎◌, inl, inr, Bool-cases,
}
use ragflow_agent.Agent.Platform.{Platform}
use ragflow_agent.Agent.Evidence.{
  knowledge, EvidenceItem, sufficient, QueryPlan, step_ids, missing, Stances, add_to, add_stance,
  filled, add_stated, conflicting, insert, sorted, stance_of, stances, is_eligible, eligible,
  decided, evaluate, critical_steps,
}

values : String → Stances → List String
values k [] = []
values k ((j, vs) ∷ d) = if j == k then vs else values k d

elem-add_to : (w v : String) (vs : List String) → elem w (add_to v vs) ≡ (elem w vs || (v == w))
elem-add_to w v vs = ground (arith, eq_iff v w)

elem-add_stance :
    (w v j k : String) (d : Stances)
    → elem w (values j (add_stance k v d)) ≡ (elem w (values j d) || (k == j && v == w))
unfolding values add_stance
elem-add_stance w v j k [] = ground arith
elem-add_stance w v j k ((i, vs) ∷ d) =
    ground
      (arith, elem-add_to w v vs, elem-add_stance w v j k d, eq_iff i k, eq_iff i j, eq_iff k j)

two_elems :
    (v w : String) (vs : List String)
    → v ≢ w
    → elem v vs ≡ true
    → elem w vs ≡ true
    → ltb 1 (length vs) ≡ true
two_elems v w [] n h h' = absurd (ground arith)
two_elems v w (x ∷ []) n h h' = absurd (ground (arith, eq_iff x v, eq_iff x w))
two_elems v w (x ∷ y ∷ vs) n h h' = ground arith

conflicting-values :
    (k : String) (d : Stances)
    → ltb 1 (length (values k d)) ≡ true
    → is_empty (conflicting d) ≡ false
unfolding values
conflicting-values k [] h = absurd (ground arith)
conflicting-values k ((j, vs) ∷ d) h = ground (arith, conflicting-values k d)

is_empty-sorted : (xs : List String) → is_empty (sorted xs) ≡ is_empty xs
is_empty-sorted [] = refl
is_empty-sorted (x ∷ xs) = is_empty-insert x (sorted xs)
  where
    is_empty-insert : (x : String) (ys : List String) → is_empty (insert x ys) ≡ false
    is_empty-insert x [] = refl
    is_empty-insert x (y ∷ ys) = ground arith

missing-In :
    (critical : List String) (is : List EvidenceItem) (s : String)
    → is_empty (missing critical is) ≡ true
    → In s critical
    → In s (step_ids is)
missing-In [] is s h m = absurd m
missing-In (x ∷ critical) is s h m =
    ground (arith, missing-In critical is s, elem_iff x (step_ids is))

module _ (P : Platform) where
  -- The item takes the stance v on the fact k.
  abbrev pub States : EvidenceItem → String → String → Type 0
  States i k v = (filled i.fact_key ≡ some k) × (stance_of P i ≡ some v)

  add_stated-kept :
      (k v : String) (a b : Option String) (d : Stances)
      → elem v (values k d) ≡ true
      → elem v (values k (add_stated a b d)) ≡ true
  add_stated-kept k v none b d h = h
  add_stated-kept k v (some x) none d h = h
  add_stated-kept k v (some x) (some y) d h = ground (arith, elem-add_stance v y k x d)

  stances-kept :
      (k v : String) (is : List EvidenceItem) (d : Stances)
      → elem v (values k d) ≡ true
      → elem v (values k (stances P is d)) ≡ true
  unfolding stances
  stances-kept k v [] d h = h
  stances-kept k v (i ∷ is) d h =
      stances-kept k v is _ (add_stated-kept k v (filled i.fact_key) (stance_of P i) d h)

  added :
      (k v : String) (a b : Option String) (d : Stances)
      → a ≡ some k
      → b ≡ some v
      → elem v (values k (add_stated a b d)) ≡ true
  added k v a b d p q =
      rw p (rw q (ground (arith, elem-add_stance v v k k d, eq_iff k k, eq_iff v v)))

  stances-States :
      (k v : String) (is : List EvidenceItem) (d : Stances) (i : EvidenceItem)
      → In i is
      → States i k v
      → elem v (values k (stances P is d)) ≡ true
  unfolding stances
  stances-States k v [] d i m s = absurd m
  stances-States k v (x ∷ is) d i (inl e) s = stances-kept k v is _ (
      added k v (filled x.fact_key) (stance_of P x) d (ap (λ y. filled y.fact_key) e ∙ s.0)
        (ap (stance_of P) e ∙ s.1))
  stances-States k v (x ∷ is) d i (inr m) s = stances-States k v is _ i m s

  module _ (minimum_score : ℕ) (tenant_id : String) where
    abbrev Eligible : EvidenceItem → Type 0
    Eligible i = is_eligible P minimum_score tenant_id i ≡ true

    -- An item that counts, condition by condition.
    pub record IsEligible (i : EvidenceItem) : Type 0 where
      pub tenant : i.tenant_id ≡ tenant_id
      pub authorized : i.authorized ≡ true
      pub active : i.active_version ≡ true
      pub scored : minimum_score ≤ i.normalized_score
      pub unflagged : i.injection_detected ≡ false
      pub harmless : P.contains_prompt_injection i.excerpt ≡ false
      pub cited : i.source_kind ≡ knowledge → is_none i.citation ≡ false

    Eligible-IsEligible : (i : EvidenceItem) → Eligible i → IsEligible i
    Eligible-IsEligible i h = ground (arith, eq_iff i.tenant_id tenant_id)

    IsEligible-Eligible : (i : EvidenceItem) → IsEligible i → Eligible i
    IsEligible-Eligible i h = ground (arith, eq_iff i.tenant_id tenant_id)

    eligible_complete :
        (is : List EvidenceItem) (i : EvidenceItem)
        → In i is
        → Eligible i
        → In i (eligible P minimum_score tenant_id is)
    unfolding eligible
    eligible_complete [] i m e = absurd m
    eligible_complete (x ∷ is) i (inl q) e =
        rw (ap (is_eligible P minimum_score tenant_id) q ∙ e) (inl q)
    eligible_complete (x ∷ is) i (inr m) e =
        elim (Bool-cases (is_eligible P minimum_score tenant_id x)) [
          | inl p ↦ rw p (inr (eligible_complete is i m e))
          | inr p ↦ rw p (eligible_complete is i m e)
        ]

    picked :
        (x : EvidenceItem) (is : List EvidenceItem) (i : EvidenceItem)
        → Eligible x
        → (In i (eligible P minimum_score tenant_id is) → In i is × Eligible i)
        → (x ≡ i) ⊎ In i (eligible P minimum_score tenant_id is)
        → ((x ≡ i) ⊎ In i is) × Eligible i
    picked x is i p f (inl e) = (inl e, subst Eligible e p)
    picked x is i p f (inr n) = let (j, e) = f n in (inr j, e)

    eligible_sound :
        (is : List EvidenceItem) (i : EvidenceItem)
        → In i (eligible P minimum_score tenant_id is)
        → In i is × Eligible i
    unfolding eligible
    eligible_sound [] i m = absurd m
    eligible_sound (x ∷ is) i m = elim (Bool-cases (is_eligible P minimum_score tenant_id x)) [
      | inl p ↦ picked x is i p (eligible_sound is i) (
          subst
            (λ b. In i (
              if b
              then x ∷ eligible P minimum_score tenant_id is
              else eligible P minimum_score tenant_id is))
            p m)
      | inr p ↦
          let (j, e) = eligible_sound is i (
            subst
              (λ b. In i (
                if b
                then x ∷ eligible P minimum_score tenant_id is
                else eligible P minimum_score tenant_id is))
              p m) in
          (inr j, e)
    ]

    step_ids_sound :
        (is : List EvidenceItem) (s : String)
        → In s (step_ids is)
        → (i : EvidenceItem) × In i is × (i.step_id ≡ s)
    step_ids_sound [] s m = absurd m
    step_ids_sound (x ∷ is) s (inl e) = (x, inl refl, e)
    step_ids_sound (x ∷ is) s (inr m) = let (i, n, e) = step_ids_sound is s m in (i, inr n, e)

    -- What a sufficient decision promises of the items that were gathered.
    pub record IsSupported (plan : QueryPlan) (evidence : List EvidenceItem) : Type 0 where
      pub covers :
          (s : String)
          → In s (critical_steps plan.steps)
          → (i : EvidenceItem) × In i evidence × IsEligible i × (i.step_id ≡ s)
      pub agree :
          (a b : EvidenceItem) (k v w : String)
          → In a evidence
          → In b evidence
          → IsEligible a
          → IsEligible b
          → States a k v
          → States b k w
          → (v == w) ≡ true
      pub found : (i : EvidenceItem) × In i evidence × IsEligible i

    head_In : (is : List EvidenceItem) → is_empty is ≡ false → (i : EvidenceItem) × In i is
    head_In [] h = absurd (ground arith)
    head_In (x ∷ is) h = (x, inl refl)

    decided_sufficient :
        (critical conflicts : List String) (is : List EvidenceItem)
        → (decided P minimum_score tenant_id critical conflicts is).status ≡ sufficient
        → (is_empty conflicts ≡ true)
          × (is_empty is ≡ false)
          × (is_empty (missing critical is) ≡ true)
    decided_sufficient critical conflicts is h = ground arith

    -- Evidence is found sufficient only if: there is an eligible item; every critical step of the plan
    -- has an eligible item; and no two eligible items take different stances on the same fact.
    -- Eligible is an item of the tenant that is authorized, of an active version, scored no lower than
    -- the minimum, free of instructions to the model, and cited if it is knowledge.
    pub evaluate-IsSupported :
        (plan : QueryPlan) (evidence : List EvidenceItem)
        → (evaluate P minimum_score tenant_id plan evidence).status ≡ sufficient
        → IsSupported plan evidence
    unfolding evaluate
    evaluate-IsSupported plan evidence h =
        let is = eligible P minimum_score tenant_id evidence in
        let critical = critical_steps plan.steps in
        let d = decided_sufficient critical _ is h in
        record {
          covers = λ s m.
              let (i, n, e) = step_ids_sound is s (missing-In critical is s d.2 m) in
              let (j, el) = eligible_sound evidence i n in (i, j, Eligible-IsEligible i el, e);
          agree = λ a b k v w m n e f s r. elim (Bool-cases (v == w)) [
            | inl p ↦ p
            | inr p ↦ absurd (
                ground (
                  arith,
                  d.0,
                  is_empty-sorted (conflicting (stances P is [])),
                  conflicting-values k (stances P is []) (
                      two_elems v w (values k (stances P is [])) (ground (arith, eq_iff v w))
                        (stances-States k v is [] a
                          (eligible_complete evidence a m (IsEligible-Eligible a e)) s)
                        (stances-States k w is [] b
                          (eligible_complete evidence b n (IsEligible-Eligible b f)) r)),
                ))
          ];
          found =
              let (i, n) = head_In is d.1 in
              let (j, el) = eligible_sound evidence i n in (i, j, Eligible-IsEligible i el);
        }
