-- ===== src/Knowledge/Query/Clean/Selection.antt =====
-- What `clean_candidates` of knowledge/application/query/clean.py keeps.
use ragflow_agent.Base.{
  ℕ, suc, ◌+◌, ◌≤◌, ◌<◌, ◌≡◌, refl, ap, String, Bool, true, false, ◌||◌, Option, some, List, [],
  ◌∷◌, ◌++◌, arith, leb, elem, length, length-append, all_distinct, if◌then◌else◌, FloatOps, All,
  All-append, ◌==◌, eq_iff, Bool-cases, inl, inr,
}
use ragflow_agent.Base.Dict
use ragflow_agent.Base.Dict.{Dict, same_key_iff}
use ragflow_agent.Knowledge.Query.Candidates.{RetrievalCandidate, chunk_ids, CountsFrom}
use ragflow_agent.Knowledge.Query.Clean.{
  Cleaning, count_of, with_final_rank, keep, visit, clean_loop, clean_candidates, start,
}

-- How many candidates come from a document.
pub kept_from : {N : Type 0} → String → List (RetrievalCandidate N) → ℕ
kept_from d [] = 0
kept_from d (c ∷ cs) = (if c.document_id == d then 1 else 0) + kept_from d cs

-- The rank that the selection gives.
abbrev pub final_rank : {N : Type 0} → RetrievalCandidate N → Option ℕ
final_rank c = c.score.final_rank

module _ {N : Type 0} where
  CountsFrom-append :
      (n : ℕ) (cs : List (RetrievalCandidate N)) (c : RetrievalCandidate N)
      → CountsFrom final_rank n cs
      → final_rank c ≡ some (n + length cs)
      → CountsFrom final_rank n (cs ++ c ∷ [])
  CountsFrom-append n [] c h e = ground arith
  CountsFrom-append n (x ∷ cs) c h e = ground (arith, CountsFrom-append (suc n) cs c)

  elem-chunk_ids-append :
      (x : String) (cs : List (RetrievalCandidate N)) (c : RetrievalCandidate N)
      → elem x (chunk_ids (cs ++ c ∷ [])) ≡ (elem x (chunk_ids cs) || (c.chunk_id == x))
  elem-chunk_ids-append x [] c = ground arith
  elem-chunk_ids-append x (y ∷ cs) c = ground (arith, elem-chunk_ids-append x cs c)

  all_distinct-append :
      (cs : List (RetrievalCandidate N)) (c : RetrievalCandidate N)
      → all_distinct (chunk_ids cs) ≡ true
      → elem c.chunk_id (chunk_ids cs) ≡ false
      → all_distinct (chunk_ids (cs ++ c ∷ [])) ≡ true
  all_distinct-append [] c h e = ground arith
  all_distinct-append (x ∷ cs) c h e = ground (
    arith,
    all_distinct-append cs c,
    elem-chunk_ids-append x.chunk_id cs c,
    eq_iff x.chunk_id c.chunk_id,
    eq_iff c.chunk_id x.chunk_id,
  )

  kept_from-append :
      (d : String) (cs : List (RetrievalCandidate N)) (c : RetrievalCandidate N)
      → kept_from d (cs ++ c ∷ []) ≡ kept_from d cs + (if c.document_id == d then 1 else 0)
  unfolding kept_from
  kept_from-append d [] c = ground arith
  kept_from-append d (x ∷ cs) c = omega (arith, kept_from-append d cs c)

count_of-put :
    (counts : Dict ℕ) (d e : String) (n : ℕ)
    → count_of (Dict.put counts (d ∷ []) n) e ≡ (if d == e then n else count_of counts e)
unfolding count_of Dict.get Dict.put Dict.same_key
count_of-put counts d e n = ground arith

module _ (F : FloatOps) (threshold : F.Float) (per_document_limit final_top_k : ℕ) where
  -- A selection: at most `final_top_k` candidates of distinct chunks, ranked from 1, none scored
  -- below the threshold, and no more than `per_document_limit` of one document.
  pub record IsSelection (kept : List (RetrievalCandidate F.Float)) : Type 0 where
    pub bounded : length kept ≤ final_top_k
    pub distinct : all_distinct (chunk_ids kept) ≡ true
    pub ranked : CountsFrom final_rank 1 kept
    pub relevant : All (λ c. F.leb threshold c.score.final_score ≡ true) kept
    pub diverse : (d : String) → kept_from d kept ≤ per_document_limit

  record Keeps (s : Cleaning F.Float) : Type 0 where
    pub selection : IsSelection s.kept
    pub counted : (d : String) → count_of s.document_counts d ≡ kept_from d s.kept
    pub marked : (x : String) → elem x s.seen ≡ false → elem x (chunk_ids s.kept) ≡ false

  keep-IsSelection :
      (c : RetrievalCandidate F.Float) (s : Cleaning F.Float)
      → Keeps s
      → length s.kept < final_top_k
      → elem c.chunk_id s.seen ≡ false
      → F.leb threshold c.score.final_score ≡ true
      → count_of s.document_counts c.document_id < per_document_limit
      → IsSelection (s.kept ++ with_final_rank c (length s.kept + 1) ∷ [])
  keep-IsSelection c s k l e t n =
      let x = with_final_rank c (length s.kept + 1) in
      record {
        bounded = omega (arith, length-append s.kept (x ∷ []));
        distinct = all_distinct-append s.kept x k.selection.distinct (k.marked c.chunk_id e);
        ranked = CountsFrom-append 1 s.kept x k.selection.ranked (ap some (omega arith));
        relevant = All-append _ s.kept (x ∷ []) k.selection.relevant (t, tt);
        diverse = λ d. ground (
          arith,
          kept_from-append d s.kept x,
          k.selection.diverse d,
          k.counted c.document_id,
          eq_iff c.document_id d,
        );
      }

  excluded-Keeps :
      (c : RetrievalCandidate F.Float) (s : Cleaning F.Float)
      (ex : List (RetrievalCandidate F.Float × String))
      → Keeps s
      → Keeps (record s { excluded = ex; seen = c.chunk_id ∷ s.seen })
  excluded-Keeps c s ex k = record {
    selection = k.selection;
    counted = k.counted;
    marked = λ x h. ground (arith, k.marked x);
  }

  keep-Keeps :
      (c : RetrievalCandidate F.Float) (s : Cleaning F.Float)
      → Keeps s
      → length s.kept < final_top_k
      → elem c.chunk_id s.seen ≡ false
      → F.leb threshold c.score.final_score ≡ true
      → count_of s.document_counts c.document_id < per_document_limit
      → Keeps (
          keep F threshold per_document_limit final_top_k
            (record s { seen = c.chunk_id ∷ s.seen })
            c)
  keep-Keeps c s k l e t n =
      let x = with_final_rank c (length s.kept + 1) in
      record {
        selection = keep-IsSelection c s k l e t n;
        counted = λ d. ground (
          arith,
          k.counted d,
          k.counted c.document_id,
          kept_from-append d s.kept x,
          count_of-put s.document_counts c.document_id d
              (count_of s.document_counts c.document_id + 1),
          eq_iff c.document_id d,
        );
        marked = λ y h. ground (arith, k.marked y, elem-chunk_ids-append y s.kept x);
      }

  -- What a turn of the loop leaves: the selection, and room in it if the loop goes on.
  abbrev Leaves : Cleaning F.Float × Bool → Type 0
  Leaves (s, stop) = Keeps s × (stop ≡ false → length s.kept < final_top_k)

  visit-Leaves :
      (c : RetrievalCandidate F.Float) (s : Cleaning F.Float)
      → Keeps s
      → length s.kept < final_top_k
      → Leaves (visit F threshold per_document_limit final_top_k c s)
  unfolding visit
  visit-Leaves c s k l = elim (Bool-cases (elem c.chunk_id s.seen)) [
    | inl e ↦
        rw e (record { selection = k.selection; counted = k.counted; marked = k.marked }, λ _. l)
    | inr e ↦ rw e (elim (Bool-cases (F.leb threshold c.score.final_score)) [
      | inr t ↦ rw t (excluded-Keeps c s _ k, λ _. l)
      | inl t ↦
          rw t
            (elim (Bool-cases (leb per_document_limit (count_of s.document_counts c.document_id))) [
              | inl n ↦ rw n (excluded-Keeps c s _ k, λ _. l)
              | inr n ↦ rw n (keep-Keeps c s k l e t (ground arith), λ h. ground arith)
            ])
    ])
  ]

  clean_loop-IsSelection :
      (cs : List (RetrievalCandidate F.Float)) (s : Cleaning F.Float)
      → Keeps s
      → length s.kept < final_top_k
      → IsSelection (clean_loop F threshold per_document_limit final_top_k cs s).kept
  unfolding clean_loop
  clean_loop-IsSelection [] s k l = k.selection
  clean_loop-IsSelection (c ∷ cs) s k l =
      let v = visit F threshold per_document_limit final_top_k c s in
      let h = visit-Leaves c s k l in
      elim (Bool-cases v.1) [
        | inl e ↦ rw e h.0.selection
        | inr e ↦ rw e (clean_loop-IsSelection cs v.0 h.0 (h.1 e))
      ]

  -- For any candidates, if at least one may be selected, the cleaning selects at most `final_top_k`,
  -- of distinct chunks, ranked 1, 2, 3 and so on, none of them scored below the threshold, and at most
  -- `per_document_limit` of any one document.
  pub clean_candidates-IsSelection :
      (cs : List (RetrievalCandidate F.Float))
      → 0 < final_top_k
      → IsSelection (clean_candidates F threshold per_document_limit final_top_k cs).kept
  unfolding kept_from count_of Dict.get
  clean_candidates-IsSelection cs l =
      clean_loop-IsSelection cs (start F threshold per_document_limit final_top_k)
        (record {
          selection = record {
            bounded = omega arith;
            distinct = refl;
            ranked = tt;
            relevant = tt;
            diverse = λ d. omega arith;
          };
          counted = λ d. refl;
          marked = λ x h. refl;
        })
        l
