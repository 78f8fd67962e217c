-- ===== src/Knowledge/Query/Fusion/Entries.antt =====
-- The entries that `reciprocal_rank_fusion` of knowledge/application/query/fusion.py collects.
use ragflow_agent.Base.{
  ℕ, suc, ◌≡◌, refl, String, true, ◌||◌, List, [], ◌∷◌, arith, elem, all_distinct, FloatOps, ◌==◌,
  eq_iff,
}
use ragflow_agent.Knowledge.Query.Candidates.{RetrievalCandidate, chunk_ids}
use ragflow_agent.Knowledge.Query.Fusion.{
  Channel, full_text, vector, FusionEntry, entry_id, entry_ids, counted, new_entry, add_candidate,
  add_channel,
}

module _ (F : FloatOps) (k : ℕ) where
  entry_id-counted :
      (channel : Channel) (rank : ℕ) (c : RetrievalCandidate F.Float) (e : FusionEntry F.Float)
      → entry_id (counted F k channel rank c e) ≡ entry_id e
  entry_id-counted full_text rank c e = refl
  entry_id-counted vector rank c e = refl

  elem-add_candidate :
      (x : String) (channel : Channel) (rank : ℕ) (c : RetrievalCandidate F.Float)
      (es : List (FusionEntry F.Float))
      → elem x (entry_ids (add_candidate F k channel rank c es))
        ≡ (elem x (entry_ids es) || (c.chunk_id == x))
  unfolding add_candidate
  elem-add_candidate x channel rank c [] =
      ground (arith, entry_id-counted channel rank c (new_entry F.zero c))
  elem-add_candidate x channel rank c (e ∷ es) = ground (
    arith,
    entry_id-counted channel rank c e,
    elem-add_candidate x channel rank c es,
    eq_iff (entry_id e) c.chunk_id,
  )

  all_distinct-add_candidate :
      (channel : Channel) (rank : ℕ) (c : RetrievalCandidate F.Float)
      (es : List (FusionEntry F.Float))
      → all_distinct (entry_ids es) ≡ true
      → all_distinct (entry_ids (add_candidate F k channel rank c es)) ≡ true
  unfolding add_candidate
  all_distinct-add_candidate channel rank c [] h = refl
  all_distinct-add_candidate channel rank c (e ∷ es) h = ground (
    arith,
    entry_id-counted channel rank c e,
    all_distinct-add_candidate channel rank c es,
    elem-add_candidate (entry_id e) channel rank c es,
    eq_iff (entry_id e) c.chunk_id,
    eq_iff c.chunk_id (entry_id e),
  )

  pub elem-add_channel :
      (x : String) (channel : Channel) (rank : ℕ) (cs : List (RetrievalCandidate F.Float))
      (es : List (FusionEntry F.Float))
      → elem x (entry_ids (add_channel F k channel rank cs es))
        ≡ (elem x (entry_ids es) || elem x (chunk_ids cs))
  unfolding add_channel
  elem-add_channel x channel rank [] es = ground arith
  elem-add_channel x channel rank (c ∷ cs) es = ground (
    arith,
    elem-add_channel x channel (suc rank) cs (add_candidate F k channel rank c es),
    elem-add_candidate x channel rank c es,
  )

  pub all_distinct-add_channel :
      (channel : Channel) (rank : ℕ) (cs : List (RetrievalCandidate F.Float))
      (es : List (FusionEntry F.Float))
      → all_distinct (entry_ids es) ≡ true
      → all_distinct (entry_ids (add_channel F k channel rank cs es)) ≡ true
  unfolding add_channel
  all_distinct-add_channel channel rank [] es h = h
  all_distinct-add_channel channel rank (c ∷ cs) es h =
      all_distinct-add_channel channel (suc rank) cs _
        (all_distinct-add_candidate channel rank c es h)
