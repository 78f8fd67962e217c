-- ===== src/Knowledge/Query/Fallback.antt =====
-- knowledge/application/query/fallback.py: the finite steps after an empty result.
pub mod Steps
use ragflow_agent.Base.{
  ℕ, ◌+◌, ◌*◌, ◌≤◌, ◌≡◌, refl, String, Bool, true, false, not, Option, none, some, List, [], ◌∷◌,
  suc, arith, leb, length, take, if◌then◌else◌, FloatOps, All,
}
use ragflow_agent.Knowledge.Query.Candidates.{RetrievalQuery, MetadataFilterGroup}

pub record RetrievalAttempt (N : Type 0) : Type 0 where
  pub number : ℕ
  pub mode : String
  pub query : RetrievalQuery N
  pub threshold : N
  pub inferred_filter_removed : Bool

-- `min` on whole numbers.
abbrev pub smaller : ℕ → ℕ → ℕ
smaller a b = if leb a b then a else b

abbrev inferred : {N : Type 0} → Bool → RetrievalQuery N → Option (MetadataFilterGroup N)
inferred true q = none
inferred false q = q.inferred_filter_expression

module _ (F : FloatOps) where
  -- `max` on finite floats.
  abbrev pub larger : F.Float → F.Float → F.Float
  larger a b = if F.leb b a then a else b

  pub record Definition : Type 0 where
    pub mode : String
    pub top_k : ℕ
    pub threshold : F.Float
    pub remove_inferred : Bool

  abbrev pub attempt : RetrievalQuery F.Float → ℕ → Definition → RetrievalAttempt F.Float
  attempt query number d = record {
    number = number;
    mode = d.mode;
    query = record query {
      top_k = d.top_k;
      inferred_filter_expression = inferred d.remove_inferred query;
    };
    threshold = d.threshold;
    inferred_filter_removed = d.remove_inferred;
  }

  unfoldable pub numbered :
      RetrievalQuery F.Float → ℕ → List Definition → List (RetrievalAttempt F.Float)
  numbered query n [] = []
  numbered query n (d ∷ ds) = attempt query n d ∷ numbered query (suc n) ds

  abbrev pub definitions : ℕ → F.Float → F.Float → List Definition
  definitions expanded_top_k lowered threshold_floor =
      record {
        mode = "expanded_hybrid";
        top_k = expanded_top_k;
        threshold = lowered;
        remove_inferred = false;
      }
      ∷ record {
        mode = "soft_filter_removed";
        top_k = expanded_top_k;
        threshold = threshold_floor;
        remove_inferred = true;
      }
      ∷ record {
        mode = "full_text_only";
        top_k = expanded_top_k;
        threshold = threshold_floor;
        remove_inferred = true;
      }
      ∷ record {
        mode = "vector_only";
        top_k = expanded_top_k;
        threshold = threshold_floor;
        remove_inferred = true;
      }
      ∷ []

  unfoldable pub fallback_attempts :
      RetrievalQuery F.Float → F.Float → F.Float → ℕ → ℕ → List (RetrievalAttempt F.Float)
  unfolding numbered
  fallback_attempts query normal_threshold threshold_floor candidate_multiplier maximum_attempts =
      let expanded_top_k = smaller 10000 (query.top_k * candidate_multiplier) in
      let lowered =
        larger threshold_floor (F.div (F.add normal_threshold threshold_floor) (F.of_ℕ 2)) in
      numbered query 1 (take maximum_attempts (definitions expanded_top_k lowered threshold_floor))
