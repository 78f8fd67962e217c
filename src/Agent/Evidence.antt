-- ===== src/Agent/Evidence.antt =====
-- agent/application/evidence.py and the evidence types of agent/domain/agentic.py. A normalized score
-- is a float from 0 to 1, counted in units of 2 ^ -1074.
pub mod Sufficiency
use Prim.Native.Nat.{Ordering}
use Prim.Native.String.{compare}
use ragflow_agent.Base.{
  ℕ, String, Bool, true, false, not, ◌&&◌, ◌||◌, Option, none, some, List, [], ◌∷◌, leb, ltb,
  length, elem, is_empty, is_none, ◌==◌, if◌then◌else◌,
}
use ragflow_agent.Agent.Platform.{Platform}
use ragflow_agent.Agent.Values.{Fields}

pub data EvidenceStatus : Type 0 where
  sufficient partial_evidence no_evidence conflicting_evidence : EvidenceStatus

pub data SourceKind : Type 0 where
  knowledge sql api : SourceKind

pub record PlanStep : Type 0 where
  pub step_id : String
  pub question : String
  pub critical : Bool
  pub depends_on : List String
  pub preferred_tool : String
  pub tool_version : String
  pub tool_arguments : Fields

pub record QueryPlan : Type 0 where
  pub is_simple : Bool
  pub steps : List PlanStep

-- `KnowledgeCitation`; its times are floats in the same units.
pub record KnowledgeCitation : Type 0 where
  pub schema_version : ℕ
  pub tenant_id : String
  pub knowledge_base_id : String
  pub document_id : String
  pub document_version_id : String
  pub chunk_id : String
  pub quote : String
  pub page_number : Option ℕ
  pub bounding_box : Option Fields
  pub source_uri : Option String
  pub media_kind : Option String
  pub time_start_seconds : Option ℕ
  pub time_end_seconds : Option ℕ
  pub observed_at : Option ℕ

pub record AgentEvidenceCitation : Type 0 where
  pub citation_id : String
  pub source_kind : SourceKind
  pub knowledge_citation : Option KnowledgeCitation
  pub tool_name : Option String
  pub result_digest : Option String

pub record EvidenceItem : Type 0 where
  pub evidence_id : String
  pub step_id : String
  pub source_kind : SourceKind
  pub tenant_id : String
  pub knowledge_base_id : Option String
  pub excerpt : String
  pub normalized_score : ℕ
  pub citation : Option AgentEvidenceCitation
  pub authorized : Bool
  pub active_version : Bool
  pub injection_detected : Bool
  pub fact_key : Option String
  pub stance : Option String

pub record EvidenceDecision : Type 0 where
  pub status : EvidenceStatus
  pub covered_critical_steps : List String
  pub missing_critical_steps : List String
  pub conflicting_fact_keys : List String
  pub eligible_evidence_ids : List String
  pub reason : String

abbrev pub is_knowledge : SourceKind → Bool
is_knowledge knowledge = true
is_knowledge _ = false

abbrev pub critical_steps : List PlanStep → List String
critical_steps [] = []
critical_steps (s ∷ ss) =
    let rest = critical_steps ss in if s.critical then s.step_id ∷ rest else rest

abbrev pub step_ids : List EvidenceItem → List String
step_ids [] = []
step_ids (i ∷ is) = i.step_id ∷ step_ids is

abbrev evidence_ids : List EvidenceItem → List String
evidence_ids [] = []
evidence_ids (i ∷ is) = i.evidence_id ∷ evidence_ids is

-- `tuple(step for step in critical if by_step.get(step))`, and those for which there is no item.
abbrev pub covered : List String → List EvidenceItem → List String
covered [] is = []
covered (s ∷ ss) is = let rest = covered ss is in if elem s (step_ids is) then s ∷ rest else rest

abbrev pub missing : List String → List EvidenceItem → List String
missing [] is = []
missing (s ∷ ss) is = let rest = missing ss is in if elem s (step_ids is) then rest else s ∷ rest

-- `stances`, a dict of sets in the order of insertion.
abbrev pub Stances : Type 0
Stances = List (String × List String)

abbrev pub add_to : String → List String → List String
add_to v vs = if elem v vs then vs else v ∷ vs

unfoldable pub add_stance : String → String → Stances → Stances
add_stance k v [] = (k, v ∷ []) ∷ []
add_stance k v ((j, vs) ∷ d) =
    let rest = add_stance k v d in if j == k then (j, add_to v vs) ∷ d else (j, vs) ∷ rest

-- A text that is there and not empty.
abbrev pub filled : Option String → Option String
filled none = none
filled (some s) = if s == "" then none else some s

abbrev pub add_stated : Option String → Option String → Stances → Stances
add_stated (some k) (some v) d = add_stance k v d
add_stated _ _ d = d

abbrev pub conflicting : Stances → List String
conflicting [] = []
conflicting ((k, vs) ∷ d) = let rest = conflicting d in if ltb 1 (length vs) then k ∷ rest else rest

abbrev text_leb : String → String → Bool
text_leb a b = elim (compare a b) [ Ordering.gt ↦ false | _ ↦ true ]

abbrev pub insert : String → List String → List String
insert x [] = x ∷ []
insert x (y ∷ ys) = let rest = insert x ys in if text_leb x y then x ∷ y ∷ ys else y ∷ rest

abbrev pub sorted : List String → List String
sorted [] = []
sorted (x ∷ xs) = insert x (sorted xs)

module _ (P : Platform) where
  -- `item.stance.strip().lower()` of a stance that is not empty.
  abbrev pub stance_of : EvidenceItem → Option String
  stance_of i = elim (filled i.stance) [ none ↦ none | some s ↦ some (P.lower (P.strip s)) ]

  unfoldable pub stances : List EvidenceItem → Stances → Stances
  unfolding add_stance
  stances [] d = d
  stances (i ∷ is) d = stances is (add_stated (filled i.fact_key) (stance_of i) d)

  module _ (minimum_score : ℕ) (tenant_id : String) where
    abbrev pub is_eligible : EvidenceItem → Bool
    is_eligible i =
        i.tenant_id == tenant_id
        && i.authorized
        && i.active_version
        && leb minimum_score i.normalized_score
        && not i.injection_detected
        && not (P.contains_prompt_injection i.excerpt)
        && (not (is_knowledge i.source_kind) || not (is_none i.citation))

    unfoldable pub eligible : List EvidenceItem → List EvidenceItem
    eligible [] = []
    eligible (i ∷ is) = let rest = eligible is in if is_eligible i then i ∷ rest else rest

    -- The decision on the eligible items.
    abbrev pub decided : List String → List String → List EvidenceItem → EvidenceDecision
    decided critical conflicts is =
        if not (is_empty conflicts)
        then record {
          status = conflicting_evidence;
          covered_critical_steps = covered critical is;
          missing_critical_steps = missing critical is;
          conflicting_fact_keys = conflicts;
          eligible_evidence_ids = evidence_ids is;
          reason = "unresolved critical evidence conflict";
        }
        else if is_empty is
        then record {
          status = no_evidence;
          covered_critical_steps = [];
          missing_critical_steps = critical;
          conflicting_fact_keys = [];
          eligible_evidence_ids = [];
          reason = "no authorized eligible evidence";
        }
        else if not (is_empty (missing critical is))
        then record {
          status = partial_evidence;
          covered_critical_steps = covered critical is;
          missing_critical_steps = missing critical is;
          conflicting_fact_keys = [];
          eligible_evidence_ids = evidence_ids is;
          reason = "critical subquestions are not fully covered";
        }
        else record {
          status = sufficient;
          covered_critical_steps = covered critical is;
          missing_critical_steps = [];
          conflicting_fact_keys = [];
          eligible_evidence_ids = evidence_ids is;
          reason = "all critical subquestions have eligible cited evidence";
        }

    -- `EvidenceSufficiencyPolicy.evaluate`.
    unfoldable pub evaluate : QueryPlan → List EvidenceItem → EvidenceDecision
    unfolding eligible stances
    evaluate plan evidence =
        let is = eligible evidence in
        decided (critical_steps plan.steps) (sorted (conflicting (stances is []))) is
