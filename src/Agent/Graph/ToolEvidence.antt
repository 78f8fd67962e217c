-- ===== src/Agent/Graph/ToolEvidence.antt =====
-- What a tool's outcome adds to a run: `_apply_tool_outcome` and `_structured_tool_evidence` of
-- agent/graphs/agentic_rag.py, with the validators of the evidence types.
use Prim.Native.Nat.{◌/◌, ◌%◌}
use Prim.Native.String.{count}
use ragflow_agent.Base.{
  ℕ, zero, suc, ◌+◌, ◌-◌, ◌*◌, ◌^◌, pos, float_one, String, true, not, ◌&&◌, ◌||◌, Option, none,
  some, List, [], ◌∷◌, ◌++◌, leb, ltb, nat_eq, length, is_none, ◌==◌, if◌then◌else◌, Result, ok,
  err, ◌>>=◌, ◌>>◌, raise_if, map_ok,
}
use ragflow_agent.Base.Texts.{concat, clip, show}
use ragflow_agent.Agent.Errors.{AgentRaised, invalid}
use ragflow_agent.Agent.Platform.{Platform}
use ragflow_agent.Agent.Values.{
  Value, null, bool, int, float, obj, arr, Fields, Items, nil, cons, get,
}
use ragflow_agent.Agent.Budget.{BudgetLedger}
use ragflow_agent.Agent.Tools.{ToolExecutionOutcome}
use ragflow_agent.Agent.Evidence.{
  EvidenceItem, AgentEvidenceCitation, KnowledgeCitation, SourceKind, knowledge, sql, api, filled,
  is_knowledge,
}
use ragflow_agent.Agent.Graph.State.{AgenticState, KnowledgeEvidence, KnowledgeBaseToolOutput}

-- Python's `str` of a JSON value or None, and pydantic's reading of the knowledge tool's output.
pub record Readers : Type 0 where
  pub str : Option Value → String
  pub read_output : Option Value → Option KnowledgeBaseToolOutput

-- A double by its 64 bits, in units of 2 ^ -1074, after `max(0, min(1, x))`. `min(1, nan)` is 1.
unfoldable pub unit_float : ℕ → ℕ
unit_float bits =
    let exponent = bits / 2 ^ 52 % 2048 in
    let fraction = bits % 2 ^ 52 in
    if nat_eq exponent 2047 && not (nat_eq fraction 0)
    then float_one
    else if leb (2 ^ 63) bits
    then 0
    else if leb 1023 exponent
    then float_one
    else if nat_eq exponent 0
    then fraction
    else (2 ^ 52 + fraction) * 2 ^ (exponent - 1)

-- The number behind "normalized_score": 1 where there is none, 0 where it is not a number. An integer
-- that no double holds, for which `float` raises, is out of the model: it counts as any other above 1.
unfoldable pub score_of : Option Value → ℕ
unfolding unit_float
score_of none = float_one
score_of (some (bool b)) = if b then float_one else 0
score_of (some (int (pos zero))) = 0
score_of (some (int (pos (suc _)))) = float_one
score_of (some (float bits)) = unit_float bits
score_of _ = 0

-- `AgentEvidenceCitation.source_reference_is_complete`.
unfoldable pub validate_citation : AgentEvidenceCitation → Result AgentRaised AgentEvidenceCitation
validate_citation c = do
  raise_if (is_knowledge c.source_kind && is_none c.knowledge_citation) invalid
  raise_if
      (not (is_knowledge c.source_kind)
        && (is_none (filled c.tool_name) || is_none (filled c.result_digest)))
      invalid
  ok c

-- The bounds of the fields of `EvidenceItem`.
unfoldable pub validate_item : EvidenceItem → Result AgentRaised EvidenceItem
validate_item i = do
  raise_if (ltb 2000 (count i.excerpt)) invalid
  raise_if (ltb float_one i.normalized_score) invalid
  ok i

-- f"kb:{chunk_id}" with the citation.
abbrev pub knowledge_citation_of : KnowledgeCitation → AgentEvidenceCitation
knowledge_citation_of c = record {
  citation_id = concat ("kb:" ∷ c.chunk_id ∷ []);
  source_kind = knowledge;
  knowledge_citation = some c;
  tool_name = none;
  result_digest = none;
}

abbrev kind_name : SourceKind → String
kind_name knowledge = "knowledge"
kind_name sql = "sql"
kind_name api = "api"

-- `raw.get(key)` where None counts as missing.
abbrev present : Option Value → Option Value
present none = none
present (some null) = none
present (some v) = some v

abbrev listed : Option Value → Option Items
listed (some (obj fs)) = elim (get "evidence" fs) [ some (arr vs) ↦ some vs | _ ↦ none ]
listed _ = none

module _ (P : Platform) (R : Readers) {N : Type 0} (s : AgenticState N) (step_id : String)
    (o : ToolExecutionOutcome) where
  -- The item of one piece of evidence of the knowledge tool.
  abbrev pub knowledge_item : KnowledgeEvidence → EvidenceItem
  knowledge_item e = record {
    evidence_id = e.chunk_id;
    step_id = step_id;
    source_kind = knowledge;
    tenant_id = s.authorization.tenant_id;
    knowledge_base_id = some e.knowledge_base_id;
    excerpt = P.redact_secret_like_text e.excerpt;
    normalized_score = e.normalized_rank_score;
    citation = some (record {
      citation_id = concat ("kb:" ∷ e.chunk_id ∷ []);
      source_kind = knowledge;
      knowledge_citation = some e.citation;
      tool_name = none;
      result_digest = none;
    });
    authorized = true;
    active_version = true;
    injection_detected = o.injection_detected;
    fact_key = none;
    stance = none;
  }

  unfoldable pub knowledge_items : List KnowledgeEvidence → Result AgentRaised (List EvidenceItem)
  unfolding validate_item
  knowledge_items [] = ok []
  knowledge_items (e ∷ es) = do
    i ← validate_item (knowledge_item e)
    is ← knowledge_items es
    ok (i ∷ is)

  abbrev tool_citation : SourceKind → AgentEvidenceCitation
  tool_citation kind = record {
    citation_id = concat (kind_name kind ∷ ":" ∷ o.summary.tool_call_id ∷ []);
    source_kind = kind;
    knowledge_citation = none;
    tool_name = some o.summary.tool_name;
    result_digest = o.summary.output_digest;
  }

  abbrev clipped : ℕ → Option Value → Option String
  clipped n none = none
  clipped n (some v) = some (clip n (R.str (some v)))

  abbrev excerpt_of : Fields → String
  excerpt_of fs = elim (get "excerpt" fs) [
    | none ↦ P.redact_secret_like_text (clip 2000 (P.strip ""))
    | some v ↦ P.redact_secret_like_text (clip 2000 (P.strip (R.str (some v))))
  ]

  -- The item of entry number `index` of a list of evidence.
  abbrev listed_item : SourceKind → AgentEvidenceCitation → ℕ → Fields → EvidenceItem
  listed_item kind c index fs = record {
    evidence_id = concat ("tool:" ∷ o.summary.tool_call_id ∷ ":" ∷ show index ∷ []);
    step_id = step_id;
    source_kind = kind;
    tenant_id = s.authorization.tenant_id;
    knowledge_base_id = none;
    excerpt = excerpt_of fs;
    normalized_score = score_of (get "normalized_score" fs);
    citation = some (record c { citation_id = concat (c.citation_id ∷ ":" ∷ show index ∷ []) });
    authorized = true;
    active_version = true;
    injection_detected = o.injection_detected;
    fact_key = clipped 256 (present (get "fact_key" fs));
    stance = clipped 256 (present (get "stance" fs));
  }

  -- The loop over the entries; entries that are no objects or have no excerpt are passed over.
  unfoldable pub listed_items :
      SourceKind → AgentEvidenceCitation → ℕ → Items → Result AgentRaised (List EvidenceItem)
  unfolding validate_item clip score_of show
  listed_items kind c index nil = ok []
  listed_items kind c index (cons (obj fs) vs) =
      let rest = listed_items kind c (index + 1) vs in
      let item = (do i ← validate_item (listed_item kind c index fs); is ← rest; ok (i ∷ is)) in
      if excerpt_of fs == "" then rest else item
  listed_items kind c index (cons v vs) = listed_items kind c (index + 1) vs

  abbrev whole_item : SourceKind → AgentEvidenceCitation → EvidenceItem
  whole_item kind c = record {
    evidence_id = concat ("tool:" ∷ o.summary.tool_call_id ∷ []);
    step_id = step_id;
    source_kind = kind;
    tenant_id = s.authorization.tenant_id;
    knowledge_base_id = none;
    excerpt = P.redact_secret_like_text (clip 2000 (R.str o.output));
    normalized_score = float_one;
    citation = some c;
    authorized = true;
    active_version = true;
    injection_detected = o.injection_detected;
    fact_key = none;
    stance = none;
  }

  abbrev or_whole :
      SourceKind
      → AgentEvidenceCitation
      → List EvidenceItem
      → Result AgentRaised (List EvidenceItem)
  or_whole kind c [] = map_ok (λ i. i ∷ []) (validate_item (whole_item kind c))
  or_whole kind c (i ∷ is) = ok (i ∷ is)

  abbrev parsed_items :
      SourceKind → AgentEvidenceCitation → Option Items → Result AgentRaised (List EvidenceItem)
  parsed_items kind c none = ok []
  parsed_items kind c (some vs) = listed_items kind c 1 vs

  -- `_structured_tool_evidence`.
  unfoldable pub structured_tool_evidence : SourceKind → Result AgentRaised (List EvidenceItem)
  unfolding validate_citation listed_items
  structured_tool_evidence kind = do
    c ← validate_citation (tool_citation kind)
    is ← parsed_items kind c (listed o.output)
    or_whole kind c is

  -- The items and the trace of the retrieval, if it was one.
  unfoldable pub items_of : Result AgentRaised (List EvidenceItem × Option String)
  unfolding knowledge_items structured_tool_evidence
  items_of =
      if o.summary.tool_name == "knowledge_base"
      then (elim (R.read_output o.output) [
        | none ↦ err invalid
        | some out ↦ map_ok (λ is. (is, some out.retrieval_trace_id)) (knowledge_items out.evidence)
      ])
      else map_ok (λ is. (is, none))
          (structured_tool_evidence (if o.summary.tool_name == "readonly_sql" then sql else api))

  -- `next_step`: past the plan once the retrieval rounds are used up.
  abbrev pub step_after : BudgetLedger N → ℕ
  step_after ledger = elim s.plan [
    | none ↦ s.current_step + 1
    | some plan ↦
        if o.summary.tool_name == "knowledge_base"
          && leb ledger.limits.max_retrieval_rounds ledger.usage.retrieval_rounds
        then length plan.steps
        else s.current_step + 1
  ]

  abbrev with_trace : List String → Option String → List String
  with_trace ids none = ids
  with_trace ids (some id) = ids ++ id ∷ []

  abbrev pub applied : BudgetLedger N → List EvidenceItem × Option String → AgenticState N
  applied ledger (items, trace_id) = record s {
    evidence = s.evidence ++ items;
    tool_calls = s.tool_calls ++ o.summary ∷ [];
    retrieval_trace_ids = with_trace s.retrieval_trace_ids trace_id;
    current_step = step_after ledger;
    iteration = s.iteration + 1;
    budget_usage = ledger.usage;
  }

  -- `_apply_tool_outcome`.
  unfoldable pub apply_tool_outcome : BudgetLedger N → Result AgentRaised (AgenticState N)
  unfolding items_of
  apply_tool_outcome ledger = map_ok (applied ledger) items_of
