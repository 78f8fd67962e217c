-- ===== src/Knowledge/Publishing/Steps.antt =====
-- `complete_ingestion` of knowledge/application/lifecycle/publish.py: what is prepared before the
-- transaction.
use ragflow_agent.Base.{
  ℕ, ◌+◌, ◌≡◌, sym, ap, ◌∙◌, subst, ◌⊎◌, inl, inr, String, false, Option, none, some, arith, ◌==◌,
  eq_iff, ok, Result-cases, Bool-cases,
}
use ragflow_agent.Knowledge.Document.{
  Document, DocumentVersion, ready, superseded, transition_document_version,
  activate_document_version, validate_document, validate_version,
}
use ragflow_agent.Knowledge.Tables.{version_keyed, operation_keyed, document_keyed}
use ragflow_agent.Knowledge.Publishing.{
  Loaded, Prepared, Surroundings, made_ready, retire, indexed, prepare,
}

made_ready_lem :
    (v r : DocumentVersion) (now : ℕ)
    → made_ready v now ≡ ok r
    → (r.id ≡ v.id)
      × (r.tenant_id ≡ v.tenant_id)
      × (r.document_id ≡ v.document_id)
      × (r.status ≡ ready)
unfolding transition_document_version validate_version
made_ready_lem v r now h = ground arith

-- The version that is retired is the previous one, unless that is published again.
abbrev pub Retires : Option DocumentVersion → DocumentVersion → Option DocumentVersion → Type 0
Retires none r out = out ≡ none
Retires (some v) r out =
    ((v.id ≡ r.id) × (out ≡ none))
    ⊎ ((u : DocumentVersion) × ((v.id == r.id) ≡ false)
        × (out ≡ some u)
        × (u.id ≡ v.id)
        × (u.tenant_id ≡ v.tenant_id)
        × (u.status ≡ superseded))

superseded_lem :
    (v u : DocumentVersion) (now : ℕ)
    → transition_document_version v superseded now ≡ ok u
    → (u.id ≡ v.id) × (u.tenant_id ≡ v.tenant_id) × (u.status ≡ superseded)
unfolding transition_document_version validate_version
superseded_lem v u now h = ground arith

retire_lem :
    (previous out : Option DocumentVersion) (r : DocumentVersion) (now retention : ℕ)
    → retire previous r now retention ≡ ok out
    → Retires previous r out
retire_lem none out r now retention h = ground arith
retire_lem (some v) out r now retention h = elim (Bool-cases (v.id == r.id)) [
  | inl e ↦ inl ((eq_iff v.id r.id).0 e, ground arith)
  | inr e ↦ elim (Result-cases (transition_document_version v superseded now)) [
    | inr (x, p) ↦ absurd (ground arith)
    | inl (u, p) ↦
        let (a, b, c) = superseded_lem v u now p in
        inr (
          record u { retired_at = some now; purge_after = some (now + retention) },
          e,
          ground arith,
          a,
          b,
          c,
        )
  ]
]

activate_lem :
    (d a : Document) (r : DocumentVersion) (now : ℕ) (expected : Option ℕ)
    → activate_document_version d r now expected ≡ ok a
    → (a.id ≡ d.id)
      × (a.tenant_id ≡ d.tenant_id)
      × (a.current_version_id ≡ some r.id)
      × (r.document_id ≡ d.id)
      × (a.revision ≡ d.revision + 1)
unfolding activate_document_version validate_document
activate_lem d a r now expected h = ground (arith, eq_iff d.id r.document_id)

-- What a transaction is prepared with.
pub record Prepares (l : Loaded) (p : Prepared) : Type 0 where
  pub same_revision : l.document.revision ≡ l.operation.expected_document_revision
  pub ready_id : p.ready_version.id ≡ l.version.id
  pub ready_tenant : p.ready_version.tenant_id ≡ l.version.tenant_id
  pub ready_document : p.ready_version.document_id ≡ l.document.id
  pub is_ready : p.ready_version.status ≡ ready
  pub active_id : p.active_document.id ≡ l.document.id
  pub active_tenant : p.active_document.tenant_id ≡ l.document.tenant_id
  pub active_version : p.active_document.current_version_id ≡ some l.version.id
  pub active_revision : p.active_document.revision ≡ l.document.revision + 1
  pub retires : Retires l.previous p.ready_version p.retired_version

pub prepare-Prepares :
    (l : Loaded) (index_version_id : String) (s : Surroundings) (p : Prepared)
    → prepare l index_version_id s ≡ ok p
    → Prepares l p
unfolding prepare
prepare-Prepares l i s p h = elim (Result-cases (made_ready l.version s.now)) [
  | inr (x, e) ↦ absurd (ground arith)
  | inl (made, e) ↦
      let r = indexed made i s.now in
      elim (Result-cases (
        activate_document_version l.document r s.now
          (some l.operation.expected_document_revision))) [
            | inr (x, f) ↦ absurd (ground arith)
            | inl (a, f) ↦ elim (Result-cases (retire l.previous r s.now s.retention)) [
              | inr (x, g) ↦ absurd (ground arith)
              | inl (out, g) ↦
                  let (ms, mt, md, mr) = made_ready_lem l.version made s.now e in
                  let (ai, at, ac, ad, ar) =
                    activate_lem l.document a r s.now (some l.operation.expected_document_revision)
                      f in
                  let kept = retire_lem l.previous out r s.now s.retention g in
                  let same : (p.ready_version ≡ r)
                      × (p.active_document ≡ a)
                      × (p.retired_version ≡ out)
                      × (l.document.revision ≡ l.operation.expected_document_revision) =
                    ground arith in
                  let (pr, pa, po, sr) = same in
                  record {
                    same_revision = sr;
                    ready_id = ap (λ v. v.id) pr ∙ ms;
                    ready_tenant = ap (λ v. v.tenant_id) pr ∙ mt;
                    ready_document = ap (λ v. v.document_id) pr ∙ ad;
                    is_ready = ap (λ v. v.status) pr ∙ mr;
                    active_id = ap (λ d. d.id) pa ∙ ai;
                    active_tenant = ap (λ d. d.tenant_id) pa ∙ at;
                    active_version = ap (λ d. d.current_version_id) pa ∙ ac ∙ ap some ms;
                    active_revision = ap (λ d. d.revision) pa ∙ ar;
                    retires =
                        subst (λ x. Retires l.previous x p.retired_version) (sym pr)
                          (subst (λ o. Retires l.previous r o) (sym po) kept);
                  }
            ]
          ]
]
