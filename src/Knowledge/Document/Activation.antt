-- ===== src/Knowledge/Document/Activation.antt =====
-- When `activate_document_version` of knowledge/domain/document.py succeeds, and with what.
use ragflow_agent.Base.{
  ℕ, ◌+◌, ◌≤◌, ◌≡◌, ◌⊎◌, ◌↔◌, false, Option, none, some, arith, ok, eq_iff, is_none,
}
use ragflow_agent.Knowledge.Document.{
  Document, DocumentVersion, ready, active, validate_document, activate_document_version, is_active,
}

abbrev pub activated : Document → DocumentVersion → ℕ → Document
activated d v now = record d {
  current_version_id = some v.id;
  revision = d.revision + 1;
  updated_at = now;
}

-- The conditions of an activation, without the order of the tests.
pub record MayActivate (d : Document) (v : DocumentVersion) (now : ℕ) (expected : Option ℕ)
    : Type 0 where
  pub forward : d.updated_at ≤ now
  pub tenant : d.tenant_id ≡ v.tenant_id
  pub knowledge_base : d.knowledge_base_id ≡ v.knowledge_base_id
  pub document : d.id ≡ v.document_id
  pub ready_version : v.status ≡ ready
  pub active_document : d.status ≡ active
  pub unchanged : (expected ≡ none) ⊎ (expected ≡ some d.revision)

pub record IsDocument (d : Document) : Type 0 where
  pub ordered : d.created_at ≤ d.updated_at
  pub hidden : is_active d.status ≡ false → d.current_version_id ≡ none
  pub undeleted : d.status ≡ active → d.deleted_at ≡ none
  pub dated : is_active d.status ≡ false → is_none d.deleted_at ≡ false
  pub kept : is_none d.purge_after ≡ false → is_none d.deleted_at ≡ false

-- `validate_document` accepts exactly the well-formed documents.
pub validate_document_iff : (d : Document) → (validate_document d ≡ ok tt) ↔ IsDocument d
unfolding validate_document
validate_document_iff d = ground arith

-- For a well-formed document: an activation succeeds exactly under `MayActivate`, and its result is
-- the document with the version current and the revision one higher, well-formed again.
pub activate_iff :
    (d : Document) (v : DocumentVersion) (now : ℕ) (expected : Option ℕ) (d' : Document)
    → IsDocument d
    → (activate_document_version d v now expected ≡ ok d')
      ↔ (MayActivate d v now expected × (d' ≡ activated d v now) × IsDocument d')
unfolding activate_document_version
activate_iff d v now expected d' h = ground (
  arith,
  eq_iff d.tenant_id v.tenant_id,
  eq_iff d.knowledge_base_id v.knowledge_base_id,
  eq_iff d.id v.document_id,
)
