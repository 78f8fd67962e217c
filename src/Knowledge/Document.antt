-- ===== src/Knowledge/Document.antt =====
-- knowledge/domain/document.py: logical documents, immutable versions and their transitions.
-- Timestamps are timezone-aware and counted in microseconds.
pub mod Versions
pub mod Histories
pub mod Activation
use ragflow_agent.Base.{
  ℕ, ◌+◌, String, Bool, true, false, not, ◌&&◌, ◌||◌, Option, none, some, ltb, nat_eq, ◌==◌,
  is_none, if◌then◌else◌, Result, Check, ok, err, ◌>>=◌, ◌>>◌, raise_if,
}
use ragflow_agent.Knowledge.Errors.{Raised, conflict, invalid}
use ragflow_agent.Knowledge.Authorization.{Visibility, ResourceAuthorization}

pub data DocumentStatus : Type 0 where
  active delete_pending deleted : DocumentStatus

abbrev pub is_active : DocumentStatus → Bool
is_active active = true
is_active _ = false

pub data DocumentVersionStatus : Type 0 where
  registered ingesting ready failed superseded deleted : DocumentVersionStatus

abbrev pub same_version_status : DocumentVersionStatus → DocumentVersionStatus → Bool
same_version_status registered registered = true
same_version_status ingesting ingesting = true
same_version_status ready ready = true
same_version_status failed failed = true
same_version_status superseded superseded = true
same_version_status DocumentVersionStatus.deleted DocumentVersionStatus.deleted = true
same_version_status _ _ = false

-- `target in _VERSION_TRANSITIONS[current]`.
abbrev pub in_version_transitions : DocumentVersionStatus → DocumentVersionStatus → Bool
in_version_transitions registered ingesting = true
in_version_transitions registered DocumentVersionStatus.deleted = true
in_version_transitions ingesting ready = true
in_version_transitions ingesting failed = true
in_version_transitions ingesting DocumentVersionStatus.deleted = true
in_version_transitions ready superseded = true
in_version_transitions ready DocumentVersionStatus.deleted = true
in_version_transitions failed ingesting = true
in_version_transitions failed DocumentVersionStatus.deleted = true
in_version_transitions superseded ready = true
in_version_transitions superseded DocumentVersionStatus.deleted = true
in_version_transitions _ _ = false

pub record Document : Type 0 where
  pub id : String
  pub tenant_id : String
  pub knowledge_base_id : String
  pub owner_id : String
  pub name : String
  pub visibility : Visibility
  pub status : DocumentStatus
  pub current_version_id : Option String
  pub revision : ℕ
  pub deleted_at : Option ℕ
  pub purge_after : Option ℕ
  pub created_at : ℕ
  pub updated_at : ℕ

-- `Document.validate_document`.
unfoldable pub validate_document : Document → Check Raised
validate_document d = do
  raise_if (ltb d.updated_at d.created_at) invalid
  raise_if (not (is_active d.status) && not (is_none d.current_version_id)) invalid
  raise_if (is_active d.status && not (is_none d.deleted_at)) invalid
  raise_if (not (is_active d.status) && is_none d.deleted_at) invalid
  raise_if (not (is_none d.purge_after) && is_none d.deleted_at) invalid

-- `Document.authorization`.
abbrev pub authorization : Document → ResourceAuthorization
authorization d = record {
  tenant_id = d.tenant_id;
  owner_id = d.owner_id;
  visibility = d.visibility;
}

pub record DocumentVersion : Type 0 where
  pub id : String
  pub tenant_id : String
  pub knowledge_base_id : String
  pub document_id : String
  pub created_by : String
  pub object_key : String
  pub media_type : String
  pub content_hash : String
  pub content_hash_algorithm : String
  pub size_bytes : ℕ
  pub status : DocumentVersionStatus
  pub revision : ℕ
  pub index_version_id : Option String
  pub activated_at : Option ℕ
  pub retired_at : Option ℕ
  pub purge_after : Option ℕ
  pub created_at : ℕ
  pub updated_at : ℕ

-- `DocumentVersion.validate_version`.
unfoldable pub validate_version : DocumentVersion → Check Raised
validate_version v = raise_if (ltb v.updated_at v.created_at) invalid

unfoldable pub transition_document_version :
    DocumentVersion → DocumentVersionStatus → ℕ → Result Raised DocumentVersion
unfolding validate_version
transition_document_version version target changed_at =
    if ltb changed_at version.updated_at
    then err (conflict "document_version_timestamp_regression")
    else if same_version_status target version.status
    then ok version
    else if not (in_version_transitions version.status target)
    then err (conflict "document_version_transition_invalid")
    else (do
      let moved = record version {
        status = target;
        revision = version.revision + 1;
        updated_at = changed_at;
      }
      validate_version moved
      ok moved)

-- `expected != actual` on the three scope fields.
abbrev pub same_aggregate : Document → DocumentVersion → Bool
same_aggregate d v =
    d.tenant_id == v.tenant_id
    && d.knowledge_base_id == v.knowledge_base_id
    && d.id == v.document_id

-- `expected_revision is not None and document.revision != expected_revision`.
abbrev pub revision_changed : Option ℕ → ℕ → Bool
revision_changed none revision = false
revision_changed (some expected) revision = not (nat_eq revision expected)

unfoldable pub activate_document_version :
    Document → DocumentVersion → ℕ → Option ℕ → Result Raised Document
unfolding validate_document
activate_document_version document version changed_at expected_revision =
    if ltb changed_at document.updated_at
    then err (conflict "document_timestamp_regression")
    else if not (same_aggregate document version)
    then err (conflict "document_version_scope_mismatch")
    else if not (same_version_status version.status ready)
    then err (conflict "document_version_not_ready")
    else if not (is_active document.status)
    then err (conflict "document_deleted")
    else if revision_changed expected_revision document.revision
    then err (conflict "document_revision_conflict")
    else (do
      let activated = record document {
        current_version_id = some version.id;
        revision = document.revision + 1;
        updated_at = changed_at;
      }
      validate_document activated
      ok activated)
