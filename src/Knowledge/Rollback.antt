-- ===== src/Knowledge/Rollback.antt =====
-- `rollback` of knowledge/application/lifecycle/publish.py, over the tables. Python's `str.strip` and the
-- hexadecimal digest of SHA-256 are parameters. Identifiers that come from stored entities and from the
-- authorization are stripped already, as their types demand, and are copied as they are.
pub mod Current
pub mod Starting
use ragflow_agent.Base.{
  ℕ, ◌+◌, String, Bool, false, not, ◌&&◌, ◌||◌, Option, none, some, List, [], ◌∷◌, ◌==◌, is_none,
  if◌then◌else◌, Result, Check, ok, err, ◌>>=◌, ◌>>◌, raise_if,
}
use ragflow_agent.Base.Texts.{concat, join}
use ragflow_agent.Knowledge.Errors.{Raised, conflict, forbidden, invalid, not_found}
use ragflow_agent.Knowledge.Authorization.{AuthorizationContext, PermissionAction, require}
use ragflow_agent.Knowledge.Document.{
  Document, DocumentVersion, superseded, same_version_status, authorization,
}
use ragflow_agent.Knowledge.Lifecycle.Operation.{
  LifecycleOperation, LifecycleOperationKind, LifecycleOperationStatus, LifecycleStep, kind_value,
  same_kind, validate_operation,
}
use ragflow_agent.Knowledge.Tables.{get, document_keyed, version_keyed, operation_keyed}
use ragflow_agent.Knowledge.Publishing.{Database, Surroundings, complete_ingestion}

-- `get_by_idempotency_key`.
unfoldable pub get_by_idempotency_key :
    String → String → List LifecycleOperation → Option LifecycleOperation
get_by_idempotency_key t key [] = none
get_by_idempotency_key t key (o ∷ os) =
    if o.tenant_id == t && o.idempotency_key == key then some o else get_by_idempotency_key t key os

-- `add` for operations: their primary key and their idempotency key are unique.
unfoldable pub add_operation :
    String → LifecycleOperation → List LifecycleOperation → Result Raised (List LifecycleOperation)
unfolding get get_by_idempotency_key
add_operation t o rows = do
  raise_if (not (o.tenant_id == t)) (forbidden "tenant_mismatch")
  raise_if
      (not (is_none (get o.tenant_id o.id rows))
        || not (is_none (get_by_idempotency_key o.tenant_id o.idempotency_key rows)))
      (conflict "knowledge_resource_exists")
  ok (o ∷ rows)

pub record RollbackCommand : Type 0 where
  pub document_id : String
  pub target_version_id : String
  pub idempotency_key : String
  pub reason : String

-- The library calls, the identifier that is generated and the clock.
pub record RollbackSurroundings : Type 0 where
  pub strip : String → String
  pub sha256 : String → String
  pub new_id : String
  pub created_at : ℕ

-- How a rollback goes on: with the operation that was stored before, or with a new one.
pub data Begun : Type 0 where
  replayed : LifecycleOperation → Begun
  started : LifecycleOperation → String → Begun

abbrev fingerprint : RollbackSurroundings → RollbackCommand → String
fingerprint r c = r.sha256 (
    join "\u{1f}" (
      kind_value LifecycleOperationKind.rollback
      ∷ c.document_id
      ∷ c.target_version_id
      ∷ c.reason
      ∷ []))

abbrev has_fingerprint : LifecycleOperation → String → Bool
has_fingerprint o f = elim o.command_fingerprint [ none ↦ false | some g ↦ g == f ]

abbrev pub replay : RollbackCommand → String → LifecycleOperation → Result Raised Begun
replay c f o =
    if not (same_kind o.kind LifecycleOperationKind.rollback)
      || not (o.document_id == c.document_id)
      || not (o.version_id == c.target_version_id)
      || not (has_fingerprint o f)
    then err (conflict "lifecycle_idempotency_conflict")
    else ok (replayed o)

-- The operation of a rollback, with the defaults of `LifecycleOperation`.
abbrev pub rollback_operation :
    RollbackSurroundings
    → AuthorizationContext
    → RollbackCommand
    → Document
    → DocumentVersion
    → LifecycleOperation
rollback_operation r context c d target = record {
  id = r.strip r.new_id;
  tenant_id = context.tenant_id;
  knowledge_base_id = d.knowledge_base_id;
  document_id = d.id;
  version_id = target.id;
  kind = LifecycleOperationKind.rollback;
  idempotency_key = r.strip c.idempotency_key;
  actor_id = context.actor_id;
  reason = r.strip c.reason;
  request_id = context.request_id;
  status = LifecycleOperationStatus.pending;
  current_step = LifecycleStep.register;
  attempts = 0;
  expected_document_revision = d.revision;
  fencing_token = d.revision + 1;
  previous_version_id = d.current_version_id;
  index_version_id = none;
  batch_id = none;
  command_fingerprint = some (fingerprint r c);
  progress = 0;
  next_attempt_at = none;
  purge_after = none;
  steps = [];
  error = none;
  created_at = r.created_at;
  updated_at = r.created_at;
}

-- `target.index_version_id or f"idx_{target.id}"`.
abbrev index_of : DocumentVersion → String
index_of target = elim target.index_version_id [
  | none ↦ concat ("idx_" ∷ target.id ∷ [])
  | some i ↦ if i == "" then concat ("idx_" ∷ target.id ∷ []) else i
]

abbrev pub start :
    RollbackSurroundings
    → AuthorizationContext
    → RollbackCommand
    → Document
    → DocumentVersion
    → Result Raised Begun
start r context c d target = do
  raise_if (not (target.document_id == d.id) || not (same_version_status target.status superseded))
      (conflict "rollback_target_invalid")
  let o = rollback_operation r context c d target
  raise_if (o.id == "" || o.idempotency_key == "" || o.reason == "") invalid
  validate_operation o
  ok (started o (index_of target))

-- From the reads to the new operation.
unfoldable pub begin :
    RollbackSurroundings → AuthorizationContext → RollbackCommand → Database → Result Raised Begun
begin r context c db = elim (get context.tenant_id c.document_id db.documents) [
  | none ↦ err (not_found "document_version")
  | some d ↦ elim (get context.tenant_id c.target_version_id db.versions) [
    | none ↦ err (not_found "document_version")
    | some target ↦ do
      require context (authorization d) PermissionAction.write
      elim (get_by_idempotency_key context.tenant_id c.idempotency_key db.operations) [
        | none ↦ start r context c d target
        | some o ↦ replay c (fingerprint r c) o
      ]
  ]
]

abbrev pub added :
    String
    → LifecycleOperation
    → String
    → Surroundings
    → Database
    → Result Raised (List LifecycleOperation)
    → Result Raised LifecycleOperation × Database
added t o index s db (err e) = (err e, db)
added t o index s db (ok operations) =
    complete_ingestion t o.id index s (record db { operations = operations })

abbrev pub go_on :
    String
    → Surroundings
    → Database
    → Result Raised Begun
    → Result Raised LifecycleOperation × Database
go_on t s db (err e) = (err e, db)
go_on t s db (ok (replayed o)) = (ok o, db)
go_on t s db (ok (started o index)) = added t o index s db (add_operation t o db.operations)

-- `rollback`: what it returns or raises, and the database after it.
unfoldable pub rollback :
    RollbackSurroundings
    → AuthorizationContext
    → RollbackCommand
    → Surroundings
    → Database
    → Result Raised LifecycleOperation × Database
rollback r context c s db = go_on context.tenant_id s db (begin r context c db)
