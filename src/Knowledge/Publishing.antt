-- ===== src/Knowledge/Publishing.antt =====
-- `complete_ingestion` of knowledge/application/lifecycle/publish.py over the tables of documents,
-- versions and operations. The index is outside: what its calls answer is an argument. No other
-- process writes between the reads and the transaction.
pub mod Completion
pub mod Current
pub mod Steps
pub mod Transactions
use ragflow_agent.Base.{
  ℕ, ◌+◌, String, Bool, true, false, not, Option, none, some, List, ltb, nat_eq, ◌==◌, float_one,
  if◌then◌else◌, Result, Check, ok, err, ◌>>=◌, ◌>>◌, raise_if, map_ok,
}
use ragflow_agent.Knowledge.Errors.{Raised, conflict, not_found}
use ragflow_agent.Knowledge.Document.{
  Document, DocumentVersion, ready, superseded, is_active, same_version_status,
  transition_document_version, activate_document_version,
}
use ragflow_agent.Knowledge.Lifecycle.Operation.{
  LifecycleOperation, LifecycleOperationStatus, LifecycleStep, LifecycleStepStatus,
}
use ragflow_agent.Knowledge.Lifecycle.{update_step}
use ragflow_agent.Knowledge.Tables.{
  get, save, save_if_revision, version_keyed, operation_keyed, document_keyed,
}

pub record Database : Type 0 where
  pub documents : List Document
  pub versions : List DocumentVersion
  pub operations : List LifecycleOperation

pub record Loaded : Type 0 where
  pub operation : LifecycleOperation
  pub document : Document
  pub version : DocumentVersion
  pub previous : Option DocumentVersion

-- `get(...) if operation.previous_version_id else None`.
abbrev pub previous_of : String → Option String → List DocumentVersion → Option DocumentVersion
previous_of t none versions = none
previous_of t (some id) versions = if id == "" then none else get t id versions

abbrev loaded :
    LifecycleOperation
    → Option Document
    → Option DocumentVersion
    → Option DocumentVersion
    → Result Raised Loaded
loaded o (some d) (some v) previous =
    ok (record { operation = o; document = d; version = v; previous = previous })
loaded o _ _ previous = err (not_found "document")

-- `_load`.
unfoldable pub load : String → String → Database → Result Raised Loaded
load t operation_id db = elim (get t operation_id db.operations) [
  | none ↦ err (not_found "lifecycle_operation")
  | some o ↦
      loaded o (get t o.document_id db.documents) (get t o.version_id db.versions)
        (previous_of t o.previous_version_id db.versions)
]

-- What the calls of the index answer, the clock, and the time that old versions are kept.
pub record Surroundings : Type 0 where
  pub validated : Result Raised ℕ
  pub promoted : Check Raised
  pub retired : Check Raised
  pub now : ℕ
  pub retention : ℕ

-- What the transaction writes.
pub record Prepared : Type 0 where
  pub ready_version : DocumentVersion
  pub retired_version : Option DocumentVersion
  pub active_document : Document
  pub operation : LifecycleOperation

abbrev pub succeed : LifecycleOperation → LifecycleStep → ℕ → Result Raised LifecycleOperation
succeed o step now = update_step o step LifecycleStepStatus.succeeded now none

-- `ready` before it is given its index.
abbrev pub made_ready : DocumentVersion → ℕ → Result Raised DocumentVersion
made_ready v now =
    if same_version_status v.status ready then ok v else transition_document_version v ready now

abbrev pub retire :
    Option DocumentVersion → DocumentVersion → ℕ → ℕ → Result Raised (Option DocumentVersion)
retire none r now retention = ok none
retire (some previous) r now retention =
    if previous.id == r.id
    then ok none
    else map_ok
        (λ v. some (record v { retired_at = some now; purge_after = some (now + retention) }))
        (transition_document_version previous superseded now)

abbrev pub indexed : DocumentVersion → String → ℕ → DocumentVersion
indexed v index_version_id now = record v {
  index_version_id = some index_version_id;
  activated_at = some now;
}

abbrev finished : LifecycleOperation → String → ℕ → LifecycleOperation
finished o index_version_id now = record o {
  status = LifecycleOperationStatus.succeeded;
  progress = float_one;
  index_version_id = some index_version_id;
  updated_at = now;
}

-- From the tests on what was read to the transaction.
unfoldable pub prepare : Loaded → String → Surroundings → Result Raised Prepared
unfolding float_one
prepare l index_version_id s = do
  raise_if (not (is_active l.document.status)) (conflict "document_deleted")
  raise_if (not (nat_eq l.document.revision l.operation.expected_document_revision))
      (conflict "document_revision_conflict")
  count ← s.validated
  raise_if (ltb count 1) (conflict "lifecycle_candidate_empty")
  validated ← succeed l.operation LifecycleStep.validate s.now
  s.promoted
  promoted ← succeed validated LifecycleStep.promote s.now
  made ← made_ready l.version s.now
  let r = indexed made index_version_id s.now
  active ←
      activate_document_version l.document r s.now (some l.operation.expected_document_revision)
  retired ← retire l.previous r s.now s.retention
  activated ← succeed promoted LifecycleStep.activate s.now
  ok (record {
    ready_version = r;
    retired_version = retired;
    active_document = active;
    operation = finished activated index_version_id s.now;
  })

abbrev pub save_retired :
    String → Option DocumentVersion → List DocumentVersion → Result Raised (List DocumentVersion)
save_retired t none versions = ok versions
save_retired t (some v) versions = save t v versions

-- The transaction.
unfoldable pub commit : String → ℕ → Prepared → Database → Result Raised Database
commit t revision p db = do
  saved ← save t p.ready_version db.versions
  versions ← save_retired t p.retired_version saved
  documents ← save_if_revision t p.active_document revision db.documents
  operations ← save t p.operation db.operations
  ok (record { documents = documents; versions = versions; operations = operations })

abbrev announce : Prepared → Check Raised → Database → Result Raised LifecycleOperation × Database
announce p retired db = elim p.retired_version [
  | none ↦ (ok p.operation, db)
  | some _ ↦ (map_ok (λ _. p.operation) retired, db)
]

abbrev pub is_succeeded : LifecycleOperationStatus → Bool
is_succeeded LifecycleOperationStatus.succeeded = true
is_succeeded _ = false

abbrev pub written :
    Prepared
    → Surroundings
    → Database
    → Result Raised Database
    → Result Raised LifecycleOperation × Database
written p s db (err e) = (err e, db)
written p s db (ok db') = announce p s.retired db'

abbrev pub completed :
    String
    → Loaded
    → Surroundings
    → Database
    → Result Raised Prepared
    → Result Raised LifecycleOperation × Database
completed t l s db (err e) = (err e, db)
completed t l s db (ok p) = written p s db (commit t l.document.revision p db)

abbrev pub with_loaded :
    String
    → String
    → Surroundings
    → Database
    → Result Raised Loaded
    → Result Raised LifecycleOperation × Database
with_loaded t index_version_id s db (err e) = (err e, db)
with_loaded t index_version_id s db (ok l) =
    if is_succeeded l.operation.status
    then (ok l.operation, db)
    else completed t l s db (prepare l index_version_id s)

-- `complete_ingestion`: what it returns or raises, and the database after it.
unfoldable pub complete_ingestion :
    String → String → String → Surroundings → Database → Result Raised LifecycleOperation × Database
complete_ingestion t operation_id index_version_id s db =
    with_loaded t index_version_id s db (load t operation_id db)
