-- ===== src/Knowledge/Rollback/Starting.antt =====
-- `rollback` of knowledge/application/lifecycle/publish.py: the operation that is added.
use ragflow_agent.Base.{
  ◌≡◌, sym, ap, ◌∙◌, inl, inr, String, some, arith, ◌∷◌, eq_iff, ok, Result-cases, Option-cases,
  List,
}
use ragflow_agent.Knowledge.Authorization.{AuthorizationContext, PermissionAction, require}
use ragflow_agent.Knowledge.Document.{Document, DocumentVersion, superseded, authorization}
use ragflow_agent.Knowledge.Lifecycle.Operation.{LifecycleOperation, validate_operation}
use ragflow_agent.Knowledge.Tables.{
  get, has_key_iff, get-has_key, document_keyed, version_keyed, operation_keyed,
}
use ragflow_agent.Knowledge.Publishing.{Database}
use ragflow_agent.Knowledge.Rollback.{
  RollbackCommand, RollbackSurroundings, started, start, replay, begin, add_operation,
  rollback_operation, get_by_idempotency_key,
}

-- The operation of a rollback is made for the document and the version that were found.
pub record Starts (t : String) (c : RollbackCommand) (db : Database) (o : LifecycleOperation)
    : Type 0 where
  pub document : Document
  pub target : DocumentVersion
  pub document_row : get t c.document_id db.documents ≡ some document
  pub target_row : get t c.target_version_id db.versions ≡ some target
  pub was_superseded : target.status ≡ superseded
  pub for_document : o.document_id ≡ document.id
  pub for_target : o.version_id ≡ target.id
  pub same_revision : o.expected_document_revision ≡ document.revision
  pub same_previous : o.previous_version_id ≡ document.current_version_id

start-kept :
    (r : RollbackSurroundings) (context : AuthorizationContext) (c : RollbackCommand) (d : Document)
    (target : DocumentVersion) (o : LifecycleOperation) (index : String)
    → start r context c d target ≡ ok (started o index)
    → (o ≡ rollback_operation r context c d target) × (target.status ≡ superseded)
unfolding validate_operation
start-kept r context c d target o index h = ground arith

replay-kept :
    (c : RollbackCommand) (f : String) (p o : LifecycleOperation) (index : String)
    → replay c f p ≡ ok (started o index)
    → ⊥
replay-kept c f p o index h = ground arith

pub begin-Starts :
    (r : RollbackSurroundings) (context : AuthorizationContext) (c : RollbackCommand)
    (db : Database) (o : LifecycleOperation) (index : String)
    → begin r context c db ≡ ok (started o index)
    → Starts context.tenant_id c db o
unfolding begin
begin-Starts r context c db o index h =
    let t = context.tenant_id in
    elim (Option-cases (get t c.document_id db.documents)) [
      | inl e ↦ absurd (ground arith)
      | inr (d, e) ↦ elim (Option-cases (get t c.target_version_id db.versions)) [
        | inl f ↦ absurd (ground arith)
        | inr (target, f) ↦
            elim (Result-cases (require context (authorization d) PermissionAction.write)) [
              | inr (x, g) ↦ absurd (ground arith)
              | inl (u, g) ↦
                  elim (Option-cases (get_by_idempotency_key t c.idempotency_key db.operations)) [
                    | inr (p, k) ↦ absurd (ground arith)
                    | inl k ↦
                        let (q, s) = start-kept r context c d target o index (ground arith) in
                        record {
                          document = d;
                          target = target;
                          document_row = e;
                          target_row = f;
                          was_superseded = s;
                          for_document = ap (λ x. x.document_id) q;
                          for_target = ap (λ x. x.version_id) q;
                          same_revision = ap (λ x. x.expected_document_revision) q;
                          same_previous = ap (λ x. x.previous_version_id) q;
                        }
                  ]
            ]
      ]
    ]

-- The database with an operation more.
abbrev pub with_operation : LifecycleOperation → Database → Database
with_operation o db = record db { operations = o ∷ db.operations }

pub add_operation_lem :
    (t : String) (o : LifecycleOperation) (rows rows' : List LifecycleOperation)
    → add_operation t o rows ≡ ok rows'
    → (o.tenant_id ≡ t) × (rows' ≡ o ∷ rows)
unfolding add_operation
add_operation_lem t o rows rows' h = ground (arith, eq_iff o.tenant_id t)

-- The new operation is the one that its key finds, and it was made for the current version.
pub started-follows :
    (t : String) (c : RollbackCommand) (db : Database) (o : LifecycleOperation)
    → Starts t c db o
    → o.tenant_id ≡ t
    → (p : LifecycleOperation) (d : Document) → get t o.id (o ∷ db.operations) ≡ some p
    → get t p.document_id db.documents ≡ some d
    → d.current_version_id ≡ p.previous_version_id
unfolding get
started-follows t c db o starts q p d g h =
    let same : some o ≡ some p = sym (ground (arith, has_key_iff t o.id o)) ∙ g in
    let key =
      (has_key_iff t c.document_id starts.document).0
        (get-has_key t c.document_id starts.document db.documents starts.document_row) in
    ground (arith, starts.for_document, key, starts.document_row, starts.same_previous)
