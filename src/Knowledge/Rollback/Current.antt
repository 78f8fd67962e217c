-- ===== src/Knowledge/Rollback/Current.antt =====
-- `rollback` of knowledge/application/lifecycle/publish.py: the database that is left behind.
use ragflow_agent.Base.{
  ◌≡◌, refl, sym, ap, ◌∙◌, ◌⊎◌, inl, inr, String, some, arith, Result, ok, err, ◌+◌, List,
}
use ragflow_agent.Knowledge.Errors.{Raised}
use ragflow_agent.Knowledge.Authorization.{AuthorizationContext}
use ragflow_agent.Knowledge.Document.{Document, DocumentVersion, ready, superseded}
use ragflow_agent.Knowledge.Lifecycle.Operation.{LifecycleOperation}
use ragflow_agent.Knowledge.Tables.{
  get, has_key_iff, get-has_key, document_keyed, version_keyed, operation_keyed,
}
use ragflow_agent.Knowledge.Publishing.{Database, Surroundings}
use ragflow_agent.Knowledge.Publishing.Current.{OnlyCurrent}
use ragflow_agent.Knowledge.Publishing.Completion.{IsPublished, complete-OnlyCurrent}
use ragflow_agent.Knowledge.Rollback.{
  RollbackCommand, RollbackSurroundings, Begun, replayed, started, begin, add_operation, added,
  go_on, rollback,
}
use ragflow_agent.Knowledge.Rollback.Starting.{
  Starts, begin-Starts, with_operation, add_operation_lem, started-follows,
}

-- The version that is rolled back to is current again: it was superseded, and is now ready and the
-- current one of its document, whose revision is one higher.
pub record IsRolledBack (t : String) (c : RollbackCommand) (db db' : Database) : Type 0 where
  pub before : Document
  pub after : Document
  pub old : DocumentVersion
  pub new : DocumentVersion
  pub before_row : get t c.document_id db.documents ≡ some before
  pub after_row : get t c.document_id db'.documents ≡ some after
  pub old_row : get t c.target_version_id db.versions ≡ some old
  pub new_row : get t c.target_version_id db'.versions ≡ some new
  pub was_superseded : old.status ≡ superseded
  pub is_ready : new.status ≡ ready
  pub is_current : after.current_version_id ≡ some c.target_version_id
  pub next_revision : after.revision ≡ before.revision + 1

published-IsRolledBack :
    (t : String) (c : RollbackCommand) (db db' : Database) (o : LifecycleOperation)
    → Starts t c db o
    → o.tenant_id ≡ t
    → IsPublished t o.id (with_operation o db) db'
    → IsRolledBack t c db db'
unfolding get
published-IsRolledBack t c db db' o starts q p =
    let same : some o ≡ some p.operation =
      sym (ground (arith, has_key_iff t o.id o)) ∙ p.operation_row in
    let doc =
      (has_key_iff t c.document_id starts.document).0
        (get-has_key t c.document_id starts.document db.documents starts.document_row) in
    let ver =
      (has_key_iff t c.target_version_id starts.target).0
        (get-has_key t c.target_version_id starts.target db.versions starts.target_row) in
    let d : p.operation.document_id ≡ c.document_id = ground (arith, starts.for_document, doc) in
    let v : p.operation.version_id ≡ c.target_version_id = ground (arith, starts.for_target, ver) in
    record {
      before = p.before;
      after = p.after;
      old = starts.target;
      new = p.version;
      before_row = ap (λ x. get t x db.documents) (sym d) ∙ p.before_row;
      after_row = ap (λ x. get t x db'.documents) (sym d) ∙ p.after_row;
      old_row = starts.target_row;
      new_row = ap (λ x. get t x db'.versions) (sym v) ∙ p.version_row;
      was_superseded = starts.was_superseded;
      is_ready = p.is_ready;
      is_current = p.is_current ∙ ap some v;
      next_revision = p.next_revision;
    }

-- What a rollback leaves behind.
abbrev pub Leaves : String → RollbackCommand → Database → Database → Type 0
Leaves t c db db' =
    (db' ≡ db) ⊎ ((o : LifecycleOperation) × (db' ≡ with_operation o db)) ⊎ IsRolledBack t c db db'

with_operation-OnlyCurrent :
    (o : LifecycleOperation) (db : Database) → OnlyCurrent db → OnlyCurrent (with_operation o db)
with_operation-OnlyCurrent o db only = record { current = only.current; named = only.named }

started-Leaves :
    (t index : String) (c : RollbackCommand) (s : Surroundings) (db : Database)
    (o : LifecycleOperation) (rows : Result Raised (List LifecycleOperation))
    → OnlyCurrent db
    → Starts t c db o
    → add_operation t o db.operations ≡ rows
    → let db' = (added t o index s db rows).1 in OnlyCurrent db' × Leaves t c db db'
started-Leaves t index c s db o (err e) only starts h = (only, inl refl)
started-Leaves t index c s db o (ok rows) only starts h =
    let (q, e) = add_operation_lem t o db.operations rows h in
    let (kept, left) =
      complete-OnlyCurrent t o.id index s (with_operation o db)
        (with_operation-OnlyCurrent o db only)
        (λ p d g h' r. started-follows t c db o starts q p d g h') in
    rw e (
      kept,
      elim left [
        | inl same ↦ inr (inl (o, same))
        | inr p ↦ inr (inr (published-IsRolledBack t c db _ o starts q p))
      ],
    )

go_on-Leaves :
    (r : RollbackSurroundings) (context : AuthorizationContext) (c : RollbackCommand)
    (s : Surroundings) (db : Database) (b : Result Raised Begun)
    → OnlyCurrent db
    → begin r context c db ≡ b
    → let db' = (go_on context.tenant_id s db b).1 in
      OnlyCurrent db' × Leaves context.tenant_id c db db'
go_on-Leaves r context c s db (err e) only h = (only, inl refl)
go_on-Leaves r context c s db (ok (replayed o)) only h = (only, inl refl)
go_on-Leaves r context c s db (ok (started o index)) only h =
    started-Leaves context.tenant_id index c s db o
      (add_operation context.tenant_id o db.operations) only (begin-Starts r context c db o index h)
      refl

-- If every ready version is the current one of its document and no identifier is empty, then after a
-- rollback, whether it returns or raises and whatever the index answers, every ready version is again
-- the current one of its document; and either nothing was written, or an operation was added and
-- nothing else, or the target was superseded and is now ready and current, at the next revision.
pub rollback-OnlyCurrent :
    (r : RollbackSurroundings) (context : AuthorizationContext) (c : RollbackCommand)
    (s : Surroundings) (db : Database)
    → OnlyCurrent db
    → let db' = (rollback r context c s db).1 in OnlyCurrent db' × Leaves context.tenant_id c db db'
unfolding rollback
rollback-OnlyCurrent r context c s db only =
    go_on-Leaves r context c s db (begin r context c db) only refl
