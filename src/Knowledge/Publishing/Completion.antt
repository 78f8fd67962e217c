-- ===== src/Knowledge/Publishing/Completion.antt =====
-- `complete_ingestion` of knowledge/application/lifecycle/publish.py: the database that is left behind.
use ragflow_agent.Base.{
  ◌+◌, ◌≡◌, refl, sym, ap, ◌∙◌, subst, ◌⊎◌, inl, inr, String, some, arith, Result, ok, err,
  Result-cases, Bool-cases,
}
use ragflow_agent.Knowledge.Errors.{Raised}
use ragflow_agent.Knowledge.Document.{Document, DocumentVersion, ready}
use ragflow_agent.Knowledge.Lifecycle.Operation.{LifecycleOperation}
use ragflow_agent.Knowledge.Tables.{
  get, has_key_iff, get-has_key, version_keyed, operation_keyed, document_keyed,
}
use ragflow_agent.Knowledge.Publishing.{
  Database, Loaded, Prepared, Surroundings, load, prepare, commit, completed, with_loaded,
  is_succeeded, complete_ingestion,
}
use ragflow_agent.Knowledge.Publishing.Steps.{Prepares, prepare-Prepares}
use ragflow_agent.Knowledge.Publishing.Transactions.{
  Commits, Loads, commit-Commits, Retires-other, ready_after, load-Loads,
}
use ragflow_agent.Knowledge.Publishing.Current.{OnlyCurrent, after-OnlyCurrent, document_after}

-- The operation's version is published: it is ready and the current one of the document, whose
-- revision is one higher.
pub record IsPublished (t operation_id : String) (db db' : Database) : Type 0 where
  pub operation : LifecycleOperation
  pub before : Document
  pub after : Document
  pub version : DocumentVersion
  pub operation_row : get t operation_id db.operations ≡ some operation
  pub before_row : get t operation.document_id db.documents ≡ some before
  pub after_row : get t operation.document_id db'.documents ≡ some after
  pub version_row : get t operation.version_id db'.versions ≡ some version
  pub is_ready : version.status ≡ ready
  pub is_current : after.current_version_id ≡ some operation.version_id
  pub next_revision : after.revision ≡ before.revision + 1
  pub was_expected : before.revision ≡ operation.expected_document_revision

Commits-IsPublished :
    (t operation_id : String) (db db' : Database) (l : Loaded) (p : Prepared)
    → Loads t operation_id db l
    → Prepares l p
    → Commits t p db db'
    → get t l.document.id db'.documents ≡ some p.active_document
    → IsPublished t operation_id db db'
Commits-IsPublished t operation_id db db' l p loads prepares commits h =
    let doc =
      (has_key_iff t l.operation.document_id l.document).0
        (get-has_key t l.operation.document_id l.document db.documents loads.document_row) in
    let ver =
      (has_key_iff t l.operation.version_id l.version).0
        (get-has_key t l.operation.version_id l.version db.versions loads.version_row) in
    record {
      operation = l.operation;
      before = l.document;
      after = p.active_document;
      version = p.ready_version;
      operation_row = loads.operation_row;
      before_row = loads.document_row;
      after_row = ap (λ x. get t x db'.documents) (sym doc.1) ∙ h;
      version_row =
          ap (λ x. get t x db'.versions) (sym (prepares.ready_id ∙ ver.1))
          ∙ ap (get t p.ready_version.id) commits.versions_after
          ∙ ready_after t p.ready_version p.retired_version db.versions commits.ready_tenant
              commits.ready_row
              (λ u e.
                Retires-other l.previous p.retired_version p.ready_version u prepares.retires e);
      is_ready = prepares.is_ready;
      is_current = prepares.active_version ∙ ap some ver.1;
      next_revision = prepares.active_revision;
      was_expected = prepares.same_revision;
    }

-- The transaction ran, or nothing was written.
abbrev Completes : String → String → Database → Loaded → Database → Type 0
Completes t operation_id db l db' =
    (db' ≡ db) ⊎ ((p : Prepared) × Prepares l p × Commits t p db db')

completed-Completes :
    (t operation_id i : String) (l : Loaded) (s : Surroundings) (db : Database)
    (r : Result Raised Prepared)
    → prepare l i s ≡ r
    → Completes t operation_id db l (completed t l s db r).1
completed-Completes t operation_id i l s db (err e) h = inl refl
completed-Completes t operation_id i l s db (ok p) h =
    elim (Result-cases (commit t l.document.revision p db)) [
      | inr (x, c) ↦ inl (rw c refl)
      | inl (db', c) ↦ inr (
        p,
        prepare-Prepares l i s p h,
        subst (λ x. Commits t p db x) (ground arith)
            (commit-Commits t l.document.revision p db db' c),
      )
    ]

with_loaded-Completes :
    (t operation_id i : String) (s : Surroundings) (db : Database) (r : Result Raised Loaded)
    → load t operation_id db ≡ r
    → ((with_loaded t i s db r).1 ≡ db)
      ⊎ ((l : Loaded) × Loads t operation_id db l
          × ((p : Prepared) × Prepares l p × Commits t p db (with_loaded t i s db r).1))
with_loaded-Completes t operation_id i s db (err e) h = inl refl
with_loaded-Completes t operation_id i s db (ok l) h =
    elim (Bool-cases (is_succeeded l.operation.status)) [
      | inl k ↦ inl (rw k refl)
      | inr k ↦ rw k (elim (completed-Completes t operation_id i l s db (prepare l i s) refl) [
        | inl q ↦ inl q
        | inr c ↦ inr (l, load-Loads t operation_id db l h, c)
      ])
    ]

-- If every ready version is the current one of its document and no identifier is empty, and the
-- operation was made for the version that is current at the revision it expects, then after the
-- completion of its ingestion, whether it succeeds or raises and whatever the index answers, every
-- ready version is again the current one of its document; and either nothing was written or the
-- operation's version is ready and current, at the revision after the expected one.
pub complete-OnlyCurrent :
    (t operation_id index_version_id : String) (s : Surroundings) (db : Database)
    → OnlyCurrent db
    → ((o : LifecycleOperation) (d : Document)
        → get t operation_id db.operations ≡ some o
        → get t o.document_id db.documents ≡ some d
        → d.revision ≡ o.expected_document_revision
        → d.current_version_id ≡ o.previous_version_id)
    → let db' = (complete_ingestion t operation_id index_version_id s db).1 in
      OnlyCurrent db' × ((db' ≡ db) ⊎ IsPublished t operation_id db db')
unfolding complete_ingestion
complete-OnlyCurrent t operation_id i s db only made =
    let db' = (complete_ingestion t operation_id i s db).1 in
    elim (with_loaded-Completes t operation_id i s db (load t operation_id db) refl) [
      | inl q ↦ (subst OnlyCurrent (sym q) only, inl q)
      | inr (l, loads, (p, prepares, commits)) ↦
          let follows =
            made l.operation l.document loads.operation_row loads.document_row
              prepares.same_revision in
          let row = document_after t operation_id db db' l p only loads prepares commits follows in
          (
            after-OnlyCurrent t operation_id db db' l p only loads prepares commits follows,
            inr (Commits-IsPublished t operation_id db db' l p loads prepares commits row),
          )
    ]
