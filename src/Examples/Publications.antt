-- ===== src/Examples/Publications.antt =====
-- Tests of the publication of a version.
use ragflow_agent.Base.{
  ◌≡◌, refl, sym, ap, ◌∙◌, List, ◌⊎◌, inl, inr, String, Bool, true, false, some, eq_iff, [], ◌∷◌,
  arith, ok, Result, err,
}
use ragflow_agent.Knowledge.Errors.{Raised}
use ragflow_agent.Knowledge.Document.{
  Document, DocumentVersion, DocumentVersionStatus, ready, ingesting, superseded,
  transition_document_version, activate_document_version,
}
use ragflow_agent.Knowledge.Lifecycle.Operation.{LifecycleOperation, validate_operation}
use ragflow_agent.Knowledge.Lifecycle.{update_step, states_from, collect}
use ragflow_agent.Knowledge.Tables.{
  get, replace, save, save_if_revision, version_keyed, operation_keyed, document_keyed,
}
use ragflow_agent.Knowledge.Publishing.{
  Database, Surroundings, load, prepare, commit, complete_ingestion,
}
use ragflow_agent.Knowledge.Publishing.Current.{OnlyCurrent}
use ragflow_agent.Knowledge.Publishing.Completion.{IsPublished, complete-OnlyCurrent}
use ragflow_agent.Knowledge.Authorization.{AuthorizationContext, require, check}
use ragflow_agent.Knowledge.Rollback.{
  RollbackCommand, RollbackSurroundings, rollback, begin, add_operation, get_by_idempotency_key,
}
use ragflow_agent.Knowledge.Rollback.Current.{Leaves, rollback-OnlyCurrent}
use ragflow_agent.Examples.Knowledges.{version, document, operation}

abbrev old_version : DocumentVersion
old_version = record version { status = ready }

abbrev new_version : DocumentVersionStatus → DocumentVersion
new_version status = record version { id = "v2"; status = status }

abbrev published : Document
published = record document { current_version_id = some "v1" }

abbrev update : LifecycleOperation
update = record operation {
  version_id = "v2";
  expected_document_revision = 2;
  previous_version_id = some "v1";
}

abbrev rows : DocumentVersionStatus → List LifecycleOperation → Database
rows status operations = record {
  documents = published ∷ [];
  versions = old_version ∷ new_version status ∷ [];
  operations = operations;
}

abbrev database : Database
database = rows ingesting (update ∷ [])

abbrev surroundings : Surroundings
surroundings = record {
  validated = ok 4;
  promoted = ok tt;
  retired = ok tt;
  now = 9;
  retention = 30;
}

abbrev is_ok : Result Raised LifecycleOperation → Bool
is_ok (ok _) = true
is_ok (err _) = false

completes : is_ok (complete_ingestion "t1" "op" "i" surroundings database).0 ≡ true
unfolding complete_ingestion load prepare commit get replace save save_if_revision update_step
    states_from collect transition_document_version activate_document_version
completes = refl

versions_lem :
    (status : DocumentVersionStatus) (operations : List LifecycleOperation) (t i : String)
    (v : DocumentVersion)
    → get t i (rows status operations).versions ≡ some v
    → (t ≡ "t1") × (((i ≡ "v1") × (v ≡ old_version)) ⊎ ((i ≡ "v2") × (v ≡ new_version status)))
unfolding get
versions_lem status operations t i v g = ground (arith, eq_iff "t1" t, eq_iff "v1" i, eq_iff "v2" i)

rows-OnlyCurrent :
    (status : DocumentVersionStatus) (operations : List LifecycleOperation)
    → (status ≡ ready → ⊥)
    → OnlyCurrent (rows status operations)
unfolding get
rows-OnlyCurrent status operations unready = record {
  current = λ t i v g s.
      let (a, b) = versions_lem status operations t i v g in
      elim b [
        | inl (c, d) ↦ rw (a, d) (published, refl, refl)
        | inr (c, d) ↦ absurd (unready (sym (ap (λ x. x.status) d) ∙ s))
      ];
  named = λ t i v g. elim (versions_lem status operations t i v g).1 [
    | inl (c, d) ↦ rw c refl
    | inr (c, d) ↦ rw c refl
  ];
}

database-OnlyCurrent : OnlyCurrent database
database-OnlyCurrent = rows-OnlyCurrent ingesting (update ∷ []) (λ e. ground arith)

abbrev history : Database
history = rows superseded []

history-OnlyCurrent : OnlyCurrent history
history-OnlyCurrent = rows-OnlyCurrent superseded [] (λ e. ground arith)

update_follows :
    (o : LifecycleOperation) (d : Document)
    → get "t1" "op" database.operations ≡ some o
    → get "t1" o.document_id database.documents ≡ some d
    → d.revision ≡ o.expected_document_revision
    → d.current_version_id ≡ o.previous_version_id
unfolding get
update_follows o d g h r = ground arith

complete-OnlyCurrent_example :
    OnlyCurrent (complete_ingestion "t1" "op" "i" surroundings database).1
    × (((complete_ingestion "t1" "op" "i" surroundings database).1 ≡ database)
        ⊎ IsPublished "t1" "op" database (complete_ingestion "t1" "op" "i" surroundings database).1)
complete-OnlyCurrent_example =
    complete-OnlyCurrent "t1" "op" "i" surroundings database database-OnlyCurrent update_follows

abbrev owner : AuthorizationContext
owner = record { tenant_id = "t1"; actor_id = "ann"; request_id = "r1"; roles = [] }

abbrev command : RollbackCommand
command = record {
  document_id = "d1";
  target_version_id = "v2";
  idempotency_key = "k";
  reason = "r";
}

abbrev generated : RollbackSurroundings
generated = record { strip = λ s. s; sha256 = λ s. s; new_id = "op"; created_at = 8 }

goes_back : is_ok (rollback generated owner command surroundings history).0 ≡ true
unfolding rollback begin add_operation get_by_idempotency_key require check validate_operation
    complete_ingestion load prepare commit get replace save save_if_revision update_step states_from
    collect transition_document_version activate_document_version
goes_back = refl

rollback-OnlyCurrent_example :
    OnlyCurrent (rollback generated owner command surroundings history).1
    × Leaves "t1" command history (rollback generated owner command surroundings history).1
rollback-OnlyCurrent_example =
    rollback-OnlyCurrent generated owner command surroundings history history-OnlyCurrent
