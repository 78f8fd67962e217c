-- ===== src/Examples/Knowledges.antt =====
-- Tests of authorization, ingestion, documents and lifecycle operations.
use ragflow_agent.Base.{
  ℕ, ◌+◌, ◌<◌, ◌≡◌, refl, ◌↔◌, inl, true, none, some, length, List, [], ◌∷◌, arith, ok, err, Result,
  float_one,
}
use mathlib.Core.List.{Memᴰ}
use ragflow_agent.Knowledge.Authorization.{
  AuthorizationContext, ResourceAuthorization, Visibility, read, require, May, require_iff,
}
use ragflow_agent.Knowledge.Retry.{FailureClass, Failure, RetryPolicy, classify_failure, may_retry}
use ragflow_agent.Knowledge.Retry.Limits.{Passing, allowed, may_retry_iff}
use ragflow_agent.Examples.Fixtures.{floats}
use ragflow_agent.Knowledge.Errors.{Raised}
use ragflow_agent.Knowledge.Ingestion.{
  IngestionStatus, IngestionStage, IngestionError, Progressed, IngestionTask, task_record,
  transition_ingestion, validate_task, validate_ingestion_record,
}
use ragflow_agent.Knowledge.Ingestion.Moves.{IsValid, Advances, transition-Advances}
use ragflow_agent.Knowledge.Ingestion.History.{
  Command, move, retry, run, LeadsTo, run-LeadsTo, accepted_retries, attempt-run,
}
use ragflow_agent.Knowledge.Document.{
  Document, DocumentStatus, DocumentVersion, DocumentVersionStatus, registered, ingesting, ready,
  validate_document, transition_document_version, activate_document_version, validate_version,
}
use ragflow_agent.Knowledge.Document.Histories.{Leads, Way, run-Leads, Way-run}
use ragflow_agent.Knowledge.Document.Versions
use ragflow_agent.Knowledge.Document.Versions.{VersionEdge, ready_needs_ingesting}
use ragflow_agent.Knowledge.Document.Activation.{
  MayActivate, IsDocument, activated, activate_iff, validate_document_iff,
}
use ragflow_agent.Knowledge.Lifecycle.Operation.{
  LifecycleOperation, LifecycleOperationKind, LifecycleOperationStatus, LifecycleStepStatus, parse,
  chunk, validate_operation,
}
use ragflow_agent.Knowledge.Lifecycle.{update_step, states_from, states_of, current_state}
use ragflow_agent.Knowledge.Lifecycle.Steps.{update_step-StepKept, StepKept}

abbrev person : AuthorizationContext
person = record { tenant_id = "t1"; actor_id = "ann"; request_id = "r1"; roles = [] }

abbrev shared : ResourceAuthorization
shared = record { tenant_id = "t1"; owner_id = "bob"; visibility = Visibility.tenant }

require_iff_example : (require person shared read ≡ ok tt) ↔ May person shared read
require_iff_example = require_iff person shared read

abbrev conflict : Failure ℕ
conflict = Failure.conflict_error "index_alias_conflict"

abbrev retry_policy : RetryPolicy
retry_policy = record { max_attempts = 6; concurrency_attempts = 3 }

may_retry_iff_example :
    (may_retry (classify_failure floats conflict) 2 retry_policy ≡ true)
    ↔ (Passing conflict × (2 < allowed conflict retry_policy))
may_retry_iff_example = may_retry_iff floats conflict 2 retry_policy

abbrev body : Progressed
body = record {
  status = IngestionStatus.pending;
  progress = 0;
  error = none;
  created_at = 5;
  updated_at = 5;
}

abbrev task : IngestionTask
task = record {
  schema_version = 1;
  id = "task";
  tenant_id = "t1";
  job_id = "job";
  document_version_id = "v1";
  stage = IngestionStage.parse;
  attempt = 1;
  idempotency_key = "k";
  trace_id = "tr";
  body = body;
}

body-IsValid : IsValid body
body-IsValid = record {
  bounded = ground arith;
  ordered = omega arith;
  complete = λ h. absurd (ground arith);
  explained = λ h. absurd (ground arith);
  clean = λ h. refl;
}

abbrev running_task : IngestionTask
running_task = record task {
  body = record body { status = IngestionStatus.running; updated_at = 8 };
}

transition-Advances_example : Advances body running_task.body
unfolding transition_ingestion validate_task validate_ingestion_record float_one
transition-Advances_example =
    transition-Advances task IngestionStatus.running 0 8 none running_task body-IsValid refl

abbrev crash : IngestionError
crash = record {
  code = "c";
  message = "m";
  retryable = true;
  classification = FailureClass.transient;
}

abbrev commands : List Command
commands =
    move IngestionStatus.running 0 6 none
    ∷ move IngestionStatus.failed 3 7 (some crash)
    ∷ retry 9
    ∷ []

run-LeadsTo_example : LeadsTo task (run task commands)
run-LeadsTo_example =
    run-LeadsTo task commands (record { body = body-IsValid; attempted = omega arith })

attempt-run_example : (run task commands).attempt ≡ task.attempt + accepted_retries task commands
attempt-run_example = attempt-run task commands

abbrev pub version : DocumentVersion
version = record {
  id = "v1";
  tenant_id = "t1";
  knowledge_base_id = "kb";
  document_id = "d1";
  created_by = "ann";
  object_key = "o";
  media_type = "text";
  content_hash = "h";
  content_hash_algorithm = "sha256";
  size_bytes = 3;
  status = registered;
  revision = 0;
  index_version_id = none;
  activated_at = none;
  retired_at = none;
  purge_after = none;
  created_at = 1;
  updated_at = 1;
}

abbrev requests : List (DocumentVersionStatus × ℕ)
requests = (ready, 2) ∷ (ingesting, 3) ∷ (ready, 4) ∷ []

ready_needs_ingesting_example : (now : ℕ) × Memᴰ (ingesting, now) requests
unfolding Versions.run transition_document_version validate_version
ready_needs_ingesting_example = ready_needs_ingesting version requests (inl refl) refl

run-Leads_example : Leads version (Versions.run version requests)
run-Leads_example = run-Leads version requests

Way-run_example :
    (asked : List (DocumentVersionStatus × ℕ)) × (length asked ≡ 2)
    × ((Versions.run version asked).status ≡ ready)
    × ((Versions.run version asked).revision ≡ 2)
Way-run_example =
    Way-run version registered ready 2 (omega arith) refl
      (Way.next VersionEdge.ingest (Way.next VersionEdge.publish Way.here))

abbrev pub document : Document
document = record {
  id = "d1";
  tenant_id = "t1";
  knowledge_base_id = "kb";
  owner_id = "ann";
  name = "n";
  visibility = Visibility.private;
  status = DocumentStatus.active;
  current_version_id = none;
  revision = 2;
  deleted_at = none;
  purge_after = none;
  created_at = 1;
  updated_at = 3;
}

document-IsDocument : IsDocument document
unfolding validate_document
document-IsDocument = (validate_document_iff document).0 refl

abbrev ready_version : DocumentVersion
ready_version = record version { status = ready }

activate_iff_example :
    (activate_document_version document ready_version 9 (some 2)
      ≡ ok (activated document ready_version 9))
    ↔ (MayActivate document ready_version 9 (some 2)
        × (activated document ready_version 9 ≡ activated document ready_version 9)
        × IsDocument (activated document ready_version 9))
activate_iff_example =
    activate_iff document ready_version 9 (some 2) (activated document ready_version 9)
      document-IsDocument

abbrev pub operation : LifecycleOperation
operation = record {
  id = "op";
  tenant_id = "t1";
  knowledge_base_id = "kb";
  document_id = "d1";
  version_id = "v1";
  kind = LifecycleOperationKind.update;
  idempotency_key = "k";
  actor_id = "ann";
  reason = "r";
  request_id = "q";
  status = LifecycleOperationStatus.running;
  current_step = parse;
  attempts = 1;
  expected_document_revision = 0;
  fencing_token = 1;
  previous_version_id = none;
  index_version_id = none;
  batch_id = none;
  command_fingerprint = none;
  progress = 0;
  next_attempt_at = none;
  purge_after = none;
  steps =
      record {
        step = chunk;
        status = LifecycleStepStatus.succeeded;
        attempts = 2;
        started_at = some 2;
        completed_at = some 3;
        last_error = none;
      }
      ∷ [];
  error = none;
  created_at = 1;
  updated_at = 3;
}

abbrev stepped : Result Raised LifecycleOperation
stepped = update_step operation parse LifecycleStepStatus.running 6 none

abbrev stored : Result Raised LifecycleOperation → LifecycleOperation
stored (ok o) = o
stored (err e) = operation

stepped-ok : stepped ≡ ok (stored stepped)
unfolding update_step states_from validate_operation float_one
stepped-ok = refl

update_step-StepKept_example :
    StepKept
      (current_state (states_of operation.steps) chunk)
      (current_state (states_of (stored stepped).steps) chunk)
update_step-StepKept_example =
    update_step-StepKept operation parse LifecycleStepStatus.running 6 none chunk stepped-ok
