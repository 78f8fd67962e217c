-- ===== src/Knowledge/Ingestion.antt =====
-- knowledge/domain/ingestion.py: jobs, stage tasks, their states and the queue envelope.
-- A timestamp is timezone-aware and counted in microseconds, so its awareness check never fails.
-- Identifiers are taken as stripped and non-empty, which `NonEmptyStr` ensures when a model is made.

pub mod Moves
pub mod History
use ragflow_agent.Base.{
  ℕ, ◌+◌, String, ◌≡◌, refl, Bool, true, false, not, ◌&&◌, ◌||◌, Option, none, some, arith, ltb,
  nat_eq, ◌==◌, is_none, same_bool, if◌then◌else◌, Result, Check, ok, err, ◌>>=◌, ◌>>◌, raise_if,
  float_one,
}
use ragflow_agent.Knowledge.Errors.{Raised, conflict, invalid}
use ragflow_agent.Knowledge.Retry.{FailureClass, same_class}

pub data IngestionStatus : Type 0 where
  pending running succeeded failed cancelled : IngestionStatus

pub data IngestionStage : Type 0 where
  register parse chunk embed index : IngestionStage

abbrev pub same_status : IngestionStatus → IngestionStatus → Bool
same_status pending pending = true
same_status running running = true
same_status succeeded succeeded = true
same_status failed failed = true
same_status cancelled cancelled = true
same_status _ _ = false

abbrev pub is_terminal : IngestionStatus → Bool
is_terminal succeeded = true
is_terminal failed = true
is_terminal cancelled = true
is_terminal _ = false

-- `target in _TRANSITIONS[current]`.
abbrev pub in_transitions : IngestionStatus → IngestionStatus → Bool
in_transitions pending running = true
in_transitions pending cancelled = true
in_transitions running succeeded = true
in_transitions running failed = true
in_transitions running cancelled = true
in_transitions _ _ = false

pub record IngestionError : Type 0 where
  pub code : String
  pub message : String
  pub retryable : Bool
  pub classification : FailureClass

abbrev pub same_error : Option IngestionError → Option IngestionError → Bool
same_error none none = true
same_error (some a) (some b) =
    a.code == b.code
    && a.message == b.message
    && same_bool a.retryable b.retryable
    && same_class a.classification b.classification
same_error _ _ = false

-- The fields that jobs and tasks share and that a transition reads or writes.
pub record Progressed : Type 0 where
  pub status : IngestionStatus
  pub progress : ℕ
  pub error : Option IngestionError
  pub created_at : ℕ
  pub updated_at : ℕ

pub record IngestionJob : Type 0 where
  pub schema_version : ℕ
  pub id : String
  pub tenant_id : String
  pub knowledge_base_id : String
  pub document_id : String
  pub document_version_id : String
  pub requested_by : String
  pub idempotency_key : String
  pub trace_id : String
  pub operation_id : Option String
  pub body : Progressed
  pub open body use *

pub record IngestionTask : Type 0 where
  pub schema_version : ℕ
  pub id : String
  pub tenant_id : String
  pub job_id : String
  pub document_version_id : String
  pub stage : IngestionStage
  pub attempt : ℕ
  pub idempotency_key : String
  pub trace_id : String
  pub body : Progressed
  pub open body use *

pub record IngestionEnvelope : Type 0 where
  pub schema_version : ℕ
  pub message_id : String
  pub tenant_id : String
  pub job_id : String
  pub task_id : String
  pub document_version_id : String
  pub stage : IngestionStage
  pub attempt : ℕ
  pub idempotency_key : String
  pub trace_id : String
  pub created_at : ℕ

-- `IngestionEnvelope.from_task`, with the model's bound on `attempt`.
unfoldable pub from_task : IngestionTask → String → ℕ → Result Raised IngestionEnvelope
from_task task message_id created_at = do
  raise_if (nat_eq task.attempt 0) invalid
  ok (record {
    schema_version = 1;
    message_id = message_id;
    tenant_id = task.tenant_id;
    job_id = task.job_id;
    task_id = task.id;
    document_version_id = task.document_version_id;
    stage = task.stage;
    attempt = task.attempt;
    idempotency_key = task.idempotency_key;
    trace_id = task.trace_id;
    created_at = created_at;
  })

-- `_validate_ingestion_record`, after the field bound `0 <= progress <= 1`.
unfoldable pub validate_ingestion_record : Progressed → Check Raised
validate_ingestion_record r = do
  raise_if (ltb float_one r.progress) invalid
  raise_if (ltb r.updated_at r.created_at) invalid
  raise_if (same_status r.status succeeded && not (nat_eq r.progress float_one)) invalid
  raise_if (same_status r.status failed && is_none r.error) invalid
  raise_if (not (same_status r.status failed) && not (is_none r.error)) invalid

-- What `transition_ingestion` uses of its type variable, which ranges over jobs and tasks.
pub record IngestionRecord (R : Type 0) : Type 0 where
  pub body : R → Progressed
  pub with_body : R → Progressed → R
  pub validate : R → Check Raised
  pub body_with_body : (r : R) (b : Progressed) → body (with_body r b) ≡ b
  pub validate_body : (r : R) → validate r ≡ ok tt → validate_ingestion_record (body r) ≡ ok tt

unfoldable pub validate_task : IngestionTask → Check Raised
validate_task task = do
  raise_if (nat_eq task.attempt 0) invalid
  validate_ingestion_record task.body

pub validate_task_body :
    (t : IngestionTask) → validate_task t ≡ ok tt → validate_ingestion_record t.body ≡ ok tt
unfolding validate_task
validate_task_body t h = ground arith

instance abbrev pub job_record : IngestionRecord IngestionJob
job_record = record {
  body = λ j. j.body;
  with_body = λ j b. record j { body = b };
  validate = λ j. validate_ingestion_record j.body;
  body_with_body = λ j b. refl;
  validate_body = λ j h. h;
}

instance abbrev pub task_record : IngestionRecord IngestionTask
task_record = record {
  body = λ t. t.body;
  with_body = λ t b. record t { body = b };
  validate = validate_task;
  body_with_body = λ t b. refl;
  validate_body = validate_task_body;
}

module _ {R : Type 0} ⦃i : IngestionRecord R⦄ where
  -- `type(record).model_validate(...)`.
  abbrev pub model_validate : R → Result Raised R
  model_validate r = do i.validate r; ok r

  unfoldable pub transition_ingestion :
      R → IngestionStatus → ℕ → ℕ → Option IngestionError → Result Raised R
  transition_ingestion r target progress changed_at error =
      let b = i.body r in
      if ltb changed_at b.updated_at
      then err (conflict "ingestion_timestamp_regression")
      else if same_status target b.status
      then (if nat_eq progress b.progress && same_error error b.error
          then ok r
          else err (conflict "ingestion_duplicate_conflict"))
      else if not (in_transitions b.status target)
      then err (conflict "ingestion_transition_invalid")
      else if ltb progress b.progress
      then err (conflict "ingestion_progress_regression")
      else model_validate (
          i.with_body r (record b {
            status = target;
            progress = progress;
            error = error;
            updated_at = changed_at;
          }))

-- `task.error is None or not task.error.retryable`, negated.
abbrev pub has_retryable_error : Option IngestionError → Bool
has_retryable_error none = false
has_retryable_error (some e) = e.retryable

unfoldable pub retry_ingestion_task : IngestionTask → ℕ → Result Raised IngestionTask
unfolding validate_task
retry_ingestion_task task changed_at =
    if ltb changed_at task.updated_at
    then err (conflict "ingestion_timestamp_regression")
    else if not (same_status task.status failed) || not (has_retryable_error task.error)
    then err (conflict "ingestion_retry_not_allowed")
    else model_validate (record task {
      attempt = task.attempt + 1;
      body = record task.body { status = running; error = none; updated_at = changed_at };
    })
