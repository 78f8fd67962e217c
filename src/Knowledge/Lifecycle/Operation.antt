-- ===== src/Knowledge/Lifecycle/Operation.antt =====
-- The data of knowledge/domain/lifecycle.py: operation kinds, statuses, steps and the operation.
use ragflow_agent.Base.{
  ℕ, String, Bool, true, false, not, ◌&&◌, Option, List, ltb, is_none, Check, ◌>>◌, raise_if,
  float_one, nat_eq,
}
use ragflow_agent.Knowledge.Errors.{Raised, invalid}
use ragflow_agent.Knowledge.Retry.{FailureClass}

pub data LifecycleOperationKind : Type 0 where
  update reparse rebuild activate rollback delete restore purge reconcile : LifecycleOperationKind

abbrev pub kind_value : LifecycleOperationKind → String
kind_value update = "update"
kind_value reparse = "reparse"
kind_value rebuild = "rebuild"
kind_value activate = "activate"
kind_value rollback = "rollback"
kind_value delete = "delete"
kind_value restore = "restore"
kind_value purge = "purge"
kind_value reconcile = "reconcile"

abbrev kind_index : LifecycleOperationKind → ℕ
kind_index update = 0
kind_index reparse = 1
kind_index rebuild = 2
kind_index activate = 3
kind_index rollback = 4
kind_index delete = 5
kind_index restore = 6
kind_index purge = 7
kind_index reconcile = 8

-- `a is b` for kinds.
abbrev pub same_kind : LifecycleOperationKind → LifecycleOperationKind → Bool
same_kind a b = nat_eq (kind_index a) (kind_index b)

pub data LifecycleOperationStatus : Type 0 where
  pending running waiting_retry cancel_requested cancelled succeeded failed dead_letter :
      LifecycleOperationStatus

-- `status in TERMINAL_LIFECYCLE_STATUSES`.
abbrev pub is_terminal : LifecycleOperationStatus → Bool
is_terminal cancelled = true
is_terminal succeeded = true
is_terminal failed = true
is_terminal dead_letter = true
is_terminal _ = false

pub data LifecycleStep : Type 0 where
  register store_object parse chunk embed write_index validate promote activate retire_previous
        mark_invisible clean_index clean_objects complete :
      LifecycleStep

pub data LifecycleStepStatus : Type 0 where
  pending running succeeded failed skipped : LifecycleStepStatus

pub record LifecycleError : Type 0 where
  pub classification : FailureClass
  pub code : String
  pub message : String
  pub retryable : Bool

pub record LifecycleStepState : Type 0 where
  pub step : LifecycleStep
  pub status : LifecycleStepStatus
  pub attempts : ℕ
  pub started_at : Option ℕ
  pub completed_at : Option ℕ
  pub last_error : Option LifecycleError

pub record LifecycleOperation : Type 0 where
  pub id : String
  pub tenant_id : String
  pub knowledge_base_id : String
  pub document_id : String
  pub version_id : String
  pub kind : LifecycleOperationKind
  pub idempotency_key : String
  pub actor_id : String
  pub reason : String
  pub request_id : String
  pub status : LifecycleOperationStatus
  pub current_step : LifecycleStep
  pub attempts : ℕ
  pub expected_document_revision : ℕ
  pub fencing_token : ℕ
  pub previous_version_id : Option String
  pub index_version_id : Option String
  pub batch_id : Option String
  pub command_fingerprint : Option String
  pub progress : ℕ
  pub next_attempt_at : Option ℕ
  pub purge_after : Option ℕ
  pub steps : List LifecycleStepState
  pub error : Option LifecycleError
  pub created_at : ℕ
  pub updated_at : ℕ

abbrev is_failed : LifecycleOperationStatus → Bool
is_failed failed = true
is_failed dead_letter = true
is_failed _ = false

abbrev may_carry_error : LifecycleOperationStatus → Bool
may_carry_error failed = true
may_carry_error dead_letter = true
may_carry_error waiting_retry = true
may_carry_error _ = false

-- The bounds of the fields and `LifecycleOperation.validate_operation`.
unfoldable pub validate_operation : LifecycleOperation → Check Raised
validate_operation o = do
  raise_if (nat_eq o.fencing_token 0) invalid
  raise_if (ltb float_one o.progress) invalid
  raise_if (ltb o.updated_at o.created_at) invalid
  raise_if (is_failed o.status && is_none o.error) invalid
  raise_if (not (may_carry_error o.status) && not (is_none o.error)) invalid
