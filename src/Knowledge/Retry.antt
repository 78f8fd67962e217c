-- ===== src/Knowledge/Retry.antt =====
-- knowledge/domain/retry.py and the `FailureClass` of knowledge/domain/lifecycle.py.
pub mod Limits
use Prim.Native.String.{◌++◌}
use ragflow_agent.Base.{
  ℕ, String, Bool, true, false, not, ◌&&◌, ◌||◌, Option, none, some, List, [], ◌∷◌, ltb, leb,
  nat_eq, elem, if◌then◌else◌, FloatOps,
}

pub data FailureClass : Type 0 where
  transient concurrency permanent cancelled unknown : FailureClass

abbrev pub same_class : FailureClass → FailureClass → Bool
same_class transient transient = true
same_class concurrency concurrency = true
same_class permanent permanent = true
same_class cancelled cancelled = true
same_class unknown unknown = true
same_class _ _ = false

-- An exception as `classify_failure` tells it apart: the errors of knowledge/domain/errors.py by
-- their code, TimeoutError and ConnectionError and all others by the name of their type, and those with
-- an integer `status_code` by it, its text, and their `retry_after`.
pub data Failure (N : Type 0) : Type 0 where
  authorization_error : String → Failure N
  not_found_error : String → Failure N
  conflict_error : String → Failure N
  timeout_error : String → Failure N
  connection_error : String → Failure N
  status_error : ℕ → String → Option N → Failure N
  other_error : String → Failure N

pub record FailureDecision (N : Type 0) : Type 0 where
  pub classification : FailureClass
  pub retryable : Bool
  pub code : String
  pub retry_after_seconds : Option N

-- `_CONCURRENCY_CODES`.
abbrev pub concurrency_codes : List String
concurrency_codes =
    "document_revision_conflict" ∷ "lifecycle_fencing_conflict" ∷ "index_alias_conflict"
    ∷ "operation_lease_lost" ∷ []

-- The statuses that may pass: 408, 409, 425, 429 and from 500 on.
abbrev pub is_transient_status : ℕ → Bool
is_transient_status s = nat_eq s 408 || nat_eq s 409 || nat_eq s 425 || nat_eq s 429 || leb 500 s

abbrev decision : {N : Type 0} → FailureClass → Bool → String → FailureDecision N
decision c retryable code = record {
  classification = c;
  retryable = retryable;
  code = code;
  retry_after_seconds = none;
}

module _ (F : FloatOps) where
  -- `_retry_after`, of a value that is a number or reads as one.
  abbrev retry_after : Option F.Float → Option F.Float
  retry_after none = none
  retry_after (some x) = some (if F.leb x F.zero then F.zero else x)

  unfoldable pub classify_failure : Failure F.Float → FailureDecision F.Float
  classify_failure (authorization_error code) = decision permanent false code
  classify_failure (not_found_error code) = decision permanent false code
  classify_failure (conflict_error code) =
      let retryable = elem code concurrency_codes in
      decision (if retryable then concurrency else permanent) retryable code
  classify_failure (timeout_error name) = decision transient true name
  classify_failure (connection_error name) = decision transient true name
  classify_failure (status_error s shown raw) =
      let retryable = is_transient_status s in
      record {
        classification = if retryable then transient else permanent;
        retryable = retryable;
        code = "http_" ++ shown;
        retry_after_seconds = retry_after raw;
      }
  classify_failure (other_error name) = decision unknown false name

-- The two limits of `RetryPolicy` on attempts.
pub record RetryPolicy : Type 0 where
  pub max_attempts : ℕ
  pub concurrency_attempts : ℕ

unfoldable pub may_retry : {N : Type 0} → FailureDecision N → ℕ → RetryPolicy → Bool
may_retry d attempt policy =
    let limit =
      if same_class d.classification concurrency
      then policy.concurrency_attempts
      else policy.max_attempts in
    d.retryable && ltb attempt limit
