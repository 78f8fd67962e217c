-- ===== src/Knowledge/Retry/Limits.antt =====
-- Which failures knowledge/domain/retry.py retries, and how often.
use ragflow_agent.Base.{ℕ, ◌<◌, ◌≡◌, ◌↔◌, true, arith, FloatOps, In, elem_iff}
use ragflow_agent.Knowledge.Retry.{
  Failure, authorization_error, not_found_error, conflict_error, timeout_error, connection_error,
  status_error, other_error, concurrency_codes, is_transient_status, classify_failure, may_retry,
  RetryPolicy,
}

-- What may pass by itself: a conflict that a concurrent change caused, a lost connection, a timeout,
-- or a status that says so.
pub Passing : {N : Type 0} → Failure N → Type 0
Passing (conflict_error code) = In code concurrency_codes
Passing (timeout_error name) = Unit
Passing (connection_error name) = Unit
Passing (status_error s shown raw) = is_transient_status s ≡ true
Passing _ = ⊥

-- The number of attempts that a failure of this kind is allowed.
pub allowed : {N : Type 0} → Failure N → RetryPolicy → ℕ
allowed (conflict_error code) policy = policy.concurrency_attempts
allowed _ policy = policy.max_attempts

-- After an attempt that failed, another is made exactly if the failure may pass by itself and the
-- attempt's number is below the limit: that on concurrent changes for a conflict, the general one for
-- all others.
pub may_retry_iff :
    (F : FloatOps) (failure : Failure F.Float) (attempt : ℕ) (policy : RetryPolicy)
    → (may_retry (classify_failure F failure) attempt policy ≡ true)
      ↔ (Passing failure × (attempt < allowed failure policy))
unfolding may_retry classify_failure Passing allowed
may_retry_iff F (authorization_error code) attempt policy = ground arith
may_retry_iff F (not_found_error code) attempt policy = ground arith
may_retry_iff F (conflict_error code) attempt policy =
    ground (arith, elem_iff code concurrency_codes)
may_retry_iff F (timeout_error name) attempt policy = ground arith
may_retry_iff F (connection_error name) attempt policy = ground arith
may_retry_iff F (status_error s shown raw) attempt policy = ground arith
may_retry_iff F (other_error name) attempt policy = ground arith
