-- ===== src/Agent/Resilience.antt =====
-- `run_operation` of agent/application/resilience.py. What happens outside is an argument: `world n`
-- is how attempt number n ends, its time limit and a cancellation during it included, and the two
-- tests say whether the token is set before attempt n and during the delay after it.
pub mod Retrying
use ragflow_agent.Base.{
  ℕ, zero, suc, ◌+◌, String, Bool, true, false, List, [], ◌∷◌, if◌then◌else◌, FloatOps,
}

-- How one attempt ends.
pub data Ended (A : Type 0) : Type 0 where
  returned : A → Ended A
  raised_transient : Ended A
  raised_agent_error : String → Ended A
  raised_other : Ended A

-- How the operation ends: with a value and the retries before it, or with an error of
-- agent/domain/errors.py.
pub data OperationOutcome (A : Type 0) : Type 0 where
  done : A → ℕ → OperationOutcome A
  retries_exhausted : ℕ → OperationOutcome A
  agent_error : String → OperationOutcome A
  model_error : OperationOutcome A
  cancelled : OperationOutcome A
  assertion_error : OperationOutcome A

-- The outcome, how often the operation was called, and the delays between the calls.
pub record Operated (A N : Type 0) : Type 0 where
  pub outcome : OperationOutcome A
  pub calls : ℕ
  pub delays : List N

module _ (F : FloatOps) {A : Type 0} where
  abbrev at_once : OperationOutcome A → Operated A F.Float
  at_once o = record { outcome = o; calls = 0; delays = [] }

  abbrev after_call : OperationOutcome A → Operated A F.Float
  after_call o = record { outcome = o; calls = 1; delays = [] }

  abbrev slept : F.Float → Operated A F.Float → Operated A F.Float
  slept delay r = record { outcome = r.outcome; calls = r.calls + 1; delays = delay ∷ r.delays }

  abbrev cut_short : F.Float → Operated A F.Float
  cut_short delay = record { outcome = cancelled; calls = 1; delays = delay ∷ [] }

  -- What follows attempt number `attempt`; `again` is what follows a transient error.
  abbrev after_attempt : Ended A → ℕ → Operated A F.Float → Operated A F.Float
  after_attempt (returned v) before again = after_call (done v before)
  after_attempt raised_transient before again = again
  after_attempt (raised_agent_error code) before again = after_call (agent_error code)
  after_attempt raised_other before again = after_call model_error

  module _ (world : ℕ → Ended A) (is_cancelled is_cancelled_in_delay : ℕ → Bool)
      (backoff_factor : F.Float) where
    -- The loop from the attempt that has `before` attempts before it and `left` after it.
    unfoldable pub attempt_from : ℕ → ℕ → F.Float → Operated A F.Float
    attempt_from zero before delay =
        if is_cancelled (suc before)
        then at_once cancelled
        else after_attempt (world (suc before)) before (after_call (retries_exhausted (suc before)))
    attempt_from (suc left) before delay =
        let rest = attempt_from left (suc before) (F.mul delay backoff_factor) in
        let again =
          if is_cancelled_in_delay (suc before) then cut_short delay else slept delay rest in
        if is_cancelled (suc before)
        then at_once cancelled
        else after_attempt (world (suc before)) before again

    unfoldable pub run_operation : ℕ → F.Float → Operated A F.Float
    unfolding attempt_from
    run_operation zero initial = at_once assertion_error
    run_operation (suc left) initial = attempt_from left 0 initial
