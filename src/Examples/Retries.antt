-- ===== src/Examples/Retries.antt =====
-- Tests of the retries.
use ragflow_agent.Base.{ℕ, suc, Bool, false, arith}
use ragflow_agent.Agent.Resilience.{Ended, returned, raised_transient, run_operation}
use ragflow_agent.Agent.Resilience.Retrying.{IsBounded, run_operation-IsBounded}
use ragflow_agent.Examples.Fixtures.{floats}

-- Two attempts fail transiently and the third returns.
abbrev attempt : ℕ → Ended ℕ
attempt (suc (suc (suc n))) = returned 7
attempt n = raised_transient

abbrev never : ℕ → Bool
never n = false

run_operation-IsBounded_example :
    IsBounded attempt never never floats 0 3 (run_operation floats attempt never never 2 3 1)
run_operation-IsBounded_example =
    run_operation-IsBounded attempt never never floats 2 3 1 (omega arith)
