-- ===== src/Examples/Approvals.antt =====
-- Tests of the approvals, one process at a time and many at once.
use ragflow_agent.Base.{ℕ, ◌≤◌, ◌≡◌, refl, inl, none, [], ◌∷◌, arith}
use ragflow_agent.Base.Dict
use ragflow_agent.Agent.Schema.{validate, redact, reject_secret_arguments}
use ragflow_agent.Agent.Tools.{
  ToolAuthorizationContext, Attempt, authorize, resolve, execute, evaluate, invoke, attempts,
}
use ragflow_agent.Agent.Tools
use ragflow_agent.Agent.Budget
use ragflow_agent.Agent.Approval.Requests.{
  ApprovalRequest, find, compare_and_set, approval_required, approved, executing,
}
use ragflow_agent.Agent.Approval.{
  Resumed, approve, decided, decide, resume, with_status, expire_if_needed,
}
use ragflow_agent.Agent.Approval.Concurrency.{
  Shared, Reached, Moves, requested, next, reads, writes, write, decision, claim, executions,
  propose, claims-Reached,
}
use ragflow_agent.Agent.Approval.Decisions.{resume_once}
use ragflow_agent.Agent.Approval.Verdicts.{Decides, decide-Decides}
use ragflow_agent.Examples.Fixtures.{
  platform, ledger, registry, context, invocation, service, world,
}

abbrev row : ApprovalRequest
row = record {
  approval_id = "a1";
  run_id = "run";
  thread_id = "thread";
  tool_call_id = "call";
  tool_name = "search";
  tool_version = "1";
  argument_digest = "{}";
  tenant_id = "t1";
  user_id = "bob";
  reason = "risk";
  required_roles = "lead" ∷ [];
  created_at = 0;
  expires_at = 30;
  idempotency_key = "key";
  status = approval_required;
  decided_by = none;
  decided_at = none;
  result_summary = none;
  revision = 0;
}

abbrev lead : ToolAuthorizationContext
lead = record { tenant_id = "t1"; actor_id = "cy"; request_id = "r2"; roles = "lead" ∷ [] }

decide-Decides_example :
    Decides lead approve 10 11 lead.tenant_id "a1"
      (row ∷ [])
      row
      (decide "a1" lead approve 10 11 (row ∷ []))
unfolding find
decide-Decides_example = decide-Decides "a1" lead approve 10 11 (row ∷ []) row refl

abbrev approved_row : ApprovalRequest
approved_row = with_status row approved

abbrev resumed : Resumed ℕ
resumed =
    resume platform registry world "a1" invocation context 10 (approved_row ∷ []) service ledger

resumed_calls : resumed.calls ≡ 2
unfolding resume find compare_and_set expire_if_needed authorize resolve execute validate redact
    reject_secret_arguments evaluate Dict.get Dict.same_key Tools.decide invoke attempts
    Budget.consume_tool
resumed_calls = refl

resume_once_example :
    (resume platform registry
      (λ n. Attempt.raised_other)
      "a1"
      invocation
      context
      12
      resumed.store
      service
      ledger).calls
    ≡ 0
resume_once_example =
    resume_once platform registry registry world (λ n. Attempt.raised_other) "a1" invocation
      invocation context context 10 12 (approved_row ∷ []) service service ledger ledger refl
      (ground (arith, resumed_calls))

abbrev before : Shared
before = record { store = row ∷ []; seen = []; claims = 0 }

abbrev seen_once : Shared
seen_once = record { store = row ∷ []; seen = row ∷ []; claims = 0 }

abbrev ruled_row : ApprovalRequest
ruled_row = decided row approved "cy" 5

abbrev ruled : Shared
ruled = record { store = ruled_row ∷ []; seen = row ∷ []; claims = 0 }

abbrev seen_twice : Shared
seen_twice = record { store = ruled_row ∷ []; seen = ruled_row ∷ row ∷ []; claims = 0 }

abbrev claimed_once : Shared
claimed_once = write claim ruled_row (with_status ruled_row executing) seen_twice

-- Two processes read the approved row and both claim it.
abbrev claimed_twice : Shared
claimed_twice = write claim ruled_row (with_status ruled_row executing) claimed_once

abbrev Steps : Shared → Shared → Type 0
Steps s s' = Moves "t1" "a1" s s'

claimed_twice-Reached : Reached "t1" "a1" claimed_twice
unfolding find compare_and_set propose
claimed_twice-Reached =
    next claimed_once claimed_twice
      (next seen_twice claimed_once
        (next ruled seen_twice
          (next seen_once ruled
            (next before seen_once (requested (row ∷ []) row refl refl) (reads before row refl))
            (writes seen_once row ruled_row (decision lead approve 5) (inl refl) refl))
          (reads ruled ruled_row refl))
        (writes seen_twice ruled_row (with_status ruled_row executing) claim (inl refl) refl))
      (writes claimed_once ruled_row (with_status ruled_row executing) claim (inl refl) refl)

claims-Reached_example : (claimed_twice.claims ≤ 1) × (claimed_twice.claims ≡ executions executing)
unfolding find compare_and_set
claims-Reached_example =
    claims-Reached "t1" "a1" claimed_twice (with_status ruled_row executing) claimed_twice-Reached
      refl
