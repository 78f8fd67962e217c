-- ===== src/Agent/Tools/Replay.antt =====
-- The memory of `SecureToolExecutionService` in agent/application/tool_policy.py, and what
-- a repeated call gets from it.
use ragflow_agent.Base.{
  ℕ, ◌≡◌, ◌≢◌, refl, inl, inr, Bool, true, false, Option, none, some, arith, Result, ok, err,
  eq_iff, eq_refl, Option-cases, Result-cases, Bool-cases, ◌==◌, not, ◌&&◌,
}
use ragflow_agent.Base.Dict
use ragflow_agent.Base.Dict.{Dict, same_key_refl, same_key_iff, Key}
use ragflow_agent.Agent.Errors.{AgentRaised}
use ragflow_agent.Agent.Platform.{Platform}
use ragflow_agent.Agent.Values.{Value}
use ragflow_agent.Agent.Budget.{BudgetLedger}
use ragflow_agent.Agent.Tools.{
  ToolRegistration, ToolAuthorizationContext, ToolInvocation, ToolPolicyDecision,
  ToolExecutionOutcome, OutcomeStatus, Attempt, attempts, authorize, invoke, decide, execute,
  ToolService, Executed, Looped, after_loop, safe, argument_digest, completed_key, signature,
  is_deny, success_outcome, finish, is_require_approval, from_signature, from_completed, RawResult,
  output, error_code,
}

module _ (P : Platform) where
  -- An outcome that is found by its arguments has their digest in its summary.
  pub record IsService (s : ToolService) : Type 0 where
    pub digests :
        (c : ToolAuthorizationContext) (i : ToolInvocation) (o : ToolExecutionOutcome)
        → Dict.get s.successful_signatures (signature P c i) ≡ some o
        → o.summary.argument_digest ≡ argument_digest P i

  -- The outcome is remembered under the call's key.
  pub record IsRemembered (s : ToolService) (c : ToolAuthorizationContext) (i : ToolInvocation)
      (o : ToolExecutionOutcome) : Type 0 where
    pub found : Dict.get s.completed (completed_key P c i) ≡ some o
    pub same_arguments : o.summary.argument_digest ≡ argument_digest P i

  module _ {N : Type 0} (i : ToolInvocation) (c : ToolAuthorizationContext) where
    after_loop-IsRemembered :
        (r : ToolRegistration) (service : ToolService) (l : Looped N) (o : ToolExecutionOutcome)
        → (after_loop P i c service r l.ledger l.calls l.raw).result ≡ ok o
        → IsRemembered (after_loop P i c service r l.ledger l.calls l.raw).service c i o
    unfolding Dict.get Dict.put
    after_loop-IsRemembered r service l o h = ground (arith, same_key_refl (completed_key P c i))

    invoke-IsRemembered :
        (world : ℕ → Attempt) (r : ToolRegistration) (d : ToolPolicyDecision) (approved : Bool)
        (service : ToolService) (ledger : BudgetLedger N) (o : ToolExecutionOutcome)
        → o.status ≢ OutcomeStatus.approval_required
        → (invoke P world i c r d approved service ledger).result ≡ ok o
        → IsRemembered (invoke P world i c r d approved service ledger).service c i o
    unfolding invoke
    invoke-IsRemembered world r d approved service ledger o n h =
        ground (arith, after_loop-IsRemembered r service (attempts world r.max_retries 0 ledger) o)

    decide-IsRemembered :
        (world : ℕ → Attempt) (r : ToolRegistration) (d : ToolPolicyDecision) (approved : Bool)
        (service : ToolService) (ledger : BudgetLedger N) (o : ToolExecutionOutcome)
        → IsService service
        → o.status ≢ OutcomeStatus.approval_required
        → (decide P world i c r d approved service ledger).result ≡ ok o
        → IsRemembered (decide P world i c r d approved service ledger).service c i o
          × (is_deny d.action ≡ false)
    unfolding decide Dict.get Dict.put
    decide-IsRemembered world r d approved service ledger o v n h =
        elim (Option-cases (Dict.get service.successful_signatures (signature P c i))) [
          | inl p ↦ ground (
            arith,
            invoke-IsRemembered world r d approved service ledger o n,
            eq_iff o.summary.argument_digest (argument_digest P i),
          )
          | inr (s, p) ↦ ground (
            arith,
            v.digests c i s p,
            same_key_refl (completed_key P c i),
            eq_iff o.summary.argument_digest (argument_digest P i),
          )
        ]

    decide_remembered :
        (world : ℕ → Attempt) (r : ToolRegistration) (d : ToolPolicyDecision) (approved : Bool)
        (service : ToolService) (ledger : BudgetLedger N) (o : ToolExecutionOutcome)
        → is_deny d.action ≡ false
        → IsRemembered service c i o
        → decide P world i c r d approved service ledger
          ≡ record { result = ok o; service = service; ledger = ledger; calls = 0 }
    unfolding decide
    decide_remembered world r d approved service ledger o n m =
        ground (arith, m.found, m.same_arguments, eq_refl (argument_digest P i))

    -- After an execution that returned an outcome, and did not merely ask for an approval, the same
    -- call in the same context returns that outcome again, whatever the handler would do, whether or
    -- not it is approved and whatever the budget: the handler is not called and nothing is spent.
    pub execute-replay :
        (registry : Dict ToolRegistration) (world world' : ℕ → Attempt) (approved approved' : Bool)
        (service : ToolService) (ledger ledger' : BudgetLedger N) (o : ToolExecutionOutcome)
        → IsService service
        → o.status ≢ OutcomeStatus.approval_required
        → (execute P registry world i c approved service ledger).result ≡ ok o
        → let service' = (execute P registry world i c approved service ledger).service in
          execute P registry world' i c approved' service' ledger'
          ≡ record { result = ok o; service = service'; ledger = ledger'; calls = 0 }
    unfolding execute
    execute-replay registry world world' approved approved' service ledger ledger' o v n h =
        elim (Result-cases (authorize P registry i c)) [
          | inl ((r, d), p) ↦
              let e = decide P world i c r d approved service ledger in
              ground (
                arith,
                decide-IsRemembered world r d approved service ledger o v n,
                decide_remembered world' r d approved' e.service ledger' o,
              )
          | inr (e, p) ↦ absurd (ground arith)
        ]

  signature_digest :
      (c c' : ToolAuthorizationContext) (i i' : ToolInvocation)
      → Dict.same_key (signature P c i) (signature P c' i') ≡ true
      → argument_digest P i ≡ argument_digest P i'
  unfolding Dict.same_key
  signature_digest c c' i i' h = ground (arith, eq_iff (argument_digest P i) (argument_digest P i'))

  signed-IsService :
      (s : ToolService) (d : Dict ToolExecutionOutcome) (c : ToolAuthorizationContext)
      (i : ToolInvocation) (o : ToolExecutionOutcome)
      → IsService s
      → o.summary.argument_digest ≡ argument_digest P i
      → IsService (record {
        completed = d;
        successful_signatures = Dict.put s.successful_signatures (signature P c i) o;
      })
  unfolding Dict.get Dict.put
  signed-IsService s d c i o v e = record {
    digests = λ c' i' o' h. ground (arith, v.digests c' i' o', signature_digest c c' i i');
  }

  completed-IsService :
      (s : ToolService) (d : Dict ToolExecutionOutcome)
      → IsService s
      → IsService (record s { completed = d })
  completed-IsService s d v = record { digests = v.digests }

  module _ {N : Type 0} (i : ToolInvocation) (c : ToolAuthorizationContext) where
    finish-IsService :
        (service : ToolService) (ledger : BudgetLedger N) (calls : ℕ) (v : Result AgentRaised Value)
        → IsService service
        → IsService (finish P i c service ledger calls v).service
    finish-IsService service ledger calls (ok v) h =
        signed-IsService service _ c i (success_outcome P i v) h refl
    finish-IsService service ledger calls (err e) h = h

    after_loop-IsService :
        (r : ToolRegistration) (service : ToolService) (ledger : BudgetLedger N) (calls : ℕ)
        (raw : Result AgentRaised RawResult)
        → IsService service
        → IsService (after_loop P i c service r ledger calls raw).service
    after_loop-IsService r service ledger calls (err e) h = h
    after_loop-IsService r service ledger calls (ok (error_code x)) h =
        completed-IsService service _ h
    after_loop-IsService r service ledger calls (ok (output v)) h =
        finish-IsService service ledger calls (safe P r v) h

    module _ (world : ℕ → Attempt) (r : ToolRegistration) (d : ToolPolicyDecision) (approved : Bool)
        (service : ToolService) (ledger : BudgetLedger N) (v : IsService service) where
      invoke-IsService : IsService (invoke P world i c r d approved service ledger).service
      unfolding invoke
      invoke-IsService = elim (Bool-cases (is_require_approval d.action && not approved)) [
        | inl p ↦ rw p v
        | inr p ↦
            let l = attempts world r.max_retries 0 ledger in
            rw p (after_loop-IsService r service l.ledger l.calls l.raw v)
      ]

      from_signature-IsService :
          (o : Option ToolExecutionOutcome) (next : Executed N)
          → IsService next.service
          → IsService (from_signature P o i c service ledger next).service
      from_signature-IsService none next h = h
      from_signature-IsService (some s) next h = completed-IsService service _ v

      from_completed-IsService :
          (o : Option ToolExecutionOutcome) (next : Executed N)
          → IsService next.service
          → IsService (from_completed P o i service ledger next).service
      from_completed-IsService none next h = h
      from_completed-IsService (some s) next h =
          elim (Bool-cases (s.summary.argument_digest == argument_digest P i)) [
            | inl p ↦ rw p v
            | inr p ↦ rw p v
          ]

      decide-IsService : IsService (decide P world i c r d approved service ledger).service
      unfolding decide
      decide-IsService = elim (Bool-cases (is_deny d.action)) [
        | inl p ↦ rw p v
        | inr p ↦
            rw p (from_completed-IsService _ _ (from_signature-IsService _ _ invoke-IsService))
      ]

    -- Every execution, whatever its result, keeps the service's memory consistent: an outcome that is
    -- found by its arguments carries their digest.
    pub execute-IsService :
        (registry : Dict ToolRegistration) (world : ℕ → Attempt) (approved : Bool)
        (service : ToolService) (ledger : BudgetLedger N)
        → IsService service
        → IsService (execute P registry world i c approved service ledger).service
    unfolding execute
    execute-IsService registry world approved service ledger v =
        elim (Result-cases (authorize P registry i c)) [
          | inl ((r, d), p) ↦ rw p (decide-IsService world r d approved service ledger v)
          | inr (e, p) ↦ rw p v
        ]
