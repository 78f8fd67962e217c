-- ===== src/Examples/Graphs.antt =====
-- Tests of the agentic graph.
use ragflow_agent.Base.{
  ℕ, ◌+◌, ◌*◌, ◌≤◌, ◌≡◌, refl, ◌⊎◌, inl, inr, true, false, none, some, [], ◌∷◌, ok, err, arith,
}
use ragflow_agent.Agent.Errors.{invalid}
use ragflow_agent.Agent.Evidence.{PlanStep, QueryPlan}
use ragflow_agent.Agent.Graph.State.{Route, World}
use ragflow_agent.Agent.Graph.ToolEvidence.{Readers}
use ragflow_agent.Agent.Graph.Evaluation.{Setting}
use ragflow_agent.Agent.Graph.Nodes.{Turn}
use ragflow_agent.Agent.Graph.Runs.{
  route, execute_step, Ended, finished, unfinished, suspended, raised, run,
}
use ragflow_agent.Agent.Graph.Support.{is_completed, IsAnswered, run-IsAnswered}
use ragflow_agent.Agent.Graph.Termination.{is_caught, run-caught, run-ends}
use ragflow_agent.Examples.Fixtures.{floats, platform, ledger, registry, arguments, service, world}

abbrev readers : Readers
readers = record { str = λ v. "cats like fish"; read_output = λ v. none }

abbrev setting : Setting
setting = record {
  platform = platform;
  readers = readers;
  registry = registry;
  minimum_score = 0;
  uses_model = true;
  json_length = λ plan. 40;
  approval_ttl = 60;
}

abbrev search_step : PlanStep
search_step = record {
  step_id = "q1";
  question = "cats?";
  critical = true;
  depends_on = [];
  preferred_tool = "search";
  tool_version = "1";
  tool_arguments = arguments;
}

abbrev side_step : PlanStep
side_step = record search_step { step_id = "q2"; critical = false; depends_on = "q1" ∷ [] }

abbrev turns : QueryPlan → ℕ → Turn ℕ
turns plan n = record {
  plan_reply = ok plan;
  answer_reply = λ l. (err invalid, l);
  world = world;
  now = 10;
  resumed_at = 11;
  new_id = "a1";
}

abbrev one_step : QueryPlan
one_step = record { is_simple = false; steps = search_step ∷ [] }

abbrev two_steps : QueryPlan
two_steps = record { is_simple = false; steps = search_step ∷ side_step ∷ [] }

abbrev start : ℕ → World ℕ
start iterations = record {
  state = record {
    run_id = "run";
    thread_id = "thread";
    request_id = "r1";
    authorization = record {
      tenant_id = "t1";
      user_id = "ann";
      request_id = "r1";
      roles = "user" ∷ [];
      knowledge_base_ids = "kb" ∷ [];
    };
    question = "cats?";
    route = Route.agent;
    plan = none;
    current_step = 0;
    iteration = 0;
    evidence = [];
    citations = [];
    retrieval_trace_ids = [];
    model_provider_ids = [];
    tool_calls = [];
    pending_tool_invocation = none;
    approval_id = none;
    hitl_status = none;
    memory_consent = false;
    budget_limits = record ledger.limits { max_agent_iterations = iterations };
    budget_usage = record ledger.usage { model_calls = 0 };
    final_status = none;
    final_answer = none;
    stop_reason = none;
  };
  service = service;
  approvals = [];
}

abbrev world_of : Ended ℕ → World ℕ
world_of (finished w) = w
world_of (suspended w) = w
world_of (unfinished n w) = w
world_of (raised e) = start 0

abbrev answered : Ended ℕ
answered = run floats setting 21 (turns one_step) 0 route (start 8)

abbrev looping : Ended ℕ
looping = run floats setting 7 (turns two_steps) 0 route (start 1)

answered_lem :
    (answered ≡ finished (world_of answered))
    × (is_completed (world_of answered).state.final_status ≡ true)
unfolding run ragflow_agent.Agent.Tools.execute ragflow_agent.Agent.Tools.authorize
    ragflow_agent.Base.Dict.get ragflow_agent.Base.Dict.same_key
    ragflow_agent.Agent.Schema.reject_secret_arguments ragflow_agent.Agent.Schema.validate
    ragflow_agent.Agent.Tools.decide ragflow_agent.Agent.Tools.evaluate
    ragflow_agent.Agent.Tools.invoke ragflow_agent.Agent.Tools.attempts
    ragflow_agent.Agent.Schema.redact ragflow_agent.Agent.Graph.ToolEvidence.apply_tool_outcome
    ragflow_agent.Base.float_one ragflow_agent.Agent.Evidence.evaluate
answered_lem = (refl, refl)

looping_lem :
    (looping ≡ unfinished execute_step (world_of looping))
    × (is_caught floats setting (world_of looping).state ≡ true)
unfolding run ragflow_agent.Agent.Tools.execute ragflow_agent.Agent.Tools.authorize
    ragflow_agent.Base.Dict.get ragflow_agent.Base.Dict.same_key
    ragflow_agent.Agent.Schema.reject_secret_arguments ragflow_agent.Agent.Schema.validate
    ragflow_agent.Agent.Tools.decide ragflow_agent.Agent.Tools.evaluate
    ragflow_agent.Agent.Tools.invoke ragflow_agent.Agent.Tools.attempts
    ragflow_agent.Agent.Schema.redact ragflow_agent.Agent.Graph.ToolEvidence.apply_tool_outcome
    ragflow_agent.Base.float_one ragflow_agent.Agent.Evidence.evaluate
looping_lem = (refl, refl)

run-IsAnswered_example : IsAnswered floats setting (world_of answered).state
run-IsAnswered_example =
    run-IsAnswered floats setting (turns one_step) 21 0 route (start 8) (world_of answered)
      (inl refl) refl answered_lem.0 answered_lem.1

run-ends_example :
    (execute_step ≡ execute_step)
    × (is_caught floats setting (world_of looping).state ≡ true)
    × (is_completed (world_of looping).state.final_status ≡ true)
run-ends_example =
    run-ends floats setting (turns two_steps) 7 0 route execute_step (start 1) (world_of looping)
      (inl refl) refl (omega arith) looping_lem.0

run-caught_example :
    (v : World ℕ) × (run floats setting 100 (turns two_steps) 7 execute_step (world_of looping)
      ≡ unfinished execute_step v)
    × (is_caught floats setting v.state ≡ true)
run-caught_example =
    run-caught floats setting (turns two_steps) 100 7 (world_of looping) looping_lem.1
