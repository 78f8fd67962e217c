-- ===== src/Lib.antt =====
-- Verification library of ragflow_agent, the core logic of src/ragflow_agent.
--
-- The program answers questions over a tenant's documents. Its knowledge side ingests documents
-- through a state machine of jobs and stage tasks, publishes immutable versions, and retrieves
-- candidates from two channels which it fuses, reranks, cleans and, when nothing is found, asks for
-- again in relaxed steps. Its agent side runs a bounded loop of model calls and tool calls: a budget
-- ledger limits it, a policy decides on every tool call, people approve the risky ones, and a policy
-- on evidence decides whether an answer may be given.
--
-- Agent (src/ragflow_agent/agent):
--   Agent/Budget: BudgetLedger of application/budgets.py, each method a function from a ledger to its
--     outcome and the ledger after it, also where it raises. Limits and Cost prove.
--   Agent/Tools: application/tool_policy.py with the contracts of domain/agentic.py. `execute` is
--     SecureToolExecutionService.execute; its loop over the attempts is a recursion on the retries
--     left, in Attempts, and the handler is an argument that says how its n-th call ends; PolicyEngine
--     has the policy and the registry. Policy, Execution and Replay prove.
--   Agent/Schema: _validate_json_schema and _redact of application/tool_policy.py and
--     application/sensitive.py, over the JSON values of Agent/Values. Redaction and Conformance prove.
--   Agent/Approval: ApprovalService of application/hitl.py. Requests has the rows and the
--     repository of infrastructure/database/repositories.py, Reviews the expiry and the decision,
--     the file itself the request and the resumption. Rows is about what reads return after a
--     write, Verdicts and Decisions about one process, Concurrency about many: there each process
--     writes, by compare-and-set, what it derives from a row that it read at any time before.
--   Agent/Evidence: EvidenceSufficiencyPolicy of application/evidence.py. Sufficiency proves.
--   Agent/Memory: LongTermMemoryService of application/memory.py with its two tables. Consent proves.
--   Agent/Resilience: run_operation of application/resilience.py, its loop a recursion on the attempts
--     left. Retrying proves.
--   Agent/Planning: the validators of QueryPlan of domain/agentic.py and the structured planner of
--     application/planning.py.
--   Agent/Graph: graphs/agentic_rag.py. State has AgenticState of domain/agentic.py; ToolEvidence is
--     _apply_tool_outcome and _structured_tool_evidence; Evaluation, Nodes and Await are the nodes of
--     AgenticRagNodes, with await_approval in two parts around its interrupt; Runs has the edges of
--     build_agentic_rag_graph and `run`, which visits nodes on fuel, one unit for each visit. What a
--     visit meets outside (the planner's reply, the direct answer, the handler, the clock) is its Turn.
--     Support, Ledgers and Termination prove.
--   Agent/Platform: what is taken from Python's library and the two regular expressions, a parameter.
--
-- Knowledge (src/ragflow_agent/knowledge):
--   Knowledge/Authorization: domain/authorization.py and application/permission_service.py.
--   Knowledge/Retry: classify_failure and may_retry of domain/retry.py. Limits proves.
--   Knowledge/Ingestion: domain/ingestion.py. Moves is about one transition, History about any
--     sequence of transitions and retries. An interface, IngestionRecord, stands for the type variable
--     of transition_ingestion and has an instance for jobs and one for tasks.
--   Knowledge/Document: domain/document.py. Versions is about the version diagram, Histories about
--     sequences of transitions, Activation about the publication of a version.
--   Knowledge/Lifecycle: the operations and steps of domain/lifecycle.py and worker/dead_letter.py.
--   Knowledge/Tables: the rows of infrastructure/database/repositories.py under their primary key.
--   Knowledge/Publishing: complete_ingestion of application/lifecycle/publish.py over the tables of
--     documents, versions and operations. What the calls of the index answer is an argument. Steps,
--     Transactions, Current and Completion prove, the last about the whole.
--   Knowledge/Rollback: rollback of the same file, which adds an operation and completes it. Starting
--     and Current prove.
--   Knowledge/Query: application/query/{fusion,clean,rerank,fallback}.py over the types of
--     domain/retrieval.py, each with a module that proves.
--   Knowledge/Chunking: GeneralChunker of infrastructure/chunking/general.py with the records of
--     domain/chunk.py. The loop of _split is `windows`, on fuel. Windows and Records prove.
--   Knowledge/Advanced/Routing: advanced/routing with the manifests of advanced/domain.py. Scope and
--     Order prove.
--
-- Base has what both share; Examples has the tests.
--
-- Floats that are only compared are whole numbers of units of 2 ^ -1074, so that every finite
-- non-negative double is one. Floats that are computed with are a parameter, FloatOps, of which the
-- proofs use that <= is a total order of finite values and that adding what is not negative does not
-- lose. Timestamps are timezone-aware and counted in microseconds. Clock readings and new identifiers
-- are arguments. Counters are not bounded, as Python's integers are not. Two recursions take fuel.
-- `windows` is given one unit for each token and one more, which is enough where the overlap is below
-- the limit, as the constructor of the chunker requires. `run` needs twice the iterations that the
-- budget allows and five more, outside of the loop that run-caught is about. All other recursions are
-- over lists, values or the retries left.
--
-- Not modelled: the runtime around the graph, the services of the lifecycle other than the
-- completion of an ingestion and the rollback, the parsers, the other chunking strategies, graph,
-- tree and temporal retrieval, workers, the API, and the adapters of queues, search backends and
-- models, and of databases but for the rows that these two read and write. No other process
-- writes between their reads and transactions. The cancellation of a running task is modelled
-- only where run_operation tests for it.
pub mod Base
pub mod Knowledge
pub mod Agent
pub mod Examples
