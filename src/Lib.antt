-- ===== src/Lib.antt =====
-- Verification of the agent runtime, services/agent-runtime/app: its engine (the folder engine, where
-- a file is named without a folder below) and the parts that the engine meets.
--
-- An agent wakes by its heartbeat, which puts trigger messages on a Redis stream; a run of the
-- decision loop then observes (memory search), thinks (a language model), acts (tools) and reflects
-- (memory), under a budget that the cost tracker keeps and a lifecycle that the state machine guards.
--
-- Parts. Each file opens with the code it is about.
--   Prelude, Json: lists, texts, dictionaries and integers over the native numbers, and JSON values.
--   Exec: calls that change a world and may raise. `Exec S A` is a function from a state to a result
--     and the state after it; a `try` is `otherwise` or a case on the result. Exec/Hoare has the rules
--     by which the proofs follow a block.
--   Engine/StateMachine (state_machine.py): `transition` and the edges; Lifecycle has the edges as a
--     relation, Cycles the ways between states.
--   Engine/CostTracker (cost_tracker.py): `check`, `record_usage`, their Redis keys and commands.
--   Engine/Memory (memory.py): `store`, `search`, `forget` and the entities.
--   Engine/Llm (llm/types.py, llm/base.py): the messages and the adapter that the loop calls; its
--     Anthropic and OpenAi (anthropic.py, openai.py, ollama.py) make adapters of the clients, Pricing
--     has the tables, and Alternation the turns of a conversation.
--   Engine/ContextManager (context_manager.py): `maybe_compact` and what it calls.
--   Engine/ToolRegistry (tool_registry.py): the registry and `RegistryToolExecutor.execute`.
--   Engine/AgentLoop (agent_loop.py): `AgentDecisionLoop.run`; its state is the run's context, the
--     state machine and the world of the services. Loop has the phases, Outcomes how a run ends, Refusals
--     what does not start or is stopped, Turns and Conversation what becomes of the messages.
--   Engine/Heartbeat (heartbeat.py): configurations, filters, stream messages (Messages), scheduler
--     jobs (Schedule), the trigger stream (Stream) and the routing of events (Matching, Filters, Routing).
--     Events has the stored filters, dicts of the filter's keys whose lists are lists of texts.
--   Engine/TriggerConsumer (trigger_consumer.py): a pass over the messages of the stream (Batches).
--   Engine/AgentManager (agent_manager.py): the operations that change a stored agent.
--   Engine/EngineService (engine_service.py): the facade of the API and of the trigger consumer,
--     with starts and stops (Agents) and triggers (Triggers); which agents start (Starting), events of a
--     company (Fanout), manual triggers (Delivery).
--   Engine/ToolDefinitions (tool_definitions.py): the handlers of the platform tools, the registry of
--     a company (Catalog), its names (Offers) and what its tools require (Required).
--   Adapters (services/agent-runtime/app/adapters: base.py, types.py) and Adapters/Registry
--     (registry.py): errors and capabilities of adapters, and the live adapters of all companies.
--   Core (services/agent-runtime/app/core: events.py): publishing on the event bus; Core/Security
--     (security.py, and the checks of the caller in dependencies.py): tokens and the key set that they
--     are verified with (Tokens, Offline).
--   Api (services/agent-runtime/app/api): the handlers of approvals (Approvals, Decisions), agents
--     (Agents, and on the engine of the same table Store, Transactions, Starts and Activation),
--     companies (Companies, Slugs), roles (Roles), tasks (Tasks), search (Search, Scope) and webhooks
--     (Webhooks, Signatures). A table is the list of its rows; Tables has what is found after a change.
--     The table of agents is under the transaction of a request: a statement that fails aborts it, and
--     an aborted one is rolled back by the commit of `get_db`, as in PostgreSQL.
--   Tests: runs on concrete services.
--
-- The parts meet as in the code: the loop is given a cost tracker, a memory, a tool registry and an
-- adapter; the agent manager is given a heartbeat service and uses the state machine; the engine
-- service is given a heartbeat service and an event bus, and is what the trigger consumer dispatches
-- to; the tools of a company call the adapters that the adapter registry holds; the handlers of agents
-- call the engine service, on the same table. Redis, the database, the scheduler, the vector store, the
-- model, Keycloak, uuid4, the clock, floats and Python's functions on texts are parameters; what is used
-- of their documentation is stated in records of laws
-- (Counters.IsLawful, Floats.IsExact, Schedule.KeepsJobs, Stream.KeepsStream, Messages.ReadsBack).
--
-- Bounds. The loop recurs on the rounds that are left, `max_steps` at first; each round adds one to
-- `step_count`, so the test of the `while` fails exactly when none is left, and no run is cut short.
-- Floats are abstract, with exactness up to 2 ^ 53 where a theorem needs it. The compaction limit is
-- computed on whole numbers, which agrees with the product of doubles for contexts below 2 ^ 50. The
-- monotonic clock of the key set counts nanoseconds.
--
-- Not modelled: timestamps and logs; the daily summary of the cost tracker; JSON numbers with a
-- fraction; the HTTP clients of the platforms and of the models, which are parameters; the
-- handlers of events and metrics; foreign keys; the validation of request bodies by their
-- schemas; middleware and metrics, migrations, and the web front end.
mod Prelude
pub mod Exec
pub mod Json
pub mod Core
pub mod Adapters
pub mod Engine
pub mod Api
mod Tests
