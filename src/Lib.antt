-- ===== src/Lib.antt =====
-- The runtime of an agent that answers a goal with a language model and tools: app/graph is a state
-- machine whose nodes plan, let the model decide, wait for approval, run tools, judge the outcome,
-- compress the history and finish; app/core holds the rules that they share; app/tools the registry of
-- tools; app/storage the tables of the database; app/api the endpoints and their guards, which hand tasks to the
-- queue of app/worker, which calls the engine; app/observability what the runtime records of its work.
--
-- Core/Budget models app/core/budget.py, Core/Errors app/core/errors.py and the error classes of
-- app/tools/registry.py, Core/Retry app/core/retry.py, Core/Llm the estimates and the records of
-- app/core/llm.py, Core/Compressor app/core/compressor.py.
--
-- Tools/Registry models app/tools/registry.py: `execute` finds a tool, validates the arguments, runs the
-- handler and turns what it raises into a coded error. Handlers and the validator of a schema are
-- parameters.
--
-- Graph models app/graph/state.py and app/graph/nodes.py. Graph/State has the state; a node is a function
-- from the state to the state after its update, in the type `Run` of Graph/Run: it may raise, an `Exception` or a `BaseException` that is none, it emits
-- events, and it changes a world `W` that the model, the clock, the cancel flag, the tools and the journal
-- share. Graph/Plan is `_plan_layers`, `_linearize_plan` and `_safe_layers`; Graph/PlanText is
-- `parse_json_loose` and `_parse_plan_steps`; Graph/Planner is `planner_node`; Graph/Context is
-- `_assemble_base`, `_prune_key_outputs` and their helpers; Graph/React is `react_step_node` and
-- `approval_gate_node`; Graph/Retrying is `_cancellable_sleep` and `_retry_transient`; Graph/Calls is
-- `_repair_args` and `_execute_call`; Graph/Executor is `tool_executor_node`, `_journal_call_key` and
-- `_await_claim_result`; Graph/Classify and Graph/Critic are `_classify_failure` and `critic_node`;
-- Graph/Finisher is `compressor_node` and `finisher_node`; Graph/Routes has the routes.
--
-- Graph/Engine models app/graph/engine.py: the edges of `_build`, a superstep as one node and the edge out
-- of it, and a run as supersteps on fuel; Graph/Engine/Sequence is `_seed_seq` and `emit`, Graph/Engine/Spans `flush_spans`.
-- Worker/Runs has `run_task`, `resume_task` and what the queue is told of them.
--
-- Storage models app/storage/models.py and app/storage/repository.py, each table a list of rows and each
-- operation one transaction: Storage/Journal the table `tool_executions`, Storage/Tasks `tasks`,
-- Storage/Events `events`, Storage/Spans `spans`, Storage/Windows `rate_windows`, Storage/Tenants `tenants`,
-- Storage/Lease the lease of the migrations;
-- Storage/Database has the tables together, and `delete_task`; Storage/Metrics is `metrics`.
--
-- Api/RateLimit, Api/DbRateLimit and Api/Gate model `SlidingWindowLimiter`, `DbWindowLimiter` and
-- `ConcurrencyGate` of app/api/ratelimit.py, Api/Middleware its middleware. Api/Quotas is `create_task` and `_enforce_daily_quotas` of
-- app/api/routes_tasks.py, and Api/Quotas/Desk the same as moves of requests that run side by side; Api/Tasks
-- has the endpoints that act on one task. Api/Registry is `TenantRegistry` with the changes of
-- app/api/routes_admin.py, Api/Security `require_tenant` and `require_admin` of app/api/security.py.
--
-- Worker/Queue models `LocalTaskQueue` of app/worker/local_queue.py, whose coroutines give way at their
-- awaits only: what happens between is a move, each part of `_execute` too, and Worker/Queue/Once runs lists of moves.
--
-- Observability/Spans models the buffer of app/observability/spans.py.
--
-- Loops: `kahn` of Graph/Plan runs on the number of steps, since each round places one; the waits of
-- Graph/Retrying on the number of half seconds in the delay, since each slice but the last is that long;
-- the retries and the repairs on the attempts that the settings allow, as in the source; the polls of
-- `await_claim_result` on 20, since each waits a twentieth of the deadline. Times are milliseconds.
--
-- `supersteps` of Graph/Engine runs on the number of supersteps that LangGraph allows.
--
-- Parameters: Python's standard functions (Prelude/Python), the texts of app/graph/prompts.py
-- (Graph/Prompts), the model, the clock and the flags (the record `Env`), the hash of a key and the
-- reading of addresses (the record `Net` of Api/Security). Not modelled: logs,
-- counters and histograms; how spans are opened and closed; checkpoints; Celery; the
-- migrations; the event stream and the export; what is left on disk when a process is killed in a node; a store of events that fails; numbers in JSON that are negative or fractions. The calls of
-- one round of tools, which the source runs together, run one after another.
pub mod Prelude
pub mod Core
pub mod Tools
pub mod Graph
pub mod Storage
pub mod Api
pub mod Observability
pub mod Worker
