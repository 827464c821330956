-- ===== src/Lib.antt =====
-- A multi-machine coding stack: its conductor and its worker (apps/ and shared/).
--
-- The conductor takes a decision state and candidate plans, certifies the candidates, reduces them
-- to a frontier, lets a model arbitrate, and executes one candidate on a worker: it validates the
-- worktree, has it reviewed, repairs it at most once and records every stage. Routes around the
-- execution make it idempotent, cancellable and retriable, and count failures for escalation; a
-- finished execution is packaged into a draft and into the memories.
--
-- Files and code:
--   Prelude, Prelude/*          shared names, Boolean tests, lists
--   Base/*                      Python values: JSON, texts, keyed tables, exceptions as results
--   Shared/Schemas              shared/schemas/models.py
--   Shared/Parsing              shared/utils/parsing.py
--   Shared/Auth, Settings       shared/utils/auth.py, shared/config/settings.py
--   Shared/Clients, Clients/*   shared/clients/omlx_client.py, shared/clients/worker_client.py
--   Conductor/Db                apps/conductor/db/models.py, and the two statements on idempotency rows
--   Conductor/World, Outside    the state of a route and the parameters of the model
--   Conductor/Governance        services/governance.py (under apps/conductor, as the next ones)
--   Conductor/Reliability       services/reliability.py
--   Conductor/Escalation        services/escalation.py: `observe_execution_outcome`
--   Conductor/Execution/Save    services/execution.py: `_save_state`
--   Conductor/Execution/Repair  services/execution.py: `_review`, `_attempt_single_repair`
--   Conductor/Execution/Run     services/execution.py: `run_single_candidate`
--   Conductor/Execution/*       the stages of a run, its walks, and what it may write
--   Conductor/ControlPlane      services/control_plane.py
--   Conductor/Routes/Execute    main.py: `execute_job`, `cancel_job`, `resume_execute`, `retry_execute`
--   Conductor/Routes/Package    main.py: `package_execution`, `retry_package`
--   Conductor/Routes/Reads      main.py: `get_checkpoints`
--   Conductor/Jobs              main.py: `create_job`, `get_job`
--   Conductor/Memory            services/memory_writer.py
--   Conductor/Draft             services/pr_writer.py
--   Conductor/Overlay/*         services/overlay_state.py: tables, guidance, upserts and resolution
--   Conductor/Retrieval/*       services/retrieval.py, and main.py: `query_memory`, `ingest_memory`
--   Conductor/Decision          services/decision_state.py, and main.py: `build_decision_state`
--   Conductor/Candidates        services/candidate_generation.py, and main.py: `generate_candidates`
--   Conductor/Feasibility       services/feasibility.py
--   Conductor/Arbiter           services/arbiter.py
--   Conductor/Frontier          services/frontier.py: filter, near duplicates, Gram matrix
--   Conductor/Frontier/Medoids  services/frontier.py: `select_medoids`, `build_frontier`
--   Conductor/Invariants        services/invariants.py, and main.py: `invariant_report`
--   Conductor/Package           services/package_semantics.py
--   Worker/Handlers, Serve      apps/worker/main.py
--   Worker/Contained            which paths the worker touches
--   Subagent/Budget             glm-as-subagent/src/glm_mcp/resource_budget.py
--   Subagent/Mutations          glm-as-subagent/src/glm_mcp/mutation_outcome.py
--   Subagent/Recovered          the mutation records read back from a result
--   Subagent/Retry              glm-as-subagent/src/glm_mcp/provider_retry.py
--   Subagent/Attempts           how many requests a call of the provider sends
--   Subagent/Response           glm-as-subagent/src/glm_mcp/provider_response.py
--   Subagent/Accepted           what an accepted response of the provider is like
--   Subagent/Spent              what the mutations of one delegation write together
--   */Examples, Examples/*      runs on small inputs
--
-- A route is an action on a `World`: the database, the state of everything behind HTTP, and how
-- often the clock was read. An action ends with a value or an `Error`, and keeps what it did before
-- an exception, as committed statements do. A table with a unique job id is an association list, the
-- overlays and the full-text rows are lists with the oldest row first, and another table is a list
-- with the newest row first. Columns that hold JSON are known by their value, or as a text that does
-- not decode. Times are microseconds. A statement of the database succeeds, but for the three
-- transactions of the memory writer, of which each may raise (`commit_error`).
--
-- Parameters (`Outside`, `Readers`, `Floats`, `Finder`, `Provider`): the worker, the models, the
-- clock, `json.loads`, the validators and dumps of pydantic, SHA-256, `int`, the arithmetic of
-- doubles, the full-text query, the provider of the delegated agent, and what the transactions on
-- the memories raise. Loops run over lists by structural recursion, so there is no fuel.
--
-- Not modelled: database errors elsewhere; the file system and HTTP, which are parameters (`Os`,
-- `HttpClient`), so a link that changes between the check of a path and its use; the worker that
-- the conductor calls is a parameter of its own (`Worker`), not the one of Worker/Serve; the
-- package glm-as-subagent, a program of its own, but for its budget, mutation records, responses
-- and retries (`Subagent/*`), and its renamed copy gpt-as-subagent; the process of a request to
-- the provider and the deadline clock (`Provider`); concurrent requests, since each route here
-- runs to its end before the next one starts.
mod Prelude
pub mod Base
pub mod Shared
pub mod Conductor
pub mod Worker
pub mod Subagent
