-- ===== src/Lib.antt =====
-- Echoryn is a server, the hivemind, that runs agents on language models, and workers, the golems,
-- that execute tasks. This library models the parts of the server that decide by rules of their
-- own:
--
--   * internal/hivemind/service/llm: an error of a model is classified (domain/entity/failover.go),
--     and the class says whether the next model of the configuration is tried
--     (domain/entity/model_fallback.go, domain/service/model_fallback.go). Rules say how a model
--     deviates from its API, and a manager evaluates them (domain/entity/model_compat.go,
--     domain/service/model_compat.go). The manager of models builds chat models and caches them
--     (domain/service/manager_impl.go).
--   * internal/hivemind/service/agents: a run sends the messages of a session to the model
--     (domain/entity/message.go, domain/service/runtime/message_converter.go). Before it does, the
--     size of the messages is estimated (token_estimator.go) and held against the window of the
--     model (context_window.go); the pruner (context_pruner.go) cuts the results of tools, and the
--     compactor (compaction.go) replaces old messages by a summary that the model writes, which the
--     session records (domain/entity/session.go). The run itself moves through its states
--     (domain/entity/run.go, domain/service/runtime/run_state.go).
--   * internal/hivemind/service/scheduler: tasks wait in a priority queue (queue.go) for a node
--     that a selector chooses by constraints and scores (selector.go). The scheduler (scheduler.go)
--     stores requests and tasks, takes the queue apart, dispatches, and handles what the workers
--     report. A monitor watches the tasks that run, and a collector keeps statistics (monitor.go).
--   * internal/hivemind/service/agents/domain/service/runtime/prompt: the system prompt is
--     assembled from sections that are registered (sections.go) or found in a workspace
--     (workspace.go), and rewritten by mutators (pipeline.go).
--   * internal/hivemind/service/plugin: plugins are registered by name (registry.go); the framework
--     (framework.go) decides which are loaded, which one takes a slot (slot.go), and starts and
--     stops their services.
--   * internal/hivemind/service/plugin/builtin/memory-core: a document is cut into chunks that
--     overlap (internal/chunk.go); the results of two searches are merged into one list
--     (internal/hybrid/hybrid.go).
--
-- Which file models what:
--
--   * Prelude and its children: Boolean tests, lists, texts, Go maps, integers, sorting, and a loop
--     from the end of a list.
--   * Llm/Failover with Patterns and Rules: reasons, errors and ClassifyError, and their laws.
--   * Llm/Fallback: FallbackConfig, RunWithFallback, RunChatWithFallback, GetChatModelWithFallback.
--     Candidates has the laws of FallbackConfig.Candidates; Fates says how a candidate fares; Loop
--     and Attempts have the laws of the loop. The repository of the providers and the call of the
--     model are arguments; an attempt that is made is a value in a list.
--   * Llm/Models and Llm/Compat: instances, providers, and CompatManager, with Matching for
--     what a matcher matches, Last for the rule that decides a field and Cache for the cache. Llm/Manager: modelManagerImpl, with Cache for
--     its laws; the repositories are an argument, with what the
--     store holds after a write through a pointer that it returned, and a plugin builds from the
--     number of the chat models built before, so that two builds may differ.
--   * Runtime/Message, Tokens, Window, Session, RunState: one file each of the agents component.
--   * Runtime/Pruner: ContextPruner, with Boundary, Stages and Result for its laws.
--   * Runtime/Agent and Runtime/Context: the agent, and ContextBuilder (context_builder.go), which
--     joins the prompt, the session and the pruner, with Turns for the limit of the history and
--     Layout for what is sent.
--   * Runtime/Compaction: Compactor, with Prompts for its texts and Chunks, Split, Summary and
--     Effect for its laws. The chat model is an argument that may fail.
--   * Scheduler/Types: requests and profiles of nodes. Scheduler/Builder: the builder of requests.
--     Scheduler/Heap: container/heap, with Order, Up, Down and Calls. Scheduler/Queue:
--     PriorityQueue, with Rank, Insert, Remove and Drain. Scheduler/Selector: constraintChecker and
--     the selectors, with Constraints, Direct, Best and Layers. Scheduler/Monitor with Checks: the
--     task monitor. Scheduler/Stats with Accounts: the statistics. Scheduler/Insertion: a sort for
--     runs of the model.
--   * Scheduler/Core: the state of the scheduler and its dispatch, with Calls for the methods, and
--     with Soundness, Attempts, Process, Schedule, Handlers, Endings and Run for the laws. The
--     executor and the listener answer as functions, and what they are told is a list in the state.
--   * Prompt/Types, Workspace, Pipeline with Assembly, Sections: one file for each of the prompt
--     package.
--   * Plugin/Types, Status, Slots, Registry with Consistency, Framework with Loading and Order: the
--     plugin packages. The factories and the services are arguments that may fail.
--   * Memory/Chunk: ChunkMarkdown, with Lines, Groups and Sizes for its laws. HashText is an
--     argument.
--   * Memory/Hybrid: BuildFTSQuery with Tokens, and MergeResults with Merge, for their laws. The
--     weighted sum of two scores and the sort are arguments.
--   * Prelude/Tests, Llm/Tests, Llm/Compat/Tests, Llm/Manager/Tests, Runtime/Tests,
--     Runtime/Context/Tests, Scheduler/Tests, Scheduler/Core/Tests, Prompt/Tests, Plugin/Tests,
--     Memory/Tests: runs of the models, and the theorems at concrete inputs.
--
-- How the code is represented: a struct is a record, an enumeration a data type, a slice a list, a
-- map an association list, a method of an object a function of the object that returns the new one.
-- A text is the list of its code points, and in Memory of its bytes. An error is a value; `none`
-- stands for a nil pointer, and in the queue for a run-time panic, which the theorems rule out.
-- Time and identifiers are arguments. Locks make a method atomic and have no other part in the
-- models; contexts and logging are left out.
--
-- Fuel and bounds: the decimal digits of n take fuel n + 1, the loops of the heap one more than the
-- index or the length, Drain and the scheduler's loop over the queue one more than its length, the
-- slices of a line its length; each is shown to be enough where the loop is used. The float ratios
-- of the token estimator and the pruner are fractions of naturals, exact for sizes below 2 ^ 50.
-- The counter of the queue is an int64 that wraps. Other integers of the source stay far below
-- their width, as they count messages, characters or tasks.
--
-- Not modelled: stores, HTTP, gRPC and the command lines, which are calls of libraries; the
-- goroutines of the runner; the float scores of AISelector, which are arguments, as the order among
-- their results is all that the selection uses; the tickers that call the scheduler's methods, and
-- interleavings within a method or listeners that call the scheduler back: a method runs as a
-- whole; reading and watching the files of a workspace, whose contents are arguments; the handle
-- that a plugin gets to the server; the stores of the memory; the start-up of the manager of
-- models.
pub mod Prelude
pub mod Llm
pub mod Runtime
pub mod Scheduler
pub mod Memory
pub mod Plugin
pub mod Prompt
