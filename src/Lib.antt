-- ===== src/Lib.antt =====
-- Verification of the workflow runner of supallm.
--
-- The runner (runner/src) takes workflow messages from a Redis stream and executes each workflow: a
-- dictionary of nodes whose inputs name other nodes as sources. A node is started once all its sources
-- are completed; its output is stored in the execution context, which a context service keeps in Redis,
-- and each step is announced by an event, which the server writes to another stream. The web frontend
-- (frontend/src) edits the workflows, which it calls flows.
--
-- What each file models:
--   Common.antt, Common/*: shared helpers: tests, lists, sets as lists, dictionaries as association
--     lists, the splitting of texts.
--   Values.antt: JavaScript values, as `Record<string, any>` holds them.
--   Nodes.antt: runner/src/nodes/types.ts, and the configuration types that a node holds.
--   Context.antt: runner/src/services/context/context.interface.ts: the context, findReadyNodes and
--     resolveInputs. Context/Service.antt is the interface ContextService with the one law that the
--     executor's users rely on.
--   Context/Redis.antt, Context/Redis/Laws.antt: runner/src/services/context/redis-context-service.ts.
--   Workflow/Events.antt: runner/src/services/notifier/notifier.interface.ts and emitEvent.
--   Workflow/Graph.antt, Workflow/Graph/Laws.antt: buildDependencyGraph.
--   Workflow/Executor.antt: the steps of runner/src/services/workflow/workflow.executor.ts;
--     Workflow/Executor/Execution.antt composes them to rounds, executeWorkflow and execute. The other
--     files of Workflow/Executor/ hold proofs: Frame (what a step leaves alone), Success, Marking, Loop
--     (the rule for the loop), Rounds, Invariant, Termination, Outcomes, Cycles, Inputs, Envelope, and
--     Tests with runs on small workflows.
--   Queue.antt: runner/src/services/queue/redis-queue-consumer.ts: what becomes of one message, the loop
--     and its jobs as a step relation, and the clean-up of inactive consumers. Queue/Slots.antt and
--     Queue/Messages.antt hold the proofs, Queue/Tests.antt runs.
--   Memory.antt, Memory/*: runner/src/memory/local-memory.ts and memory-registry.ts.
--   Nodes/Manager.antt: runner/src/services/node/node-manager.ts and runner/src/nodes/base.
--   Llm.antt, Llm/*: runner/src/nodes/llm/llm-utils.ts and the seven providers of that directory, which
--     share their code; Llm/Providers.antt says where they differ. Llm/Errors.antt: mapProviderError and
--     isChatModel.
--   Secret.antt, Secret/*: runner/src/services/secret/crypto-service.ts.
--   CodeExecutor/Spawn.antt, CodeExecutor/Spawn/*: common/spawn-async.ts of runner/src/nodes/code-executors:
--     how the output of a process is decoded, chunk by chunk, and cut into lines. CodeExecutor/Nodejs.antt:
--     nodejs-executor.ts there, the stages of a script and its sandbox; CodeExecutor/Node.antt: code-executor-node.ts.
--   Tools.antt: what the tools of runner/src/tools share, with the events around a run. Tools/Web.antt:
--     http-tool.ts, discord-notifier-tool.ts, brave-search-tool.ts, sonar-chat-tool.ts. Tools/Clients.antt:
--     openai.ts, sdk-notifier-tool.ts, firecrawl-scraper-tool.ts. Tools/Postgres.antt:
--     postgres-query-tool.ts, with toSafePgQuery. Tools/Registry.antt: tool-registry.ts. The other
--     files of Tools/ hold proofs.
--   Agent.antt: runner/src/nodes/agent/agent.ts. Agent/Graph.antt: the graph that it builds, as a step
--     relation. Agent/Conversation.antt and Agent/Laws.antt hold proofs.
--   Server.antt: runner/src/server.ts and runner/src/services/notifier/redis-notifier.ts, from a message to the
--     stream of events; Server/Config.antt: runner/src/utils/config.ts. Server/Published.antt holds proofs.
--   Frontend.antt: the generic store of frontend/src/core/store/crud-store.ts, the stores of
--     frontend/src/core/store/flow.ts, and the usecases of flows. Frontend/Laws.antt holds proofs.
--   Frontend/Handles.antt: frontend/src/lib/handles.ts, the ids of a node's handles.
--   Scripts.antt: runner/src/utils/typescript-utils.ts and frontend/src/lib/typescript-utils.ts, what is read off
--     a script's syntax tree. Scripts/Folds.antt, Scripts/Returned.antt and Scripts/Laws.antt hold proofs.
--   Frontend/Editor.antt: the editor of flows, frontend/src/app/builder/chat-flow/[id]/page.tsx with the nodes of
--     frontend/src/components/builder/nodes (common/base-node.tsx and fixed/): handles, edges, connections.
--     Frontend/Editor/Saving.antt: when it saves, with frontend/src/hooks/use-debounce.ts. The other files of
--     Frontend/Editor/ hold proofs.
--   Frontend/Running.antt: frontend/src/components/builder/test-flow-dialog/running-flow.tsx and
--     running-flow-node.tsx, the view of a run, with the types of nodes of
--     frontend/src/components/builder/node-types.ts in Frontend/NodeTypes.antt. Frontend/Running/Events.antt holds
--     proofs.
--   Frontend/Results.antt: frontend/src/components/builder/test-flow-dialog/test-flow-dialog.tsx and
--     text-flow-bottom-panel.tsx, what is shown of a run's events. Frontend/Results/Joined.antt and
--     Frontend/Results/Orders.antt hold proofs.
--   Frontend/Names.antt: frontend/src/lib/docker-name.ts, the names of new flows.
--   Frontend/Hooks.antt: frontend/src/hooks/hookify.ts and hookify-function.ts. Frontend/Hooks/Settled.antt holds
--     proofs.
--   Frontend/AvailableNodes.antt, Frontend/Palette.antt: frontend/src/components/builder/add-node-dialog, what can
--     be added to a flow, and the tables of what is drawn. Frontend/Palette/Groups.antt holds proofs.
--   Frontend/MockAuthProviderService.antt: frontend/src/services/mock-auth-provider-service.ts.
--     Frontend/Accounts.antt: the stores and usecases of credentials, projects, authentication providers and
--     logins in frontend/src/core.
--   Frontend/CodeEditor.antt: the node of a script, frontend/src/components/builder/nodes/code/code-executor, with
--     proofs in Frontend/CodeEditor/Submitted.antt. Frontend/NewFlow.antt: frontend/src/core/usecases/create-flow.ts.
--
-- How code corresponds to the model. A function keeps its name in snake_case. A method that changes the
-- context, the store or the emitted events takes a `Run` and returns a new one. A rejected promise or an
-- exception is an `error` result. Node implementations are a parameter, `NodeRunner`: for a node, its
-- definition and its inputs, the events that it reports and how it ends. A context service is a
-- parameter too, and `redis_context_service` is one.
--
-- Bounds and fuel. `execute_workflow` runs its loop on one round more than the workflow has nodes; a
-- round that succeeds completes a node, so that the fuel is never used up.
--
-- What is simplified. The nodes that a round starts run one after another, in order: each is started
-- before any ends, as in the code, but their ends do not interleave, and all end before the outcome of
-- the round is looked at, also where one of them throws and `Promise.all` rejects early. A number in a
-- value is its text. Redis calls succeed, except that an entry may have expired and that a message may not
-- be acknowledged, which ends the runner, as a rejection that nobody handles does. Logging is left out.
--
-- What is not modelled: the start-up and the signals of the server, what the web frontend's
-- pages, dialogs and forms draw, its HTTP services, and the backend, which is written in Go.
pub mod Agent
pub mod CodeExecutor
pub mod Common
pub mod Context
pub mod Frontend
pub mod Llm
pub mod Memory
pub mod Nodes
pub mod Queue
pub mod Scripts
pub mod Secret
pub mod Server
pub mod Tools
pub mod Values
pub mod Workflow
