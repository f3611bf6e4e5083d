-- ===== src/Workflow.antt =====
-- runner/src/services/workflow: the dependency graph of a workflow and its execution.
pub mod Events
pub mod Executor
pub mod Graph
