-- ===== src/CodeExecutor.antt =====
-- runner/src/nodes/code-executors
pub mod Spawn
pub mod Nodejs
pub mod Node
mod Tests
