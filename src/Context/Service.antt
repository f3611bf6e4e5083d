-- ===== src/Context/Service.antt =====
-- `ContextService` of runner/src/services/context/context.interface.ts: what the executor needs of the
-- place where contexts are kept, and what it may rely on.
use supallm.Common.{String, Option, some, Result, ok, ◌≡◌}
use supallm.Nodes.{Error}
use supallm.Context.{ExecutionContext, WorkflowDefinition, ExecutionOptions}

pub record ContextService : Type 1 where
  pub Store : Type 0
  pub initialize :
      Store → String → WorkflowDefinition → ExecutionOptions → Result ExecutionContext Error × Store
  pub update_context : Store → String → String → ExecutionContext → Result Store Error
  pub get_context : Store → String → String → Option ExecutionContext
  -- What a context looks like after it was written and read back.
  pub kept : ExecutionContext → ExecutionContext
  -- A context that was written is read back.
  pub get-update :
      (s t : Store) (workflow_id trigger_id : String) (c : ExecutionContext)
      → update_context s workflow_id trigger_id c ≡ ok t
      → get_context t workflow_id trigger_id ≡ some (kept c)
