-- ===== src/Workflow/Graph.antt =====
-- `buildDependencyGraph` of runner/src/services/workflow/workflow.executor.ts. `sources` says in one
-- line what the two loops leave at a node.
pub mod Laws
use supallm.Common.{
  String, Bool, true, Option, none, some, List, [], ◌∷◌, ◌++◌, Dict, get, set, keys, has, add, ◌==◌,
  if◌then◌else◌, ◌≡◌, refl, arith, eq_iff, get-set, has-append, IsUnique, ◌||◌, Bool-cases, inl,
  inr, ◌∙◌, eq_refl, has-add, All, get-eq-none_of_has, has-keys_of_none, All-of_has,
  has-keys_of_get, Option-cases, ◌↔◌, ◌⊎◌, false, IsUnique-add,
}
use supallm.Nodes.{NodeInputDef, NodeDefinition}
use supallm.Context.{source_node, non_empty}
use mathlib.Core.Option

-- The node that an input takes its value from: `inputDef.source` is truthy, and so is the part of it
-- before the first dot.
unfoldable pub input_source : NodeInputDef → Option String
unfolding source_node
input_source input = elim input.source [
  | none ↦ none
  | some s ↦ elim (s == "") [ true ↦ none | false ↦ source_node s ]
]

-- `dependencies[nodeId]` is looked up, and pushed to unless it includes the source.
unfoldable pub push : String → String → Dict (List String) → Dict (List String)
push node_id source dependencies = elim (get node_id dependencies) [
  | none ↦ dependencies
  | some deps ↦
      if has source deps then dependencies else set node_id (deps ++ source ∷ []) dependencies
]

-- One round of the inner loop.
unfoldable pub push_source : String → NodeInputDef → Dict (List String) → Dict (List String)
unfolding push
push_source node_id input dependencies = elim (input_source input) [
  | none ↦ dependencies
  | some s ↦ push node_id s dependencies
]

unfoldable pub push_sources : String → Dict NodeInputDef → Dict (List String) → Dict (List String)
unfolding push_source
push_sources node_id [] dependencies = dependencies
push_sources node_id ((_, input) ∷ inputs) dependencies =
    push_sources node_id inputs (push_source node_id input dependencies)

unfoldable pub visit_nodes : Dict NodeDefinition → Dict (List String) → Dict (List String)
unfolding push_sources
visit_nodes [] dependencies = dependencies
visit_nodes ((node_id, node) ∷ nodes) dependencies = visit_nodes nodes (elim node.inputs [
  | none ↦ dependencies
  | some inputs ↦ push_sources node_id inputs dependencies
])

-- the first loop
unfoldable pub no_dependencies : Dict NodeDefinition → Dict (List String) → Dict (List String)
no_dependencies [] dependencies = dependencies
no_dependencies ((node_id, node) ∷ nodes) dependencies =
    no_dependencies nodes (set node_id [] dependencies)

unfoldable pub build_dependency_graph : Dict NodeDefinition → Dict (List String)
unfolding visit_nodes no_dependencies
build_dependency_graph nodes = visit_nodes nodes (no_dependencies nodes [])

-- The distinct sources of some inputs, after those in `deps`.
unfoldable pub sources_from : List String → Dict NodeInputDef → List String
unfolding input_source
sources_from deps [] = deps
sources_from deps ((_, input) ∷ inputs) =
    sources_from (elim (input_source input) [ none ↦ deps | some s ↦ add s deps ]) inputs

unfoldable pub sources : NodeDefinition → List String
unfolding sources_from
sources node = elim node.inputs [ none ↦ [] | some inputs ↦ sources_from [] inputs ]
